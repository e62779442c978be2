-- ===== src/Uploads/Bytes.antt =====
-- The part file of an upload as a list of bytes: what `seek` and `write` do to it, and what a part
-- reads back.
use asset_harbor.Base.{
  ℕ, zero, suc, ◌+◌, ◌≤◌, ◌<◌, ◌⊎◌, inl, inr, ◌≡◌, refl, ap, List, [], ◌∷◌, arith, length, take,
  drop,
}

-- `write` at the position, over the bytes that are there.
unfoldable pub overwrite : List ℕ → List ℕ → List ℕ
overwrite [] file = file
overwrite (b ∷ bytes) [] = b ∷ bytes
overwrite (b ∷ bytes) (c ∷ file) = b ∷ overwrite bytes file

-- `seek(offset)` before it; a gap past the end reads as zeros.
unfoldable pub seek_write : ℕ → List ℕ → List ℕ → List ℕ
unfolding overwrite
seek_write zero bytes file = overwrite bytes file
seek_write (suc n) bytes [] = 0 ∷ seek_write n bytes []
seek_write (suc n) bytes (c ∷ file) = c ∷ seek_write n bytes file

-- Writing no byte leaves the file as it is.
unfoldable pub write_at : ℕ → List ℕ → List ℕ → List ℕ
unfolding seek_write
write_at offset [] file = file
write_at offset (b ∷ bytes) file = seek_write offset (b ∷ bytes) file

-- `seek(offset)` and `read(size)`
abbrev pub region : ℕ → ℕ → List ℕ → List ℕ
region offset size file = take size (drop offset file)

pub take_all : (l : List ℕ) → take (length l) l ≡ l
take_all [] = refl
take_all (x ∷ l) = ap (λ r. x ∷ r) (take_all l)

take-overwrite : (bytes file : List ℕ) → take (length bytes) (overwrite bytes file) ≡ bytes
unfolding overwrite
take-overwrite [] file = refl
take-overwrite (b ∷ bytes) [] = ap (λ l. b ∷ l) (take_all bytes)
take-overwrite (b ∷ bytes) (c ∷ file) = ap (λ l. b ∷ l) (take-overwrite bytes file)

seek_write-region :
    (offset : ℕ) (bytes file : List ℕ)
    → region offset (length bytes) (seek_write offset bytes file) ≡ bytes
unfolding seek_write
seek_write-region zero bytes file = take-overwrite bytes file
seek_write-region (suc n) bytes [] = seek_write-region n bytes []
seek_write-region (suc n) bytes (c ∷ file) = seek_write-region n bytes file

take-nil : (k : ℕ) → take {A = ℕ} k [] ≡ []
take-nil zero = refl
take-nil (suc k) = refl

drop-nil : (k : ℕ) → drop {A = ℕ} k [] ≡ []
drop-nil zero = refl
drop-nil (suc k) = refl

-- What lies before the write is kept, where it is inside the file.
take-seek_write :
    (k offset : ℕ) (bytes file : List ℕ)
    → k ≤ offset
    → k ≤ length file
    → take k (seek_write offset bytes file) ≡ take k file
unfolding seek_write
take-seek_write zero offset bytes file h i = refl
take-seek_write (suc k) zero bytes file h i = absurd (omega arith)
take-seek_write (suc k) (suc n) bytes [] h i = absurd (omega arith)
take-seek_write (suc k) (suc n) bytes (c ∷ file) h i =
    ap (λ l. c ∷ l) (take-seek_write k n bytes file (omega arith) (omega arith))

seek_write_after :
    (m k offset : ℕ) (bytes file : List ℕ)
    → m + k ≤ offset
    → m + k ≤ length file
    → region m k (seek_write offset bytes file) ≡ region m k file
unfolding seek_write
seek_write_after zero k offset bytes file h i =
    take-seek_write k offset bytes file (omega arith) (omega arith)
seek_write_after (suc m) k zero bytes file h i = absurd (omega arith)
seek_write_after (suc m) k (suc n) bytes [] h i = absurd (omega arith)
seek_write_after (suc m) k (suc n) bytes (c ∷ file) h i =
    seek_write_after m k n bytes file (omega arith) (omega arith)

drop-overwrite :
    (m : ℕ) (bytes file : List ℕ)
    → length bytes ≤ m
    → m ≤ length file
    → drop m (overwrite bytes file) ≡ drop m file
unfolding overwrite
drop-overwrite m [] file h i = refl
drop-overwrite zero (b ∷ bytes) file h i = absurd (omega arith)
drop-overwrite (suc m) (b ∷ bytes) [] h i = absurd (omega arith)
drop-overwrite (suc m) (b ∷ bytes) (c ∷ file) h i =
    drop-overwrite m bytes file (omega arith) (omega arith)

-- What lies behind the write is kept.
seek_write_before :
    (m offset : ℕ) (bytes file : List ℕ)
    → offset + length bytes ≤ m
    → m ≤ length file
    → drop m (seek_write offset bytes file) ≡ drop m file
unfolding seek_write
seek_write_before m zero bytes file h i = drop-overwrite m bytes file (omega arith) i
seek_write_before zero (suc n) bytes file h i = absurd (omega arith)
seek_write_before (suc m) (suc n) bytes [] h i = absurd (omega arith)
seek_write_before (suc m) (suc n) bytes (c ∷ file) h i =
    seek_write_before m n bytes file (omega arith) (omega arith)

length-overwrite :
    (bytes file : List ℕ)
    → (length bytes ≤ length (overwrite bytes file)) × (length file ≤ length (overwrite bytes file))
unfolding overwrite
length-overwrite [] file = (omega arith, omega arith)
length-overwrite (b ∷ bytes) [] = (omega arith, omega arith)
length-overwrite (b ∷ bytes) (c ∷ file) =
    let (l, r) = length-overwrite bytes file in (omega arith, omega arith)

length-seek_write :
    (offset : ℕ) (bytes file : List ℕ)
    → (offset + length bytes ≤ length (seek_write offset bytes file))
      × (length file ≤ length (seek_write offset bytes file))
unfolding seek_write
length-seek_write zero bytes file =
    let (l, r) = length-overwrite bytes file in (omega arith, omega arith)
length-seek_write (suc n) bytes [] =
    let (l, r) = length-seek_write n bytes [] in (omega arith, omega arith)
length-seek_write (suc n) bytes (c ∷ file) =
    let (l, r) = length-seek_write n bytes file in (omega arith, omega arith)

-- What is written is read back; every region of the file that the write does not touch reads as
-- before; and the file reaches at least as far as both.
pub record IsWritten (offset : ℕ) (bytes file after : List ℕ) : Type 0 where
  pub read_back : region offset (length bytes) after ≡ bytes
  pub others :
      (m k : ℕ)
      → m + k ≤ length file
      → (m + k ≤ offset) ⊎ (offset + length bytes ≤ m)
      → region m k after ≡ region m k file
  pub reaches : offset + length bytes ≤ length after
  pub grows : length file ≤ length after

pub write_at-IsWritten :
    (offset : ℕ) (bytes file : List ℕ)
    → 0 < length bytes
    → IsWritten offset bytes file (write_at offset bytes file)
unfolding write_at
write_at-IsWritten offset [] file h = absurd (omega arith)
write_at-IsWritten offset (b ∷ bytes) file h = record {
  read_back = seek_write-region offset (b ∷ bytes) file;
  others = λ m k i. elim [
    | inl before ↦ seek_write_after m k offset (b ∷ bytes) file before i
    | inr behind ↦ ap (take k) (seek_write_before m offset (b ∷ bytes) file behind (omega arith))
  ];
  reaches = (length-seek_write offset (b ∷ bytes) file).0;
  grows = (length-seek_write offset (b ∷ bytes) file).1;
}
