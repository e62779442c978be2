-- ===== src/Disk/Reserve.antt =====
-- Requests that reserve disk space, write and release, in any order.
use asset_harbor.Base.{
  ℕ, ◌+◌, ◌-◌, ◌≤◌, ◌≡◌, ap, ◌↔◌, List, [], ◌∷◌, ◌++◌, arith, ok, sum_by, sum_by-append,
}
use asset_harbor.Disk.{ensure_free_space, reserve_write_space, release_write_space}

-- A request that holds a reservation: the bytes it has reserved and those it has written since.
pub record Writer : Type 0 where
  pub bytes : ℕ
  pub written : ℕ

-- The module's counter, the requests that hold a reservation, and the free bytes of the disk.
pub record Storage : Type 0 where
  pub reserved : ℕ
  pub writers : List Writer
  pub free : ℕ

-- A request reserves; one that holds a reservation writes some more, at most what it has reserved in
-- all, or releases, be its write complete, failed or cut short; and anything else may free space.
-- Each is a step of its own, between which other requests run.
pub data Step (min_free : ℕ) : Storage → Storage → Type 0 where
  reserve :
      (s : Storage) (required reserved' : ℕ)
      → reserve_write_space min_free s.free s.reserved required ≡ ok reserved'
      → Step min_free s (record s {
        reserved = reserved';
        writers = record { bytes = required; written = 0 } ∷ s.writers;
      })
  write :
      (s : Storage) (before after : List Writer) (x : Writer) (more : ℕ)
      → s.writers ≡ before ++ (x ∷ after)
      → x.written + more ≤ x.bytes
      → Step min_free s (record s {
        writers = before ++ (record x { written = x.written + more } ∷ after);
        free = s.free - more;
      })
  finish :
      (s : Storage) (before after : List Writer) (x : Writer)
      → s.writers ≡ before ++ (x ∷ after)
      → Step min_free s (record s {
        reserved = release_write_space s.reserved x.bytes;
        writers = before ++ after;
      })
  freed : (s : Storage) (more : ℕ) → Step min_free s (record s { free = s.free + more })

pub data Reach (min_free : ℕ) (s : Storage) : Storage → Type 0 where
  here : Reach min_free s s
  next : {t u : Storage} → Reach min_free s t → Step min_free t u → Reach min_free s u

abbrev pub promised : List Writer → ℕ
promised = sum_by (λ (x : Writer). x.bytes)

-- What the requests may still write.
abbrev pub outstanding : List Writer → ℕ
outstanding = sum_by (λ (x : Writer). x.bytes - x.written)

-- The counter is the sum of the reservations, and what may still be written leaves the minimum.
pub record IsSafe (min_free : ℕ) (s : Storage) : Type 0 where
  pub counted : s.reserved ≡ promised s.writers
  pub covered : min_free + outstanding s.writers ≤ s.free

outstanding_le : (l : List Writer) → outstanding l ≤ promised l
outstanding_le [] = omega arith
outstanding_le (x ∷ l) = omega (arith, outstanding_le l)

Step-IsSafe :
    {min_free : ℕ} {s t : Storage} → Step min_free s t → IsSafe min_free s → IsSafe min_free t
unfolding reserve_write_space release_write_space
Step-IsSafe (reserve s required reserved' e) h =
    let le = outstanding_le s.writers in record { counted = ground arith; covered = ground arith }
Step-IsSafe (write s before after x more e le) h =
    let y : Writer = record x { written = x.written + more } in
    let left = λ (z : Writer). z.bytes - z.written in
    let sum = λ (z : Writer). z.bytes in
    let all = sum_by-append left before (x ∷ after) in
    let rest = sum_by-append left before (y ∷ after) in
    let all' = sum_by-append sum before (x ∷ after) in
    let rest' = sum_by-append sum before (y ∷ after) in
    let split : outstanding s.writers ≡ outstanding (before ++ (x ∷ after)) = ap outstanding e in
    let split' : promised s.writers ≡ promised (before ++ (x ∷ after)) = ap promised e in
    record { counted = omega arith; covered = omega arith }
Step-IsSafe (finish s before after x e) h =
    let left = λ (z : Writer). z.bytes - z.written in
    let sum = λ (z : Writer). z.bytes in
    let all = sum_by-append left before (x ∷ after) in
    let rest = sum_by-append left before after in
    let all' = sum_by-append sum before (x ∷ after) in
    let rest' = sum_by-append sum before after in
    let split : outstanding s.writers ≡ outstanding (before ++ (x ∷ after)) = ap outstanding e in
    let split' : promised s.writers ≡ promised (before ++ (x ∷ after)) = ap promised e in
    record { counted = omega arith; covered = omega arith }
Step-IsSafe (freed s more) h = record { counted = h.counted; covered = omega (arith, h.covered) }

-- From a state where the counter is the sum of the reservations and the bytes that may still be
-- written leave the minimum free, whatever requests reserve, write and release in whatever order,
-- each writing at most what it has reserved, it stays so, and the minimum stays free.
pub Reach-IsSafe :
    {min_free : ℕ} {s t : Storage}
    → IsSafe min_free s
    → Reach min_free s t
    → IsSafe min_free t × (min_free ≤ t.free)
Reach-IsSafe h here = (h, omega (arith, h.covered))
Reach-IsSafe h (next r st) =
    let k = Step-IsSafe st (Reach-IsSafe h r).0 in (k, omega (arith, k.covered))

-- An admission check passes exactly where a reservation of as many bytes would.
pub ensure_free_space-reserve :
    (min_free free reserved required : ℕ)
    → (ensure_free_space min_free free reserved required ≡ ok tt)
      ↔ (reserve_write_space min_free free reserved required ≡ ok (reserved + required))
unfolding ensure_free_space reserve_write_space
ensure_free_space-reserve min_free free reserved required = ground arith
