-- ===== src/Uploads/Parts/Intact.antt =====
-- The parts that the database records and the part file, as another part is committed.
use asset_harbor.Base.{
  ℕ, ◌+◌, ◌≤◌, ◌<◌, String, ◌≡◌, refl, sym, subst, ap, ◌∙◌, ◌≢◌, inl, inr, false, not, ◌&&◌, Option,
  none, some, [], ◌∷◌, arith, ok, http, >>=-eq-ok, ok-injective, or_raise-eq-ok, raise_if, or_raise,
  ◌==◌, if◌then◌else◌, str_eq, eq_iff, eq_refl, length, All, All-append, All-map, All-both,
  All-find, All-of_find-none, Bool-cases, Option-cases,
}
use asset_harbor.Base.Text.{Text, text_eq, text_eq_iff}
use asset_harbor.Model.{Db, UploadSession, UploadPart, Principal, pos}
use asset_harbor.Access.{fresh_library_user, has_global_admin_scope, check_team_access}
use asset_harbor.Sniff.{Bytes}
use asset_harbor.Chunks.{expected_part}
use asset_harbor.Chunks.Tiling.{expected_part-apart}
use asset_harbor.Uploads.Bytes.{take_all, write_at, region, write_at-IsWritten}
use asset_harbor.Uploads.Create.{World}
use asset_harbor.Uploads.Parts.{
  Store, assign_file, Staged, fresh_upload_session, get_part, touch, placed, new_part, repeat_part,
  check_first_part, with_part, publish_part, commit_upload_part, is_active,
}

-- The part file holds the bytes that are placed.
placed-region :
    (file : Option Bytes) (offset : ℕ) (bytes : Bytes)
    → 0 < length bytes
    → (region offset (length bytes) (placed file offset bytes) ≡ bytes)
      × (offset + length bytes ≤ length (placed file offset bytes))
unfolding placed
placed-region (some file) offset bytes nonempty =
    let facts = write_at-IsWritten offset bytes file nonempty in (facts.read_back, facts.reaches)
placed-region none offset bytes nonempty = elim (Bool-cases (offset == 0)) [
  | inl start ↦ let z : offset ≡ 0 = ground arith in rw z (take_all bytes, omega arith)
  | inr gap ↦
      let facts = write_at-IsWritten offset bytes [] nonempty in
      rw gap (facts.read_back, facts.reaches)
]

module _ (sha256 : Bytes → Text) where
  -- The row has the offset and size of its number, and the bytes there have its digest.
  abbrev pub IsStored : UploadSession → Option Bytes → UploadPart → Type 0
  IsStored u none p = ⊥
  IsStored u (some file) p =
      (expected_part u (pos p.part_number) ≡ ok (p.offset, p.size))
      × (p.offset + p.size ≤ length file)
      × (sha256 (region p.offset p.size file) ≡ p.sha256)

  abbrev pub IsIntact : UploadSession → Store → Type 0
  IsIntact u s =
      All (λ (p : UploadPart). p.upload_id ≡ u.upload_id → IsStored u (s.part_files u.upload_id) p)
        s.db.upload_parts

  -- A written part is stored, and the parts that were stored still are.
  placed-IsStored :
      (u : UploadSession) (file : Option Bytes) (st : Staged) (bytes : Bytes) (p : UploadPart)
      → 0 < length bytes
      → length bytes ≡ st.received
      → expected_part u (pos st.part_number) ≡ ok (st.offset, st.received)
      → st.part_number ≢ p.part_number
      → IsStored u file p
      → IsStored u (some (placed file st.offset bytes)) p
  unfolding placed
  placed-IsStored u none st bytes p nonempty len expected differ stored = absurd stored
  placed-IsStored u (some file) st bytes p nonempty len expected differ (there, inside, digest) =
      let facts = write_at-IsWritten st.offset bytes file nonempty in
      let apart =
        expected_part-apart u st.part_number p.part_number st.offset st.received p.offset p.size
          differ expected there in
      let same : region p.offset p.size (write_at st.offset bytes file)
          ≡ region p.offset p.size file =
        facts.others p.offset p.size inside
          (elim apart [ inl a ↦ inr (omega arith) | inr b ↦ inl b ]) in
      let grows = facts.grows in (there, omega arith, ap sha256 same ∙ digest)

  placed-new :
      (w : World) (u : UploadSession) (file : Option Bytes) (st : Staged) (bytes : Bytes)
      → 0 < length bytes
      → length bytes ≡ st.received
      → sha256 bytes ≡ st.actual_sha
      → expected_part u (pos st.part_number) ≡ ok (st.offset, st.received)
      → IsStored u (some (placed file st.offset bytes)) (new_part w u.upload_id st)
  placed-new w u file st bytes nonempty len digest expected =
      let (read_back, reaches) = placed-region file st.offset bytes nonempty in
      (
        expected,
        omega arith,
        ap (λ n. sha256 (region st.offset n (placed file st.offset bytes))) (sym len)
            ∙ ap sha256 read_back
            ∙ digest,
      )

  -- A part whose digest and size were computed from its bytes, at the offset and size of its number.
  pub record IsReceived (u : UploadSession) (st : Staged) : Type 0 where
    pub expected : expected_part u (pos st.part_number) ≡ ok (st.offset, st.received)
    pub measured :
        (bytes : Bytes)
        → st.bytes ≡ some bytes
        → (0 < length bytes) × (length bytes ≡ st.received) × (sha256 bytes ≡ st.actual_sha)

  -- No row of the upload has the number of a part that is not found.
  get_part-others :
      (db : Db) (upload_id : String) (n : ℕ)
      → get_part db upload_id n ≡ none
      → All (λ (p : UploadPart). p.upload_id ≡ upload_id → n ≢ p.part_number) db.upload_parts
  unfolding get_part
  get_part-others db upload_id n e =
      All-map (λ (p : UploadPart). (str_eq p.upload_id upload_id && p.part_number == n) ≡ false)
        (λ p. p.upload_id ≡ upload_id → n ≢ p.part_number)
        (λ p miss mine same. ground (arith, eq_iff p.upload_id upload_id)) db.upload_parts
        (All-of_find-none _ db.upload_parts e)

  assign_file-same :
      (files : String → Option Bytes) (k : String) (f : Option Bytes) → assign_file files k f k ≡ f
  assign_file-same files k f = rw (eq_refl k)

  -- What a commit promises: the recorded parts are in the file, and so is the part that it returns,
  -- which has the digest and the size of the bytes that were received.
  pub record IsCommitted (u : UploadSession) (st : Staged) (s' : Store) (p : UploadPart)
      : Type 0 where
    pub intact : IsIntact u s'
    pub stored : p.upload_id ≡ u.upload_id → IsStored u (s'.part_files u.upload_id) p
    pub digest : p.sha256 ≡ st.actual_sha
    pub size : p.size ≡ st.received

  with_part-IsCommitted :
      (w : World) (u : UploadSession) (st : Staged) (bytes : Bytes) (s : Store)
      → IsReceived u st
      → st.bytes ≡ some bytes
      → IsIntact u s
      → get_part s.db u.upload_id st.part_number ≡ none
      → IsCommitted u st (with_part w u.upload_id st bytes s) (new_part w u.upload_id st)
  unfolding with_part touch
  with_part-IsCommitted w u st bytes s received staged intact unused =
      let (nonempty, len, digest) = received.measured bytes staged in
      let file = s.part_files u.upload_id in
      let here = assign_file-same s.part_files u.upload_id (some (placed file st.offset bytes)) in
      let IsKept = λ (p : UploadPart).
        p.upload_id ≡ u.upload_id → IsStored u (some (placed file st.offset bytes)) p in
      let new : IsKept (new_part w u.upload_id st) =
        λ _. placed-new w u file st bytes nonempty len digest received.expected in
      let old : All IsKept s.db.upload_parts =
        All-map
          (λ (p : UploadPart).
            (p.upload_id ≡ u.upload_id → IsStored u file p)
            × (p.upload_id ≡ u.upload_id → st.part_number ≢ p.part_number))
          IsKept
          (λ p both mine.
            placed-IsStored u file st bytes p nonempty len received.expected (both.1 mine)
              (both.0 mine))
          s.db.upload_parts
          (All-both (λ (p : UploadPart). p.upload_id ≡ u.upload_id → IsStored u file p)
            (λ p. p.upload_id ≡ u.upload_id → st.part_number ≢ p.part_number) s.db.upload_parts
            intact (get_part-others s.db u.upload_id st.part_number unused)) in
      record {
        intact =
            rw here
              (All-append IsKept s.db.upload_parts (new_part w u.upload_id st ∷ []) old (new, tt));
        stored = rw here new;
        digest = refl;
        size = refl;
      }

  publish_part-IsCommitted :
      (w : World) (u current : UploadSession) (st : Staged) (s s' : Store) (p : UploadPart)
      → IsReceived u st
      → IsIntact u s
      → get_part s.db u.upload_id st.part_number ≡ none
      → publish_part w u.upload_id st current s ≡ ok (p, s')
      → IsCommitted u st s' p
  unfolding publish_part
  publish_part-IsCommitted w u current st s s' p received intact unused e =
      let (_, active, e1) = >>=-eq-ok (raise_if (not (is_active current.status)) (http 409)) _ e in
      let (bytes, staged, e2) = >>=-eq-ok (or_raise st.bytes (http 409)) _ e1 in
      let (_, sniffed, e3) = >>=-eq-ok (check_first_part st bytes) _ e2 in
      subst (λ x. IsCommitted u st x.1 x.0) (ok-injective e3)
        (with_part-IsCommitted w u st bytes s received (or_raise-eq-ok st.bytes (http 409) staged)
          intact unused)

  -- Accepting the same data again changes no part and no file.
  repeat_part-IsCommitted :
      (w : World) (u current : UploadSession) (st : Staged) (s s' : Store) (existing p : UploadPart)
      → IsIntact u s
      → get_part s.db u.upload_id st.part_number ≡ some existing
      → repeat_part w u.upload_id st current existing s ≡ ok (p, s')
      → IsCommitted u st s' p
  unfolding repeat_part touch get_part
  repeat_part-IsCommitted w u current st s s' existing p intact found e =
      elim (Bool-cases (text_eq existing.sha256 st.actual_sha && existing.size == st.received)) [
        | inr other ↦ absurd (let f = rw (other, repeat_part) at e in cc)
        | inl same ↦
            let f = ok-injective (rw (same, repeat_part) at e) in
            let kept : IsIntact u (
                if is_active current.status
                then record s { db = touch w u.upload_id s.db }
                else s) =
              elim (Bool-cases (is_active current.status)) [
                | inl a ↦ rw a intact
                | inr b ↦ rw b intact
              ] in
            let file : (if is_active current.status
                  then record s { db = touch w u.upload_id s.db }
                  else s).part_files
                ≡ s.part_files =
              elim (Bool-cases (is_active current.status)) [ inl a ↦ rw a | inr b ↦ rw b ] in
            subst (λ x. IsCommitted u st x.1 x.0) f
              (record {
                intact = kept;
                stored = rw file (
                    All-find
                      (λ (q : UploadPart).
                        q.upload_id ≡ u.upload_id → IsStored u (s.part_files u.upload_id) q)
                      _ s.db.upload_parts existing intact found);
                digest = (text_eq_iff existing.sha256 st.actual_sha).0 (ground arith);
                size = ground arith;
              })
      ]

  -- Whatever part a request commits, if every recorded part of the upload was in the file with the
  -- digest of its row before, it is so afterwards, and the part that is returned has the digest and
  -- the size of what was received.
  pub commit_upload_part-IsCommitted :
      (w : World) (u : UploadSession) (actor : Principal) (st : Staged) (s s' : Store)
      (p : UploadPart)
      → IsReceived u st
      → IsIntact u s
      → commit_upload_part w u.upload_id actor st s ≡ ok (p, s')
      → IsCommitted u st s' p
  unfolding commit_upload_part
  commit_upload_part-IsCommitted w u actor st s s' p received intact e =
      let (q, fresh, e1) = >>=-eq-ok (fresh_library_user s.db actor) _ e in
      let (current, found, e2) =
        >>=-eq-ok (or_raise (fresh_upload_session s.db u.upload_id) (http 404)) _ e1 in
      let (_, allowed, e3) =
        >>=-eq-ok
          (raise_if (not (current.owner_id == q.user.id) && not (has_global_admin_scope q))
            (http 404))
          _ e2 in
      let (_, in_team, e4) = >>=-eq-ok (check_team_access s.db current.team_id q) _ e3 in
      elim (Option-cases (get_part s.db u.upload_id st.part_number)) [
        | inl new ↦
            publish_part-IsCommitted w u current st s s' p received intact new (rw new at e4)
        | inr (existing, old) ↦
            repeat_part-IsCommitted w u current st s s' existing p intact old (rw old at e4)
      ]
