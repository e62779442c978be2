-- ===== src/Uploads/Sweep/Apart.antt =====
-- What recovering or removing one upload leaves of another.
use asset_harbor.Base.{
  ℕ, String, Bool, false, not, ◌&&◌, ◌≡◌, refl, ap, ◌∙◌, inl, inr, some, List, [], ◌∷◌, arith, ◌==◌,
  if◌then◌else◌, find, update, find-where_same, str_eq, eq_iff, Bool-cases, Option-cases,
  Result-cases,
}
use asset_harbor.Base.Text.{Text}
use asset_harbor.Model.{Db, UploadSession, UploadPart}
use asset_harbor.Uploads.Create.{World}
use asset_harbor.Uploads.Parts.{fresh_upload_session, get_part}
use asset_harbor.Uploads.Recovery.{FinalInfo, validated_finalizing_info}
use asset_harbor.Uploads.Cancel.{Library, is_finalizing, delete_upload_session}
use asset_harbor.Uploads.Finalize.{
  set_session, with_session, has_file, create_final_image, is_verifying, get_image_by_code,
}
use asset_harbor.Uploads.Recover.{
  recover_finalizing_session, recover_verifying_session, recover_valid, settle, withdraw,
  create_and_complete, publish_file, withdraw_file, is_published, recovery_access,
}
use asset_harbor.Uploads.Recover.Settled.{fresh-id, create_final_image-sessions}
use asset_harbor.Uploads.Sweep.{recovered_first}

-- What a change to another upload leaves of this one.
pub record IsApart (k : String) (s s' : Library) : Type 0 where
  pub session : fresh_upload_session s'.db k ≡ fresh_upload_session s.db k
  pub file : s'.part_files k ≡ s.part_files k
  pub parts : (n : ℕ) → get_part s'.db k n ≡ get_part s.db k n

pub IsApart-refl : (k : String) (s : Library) → IsApart k s s
IsApart-refl k s = record { session = refl; file = refl; parts = λ n. refl }

pub IsApart-trans : (k : String) (a b c : Library) → IsApart k a b → IsApart k b c → IsApart k a c
IsApart-trans k a b c x y = record {
  session = y.session ∙ x.session;
  file = y.file ∙ x.file;
  parts = λ n. y.parts n ∙ x.parts n;
}

find-update_apart :
    (k j : String) (change : UploadSession → UploadSession) (l : List UploadSession)
    → str_eq j k ≡ false
    → ((v : UploadSession) → (change v).upload_id ≡ v.upload_id)
    → find (λ v. str_eq v.upload_id k) (update (λ v. str_eq v.upload_id j) change l)
      ≡ find (λ v. str_eq v.upload_id k) l
find-update_apart k j change [] other keeps = refl
find-update_apart k j change (v ∷ l) other keeps =
    let ih = find-update_apart k j change l other keeps in
    elim (Bool-cases (str_eq v.upload_id j)) [
      | inr miss ↦ rw miss (ap (λ r. if str_eq v.upload_id k then some v else r) ih)
      | inl hit ↦
          let same : v.upload_id ≡ j = (eq_iff v.upload_id j).0 hit in
          let differs : str_eq v.upload_id k ≡ false = rw same other in
          rw (hit, keeps v, differs) ih
    ]

pub with_session-IsApart :
    (k j : String) (change : UploadSession → UploadSession) (s : Library)
    → str_eq j k ≡ false
    → ((v : UploadSession) → (change v).upload_id ≡ v.upload_id)
    → IsApart k s (with_session j change s)
unfolding set_session fresh_upload_session get_part
with_session-IsApart k j change s other keeps = record {
  session = find-update_apart k j change s.db.upload_sessions other keeps;
  file = refl;
  parts = λ n. refl;
}

create_final_image-parts :
    (w : World) (u : UploadSession) (info : FinalInfo) (db : Db) (k : String) (n : ℕ)
    → get_part (create_final_image w u info db).0 k n ≡ get_part db k n
unfolding create_final_image get_part get_image_by_code
create_final_image-parts w u info db k n = elim (Option-cases (get_image_by_code db info.code)) [
  | inl new ↦ rw (create_final_image, new) refl
  | inr (i, there) ↦ rw (create_final_image, there) refl
]

module _ (w : World) (failing : Bool × Bool) (u : UploadSession) (info : FinalInfo)
    (k : String) where
  create_and_complete-IsApart :
      (s : Library) → str_eq u.upload_id k ≡ false → IsApart k s (create_and_complete w u info s)
  unfolding create_and_complete
  create_and_complete-IsApart s other =
      let imaged : Library = record s { db = (create_final_image w u info s.db).0 } in
      IsApart-trans k s imaged (create_and_complete w u info s)
        (record {
          session = create_final_image-sessions w u info s.db k;
          file = refl;
          parts = create_final_image-parts w u info s.db k;
        })
        (with_session-IsApart k u.upload_id _ imaged other (λ v. refl))

  withdraw-IsApart :
      (s : Library) → str_eq u.upload_id k ≡ false → IsApart k s (withdraw w failing u info s).0
  unfolding withdraw withdraw_file
  withdraw-IsApart s other = elim (Bool-cases (failing.1)) [
    | inl f ↦ rw f (IsApart-refl k s)
    | inr f ↦ rw f (
        IsApart-trans k s (withdraw_file u.upload_id info.destination s) _
          (record {
            session = refl;
            file = elim (Bool-cases (has_file s u.upload_id)) [
              | inl there ↦ rw there refl
              | inr gone ↦ rw (gone, other) refl
            ];
            parts = λ n. refl;
          })
          (with_session-IsApart k u.upload_id _ (withdraw_file u.upload_id info.destination s) other
            (λ v. refl)))
  ]

  settle-IsApart :
      (s : Library) → str_eq u.upload_id k ≡ false → IsApart k s (settle w failing u info s).0
  unfolding settle
  settle-IsApart s other = elim (Result-cases (recovery_access s.db u info.global_admin)) [
    | inl (e, denied) ↦ rw (settle, denied) (withdraw-IsApart s other)
    | inr (x, allowed) ↦ rw (settle, allowed) (create_and_complete-IsApart s other)
  ]

  recover_valid-IsApart :
      (s : Library)
      → str_eq u.upload_id k ≡ false
      → IsApart k s (recover_valid w failing u info s).0
  unfolding recover_valid publish_file settle withdraw
  recover_valid-IsApart s other = elim (Bool-cases (is_published s info.destination)) [
    | inl there ↦ rw there (settle-IsApart s other)
    | inr absent ↦ rw absent (elim (Bool-cases (has_file s u.upload_id)) [
      | inr lost ↦ rw lost (with_session-IsApart k u.upload_id _ s other (λ v. refl))
      | inl kept ↦ rw kept (elim (Bool-cases (failing.0)) [
        | inl f ↦ rw f (IsApart-refl k s)
        | inr f ↦ rw f (
            IsApart-trans k s (publish_file u.upload_id info.destination s) _
              (record { session = refl; file = rw other refl; parts = λ n. refl })
              (settle-IsApart (publish_file u.upload_id info.destination s) other))
      ])
    ])
  ]

module _ (code_length : ℕ) (inside : Text → Bool) (k j : String) where
  recover_finalizing_session-IsApart :
      (w : World) (failing : Bool × Bool) (s : Library)
      → str_eq j k ≡ false
      → IsApart k s (recover_finalizing_session code_length inside w failing j s).0
  unfolding recover_finalizing_session
  recover_finalizing_session-IsApart w failing s other =
      elim (Option-cases (fresh_upload_session s.db j)) [
        | inl gone ↦ rw (recover_finalizing_session, gone) (IsApart-refl k s)
        | inr (u, found) ↦
            let mine : str_eq u.upload_id k ≡ false = rw (fresh-id s.db j u found) other in
            rw (recover_finalizing_session, found)
              (elim (Bool-cases (is_finalizing u.status)) [
                | inr not_so ↦ rw not_so (IsApart-refl k s)
                | inl final ↦
                    rw final
                      (elim (Result-cases
                        (validated_finalizing_info code_length inside u.resume_info)) [
                          | inl (e, bad) ↦ rw bad (with_session-IsApart k j _ s other (λ v. refl))
                          | inr (info, good) ↦
                              rw good (recover_valid-IsApart w failing u info k s mine)
                        ])
              ])
      ]

  recover_verifying_session-IsApart :
      (w : World) (s : Library)
      → str_eq j k ≡ false
      → IsApart k s (recover_verifying_session code_length inside w j s)
  unfolding recover_verifying_session
  recover_verifying_session-IsApart w s other = elim (Option-cases (fresh_upload_session s.db j)) [
    | inl gone ↦ rw (recover_verifying_session, gone) (IsApart-refl k s)
    | inr (u, found) ↦
        rw (recover_verifying_session, found)
          (elim (Bool-cases (is_verifying u.status)) [
            | inr not_so ↦ rw not_so (IsApart-refl k s)
            | inl held ↦ rw held (with_session-IsApart k j _ s other (λ v. refl))
          ])
  ]

  -- What precedes the removal of an expired upload changes no other.
  pub recovered_first-IsApart :
      (w : World) (failing : Bool × Bool) (u : UploadSession) (s : Library)
      → str_eq j k ≡ false
      → IsApart k s (recovered_first code_length inside w failing j u s).0
  unfolding recovered_first
  recovered_first-IsApart w failing u s other = elim (Bool-cases (is_verifying u.status)) [
    | inl held ↦ rw held (recover_verifying_session-IsApart w s other)
    | inr not_so ↦ rw not_so (recover_finalizing_session-IsApart w failing s other)
  ]

  -- Nor does the removal.
  pub delete_upload_session-IsApart :
      (s : Library)
      → str_eq j k ≡ false
      → IsApart k s (delete_upload_session code_length inside j s)
  unfolding delete_upload_session fresh_upload_session get_part
  delete_upload_session-IsApart s other = record {
    session =
        find-where_same (λ (v : UploadSession). str_eq v.upload_id k)
          (λ v. not (str_eq v.upload_id j)) s.db.upload_sessions
          (λ v mine. ground (arith, eq_iff v.upload_id k, eq_iff v.upload_id j, eq_iff j k));
    file = elim (Bool-cases (s.keeps_directory j)) [
      | inl keeps ↦ rw keeps refl
      | inr deletes ↦ rw (deletes, other) refl
    ];
    parts = λ n.
        find-where_same (λ (p : UploadPart). str_eq p.upload_id k && p.part_number == n)
          (λ p. not (str_eq p.upload_id j)) s.db.upload_parts
          (λ p mine. ground (arith, eq_iff p.upload_id k, eq_iff p.upload_id j, eq_iff j k));
  }
