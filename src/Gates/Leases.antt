-- ===== src/Gates/Leases.antt =====
-- Requests that lease and release gates, in any order, as app/services/videos.py lets them interleave.
use asset_harbor.Base.{
  ℕ, ◌+◌, String, ◌≡◌, refl, false, none, some, List, [], ◌∷◌, ◌++◌, arith, ◌==◌, if◌then◌else◌,
  str_eq, eq_iff, eq_refl, All, All-map, All-both, Bool-cases, inl, inr,
}
use asset_harbor.Gates.{Registry, lease, release, no_registry}

-- How many of the leases in flight are of one upload.
abbrev pub count : String → List (String × ℕ) → ℕ
count k [] = 0
count k ((j, g) ∷ held) = (if str_eq j k then 1 else 0) + count k held

abbrev pub Holds : Registry → String × ℕ → Type 0
Holds s lease = s.gates lease.0 ≡ some lease.1

-- The registry against the leases in flight: each upload's users are counted, a gate with no user
-- is reclaimed, and every lease is of the gate that is registered for its upload.
pub record IsCounted (s : Registry) (held : List (String × ℕ)) : Type 0 where
  pub users : (k : String) → s.users k ≡ (if count k held == 0 then none else some (count k held))
  pub reclaimed : (k : String) → count k held ≡ 0 → s.gates k ≡ none
  pub shared : All (Holds s) held

count-append :
    (k : String) (xs ys : List (String × ℕ)) → count k (xs ++ ys) ≡ count k xs + count k ys
count-append k [] ys = omega arith
count-append k ((j, g) ∷ xs) ys = ground (arith, count-append k xs ys)

All-drop :
    (P : String × ℕ → Type 0) (before after : List (String × ℕ)) (x : String × ℕ)
    → All P (before ++ (x ∷ after))
    → P x × All P (before ++ after)
All-drop P [] after x h = h
All-drop P (y ∷ before) after x h =
    let (here, rest) = All-drop P before after x h.1 in (here, (h.0, rest))

All-uncounted :
    (k : String) (xs : List (String × ℕ))
    → count k xs ≡ 0
    → All (λ (x : String × ℕ). str_eq k x.0 ≡ false) xs
All-uncounted k [] h = tt
All-uncounted k ((j, g) ∷ xs) h =
    (ground (arith, eq_iff k j, eq_iff j k), All-uncounted k xs (omega arith))

lease-IsCounted :
    (upload_id : String) (s : Registry) (held : List (String × ℕ))
    → IsCounted s held
    → let (gate, s') = lease upload_id s in IsCounted s' ((upload_id, gate) ∷ held)
unfolding lease
lease-IsCounted upload_id s held h = record {
  users = λ k. ground (arith, h.users k, h.users upload_id, eq_iff upload_id k);
  reclaimed = λ k e. ground (arith, h.reclaimed k);
  shared = (
    ground (arith, eq_refl upload_id),
    All-map (Holds s) (Holds (lease upload_id s).1) (λ x e. ground (arith, eq_iff upload_id x.0))
        held h.shared,
  );
}

release-IsCounted :
    (upload_id : String) (gate : ℕ) (s : Registry) (before after : List (String × ℕ))
    → IsCounted s (before ++ ((upload_id, gate) ∷ after))
    → IsCounted (release upload_id gate s) (before ++ after)
unfolding release
release-IsCounted upload_id gate s before after h =
    let (mine, rest) = All-drop (Holds s) before after (upload_id, gate) h.shared in
    let held = before ++ after in
    let counts = λ (k : String). count-append k before ((upload_id, gate) ∷ after) in
    let left = λ (k : String). count-append k before after in
    record {
      users = λ k. ground (
        arith,
        mine,
        h.users k,
        h.users upload_id,
        counts k,
        left k,
        counts upload_id,
        left upload_id,
        eq_iff upload_id k,
        eq_refl upload_id,
      );
      reclaimed = λ k e. ground (
        arith,
        mine,
        h.reclaimed k,
        h.users upload_id,
        counts k,
        left k,
        counts upload_id,
        left upload_id,
        eq_iff upload_id k,
        eq_refl upload_id,
      );
      shared = elim (Bool-cases (count upload_id held == 0)) [
        | inl last ↦
            All-map (λ (x : String × ℕ). Holds s x × (str_eq upload_id x.0 ≡ false))
              (Holds (release upload_id gate s)) (λ x e. ground (arith, mine, e.0, e.1)) held
              (All-both (Holds s) (λ (x : String × ℕ). str_eq upload_id x.0 ≡ false) held rest
                (All-uncounted upload_id held (ground arith)))
        | inr more ↦
            All-map (Holds s) (Holds (release upload_id gate s))
              (λ x e. ground (
                arith,
                mine,
                e,
                h.users upload_id,
                counts upload_id,
                left upload_id,
                eq_refl upload_id,
              ))
              held rest
      ];
    }

-- Requests lease, and a request that holds a lease releases it.
pub data Step : Registry × List (String × ℕ) → Registry × List (String × ℕ) → Type 0 where
  leased :
      (upload_id : String) (s : Registry) (held : List (String × ℕ))
      → Step (s, held) ((lease upload_id s).1, (upload_id, (lease upload_id s).0) ∷ held)
  released :
      (upload_id : String) (gate : ℕ) (s : Registry) (before after : List (String × ℕ))
      → Step (s, before ++ ((upload_id, gate) ∷ after)) (release upload_id gate s, before ++ after)

pub data Reach (start : Registry × List (String × ℕ)) : Registry × List (String × ℕ) → Type 0 where
  here : Reach start start
  next : {t u : Registry × List (String × ℕ)} → Reach start t → Step t u → Reach start u

Step-IsCounted :
    {t u : Registry × List (String × ℕ)} → Step t u → IsCounted t.0 t.1 → IsCounted u.0 u.1
Step-IsCounted (leased k s held) h = lease-IsCounted k s held h
Step-IsCounted (released k g s before after) h = release-IsCounted k g s before after h

-- From an empty registry, however requests lease and release: the users of each upload are counted,
-- a gate without users is reclaimed, and any two requests in flight for one upload hold one gate.
pub Reach-IsCounted :
    {t u : Registry × List (String × ℕ)} → IsCounted t.0 t.1 → Reach t u → IsCounted u.0 u.1
Reach-IsCounted h here = h
Reach-IsCounted h (next r st) = Step-IsCounted st (Reach-IsCounted h r)

pub no_registry-IsCounted : IsCounted no_registry []
no_registry-IsCounted = record { users = λ k. refl; reclaimed = λ k e. refl; shared = tt }
