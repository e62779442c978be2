-- ===== src/Keys/Rotated.antt =====
-- The rotation of an API key.
use asset_harbor.Base.{
  ℕ, ◌<◌, max, ◌≡◌, refl, subst, ap, ◌∙◌, String, true, false, not, none, some, [], ◌∷◌, arith, ok,
  http, >>=-eq-ok, raise_if-eq-ok, ok-injective, raise_if, or_raise, or_raise-eq-ok, ◌==◌, where_,
  find, find-none, find_passes, find-where_none, find-append_none, All, All-find, All-of, All-map,
  All-where_, All-above, max_by,
}
use asset_harbor.Model.{ApiKey, Db, Principal, CounterName, TrafficDaily}
use asset_harbor.Access.{fresh_library_user}
use asset_harbor.Access.Fresh.{fresh_library_user-IsFresh}
use asset_harbor.Ids.{next_api_key_id}
use asset_harbor.Ids.Fresh.{allocate-IsAllocated, allocate_writes}
use asset_harbor.Keys.{get_key, get_own_key, Secret, new_key, add_key, delete_key, rotate_key_body}

-- A new number is above every key's, and only counters are written for it.
key_allocated :
    (now id : ℕ) (db db' : Db)
    → next_api_key_id now db ≡ ok (id, db')
    → All (λ (k : ApiKey). k.id < id) db.api_keys × (db'.api_keys ≡ db.api_keys)
unfolding next_api_key_id
key_allocated now id db db' e =
    let live = max_by (λ (k : ApiKey). k.id) db.api_keys in
    let historical = max_by (λ (r : TrafficDaily). r.api_key_id) db.traffic_daily in
    let made = allocate-IsAllocated CounterName.api_key_id (max live historical) now id db db' e in
    let above = made.above_live in
    (
      All-above (λ (k : ApiKey). k.id) id db.api_keys (omega arith),
      ap (λ (d : Db). d.api_keys)
          (allocate_writes CounterName.api_key_id (max live historical) now id db db' e),
    )

-- The old key is found no more, the new one is, under a larger number and for the same account.
pub record IsRotated (key_id user_id : ℕ) (name : String) (secret : Secret) (k : ApiKey) (db' : Db)
    : Type 0 where
  pub revoked : get_key db' key_id ≡ none
  pub stored : get_key db' k.id ≡ some k
  pub later : key_id < k.id
  pub owned : k.user_id ≡ user_id
  pub named : k.name ≡ name
  pub keyed : k.key_hash ≡ secret.key_hash

rotated :
    (db db1 : Db) (key_id id now user_id : ℕ) (secret : Secret) (old : ApiKey)
    → get_key db key_id ≡ some old
    → All (λ (k : ApiKey). k.id < id) db.api_keys
    → db1.api_keys ≡ db.api_keys
    → IsRotated key_id user_id old.name secret
        (new_key id user_id old.name secret now)
        (add_key (delete_key db1 old) (new_key id user_id old.name secret now))
unfolding get_key
rotated db db1 key_id id now user_id secret old found below same =
    let old_id : old.id ≡ key_id =
      ground (arith, find_passes (λ (k : ApiKey). k.id == key_id) db.api_keys old found) in
    let k = new_key id user_id old.name secret now in
    let kept = where_ (λ (x : ApiKey). not (x.id == old.id)) db.api_keys in
    let above : old.id < id = All-find (λ (x : ApiKey). x.id < id) _ db.api_keys old below found in
    let later : key_id < id = omega arith in
    let gone : find (λ (x : ApiKey). x.id == key_id) kept ≡ none =
      find-where_none (λ (x : ApiKey). x.id == key_id) (λ x. not (x.id == old.id)) db.api_keys
        (All-of (λ (x : ApiKey). (x.id == key_id) ≡ true → not (x.id == old.id) ≡ false)
          (λ x hit. ground arith) db.api_keys) in
    let unused : find (λ (x : ApiKey). x.id == id) kept ≡ none =
      find-none (λ (x : ApiKey). x.id == id) kept
        (All-where_ (λ (x : ApiKey). (x.id == id) ≡ false) (λ x. not (x.id == old.id)) db.api_keys
          (All-map (λ (x : ApiKey). x.id < id) (λ x. (x.id == id) ≡ false) (λ x h. ground arith)
            db.api_keys below)) in
    record {
      revoked =
          rw same
            (find-append_none (λ (x : ApiKey). x.id == key_id) kept (k ∷ []) gone ∙ ground arith);
      stored =
          rw same
            (find-append_none (λ (x : ApiKey). x.id == id) kept (k ∷ []) unused ∙ ground arith);
      later = later;
      owned = refl;
      named = refl;
      keyed = refl;
    }

-- After a rotation the old key is found no more; the new one is, under a larger number, with the
-- name of the old one, the new secret's hash and the account of the request.
pub rotate_key_body-IsRotated :
    (key_id : ℕ) (secret : Secret) (p : Principal) (now : ℕ) (db db' : Db) (k : ApiKey)
    → rotate_key_body key_id secret p now db ≡ ok (k, db')
    → (old : ApiKey) × (get_key db key_id ≡ some old)
      × (old.user_id ≡ p.user.id)
      × IsRotated key_id p.user.id old.name secret k db'
unfolding rotate_key_body get_own_key
rotate_key_body-IsRotated key_id secret p now db db' k e =
    let (q, fresh, e1) = >>=-eq-ok (fresh_library_user db p) _ e in
    let (old, own, e2) = >>=-eq-ok (get_own_key db key_id q.user.id) _ e1 in
    let (id, made, e3) = >>=-eq-ok (next_api_key_id now db) _ e2 in
    let (key, found, o1) = >>=-eq-ok (or_raise (get_key db key_id) (http 404)) _ own in
    let (_, mine, o2) = >>=-eq-ok (raise_if (not (key.user_id == q.user.id)) (http 404)) _ o1 in
    let is_old : key ≡ old = ok-injective o2 in
    let same_id = (fresh_library_user-IsFresh db p q fresh).same_id in
    let facts = key_allocated now id.0 db id.1 made in
    let got : get_key db key_id ≡ some old =
      or_raise-eq-ok (get_key db key_id) (http 404) found ∙ ap (λ x. some x) is_old in
    let owned : old.user_id ≡ q.user.id =
      subst (λ (x : ApiKey). x.user_id ≡ q.user.id) is_old
        (let m = raise_if-eq-ok _ _ mine in ground arith) in
    let result =
      subst (λ x. IsRotated key_id q.user.id old.name secret x.0 x.1) (ok-injective e3)
        (rotated db id.1 key_id id.0 now q.user.id secret old got facts.0 facts.1) in
    (
      old,
      got,
      owned ∙ same_id,
      subst (λ n. IsRotated key_id n old.name secret k db') same_id result,
    )
