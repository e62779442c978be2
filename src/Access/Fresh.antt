-- ===== src/Access/Fresh.antt =====
-- Revalidation of a principal that has waited for the lifecycle lease.
use asset_harbor.Base.{
  ℕ, ◌≡◌, ◌≢◌, some, arith, ok, err, http, ◌==◌, find_passes, Option-cases, inl, inr,
}
use asset_harbor.Model.{User, Principal, Db}
use asset_harbor.Access.{get_user, fresh_library_user, copy_auth_scope}

get_user-id : (db : Db) (id : ℕ) (u : User) → get_user db id ≡ some u → u.id ≡ id
unfolding get_user
get_user-id db id u h = ground (arith, find_passes (λ u. u.id == id) db.users u)

-- What revalidation promises of the principal that it returns.
pub record IsFresh (db : Db) (before after : Principal) : Type 0 where
  pub stored : get_user db before.user.id ≡ some after.user
  pub same_id : after.user.id ≡ before.user.id
  pub same_scope : after.scope ≡ before.scope
  pub bound :
      (i c : ℕ)
      → before.identity ≡ some (i, c)
      → (after.user.id ≡ i) × (after.user.created_at ≡ c) × (after.identity ≡ some (i, c))

-- A principal that passes is the row that the database holds now, with the request's scope kept;
-- and if the request had captured an identity, the row has its number and its creation time.
pub fresh_library_user-IsFresh :
    (db : Db) (p q : Principal) → fresh_library_user db p ≡ ok q → IsFresh db p q
unfolding fresh_library_user copy_auth_scope
fresh_library_user-IsFresh db p q h = elim (Option-cases (get_user db p.user.id)) [
  | inl gone ↦ ground arith
  | inr (u, found) ↦ record {
    stored = ground arith;
    same_id = ground (arith, get_user-id db p.user.id u found);
    same_scope = ground arith;
    bound = λ i c e. ground (arith, get_user-id db p.user.id u found);
  }
]

-- A principal whose account was deleted, or deleted and created anew under the same number, is
-- refused with 401.
pub fresh_library_user_replaced :
    (db : Db) (p : Principal) (i c : ℕ)
    → p.identity ≡ some (i, c)
    → ((u : User) → get_user db p.user.id ≡ some u → u.created_at ≢ c)
    → fresh_library_user db p ≡ err (http 401)
unfolding fresh_library_user
fresh_library_user_replaced db p i c e replaced = elim (Option-cases (get_user db p.user.id)) [
  | inl gone ↦ ground arith
  | inr (u, found) ↦ ground (arith, replaced u found)
]
