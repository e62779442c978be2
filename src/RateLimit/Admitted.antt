-- ===== src/RateLimit/Admitted.antt =====
-- The requests that one key passes within a window, among those of other keys.
use asset_harbor.Base.{
  ℕ, ◌+◌, ◌-◌, ◌≤◌, String, ◌≡◌, Bool, true, false, ◌&&◌, some, List, [], ◌∷◌, arith, Result, ok,
  err, leb, if◌then◌else◌, str_eq, eq_iff, eq_refl, Bool-cases, inl, inr, All,
}
use asset_harbor.RateLimit.{Window, Pool, is_expired, lookup, prune, check_pool, current_window}
use asset_harbor.RateLimit.Windows.{lookup-put, lookup-prune, check_pool_others}

abbrev pub is_ok : Result (Unit {0}) → Bool
is_ok (ok _) = true
is_ok (err _) = false

-- A request on the key of a running window counts in it, and passes exactly while the count is not
-- over the limit.
pub check_pool_counts :
    (key : String) (limit now : ℕ) (pool : Pool) (w : Window)
    → lookup key pool.windows ≡ some w
    → is_expired now w ≡ false
    → (lookup key (check_pool key limit w.window_seconds now pool).1.windows
        ≡ some (record w { count = w.count + 1 }))
      × (is_ok (check_pool key limit w.window_seconds now pool).0 ≡ leb (w.count + 1) limit)
unfolding check_pool current_window
check_pool_counts key limit now pool w found fresh =
    let p = prune now pool in
    let counted = record w { count = w.count + 1 } in
    let kept = lookup-prune now key pool w found fresh in
    let stored = lookup-put key key counted p.windows in (ground (arith, eq_refl key), ground arith)

-- How many of a run of requests, each a key and a time, pass for `key`.
pub admitted : String → ℕ → ℕ → List (String × ℕ) → Pool → ℕ
admitted key limit window_seconds [] pool = 0
admitted key limit window_seconds ((k, now) ∷ rest) pool =
    let r = check_pool k limit window_seconds now pool in
    (if str_eq k key && is_ok r.0 then 1 else 0) + admitted key limit window_seconds rest r.1

-- In a run of requests, on any keys, that ends before the running window of `key` is over, at most
-- as many pass for that key as the limit leaves after the window's count.
pub admitted-le :
    (key : String) (limit : ℕ) (requests : List (String × ℕ)) (pool : Pool) (w : Window)
    → lookup key pool.windows ≡ some w
    → All (λ (r : String × ℕ). is_expired r.1 w ≡ false) requests
    → admitted key limit w.window_seconds requests pool ≤ limit - w.count
unfolding admitted
admitted-le key limit [] pool w found fresh = omega arith
admitted-le key limit ((k, now) ∷ rest) pool w found fresh =
    let r = check_pool k limit w.window_seconds now pool in
    elim (Bool-cases (str_eq k key)) [
      | inl same ↦
          let e : k ≡ key = (eq_iff k key).0 same in
          let found' : lookup k pool.windows ≡ some w = rw e found in
          let facts = check_pool_counts k limit now pool w found' fresh.0 in
          let counted = record w { count = w.count + 1 } in
          let stored : lookup key r.1.windows ≡ some counted = rw (← e) facts.0 in
          let ih = admitted-le key limit rest r.1 counted stored fresh.1 in ground (arith, facts.1)
      | inr other ↦
          let kept =
            (check_pool_others k key limit w.window_seconds now pool w).0 other found fresh.0 in
          let ih = admitted-le key limit rest r.1 w kept fresh.1 in ground arith
    ]
