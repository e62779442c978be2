-- ===== src/RateLimit/Windows.antt =====
-- The table of windows: lookups after an update and after pruning, and its size.
use asset_harbor.Base.{
  ℕ, ◌+◌, ◌≤◌, String, ◌≡◌, refl, false, not, some, [], ◌∷◌, arith, if◌then◌else◌, str_eq, eq_iff,
  where_, length, length-where_, is_none, Bool-cases, inl, inr,
}
use asset_harbor.RateLimit.{
  Window, Windows, Pool, is_expired, lookup, put, prune, max_windows, check_pool, current_window,
}

pub lookup-put :
    (k j : String) (w : Window) (m : Windows)
    → lookup j (put k w m) ≡ (if str_eq k j then some w else lookup j m)
unfolding lookup put
lookup-put k j w [] = refl
lookup-put k j w ((i, v) ∷ m) =
    ground (arith, eq_iff k j, eq_iff i k, eq_iff i j, lookup-put k j w m)

length-put :
    (k : String) (w : Window) (m : Windows)
    → length (put k w m) ≡ (if is_none (lookup k m) then length m + 1 else length m)
unfolding lookup put
length-put k w [] = ground arith
length-put k w ((i, v) ∷ m) = ground (arith, length-put k w m)

-- Pruning keeps the first window of a key if that is not over.
lookup-filter :
    (now : ℕ) (k : String) (m : Windows) (w : Window)
    → lookup k m ≡ some w
    → is_expired now w ≡ false
    → lookup k (where_ (λ entry. not (is_expired now entry.1)) m) ≡ some w
unfolding lookup
lookup-filter now k [] w h e = cc
lookup-filter now k ((j, v) ∷ m) w h e = elim (Bool-cases (is_expired now v)) [
  | inl over ↦ rw over (ground (arith, lookup-filter now k m w))
  | inr fresh ↦ rw fresh (ground (arith, lookup-filter now k m w))
]

pub lookup-prune :
    (now : ℕ) (k : String) (p : Pool) (w : Window)
    → lookup k p.windows ≡ some w
    → is_expired now w ≡ false
    → lookup k (prune now p).windows ≡ some w
unfolding prune
lookup-prune now k p w h e = ground (arith, lookup-filter now k p.windows w h e)

length-prune : (now : ℕ) (p : Pool) → length (prune now p).windows ≤ length p.windows
unfolding prune
length-prune now p =
    ground
      (arith, length-where_ (λ (entry : String × Window). not (is_expired now entry.1)) p.windows)

-- A request on one key leaves every other key's window as it is unless that is over, and a pool
-- that holds at most 10000 windows never grows past them.
pub check_pool_others :
    (key other : String) (limit window_seconds now : ℕ) (pool : Pool) (w : Window)
    → (str_eq key other ≡ false
        → lookup other pool.windows ≡ some w
        → is_expired now w ≡ false
        → lookup other (check_pool key limit window_seconds now pool).1.windows ≡ some w)
      × (length pool.windows ≤ max_windows
          → length (check_pool key limit window_seconds now pool).1.windows ≤ max_windows)
unfolding check_pool
check_pool_others key other limit window_seconds now pool w =
    let p = prune now pool in
    let c = current_window (lookup key p.windows) window_seconds now in
    let counted = record c { count = c.count + 1 } in
    (
      λ differ found fresh. ground (
        arith,
        lookup-put key other counted p.windows,
        lookup-prune now other pool w found fresh,
      ),
      λ small. ground (arith, length-put key counted p.windows, length-prune now pool),
    )
