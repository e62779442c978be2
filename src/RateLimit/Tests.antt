-- ===== src/RateLimit/Tests.antt =====
-- The theorems on windows at a pool with two running windows.
use asset_harbor.Base.{ℕ, ◌-◌, ◌≤◌, refl, [], ◌∷◌}
use asset_harbor.RateLimit.{Window, Pool, lookup}
use asset_harbor.RateLimit.Admitted.{admitted, admitted-le}

abbrev window : ℕ → Window
window n = record { start = 0; count = n; window_seconds = 60 }

abbrev pool : Pool
pool = record { windows = ("login:a", window 3) ∷ ("login:b", window 1) ∷ []; next_prune_at = 0 }

admitted-le_example :
    admitted "login:a" 5 60
      (("login:a", 10) ∷ ("login:b", 20) ∷ ("login:a", 30) ∷ ("login:a", 40) ∷ [])
      pool
    ≤ 5 - 3
unfolding lookup
admitted-le_example =
    admitted-le "login:a" 5
      (("login:a", 10) ∷ ("login:b", 20) ∷ ("login:a", 30) ∷ ("login:a", 40) ∷ []) pool (window 3)
      refl (refl, (refl, (refl, (refl, tt))))
