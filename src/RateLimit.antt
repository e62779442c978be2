-- ===== src/RateLimit.antt =====
-- The fixed-window rate limiter (app/services/ratelimit.py). The monotonic clock, a float of
-- seconds, is a whole number of microseconds here; a refusal is 429.
pub mod Windows
pub mod Admitted
mod Tests
use asset_harbor.Base.{
  ℕ, suc, ◌+◌, ◌-◌, ◌*◌, ◌/◌, max, String, Bool, true, false, not, ◌&&◌, Option, none, some, List,
  [], ◌∷◌, Result, ok, err, http, ltb, leb, ◌==◌, if◌then◌else◌, str_eq, where_, length, is_none,
}

abbrev pub ticks : ℕ
ticks = 1000000

-- `(window_start, count, configured_window_seconds)`
pub record Window : Type 0 where
  pub start : ℕ
  pub count : ℕ
  pub window_seconds : ℕ

abbrev pub Windows : Type 0
Windows = List (String × Window)

-- One of the two pools: its windows and its entry of `_NEXT_PRUNE_AT`.
pub record Pool : Type 0 where
  pub windows : Windows
  pub next_prune_at : ℕ

pub record Limiter : Type 0 where
  pub short : Pool
  pub long : Pool

-- `_MAX_WINDOWS` and `_MAX_LONG_WINDOWS`
abbrev pub max_windows : ℕ
max_windows = 10000

abbrev pub is_expired : ℕ → Window → Bool
is_expired now w = leb (w.start + w.window_seconds * ticks) now

pub lookup : String → Windows → Option Window
lookup k [] = none
lookup k ((j, w) ∷ m) = if str_eq j k then some w else lookup k m

-- `windows[key] = w`
pub put : String → Window → Windows → Windows
put k w [] = (k, w) ∷ []
put k w ((j, v) ∷ m) = if str_eq j k then (j, w) ∷ m else (j, v) ∷ put k w m

-- `_prune`
pub prune : ℕ → Pool → Pool
prune now p =
    if length p.windows == 0
    then record p { next_prune_at = now + ticks }
    else if ltb now p.next_prune_at
    then p
    else record {
      windows = where_ (λ entry. not (is_expired now entry.1)) p.windows;
      next_prune_at = now + ticks;
    }

-- The window that the request counts in: the stored one, or a new one where there is none, where
-- its configured length is another, and where it is over.
pub current_window : Option Window → ℕ → ℕ → Window
current_window none window_seconds now = record {
  start = now;
  count = 0;
  window_seconds = window_seconds;
}
current_window (some w) window_seconds now =
    if w.window_seconds == window_seconds && not (is_expired now w)
    then w
    else record { start = now; count = 0; window_seconds = window_seconds }

-- `check_rate_limit` on its pool; the limit is positive.
pub check_pool : String → ℕ → ℕ → ℕ → Pool → Result (Unit {0}) × Pool
check_pool key limit window_seconds now pool =
    let p = prune now pool in
    let w = current_window (lookup key p.windows) window_seconds now in
    let counted = record w { count = w.count + 1 } in
    if is_none (lookup key p.windows) && leb max_windows (length p.windows)
    then (err (http 429), p)
    else (
      if ltb limit counted.count then err (http 429) else ok tt,
      record p { windows = put key counted p.windows },
    )

-- `check_rate_limit`
pub check_rate_limit : String → ℕ → ℕ → ℕ → Limiter → Result (Unit {0}) × Limiter
check_rate_limit key limit window_seconds now s =
    if limit == 0
    then (ok tt, s)
    else if ltb 3600 window_seconds
    then (let r = check_pool key limit window_seconds now s.long in (r.0, record s { long = r.1 }))
    else (let r = check_pool key limit window_seconds now s.short in
        (r.0, record s { short = r.1 }))

-- `retry_after`, for a request that is refused in window `w`
pub retry_after : Window → ℕ → ℕ
retry_after w now = max 1 ((w.window_seconds * ticks - (now - w.start)) / ticks + 1)
