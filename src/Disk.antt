-- ===== src/Disk.antt =====
-- Reservations of disk space: `ensure_free_space`, `_reserve_write_space`, `_release_write_space`
-- and `reserve_write_space` of app/services/videos.py. The free space is what `disk_usage` returns.
pub mod Reserve
mod Tests
use asset_harbor.Base.{ℕ, ◌+◌, ◌-◌, Bool, Result, ok, err, http, ltb, if◌then◌else◌}

-- `ensure_free_space`, with `_reserved_write_bytes` and the configured minimum
unfoldable pub ensure_free_space : ℕ → ℕ → ℕ → ℕ → Result (Unit {0})
ensure_free_space min_free free reserved required =
    if ltb free (min_free + reserved + required) then err (http 507) else ok tt

-- `_reserve_write_space`: the new value of `_reserved_write_bytes`.
unfoldable pub reserve_write_space : ℕ → ℕ → ℕ → ℕ → Result ℕ
reserve_write_space min_free free reserved required =
    if ltb free (min_free + reserved + required) then err (http 507) else ok (reserved + required)

-- `_release_write_space`
unfoldable pub release_write_space : ℕ → ℕ → ℕ
release_write_space reserved bytes = reserved - bytes
