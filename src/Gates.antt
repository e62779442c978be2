-- ===== src/Gates.antt =====
-- The reference-counted gates of app/services/videos.py: `_lease_inbound_upload_gate` and
-- `_release_inbound_upload_gate`, and the bookkeeping of `_leased_upload_lock`, which is the same
-- on its own two dictionaries. A gate is the number of the object that the code creates.
pub mod Leases
mod Tests
use asset_harbor.Base.{ℕ, ◌+◌, ◌-◌, String, Bool, Option, none, some, ◌==◌, if◌then◌else◌, str_eq}

-- A dictionary with text keys.
abbrev pub Dict : Type 0 → Type 0
Dict V = String → Option V

abbrev pub assign : {V : Type 0} → Dict V → String → Option V → Dict V
assign d k v j = if str_eq k j then v else d j

-- `_inbound_upload_gates` and `_inbound_gate_users` (or the two of the upload locks), with the
-- number of the next object.
pub record Registry : Type 0 where
  pub gates : Dict ℕ
  pub users : Dict ℕ
  pub next_gate : ℕ

abbrev pub no_registry : Registry
no_registry = record { gates = λ _. none; users = λ _. none; next_gate = 0 }

-- `d.get(k, default)`
abbrev pub get_or : Dict ℕ → String → ℕ → ℕ
get_or d k v = elim (d k) [ none ↦ v | some n ↦ n ]

-- `_lease_inbound_upload_gate`; `setdefault` always creates an object, used or not.
pub lease : String → Registry → ℕ × Registry
lease upload_id s =
    let gate = get_or s.gates upload_id s.next_gate in
    (
      gate,
      record {
        gates = assign s.gates upload_id (some gate);
        users = assign s.users upload_id (some (get_or s.users upload_id 0 + 1));
        next_gate = s.next_gate + 1;
      },
    )

-- The identity test of the release, `gates.get(upload_id) is gate`
holds_gate : Option ℕ → ℕ → Bool
holds_gate none gate = Bool.false
holds_gate (some g) gate = g == gate

-- `_release_inbound_upload_gate`
pub release : String → ℕ → Registry → Registry
unfolding holds_gate
release upload_id gate s =
    let remaining = get_or s.users upload_id 1 - 1 in
    if holds_gate (s.gates upload_id) gate
    then if remaining == 0
      then record s { gates = assign s.gates upload_id none; users = assign s.users upload_id none }
      else record s { users = assign s.users upload_id (some remaining) }
    else s
