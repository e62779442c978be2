-- ===== src/Disk/Tests.antt =====
-- The theorem on reservations at two requests whose writes interleave.
use asset_harbor.Base.{◌≤◌, refl, [], ◌∷◌, arith}
use asset_harbor.Disk.{reserve_write_space}
use asset_harbor.Disk.Reserve.{Writer, Storage, Step, Reach, IsSafe, Reach-IsSafe}

abbrev idle : Storage
idle = record { reserved = 0; writers = []; free = 200 }

abbrev first : Writer
first = record { bytes = 80; written = 0 }

abbrev second : Writer
second = record { bytes = 30; written = 0 }

abbrev reserved_both : Storage
reserved_both = record { reserved = 110; writers = second ∷ first ∷ []; free = 200 }

abbrev written_first : Storage
written_first = record {
  reserved = 110;
  writers = second ∷ record first { written = 80 } ∷ [];
  free = 120;
}

idle-IsSafe : IsSafe 20 idle
idle-IsSafe = record { counted = refl; covered = omega arith }

both_reserve : Reach 20 idle reserved_both
unfolding reserve_write_space
both_reserve =
    Reach.next (Reach.next Reach.here (Step.reserve idle 80 80 refl))
      (Step.reserve (record { reserved = 80; writers = first ∷ []; free = 200 }) 30 110 refl)

first_writes : Reach 20 idle written_first
first_writes =
    Reach.next both_reserve (Step.write reserved_both (second ∷ []) [] first 80 refl (omega arith))

Reach-IsSafe_example : IsSafe 20 written_first × (20 ≤ written_first.free)
Reach-IsSafe_example = Reach-IsSafe idle-IsSafe first_writes
