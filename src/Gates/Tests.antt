-- ===== src/Gates/Tests.antt =====
-- The theorem on gates at two requests for one upload, the first of which has released.
use asset_harbor.Base.{[], ◌∷◌}
use asset_harbor.Gates.{Registry, lease, release, no_registry}
use asset_harbor.Gates.Leases.{IsCounted, Step, Reach, Reach-IsCounted, no_registry-IsCounted}

abbrev once : Registry
once = (lease "u" no_registry).1

abbrev twice : Registry
twice = (lease "u" once).1

one_left : Reach (no_registry, []) (release "u" 0 twice, ("u", 0) ∷ [])
unfolding lease
one_left =
    Reach.next
      (Reach.next (Reach.next Reach.here (Step.leased "u" no_registry []))
        (Step.leased "u" once (("u", 0) ∷ [])))
      (Step.released "u" 0 twice [] (("u", 0) ∷ []))

Reach-IsCounted_example : IsCounted (release "u" 0 twice) (("u", 0) ∷ [])
Reach-IsCounted_example = Reach-IsCounted no_registry-IsCounted one_left
