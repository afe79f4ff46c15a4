-- ===== src/Backoff/Tests.antt =====
-- Three tries.
use gd2fuse.Base.{ℕ, ◌≡◌, ◌<◌, ◌≤◌, refl, some, List, [], ◌∷◌, arith, length, All}
use gd2fuse.Backoff.{new, delays, int_max}
use gd2fuse.Backoff.Delays.{Grows, delays_bounds}

delays_bounds_example :
    (ts : List ℕ) × (delays (7 ∷ 1000 ∷ 1 ∷ []) (new 3) ≡ some ts)
    × (length ts ≡ 3)
    × All (λ t. (1000 < t) × (t ≤ int_max)) ts
    × Grows ts
delays_bounds_example = delays_bounds 3 (7 ∷ 1000 ∷ 1 ∷ []) (omega arith) refl (omega arith)
