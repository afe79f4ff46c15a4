-- ===== src/Backoff/Delays.antt =====
-- The waiting times stay in range and grow.
use gd2fuse.Base.{
  ℕ, suc, ◌+◌, ◌*◌, ◌^◌, ◌<◌, ◌≤◌, ◌≡◌, refl, ap, ◌∙◌, none, some, List, [], ◌∷◌, arith, length,
  All,
}
use native.Mathlib.Nat.{two-pow-succ, pow-le-pow_right, le_trans}
use gd2fuse.Backoff.{ExponentialBackoff, new, end, int_max, next_time, delays}

power-bound : (a : ℕ) → a < 22 → 2 ^ a ≤ 2097152
power-bound a h =
    le_trans (pow-le-pow_right {n = 2} (omega arith) {i = a} {j = 21} (omega arith)) (omega arith)

-- Each waiting time is more than the one before.
abbrev pub Grows : List ℕ → Type 0
Grows [] = Unit
Grows (t ∷ []) = Unit
Grows (t ∷ u ∷ ts) = (t < u) × Grows (u ∷ ts)

-- The numbers that are drawn.
abbrev pub Drawn : List ℕ → Type 0
Drawn ds = All (λ d. (1 ≤ d) × (d ≤ 1000)) ds

-- The times from a counter on, as they are to be.
spec : List ℕ → ℕ → List ℕ
spec [] curr = []
spec (d ∷ ds) curr = (2 ^ curr * 1000 + d) ∷ spec ds (suc curr)

time-fits :
    (d : ℕ) (b : ExponentialBackoff)
    → b.curr < 22
    → d ≤ 1000
    → next_time d b ≡ some (2 ^ b.curr * 1000 + d, record b { curr = suc b.curr })
unfolding next_time
time-fits d b h l = ground (arith, power-bound b.curr h)

delays-spec :
    (ds : List ℕ) (b : ExponentialBackoff)
    → b.n_try ≤ 22
    → b.n_try ≡ b.curr + length ds
    → Drawn ds
    → delays ds b ≡ some (spec ds b.curr)
unfolding delays end spec
delays-spec [] b h n d = ground arith
delays-spec (x ∷ ds) b h n d =
    let fits = time-fits x b (omega arith) d.0.1 in
    let rest = delays-spec ds (record b { curr = suc b.curr }) h (omega arith) d.1 in
    ground (arith, fits, rest)

spec-Grows : (ds : List ℕ) (curr : ℕ) → Drawn ds → Grows (spec ds curr)
unfolding spec
spec-Grows [] curr h = tt
spec-Grows (d ∷ []) curr h = tt
spec-Grows (d ∷ e ∷ ds) curr h = (
  omega (
    arith,
    two-pow-succ curr,
    pow-le-pow_right {n = 2} (omega arith) {i = 0} {j = curr} (omega arith),
    h.0.1,
    h.1.0.0,
  ),
  spec-Grows (e ∷ ds) (suc curr) h.1,
)

spec-bounds :
    (ds : List ℕ) (curr : ℕ)
    → curr + length ds ≤ 22
    → Drawn ds
    → All (λ t. (1000 < t) × (t ≤ int_max)) (spec ds curr)
unfolding spec
spec-bounds [] curr h d = tt
spec-bounds (x ∷ ds) curr h d = (
  (
    omega (arith, pow-le-pow_right {n = 2} (omega arith) {i = 0} {j = curr} (omega arith), d.0.0),
    omega (arith, power-bound curr (omega arith), d.0.1),
  ),
  spec-bounds ds (suc curr) (omega arith) d.1,
)

length-spec : (ds : List ℕ) (curr : ℕ) → length (spec ds curr) ≡ length ds
unfolding spec
length-spec [] curr = refl
length-spec (d ∷ ds) curr = ap suc (length-spec ds (suc curr))

-- With at most 22 tries and drawn numbers from 1 to 1000, the loop over the waiting times ends after
-- as many rounds as there are tries, without an overflow: there is a time for each try, each time is
-- more than a second and fits into an `int`, and each is more than the one before.
pub delays_bounds :
    (n : ℕ) (drawn : List ℕ)
    → n ≤ 22
    → length drawn ≡ n
    → Drawn drawn
    → (ts : List ℕ) × (delays drawn (new n) ≡ some ts)
      × (length ts ≡ n)
      × All (λ t. (1000 < t) × (t ≤ int_max)) ts
      × Grows ts
delays_bounds n drawn small enough h = (
  spec drawn 0,
  delays-spec drawn (new n) small (omega (arith, enough)) h,
  length-spec drawn 0 ∙ enough,
  spec-bounds drawn 0 (omega (arith, enough)) h,
  spec-Grows drawn 0 h,
)

-- From the 23rd try on the waiting time overflows.
pub next_time-overflow :
    (drawn : ℕ) (b : ExponentialBackoff) → 22 ≤ b.curr → next_time drawn b ≡ none
unfolding next_time
next_time-overflow drawn b h =
    ground (arith, pow-le-pow_right {n = 2} (omega arith) {i = 22} {j = b.curr} h)
