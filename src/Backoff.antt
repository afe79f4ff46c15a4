-- ===== src/Backoff.antt =====
-- ExponentialBackoff (src/utils/ExponentialBackoff.cpp): the waiting times between tries. The numbers
-- that the distribution draws, 1 to 1000, are a parameter, and the times are computed as `int`.
mod Delays
mod Tests
use mathlib.Core.Option
use gd2fuse.Base.{
  ℕ, zero, suc, ◌+◌, ◌*◌, ◌^◌, Bool, Option, none, some, List, [], ◌∷◌, leb, if◌then◌else◌,
}

pub record ExponentialBackoff : Type 0 where
  pub n_try : ℕ
  pub curr : ℕ

abbrev pub new : ℕ → ExponentialBackoff
new n = record { n_try = n; curr = 0 }

unfoldable pub end : ExponentialBackoff → Bool
end b = leb b.n_try b.curr

-- INT_MAX
abbrev pub int_max : ℕ
int_max = 2147483647

-- With the number that is drawn; `none` is an overflow, also of the shift.
unfoldable pub next_time : ℕ → ExponentialBackoff → Option (ℕ × ExponentialBackoff)
next_time drawn b =
    if leb (2 ^ b.curr * 1000 + drawn) int_max
    then some (2 ^ b.curr * 1000 + drawn, record b { curr = suc b.curr })
    else none

-- `while(!b.end()) b.nextTime()`: the times, from the numbers that are drawn one after the other;
-- `none` is an overflow, or too few numbers.
unfoldable pub delays : List ℕ → ExponentialBackoff → Option (List ℕ)
unfolding end next_time
delays [] b = if end b then some [] else none
delays (d ∷ ds) b =
    let step = λ (t : ℕ) (c : ExponentialBackoff). Option.map (◌∷◌ t) (delays ds c) in
    if end b then some [] else elim (next_time d b) [ none ↦ none | some (t, c) ↦ step t c ]
