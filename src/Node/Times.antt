-- ===== src/Node/Times.antt =====
-- setTime, getTime and clearTime.
use gd2fuse.Base.{◌≡◌, ◌≢◌, refl, arith}
use gd2fuse.Node.{
  Node, Timespec, TimeAttrib, access_time, modification_time, change_time, zero_time, set_time,
  get_time, clear_time,
}

abbrev pub TimesOf : TimeAttrib → Timespec → Node → Node → Type 0
TimesOf what value old new =
    (get_time what new ≡ value)
    × ((other : TimeAttrib) → other ≢ what → get_time other new ≡ get_time other old)
    × (new.next ≡ old.next)
    × (new.id ≡ old.id)

times_other :
    (what other : TimeAttrib) (value : Timespec) (n : Node)
    → other ≢ what
    → get_time other (set_time what value n) ≡ get_time other n
unfolding set_time get_time
times_other access_time access_time value n ne = absurd (ne refl)
times_other modification_time modification_time value n ne = absurd (ne refl)
times_other change_time change_time value n ne = absurd (ne refl)
times_other access_time other value n ne = ground arith
times_other modification_time other value n ne = ground arith
times_other change_time other value n ne = ground arith

-- Setting one time is read back, and neither the other times nor the children or the id change;
-- clearing is setting to zero.
pub set_time_lem :
    (what : TimeAttrib) (value : Timespec) (n : Node)
    → TimesOf what value n (set_time what value n) × (clear_time what n ≡ set_time what zero_time n)
unfolding set_time get_time clear_time
set_time_lem access_time value n =
    ((refl, λ other ne. times_other access_time other value n ne, refl, refl), refl)
set_time_lem modification_time value n =
    ((refl, λ other ne. times_other modification_time other value n ne, refl, refl), refl)
set_time_lem change_time value n =
    ((refl, λ other ne. times_other change_time other value n ne, refl, refl), refl)
