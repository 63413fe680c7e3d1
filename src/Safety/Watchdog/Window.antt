-- ===== src/Safety/Watchdog/Window.antt =====
-- The watchdog over its windows: what a feed answers is decided by the check-ins since the last feed.
use micro_ros_controller_fir.Prelude.{
  ℕ, zero, suc, ◌≡◌, refl, Bool, true, false, ◌||◌, ◌&&◌, List, [], ◌∷◌, ◌++◌, arith, length, ◌==◌,
}
use micro_ros_controller_fir.Safety.Watchdog.{
  subsystem_safety, subsystem_control, subsystem_count, watchdog_init, watchdog_feed,
  watchdog_check_in,
}

-- The check-ins of a window, in order.
pub check_ins : List Bool → List ℕ → List Bool
check_ins checkins [] = checkins
check_ins checkins (i ∷ is) = check_ins (watchdog_check_in checkins i) is

pub mentions : ℕ → List ℕ → Bool
mentions i [] = false
mentions i (j ∷ js) = j == i || mentions i js

-- The array of the two subsystems, with what lies in memory behind it.
pair_checkins :
    (a b : Bool) (behind : List Bool) (is : List ℕ)
    → check_ins (a ∷ b ∷ behind) is ≡ (a || mentions 0 is) ∷ (b || mentions 1 is) ∷ behind
unfolding check_ins mentions watchdog_check_in
pair_checkins a b behind [] = ground arith
pair_checkins a b behind (zero ∷ is) = ground (arith, pair_checkins true b behind is)
pair_checkins a b behind (suc zero ∷ is) = ground (arith, pair_checkins a true behind is)
pair_checkins a b behind (suc (suc i) ∷ is) = ground (arith, pair_checkins a b behind is)

-- For the array of the two subsystems, after a feed and then any check-ins: the next feed finds the
-- watchdog to be feedable exactly if both the safety monitor and the control loop are among these, in
-- whatever order and however often, and it leaves the array as it is after the initialisation; and
-- whatever the identifiers are, the check-ins change nothing in the memory behind the array.
pub feed_iff_all :
    (checkins behind : List Bool) (is : List ℕ)
    → length checkins ≡ subsystem_count
    → let window = check_ins (watchdog_feed checkins).1 is in
      ((watchdog_feed window).0 ≡ (mentions subsystem_safety is && mentions subsystem_control is))
      × ((watchdog_feed window).1 ≡ (watchdog_init checkins).1)
      × (check_ins ((watchdog_feed checkins).1 ++ behind) is ≡ window ++ behind)
unfolding watchdog_feed watchdog_init
feed_iff_all [] behind is h = absurd (omega arith)
feed_iff_all (a ∷ []) behind is h = absurd (omega arith)
feed_iff_all (a ∷ b ∷ []) behind is h =
    rw (pair_checkins false false [] is, pair_checkins false false behind is)
      (ground arith, ground arith, refl)
feed_iff_all (a ∷ b ∷ c ∷ cs) behind is h = absurd (omega arith)
