-- ===== src/Safety/Watchdog.antt =====
-- The watchdog policy (apps/rover_controller/src/safety/watchdog.c, watchdog.h). `checkins` is the
-- static array of `bool`; the hardware is not driven yet, and `watchdog_feed` only logs whether it
-- would feed it, which is the Boolean that it returns here.
mod Window
mod Tests
use micro_ros_controller_fir.Prelude.{
  ℕ, zero, suc, Bool, true, false, List, [], ◌∷◌, ltb, set, if◌then◌else◌,
}
use micro_ros_controller_fir.Common.Types.{Rc, success}

-- `enum watchdog_subsystem`
abbrev pub subsystem_safety : ℕ
subsystem_safety = 0

abbrev pub subsystem_control : ℕ
subsystem_control = 1

abbrev pub subsystem_count : ℕ
subsystem_count = 2

-- The loops that set every element to false.
unfoldable pub reset_checkins : List Bool → List Bool
reset_checkins [] = []
reset_checkins (_ ∷ cs) = false ∷ reset_checkins cs

-- The array is WATCHDOG_SUBSYSTEM_COUNT long from the start, whatever it held.
unfoldable pub watchdog_init : List Bool → Rc × List Bool
unfolding reset_checkins
watchdog_init checkins = (success, reset_checkins checkins)

-- The first loop of `watchdog_feed`, which breaks at the first subsystem that is missing.
unfoldable pub all_checked_in : List Bool → Bool
all_checked_in [] = true
all_checked_in (c ∷ cs) = let rest = all_checked_in cs in if c then rest else false

unfoldable pub watchdog_feed : List Bool → Bool × List Bool
unfolding all_checked_in reset_checkins
watchdog_feed checkins = (all_checked_in checkins, reset_checkins checkins)

unfoldable pub watchdog_check_in : List Bool → ℕ → List Bool
watchdog_check_in checkins subsystem_id =
    if ltb subsystem_id subsystem_count then set checkins subsystem_id true else checkins
