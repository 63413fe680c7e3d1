-- ===== src/Safety/Watchdog/Tests.antt =====
-- A window with check-ins of both subsystems and of identifiers that there are not.
use micro_ros_controller_fir.Prelude.{ℕ, ◌≡◌, refl, Bool, true, false, ◌&&◌, List, [], ◌∷◌, ◌++◌}
use micro_ros_controller_fir.Safety.Watchdog.{
  subsystem_safety, subsystem_control, watchdog_init, watchdog_feed,
}
use micro_ros_controller_fir.Safety.Watchdog.Window.{check_ins, mentions, feed_iff_all}

abbrev array : List Bool
array = true ∷ false ∷ []

abbrev behind : List Bool
behind = false ∷ false ∷ []

abbrev identifiers : List ℕ
identifiers = 1 ∷ 2 ∷ 255 ∷ 1 ∷ 3 ∷ 0 ∷ []

feed_iff_all_example :
    let window = check_ins (watchdog_feed array).1 identifiers in
    ((watchdog_feed window).0
      ≡ (mentions subsystem_safety identifiers && mentions subsystem_control identifiers))
    × ((watchdog_feed window).1 ≡ (watchdog_init array).1)
    × (check_ins ((watchdog_feed array).1 ++ behind) identifiers ≡ window ++ behind)
feed_iff_all_example = feed_iff_all array behind identifiers refl
