-- ===== src/Main/Startup.antt =====
-- The order of the start-up, and what a failing call stops.
use micro_ros_controller_fir.Prelude.{ℕ, ◌≡◌, Option, none, some, List, [], ◌∷◌, ◌++◌}
use micro_ros_controller_fir.Prelude.Int.{ℤ, negsuc}
use micro_ros_controller_fir.Common.Types.{Errno, Rc, success, failure}
use micro_ros_controller_fir.Main.{
  Layer, gnss, imu, ros_node, imu_pub, gnss_pub, then_init, MainCall, start_executor,
  create_publisher, sleep_ms, sleep_forever, inits,
}

abbrev pub all_layers : List Layer
all_layers = gnss ∷ imu ∷ ros_node ∷ imu_pub ∷ gnss_pub ∷ []

module _ (result : Layer → Rc) where
  -- The calls of a list, as far as they succeed.
  calls : List Layer → Rc × List Layer
  calls [] = (success, [])
  calls (l ∷ ls) = then_init result l (calls ls)

  abbrev pub Succeed : List Layer → Type 0
  Succeed [] = Unit {0}
  Succeed (l ∷ ls) = (result l ≡ success) × Succeed ls

  -- The first call of a list that fails.
  record FirstFailure (ls : List Layer) : Type 0 where
    earlier : List Layer
    later : List Layer
    layer : Layer
    error : Errno
    split : ls ≡ earlier ++ layer ∷ later
    succeeded : Succeed earlier
    failed : result layer ≡ failure error

  -- The two ways in which `main` can go: every call of the initialisation succeeds, and after them the
  -- executor is started and the publishing thread created, once; or one of them is the first to fail.
  pub data Outcome (turns : ℕ) : Option ℤ × List MainCall → Type 0 where
    started :
        Succeed all_layers
        → Outcome turns (
          none,
          inits all_layers
              ++ start_executor ∷ create_publisher ∷ sleep_ms 100 ∷ sleep_forever turns,
        )
    halted :
        (earlier later : List Layer) (l : Layer) (e : Errno)
        → all_layers ≡ earlier ++ l ∷ later
        → Succeed earlier
        → result l ≡ failure e
        → Outcome turns (some (negsuc 0), inits (earlier ++ l ∷ []))
