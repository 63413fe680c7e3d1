-- ===== src/Samples/AccelTrig.antt =====
-- The trigger sample (apps/accel_trig/src/main.c). `tap` is the build option
-- CONFIG_SAMPLE_TAP_DETECTION. The sensor's driver is a parameter: what its calls return. Numbers are
-- printed as they are; the text around them is left out.
pub mod Report
mod Tests
use micro_ros_controller_fir.Prelude.{Bool, true, false, not, List, [], ◌∷◌, ◌++◌, if◌then◌else◌}
use micro_ros_controller_fir.Prelude.Int.{ℤ, pos, negsuc, ltb_ℤ}
use micro_ros_controller_fir.Common.Types.{Vector}
use micro_ros_controller_fir.Samples.Kernel.{Kernel, long_of, is_negative, is_error}

-- What is printed.
pub data Line (V : Type 0) : Type 0 where
  device_not_ready could_not_set_trigger tap_detected fetch_failed : Line V
  interrupts : (count : ℤ) → Line V
  reading : (timestamp : ℤ) → Vector V → Line V

module _ (k : Kernel) where
  open k use {Sem, k_sem_give, Atomic, atomic_inc, atomic_set}

  -- The static variables.
  pub record Statics : Type 0 where
    pub irq_count : Atomic
    pub sem : Sem

  module _ {V : Type 0} where
    -- `fetched` is the result of `sensor_sample_fetch_chan`.
    unfoldable pub tap_trigger_handler : (fetched : ℤ) → Statics → List (Line V) × Statics
    tap_trigger_handler fetched s = (
      tap_detected ∷ (if is_negative fetched then fetch_failed ∷ [] else []),
      record s { sem = k_sem_give s.sem },
    )

    -- `fetched` is the result of `sensor_sample_fetch`.
    unfoldable pub trigger_handler : (fetched : ℤ) → Statics → List (Line V) × Statics
    trigger_handler fetched s =
        let s₁ = record s { irq_count = atomic_inc s.irq_count } in
        if is_error fetched
        then (fetch_failed ∷ [], s₁)
        else ([], record s₁ { sem = k_sem_give s₁.sem })

    -- The work item, which schedules itself again.
    unfoldable pub stats_work_handler : Statics → List (Line V) × Statics
    stats_work_handler s =
        let (count, irq_count) = atomic_set s.irq_count 0 in
        (interrupts (long_of count) ∷ [], record s { irq_count = irq_count })

    -- `main` up to its loop: whether the device is ready, and what `sensor_trigger_set` returns. The
    -- Boolean tells whether the work item is scheduled and the loop entered.
    unfoldable pub main_starts : (tap ready : Bool) → (trigger_set : ℤ) → List (Line V) × Bool
    main_starts tap ready trigger_set =
        if not ready
        then (device_not_ready ∷ [], false)
        else if (if tap then is_negative trigger_set else is_error trigger_set)
        then (could_not_set_trigger ∷ [], false)
        else ([], true)

    -- One turn of the loop of `main`, with the time and what `sensor_channel_get` leaves in `values`.
    unfoldable pub main_turn : (timestamp : ℤ) → (values : Vector V) → List (Line V)
    main_turn timestamp values = reading timestamp values ∷ []

    -- The trigger of the build.
    abbrev pub handler : (tap : Bool) → ℤ → Statics → List (Line V) × Statics
    handler true fetched s = tap_trigger_handler fetched s
    handler false fetched s = trigger_handler fetched s

-- What happens: a trigger, the work item, a turn of `main`.
pub data Event (V : Type 0) : Type 0 where
  trigger : (fetched : ℤ) → Event V
  stats : Event V
  turn : (timestamp : ℤ) → Vector V → Event V

module _ (k : Kernel) {V : Type 0} where
  -- What is printed in a sequence of events.
  unfoldable pub printed : (tap : Bool) → Statics k → List (Event V) → List (Line V)
  printed tap s [] = []
  printed tap s (trigger fetched ∷ es) =
      let (lines, s') = handler k tap fetched s in lines ++ printed tap s' es
  printed tap s (stats ∷ es) =
      let (lines, s') = stats_work_handler k s in lines ++ printed tap s' es
  printed tap s (turn timestamp values ∷ es) = main_turn k timestamp values ++ printed tap s es
