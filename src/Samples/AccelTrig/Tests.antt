-- ===== src/Samples/AccelTrig/Tests.antt =====
-- A second of the trigger sample.
use micro_ros_controller_fir.Prelude.{ℕ, ◌+◌, ◌%◌, ◌^◌, ◌≡◌, refl, false, List, [], ◌∷◌, arith}
use micro_ros_controller_fir.Prelude.Int.{pos, negsuc}
use micro_ros_controller_fir.Common.Types.{Vector}
use micro_ros_controller_fir.Samples.Kernel.{Kernel}
use micro_ros_controller_fir.Samples.AccelTrig.{
  fetch_failed, interrupts, reading, Statics, Event, trigger, stats, turn, printed,
}
use micro_ros_controller_fir.Samples.AccelTrig.Report.{report, printed-report}

-- A binary semaphore and a variable of 32 bits.
abbrev kernel : Kernel
kernel = record {
  Sem = ℕ;
  k_sem_give = λ s. 1;
  Atomic = ℕ;
  atomic_inc = λ a. (a + 1) % 2 ^ 32;
  atomic_set = λ a n. (a, n % 2 ^ 32);
  value = λ a. a;
  inc_lem = λ a. refl;
  set_lem = λ a n. (refl, refl);
}

abbrev at_start : Statics kernel
at_start = record { irq_count = 0; sem = 0 }

abbrev level : Vector ℕ
level = record { x = 0; y = 0; z = 9 }

abbrev one_second : List (Event ℕ)
one_second =
    trigger (pos 0)
    ∷ trigger (negsuc 4)
    ∷ turn (pos 900) level
    ∷ trigger (pos 0)
    ∷ stats
    ∷ stats
    ∷ []

reported :
    report false 0 one_second
    ≡ fetch_failed ∷ reading (pos 900) level ∷ interrupts (pos 3) ∷ interrupts (pos 0) ∷ []
reported = refl

printed-report_example : printed kernel false at_start one_second ≡ report false 0 one_second
printed-report_example = printed-report kernel false at_start 0 one_second refl (omega arith)
