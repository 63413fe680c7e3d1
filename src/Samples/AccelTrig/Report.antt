-- ===== src/Samples/AccelTrig/Report.antt =====
-- What the trigger sample reports.
use micro_ros_controller_fir.Prelude.{
  ℕ, ◌+◌, ◌<◌, ◌^◌, ◌≡◌, refl, ap, Bool, true, false, List, [], ◌∷◌, arith, Bool-cases, inl, inr,
  if◌then◌else◌,
}
use micro_ros_controller_fir.Prelude.Int.{ℤ, pos}
use micro_ros_controller_fir.Samples.Kernel.{Kernel, long_of, is_negative, is_error}
use micro_ros_controller_fir.Samples.AccelTrig.{
  Line, tap_detected, fetch_failed, interrupts, reading, Statics, Event, trigger, stats, turn,
  printed, tap_trigger_handler, trigger_handler, stats_work_handler, main_turn,
}

long_of-pos : (n : ℕ) → n < 2 ^ 31 → long_of n ≡ pos n
long_of-pos n h = ground arith

trigger-value :
    (k : Kernel) (V : Type 0) (fetched : ℤ) (s : Statics k) (n : ℕ)
    → k.value s.irq_count ≡ n
    → n + 1 < 2 ^ 31
    → k.value (trigger_handler k {V = V} fetched s).1.irq_count ≡ n + 1
unfolding trigger_handler
trigger-value k V fetched s n h l = elim (Bool-cases (is_error fetched)) [
  | inl e ↦ rw e (omega (arith, k.inc_lem s.irq_count, h, l))
  | inr e ↦ rw e (omega (arith, k.inc_lem s.irq_count, h, l))
]

module _ {V : Type 0} where
  abbrev pub triggers : List (Event V) → ℕ
  triggers [] = 0
  triggers (trigger fetched ∷ es) = 1 + triggers es
  triggers (e ∷ es) = triggers es

  -- The specification: with so many triggers since the last report, what is printed.
  abbrev pub report : (tap : Bool) → ℕ → List (Event V) → List (Line V)
  report tap n [] = []
  report false n (trigger fetched ∷ es) =
      if is_error fetched then fetch_failed ∷ report false (n + 1) es else report false (n + 1) es
  report true n (trigger fetched ∷ es) =
      if is_negative fetched
      then tap_detected ∷ fetch_failed ∷ report true n es
      else tap_detected ∷ report true n es
  report tap n (stats ∷ es) = interrupts (pos n) ∷ report tap 0 es
  report tap n (turn timestamp values ∷ es) = reading timestamp values ∷ report tap n es

  module _ (k : Kernel) where
    open k use {value, set_lem}

    tap_report :
        (fetched : ℤ) (s : Statics k) (n : ℕ) (es : List (Event V))
        → printed k true (tap_trigger_handler k {V = V} fetched s).1 es ≡ report true n es
        → printed k true s (trigger fetched ∷ es) ≡ report true n (trigger fetched ∷ es)
    unfolding printed tap_trigger_handler
    tap_report fetched s n es ih = elim (Bool-cases (is_negative fetched)) [
      | inl e ↦ rw e (ap (λ l. tap_detected ∷ fetch_failed ∷ l) ih)
      | inr e ↦ rw e (ap (λ l. tap_detected ∷ l) ih)
    ]

    trigger_report :
        (fetched : ℤ) (s : Statics k) (n : ℕ) (es : List (Event V))
        → printed k false (trigger_handler k {V = V} fetched s).1 es ≡ report false (n + 1) es
        → printed k false s (trigger fetched ∷ es) ≡ report false n (trigger fetched ∷ es)
    unfolding printed trigger_handler
    trigger_report fetched s n es ih = elim (Bool-cases (is_error fetched)) [
      | inl e ↦ rw e (ap (λ l. fetch_failed ∷ l) (rw e at ih))
      | inr e ↦ rw e (rw e at ih)
    ]

    -- While the count at the start and the triggers together stay below 2 ^ 31: without tap detection
    -- each report of the work item gives the number of triggers since the report before it, those
    -- included whose sample could not be fetched, the first one with the count at the start added; with
    -- tap detection the first gives the count at the start and all others 0. Every failed fetch, every
    -- tap and every turn of `main` is printed once, in the order of the events, and nothing else is.
    pub printed-report :
        (tap : Bool) (s : Statics k) (n : ℕ) (es : List (Event V))
        → value s.irq_count ≡ n
        → n + triggers es < 2 ^ 31
        → printed k tap s es ≡ report tap n es
    unfolding printed tap_trigger_handler trigger_handler stats_work_handler main_turn
    printed-report tap s n [] h l = refl
    printed-report true s n (trigger fetched ∷ es) h l =
        tap_report fetched s n es
          (printed-report true (tap_trigger_handler k {V = V} fetched s).1 n es h (omega arith))
    printed-report false s n (trigger fetched ∷ es) h l = trigger_report fetched s n es (
        printed-report false (trigger_handler k {V = V} fetched s).1 (n + 1) es
          (trigger-value k V fetched s n h (omega arith)) (omega arith))
    printed-report tap s n (stats ∷ es) h l =
        let (count, left) = set_lem s.irq_count 0 in
        let e : long_of (k.atomic_set s.irq_count 0).0 ≡ pos n =
          rw (count, h) (long_of-pos n (omega (arith, l))) in
        rw e (
          ap (λ r. interrupts (pos n) ∷ r)
            (printed-report tap (record s { irq_count = (k.atomic_set s.irq_count 0).1 }) 0 es
              (omega (arith, left)) (omega arith)))
    printed-report tap s n (turn timestamp values ∷ es) h l =
        ap (λ r. reading timestamp values ∷ r) (printed-report tap s n es h l)
