-- ===== src/Safety/Fault/View.antt =====
-- The fault word as a set of faults.
use mathlib.Core.Bool.{or-false, or_assoc}
use micro_ros_controller_fir.Prelude.Bits.{and-any, any_below}
use micro_ros_controller_fir.Prelude.{
  ℕ, ◌<◌, ◌^◌, ◌≡◌, refl, ap, ◌∙◌, Bool, false, not, ◌&&◌, ◌||◌, List, [], ◌∷◌,
}
use micro_ros_controller_fir.Safety.Fault.{
  FaultBit, cmd_timeout, agent_lost, undervoltage, overcurrent, motor_feedback, estop, watchdog,
  fault_init, fault_set, fault_clear, fault_is_set, fault_motion_inhibited,
}
use micro_ros_controller_fir.Safety.Fault.Flags.{
  holds, fault_init-holds, fault_set-holds, fault_clear-holds, motion_inhibited-holds,
}

-- A call that changes the fault word.
pub data Call : Type 0 where
  init : Call
  set clear : (bits : ℕ) → Call

-- The fault word after calls.
unfoldable pub calls : ℕ → List Call → ℕ
calls w [] = w
calls w (init ∷ cs) = calls fault_init cs
calls w (set bits ∷ cs) = calls (fault_set w bits) cs
calls w (clear bits ∷ cs) = calls (fault_clear w bits) cs

-- The specification: one fault, which a call clears, sets or leaves as it is.
unfoldable pub fault_after : FaultBit → Bool → List Call → Bool
fault_after f b [] = b
fault_after f b (init ∷ cs) = fault_after f false cs
fault_after f b (set bits ∷ cs) = fault_after f (b || holds bits f) cs
fault_after f b (clear bits ∷ cs) = fault_after f (b && not (holds bits f)) cs

-- The bits that are cleared have 32 binary digits, as `uint32_t` has.
abbrev pub InUint32 : List Call → Type 0
InUint32 [] = Unit {0}
InUint32 (clear bits ∷ cs) = (bits < 2 ^ 32) × InUint32 cs
InUint32 (c ∷ cs) = InUint32 cs

pub calls-holds :
    (w : ℕ) (cs : List Call) (f : FaultBit)
    → InUint32 cs
    → holds (calls w cs) f ≡ fault_after f (holds w f) cs
unfolding calls fault_after
calls-holds w [] f h = refl
calls-holds w (init ∷ cs) f h =
    calls-holds fault_init cs f h ∙ ap (λ b. fault_after f b cs) (fault_init-holds f)
calls-holds w (set bits ∷ cs) f h =
    calls-holds (fault_set w bits) cs f h ∙ ap (λ b. fault_after f b cs) (fault_set-holds w bits f)
calls-holds w (clear bits ∷ cs) f (l, h) =
    calls-holds (fault_clear w bits) cs f h
    ∙ ap (λ b. fault_after f b cs) (fault_clear-holds w bits f l)

-- Some fault of the seven.
abbrev pub any_fault : (FaultBit → Bool) → Bool
any_fault p =
    p cmd_timeout
    || p agent_lost
    || p undervoltage
    || p overcurrent
    || p motor_feedback
    || p estop
    || p watchdog

is_set-any_fault :
    (w bits : ℕ) → bits < 2 ^ 7 → fault_is_set w bits ≡ any_fault (λ f. holds w f && holds bits f)
unfolding fault_is_set any_below
is_set-any_fault w bits h = and-any 7 w bits h ∙ simp (or_assoc, or-false)

-- The calls on the fault word implement a set of the seven faults: after any sequence of them, in which
-- the bits that are cleared have 32 binary digits, `fault_is_set` tells for the bits of any faults
-- whether one of them has been set since it was last cleared, or was active before and has not been
-- cleared, and motion is inhibited exactly when this holds of the command timeout, the lost agent, the
-- undervoltage, the emergency stop or the watchdog fault.
pub calls-refine :
    (w : ℕ) (cs : List Call)
    → InUint32 cs
    → let active = λ (f : FaultBit). fault_after f (holds w f) cs in
      ((bits : ℕ)
        → bits < 2 ^ 7
        → fault_is_set (calls w cs) bits ≡ any_fault (λ f. active f && holds bits f))
      × (fault_motion_inhibited (calls w cs) ≡ (
          active cmd_timeout
          || active agent_lost
          || active undervoltage
          || active estop
          || active watchdog))
calls-refine w cs h =
    let now = λ (f : FaultBit). calls-holds w cs f h in
    (
      λ bits l.
          is_set-any_fault (calls w cs) bits l
          ∙ rw
              (
                now cmd_timeout,
                now agent_lost,
                now undervoltage,
                now overcurrent,
                now motor_feedback,
                now estop,
                now watchdog,
              )
              refl,
      rw
          (
            motion_inhibited-holds (calls w cs),
            now cmd_timeout,
            now agent_lost,
            now undervoltage,
            now estop,
            now watchdog,
          )
          refl,
    )
