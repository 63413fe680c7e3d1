-- ===== src/Safety/Fault/Flags.antt =====
-- The fault word as a set of faults: what each operation does to each fault.
use mathlib.Core.Bool.{and-false, and-true, or-false, or_assoc}
use micro_ros_controller_fir.Prelude.{
  ℕ, ◌^◌, ◌<◌, ◌≡◌, ◌∙◌, ap, Bool, true, false, not, ◌&&◌, ◌||◌, arith, ◌==◌, if◌then◌else◌,
}
use micro_ros_controller_fir.Prelude.Bits.{
  test_bit, test_bit-or, test_bit-and, test_bit-complement, test_bit-zero, and-any, any_below,
}
use micro_ros_controller_fir.Safety.Fault.{
  FaultBit, cmd_timeout, agent_lost, undervoltage, overcurrent, motor_feedback, estop, watchdog,
  mask, bit_not, fault_init, fault_set, fault_clear, fault_is_set, fault_motion_inhibited,
  motion_faults,
}

-- The position of a fault's bit.
abbrev pub index : FaultBit → ℕ
index cmd_timeout = 0
index agent_lost = 1
index undervoltage = 2
index overcurrent = 3
index motor_feedback = 4
index estop = 5
index watchdog = 6

-- A fault is active.
abbrev pub holds : ℕ → FaultBit → Bool
holds word f = test_bit word (index f)

pub mask-lt : (f : FaultBit) → mask f < 2 ^ 7
mask-lt cmd_timeout = omega arith
mask-lt f = omega arith

ruleset bool_laws = (and-false, and-true, or-false)

-- The masks are distinct bits.
holds-mask : (f g : FaultBit) → holds (mask f) g ≡ (index f == index g)
unfolding test_bit
holds-mask f g = ground arith

index-lt : (f : FaultBit) → index f < 32
index-lt cmd_timeout = omega arith
index-lt f = omega arith

-- Of the bits of a mask one is set.
mask_bits :
    (f : FaultBit) (p : ℕ → Bool) → any_below 7 (λ i. p i && test_bit (mask f) i) ≡ p (index f)
unfolding test_bit any_below
mask_bits cmd_timeout p = simp bool_laws
mask_bits f p = simp bool_laws

-- Testing one fault's mask reads that fault.
pub is_set-mask : (w : ℕ) (f : FaultBit) → fault_is_set w (mask f) ≡ holds w f
unfolding fault_is_set
is_set-mask w f = and-any 7 w (mask f) (mask-lt f) ∙ mask_bits f (test_bit w)

motion_bits :
    (p : ℕ → Bool)
    → any_below 7 (λ i. p i && test_bit motion_faults i) ≡ (p 0 || p 1 || p 2 || p 5 || p 6)
unfolding test_bit any_below
motion_bits p = simp (bool_laws, or_assoc)

-- Motion is inhibited exactly when the command timeout, the lost agent, the undervoltage, the emergency
-- stop or the watchdog fault is active; overcurrent and motor feedback do not inhibit it.
pub motion_inhibited-holds :
    (w : ℕ)
    → fault_motion_inhibited w ≡ (
        holds w cmd_timeout
        || holds w agent_lost
        || holds w undervoltage
        || holds w estop
        || holds w watchdog)
unfolding fault_motion_inhibited
motion_inhibited-holds w = and-any 7 w motion_faults (omega arith) ∙ motion_bits (test_bit w)

-- After `fault_init` no fault is active.
pub fault_init-holds : (f : FaultBit) → holds fault_init f ≡ false
unfolding fault_init
fault_init-holds f = test_bit-zero (index f)

-- `fault_set` is a union: a fault is active afterwards exactly if it was or is among the bits.
pub fault_set-holds :
    (w bits : ℕ) (f : FaultBit) → holds (fault_set w bits) f ≡ (holds w f || holds bits f)
unfolding fault_set
fault_set-holds w bits f = test_bit-or (index f) w bits

-- For bits of 32 binary digits `fault_clear` is a difference: a fault is active afterwards exactly
-- if it was and is not among the bits.
pub fault_clear-holds :
    (w bits : ℕ) (f : FaultBit)
    → bits < 2 ^ 32
    → holds (fault_clear w bits) f ≡ (holds w f && not (holds bits f))
unfolding fault_clear
fault_clear-holds w bits f h =
    test_bit-and (index f) w (bit_not bits)
    ∙ ap (λ b. holds w f && b) (test_bit-complement 32 (index f) bits (index-lt f) h)

pub set-mask-holds :
    (w : ℕ) (f g : FaultBit) → holds (fault_set w (mask f)) g ≡ (holds w g || index f == index g)
set-mask-holds w f g = rw (fault_set-holds w (mask f) g, holds-mask f g)

pub clear-mask-holds :
    (w : ℕ) (f g : FaultBit)
    → holds (fault_clear w (mask f)) g ≡ (holds w g && not (index f == index g))
clear-mask-holds w f g =
    rw (fault_clear-holds w (mask f) g (omega (arith, mask-lt f)), holds-mask f g)

-- The code sets or clears one fault by a test.
pub decide-holds :
    (w : ℕ) (b : Bool) (f g : FaultBit)
    → holds (if b then fault_set w (mask f) else fault_clear w (mask f)) g
      ≡ (if index f == index g then b else holds w g)
decide-holds w true f g = rw (set-mask-holds w f g) (ground arith)
decide-holds w false f g = rw (clear-mask-holds w f g) (ground arith)
