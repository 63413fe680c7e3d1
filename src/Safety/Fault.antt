-- ===== src/Safety/Fault.antt =====
-- The fault word (apps/rover_controller/src/safety/fault.c, fault.h). `fault_word` is a `uint32_t`
-- that each operation takes and returns; the spinlock makes each operation one atomic step.
pub mod Flags
pub mod View
mod Tests
use micro_ros_controller_fir.Prelude.{ℕ, ◌-◌, bit_and, bit_or, Bool, not, ◌==◌}

-- `enum fault_bit`, less FAULT_BIT_NONE, which is no bit.
pub data FaultBit : Type 0 where
  cmd_timeout agent_lost undervoltage overcurrent motor_feedback estop watchdog : FaultBit

-- The value of each constant, `1U << n`.
abbrev pub mask : FaultBit → ℕ
mask cmd_timeout = 1
mask agent_lost = 2
mask undervoltage = 4
mask overcurrent = 8
mask motor_feedback = 16
mask estop = 32
mask watchdog = 64

-- `~bits` of a `uint32_t`.
abbrev pub bit_not : ℕ → ℕ
bit_not bits = 0xffff_ffff - bits

unfoldable pub fault_init : ℕ
fault_init = 0

unfoldable pub fault_set : ℕ → ℕ → ℕ
fault_set fault_word bits = bit_or fault_word bits

unfoldable pub fault_clear : ℕ → ℕ → ℕ
fault_clear fault_word bits = bit_and fault_word (bit_not bits)

unfoldable pub fault_get : ℕ → ℕ
fault_get fault_word = fault_word

unfoldable pub fault_is_set : ℕ → ℕ → Bool
unfolding fault_get
fault_is_set fault_word bits = not (bit_and (fault_get fault_word) bits == 0)

-- The constant `motion_faults`.
abbrev pub motion_faults : ℕ
motion_faults =
    bit_or
      (bit_or (bit_or (bit_or (mask cmd_timeout) (mask agent_lost)) (mask undervoltage))
        (mask estop))
      (mask watchdog)

unfoldable pub fault_motion_inhibited : ℕ → Bool
unfolding fault_is_set
fault_motion_inhibited fault_word = fault_is_set fault_word motion_faults
