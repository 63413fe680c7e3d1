-- ===== src/Ros/Stamp.antt =====
-- The stamp of a published message: `sec = timestamp_ms / 1000`, an `int32_t`, and
-- `nanosec = (timestamp_ms % 1000) * 1000000`, a `uint32_t`. Division in C truncates towards zero.
mod Laws
mod Tests
use micro_ros_controller_fir.Prelude.{ℕ, suc, ◌+◌, ◌-◌, ◌*◌, ◌/◌, ◌%◌, ◌^◌, ltb, if◌then◌else◌}
use micro_ros_controller_fir.Prelude.Int.{ℤ, pos, negsuc}

pub record Stamp : Type 0 where
  pub sec : ℤ
  pub nanosec : ℕ

-- The `int32_t` with the given bit pattern, below 2 ^ 32.
abbrev pub int32 : ℕ → ℤ
int32 w = if ltb w (2 ^ 31) then pos w else negsuc (2 ^ 32 - w - 1)

-- The conversions of n and of -n to 32 bits.
abbrev pub low32 : ℕ → ℕ
low32 n = n % 2 ^ 32

abbrev pub neg_low32 : ℕ → ℕ
neg_low32 n = (2 ^ 32 - n % 2 ^ 32) % 2 ^ 32

unfoldable pub stamp_of : ℤ → Stamp
stamp_of (pos n) = record { sec = int32 (low32 (n / 1000)); nanosec = low32 (n % 1000 * 1_000_000) }
stamp_of (negsuc n) = record {
  sec = int32 (neg_low32 (suc n / 1000));
  nanosec = neg_low32 (suc n % 1000 * 1_000_000);
}
