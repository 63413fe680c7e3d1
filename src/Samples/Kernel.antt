-- ===== src/Samples/Kernel.antt =====
-- What the samples use of the kernel, which is Zephyr's: a semaphore, and an atomic variable of 32 bits
-- with what its documentation says of it.
use micro_ros_controller_fir.Prelude.{
  ℕ, zero, ◌+◌, ◌%◌, ◌^◌, ◌≡◌, Bool, true, false, ltb, ◌-◌, if◌then◌else◌,
}
use micro_ros_controller_fir.Prelude.Int.{ℤ, pos, negsuc, ltb_ℤ}

pub record Kernel : Type 1 where
  pub Sem : Type 0
  pub k_sem_give : Sem → Sem
  pub Atomic : Type 0
  pub atomic_inc : Atomic → Atomic
  -- It returns the value before.
  pub atomic_set : Atomic → ℕ → ℕ × Atomic
  pub value : Atomic → ℕ
  pub inc_lem : (a : Atomic) → value (atomic_inc a) ≡ (value a + 1) % 2 ^ 32
  pub set_lem :
      (a : Atomic) (n : ℕ)
      → ((atomic_set a n).0 ≡ value a) × (value (atomic_set a n).1 ≡ n % 2 ^ 32)

-- The 32 bits of an `atomic_val_t` as the `long` that they are.
abbrev pub long_of : ℕ → ℤ
long_of n = if ltb n (2 ^ 31) then pos n else negsuc (2 ^ 32 - 1 - n)

-- A negative and a nonzero result.
abbrev pub is_negative : ℤ → Bool
is_negative rc = ltb_ℤ rc (pos 0)

abbrev pub is_error : ℤ → Bool
is_error (pos zero) = false
is_error rc = true
