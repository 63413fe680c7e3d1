-- ===== src/Prelude/Bits.antt =====
-- The bits of a word, and what `|`, `&` and `~` do to each of them.
use Prim.Native.Nat.{
  ℕ, zero, suc, ◌+◌, ◌-◌, ◌*◌, ◌/◌, ◌%◌, ◌^◌, ◌≤◌, ◌<◌, min, max, digits, bitwise, bit_and, bit_or,
  bit_and-bitwise, bit_or-bitwise,
}
use mathlib.Core.Path.{◌≡◌, refl, ap, ◌∙◌}
use mathlib.Core.Bool.{Bool, false, not, ◌&&◌, ◌||◌}
use native.Mathlib.Nat.{pow-suc}
use native.Mathlib.Omega.{arith}
use micro_ros_controller_fir.Prelude.Tests.{◌==◌}

-- The library computes a bitwise operation digit by digit on fuel, and gives the first number itself as
-- the fuel. More fuel than that gives the same.
module _ (z : ℕ → ℕ) (f : ℕ → ℕ → ℕ) where
  one_more : (k a b : ℕ) → a ≤ k → digits z f (suc k) a b ≡ digits z f k a b
  one_more zero (suc a) b l = elim l [ ]
  one_more zero zero b l = refl
  one_more (suc k) zero b l = refl
  one_more (suc k) (suc a) b l = rw (one_more k (suc a / 2) (b / 2) (omega arith))

  more : (extra a b : ℕ) → digits z f (extra + a) a b ≡ digits z f a a b
  more zero a b = ap (λ k. digits z f k a b) (omega arith)
  more (suc extra) a b =
      let e : suc extra + a ≡ suc (extra + a) = omega arith in
      ap (λ k. digits z f k a b) e ∙ one_more (extra + a) a b (omega arith) ∙ more extra a b

  -- So the digits above the lowest are those of the halves.
  halves : (a b : ℕ) → digits z f a (suc a / 2) (b / 2) ≡ bitwise z f (suc a / 2) (b / 2)
  halves a b =
      let e : a ≡ (a - suc a / 2) + suc a / 2 = omega arith in
      ap (λ k. digits z f k (suc a / 2) (b / 2)) e ∙ more (a - suc a / 2) (suc a / 2) (b / 2)

  -- The number as twice its upper digits and the lowest.
  upper_digits :
      (m n : ℕ)
      → bitwise z f (suc m) n ≡ 2 * bitwise z f (suc m / 2) (n / 2) + f (suc m % 2) (n % 2)
  upper_digits m n = omega (arith, halves m n)

and_digit : (m n : ℕ) → bit_and m n ≡ 2 * bit_and (m / 2) (n / 2) + min (m % 2) (n % 2)
and_digit (suc m) n = simp bit_and-bitwise (upper_digits (λ y. 0) min m n)
and_digit zero n = simp bit_and-bitwise (omega arith)

or_digit : (m n : ℕ) → bit_or m n ≡ 2 * bit_or (m / 2) (n / 2) + max (m % 2) (n % 2)
or_digit (suc m) n = simp bit_or-bitwise (upper_digits (λ y. y) max m n)
or_digit zero n = simp bit_or-bitwise (omega arith)

pub zero-bit_and : (b : ℕ) → bit_and 0 b ≡ 0
zero-bit_and b = simp bit_and-bitwise

bit_and-zero_below : (n a : ℕ) → a < n → bit_and a 0 ≡ 0
bit_and-zero_below zero a h = elim h [ ]
bit_and-zero_below (suc n) zero h = zero-bit_and 0
bit_and-zero_below (suc n) (suc a) h =
    omega (arith, and_digit (suc a) 0, bit_and-zero_below n (suc a / 2) (omega arith))

pub bit_and-zero : (a : ℕ) → bit_and a 0 ≡ 0
bit_and-zero a = bit_and-zero_below (suc a) a (omega arith)

-- Bit `i` of `w`, by halving `i` times.
unfoldable pub test_bit : ℕ → ℕ → Bool
test_bit w zero = w % 2 == 1
test_bit w (suc i) = test_bit (w / 2) i

pub test_bit-or : (i a b : ℕ) → test_bit (bit_or a b) i ≡ (test_bit a i || test_bit b i)
unfolding test_bit
test_bit-or zero a b = ground (arith, or_digit a b)
test_bit-or (suc i) a b =
    let e : bit_or a b / 2 ≡ bit_or (a / 2) (b / 2) = omega (arith, or_digit a b) in
    rw e (test_bit-or i (a / 2) (b / 2))

pub test_bit-and : (i a b : ℕ) → test_bit (bit_and a b) i ≡ (test_bit a i && test_bit b i)
unfolding test_bit
test_bit-and zero a b = ground (arith, and_digit a b)
test_bit-and (suc i) a b =
    let e : bit_and a b / 2 ≡ bit_and (a / 2) (b / 2) = omega (arith, and_digit a b) in
    rw e (test_bit-and i (a / 2) (b / 2))

pub test_bit-complement :
    (k i b : ℕ) → i < k → b < 2 ^ k → test_bit (2 ^ k - 1 - b) i ≡ not (test_bit b i)
unfolding test_bit
test_bit-complement zero i b h l = elim h [ ]
test_bit-complement (suc k) zero b h l = ground (arith, pow-suc 2 k)
test_bit-complement (suc k) (suc i) b h l =
    let e : (2 ^ suc k - 1 - b) / 2 ≡ 2 ^ k - 1 - b / 2 = omega (arith, pow-suc 2 k) in
    rw e (test_bit-complement k i (b / 2) (omega arith) (omega (arith, pow-suc 2 k)))

pub test_bit-zero : (i : ℕ) → test_bit 0 i ≡ false
unfolding test_bit
test_bit-zero zero = refl
test_bit-zero (suc i) = test_bit-zero i

-- Some number below `k` passes the test.
unfoldable pub any_below : ℕ → (ℕ → Bool) → Bool
any_below zero p = false
any_below (suc k) p = p 0 || any_below k (λ i. p (suc i))

-- `a & m` is not zero exactly when `a` and `m` have a bit in common.
pub and-any :
    (k a m : ℕ)
    → m < 2 ^ k
    → not (bit_and a m == 0) ≡ any_below k (λ i. test_bit a i && test_bit m i)
unfolding any_below test_bit
and-any zero a m h = let e : m ≡ 0 = omega arith in rw (e, bit_and-zero a)
and-any (suc k) a m h =
    ground (arith, and_digit a m, and-any k (a / 2) (m / 2) (omega (arith, pow-suc 2 k)))

-- The operations stay within as many digits as their arguments have.
pub bit_or-lt : (k a b : ℕ) → a < 2 ^ k → b < 2 ^ k → bit_or a b < 2 ^ k
bit_or-lt zero a b h l =
    let e : a ≡ 0 = omega arith in let e' : b ≡ 0 = omega arith in rw (e, e') (omega arith)
bit_or-lt (suc k) a b h l =
    let p = pow-suc 2 k in
    omega
      (arith, or_digit a b, p, bit_or-lt k (a / 2) (b / 2) (omega (arith, p)) (omega (arith, p)))

pub bit_and-lt : (k a b : ℕ) → a < 2 ^ k → bit_and a b < 2 ^ k
bit_and-lt zero a b h = let e : a ≡ 0 = omega arith in rw (e, zero-bit_and b) (omega arith)
bit_and-lt (suc k) a b h =
    let p = pow-suc 2 k in
    omega (arith, and_digit a b, p, bit_and-lt k (a / 2) (b / 2) (omega (arith, p)))
