-- ===== src/Base/Bits.antt =====
-- Single bits of a word, and how `&`, `|` and `~` act on each of them.
use Prim.Native.Nat.{
  ℕ, zero, suc, ◌+◌, ◌-◌, ◌*◌, ◌/◌, ◌%◌, ◌^◌, ◌≤◌, ◌<◌, min, max, digits, bitwise, bit_and, bit_or,
  bit_and-bitwise, bit_or-bitwise,
}
use mathlib.Core.Path.{◌≡◌, refl, sym, ◌∙◌}
use native.Mathlib.Nat.{pow-suc, one-le-pow}
use native.Mathlib.Omega.{arith}

-- Bit `k` of a number.
abbrev pub bit : ℕ → ℕ → ℕ
bit zero v = v % 2
bit (suc k) v = bit k (v / 2)

-- `~x` on 32 bits
abbrev pub not32 : ℕ → ℕ
not32 x = 2 ^ 32 - 1 - x

-- `&` and `|` are sealed natively: this opens the lowest digit of the recursion that they mean.
module _ (z : ℕ → ℕ) (f : ℕ → ℕ → ℕ) where
  digits-zero : (n b : ℕ) → digits z f n zero b ≡ z b
  digits-zero zero b = refl
  digits-zero (suc n) b = refl

  digits_enough : (n m a b : ℕ) → a ≤ n → a ≤ m → digits z f n a b ≡ digits z f m a b
  digits_enough n m zero b p q = digits-zero n b ∙ sym (digits-zero m b)
  digits_enough zero m (suc a) b p q = absurd (omega arith)
  digits_enough (suc n) zero (suc a) b p q = absurd (omega arith)
  digits_enough (suc n) (suc m) (suc a) b p q =
      omega (arith, digits_enough n m (suc a / 2) (b / 2) (omega arith) (omega arith))

  bitwise_low :
      (a b : ℕ)
      → bitwise z f (suc a) b ≡ bitwise z f (suc a / 2) (b / 2) * 2 + f (suc a % 2) (b % 2)
  bitwise_low a b =
      omega (arith, digits_enough a (suc a / 2) (suc a / 2) (b / 2) (omega arith) (omega arith))

bit_and_low : (a b : ℕ) → bit_and a b ≡ bit_and (a / 2) (b / 2) * 2 + min (a % 2) (b % 2)
bit_and_low zero b = omega (arith, bit_and-bitwise 0 b, bit_and-bitwise 0 (b / 2))
bit_and_low (suc a) b = omega (
  arith,
  bit_and-bitwise (suc a) b,
  bit_and-bitwise (suc a / 2) (b / 2),
  bitwise_low (λ y. 0) min a b,
)

bit_or_low : (a b : ℕ) → bit_or a b ≡ bit_or (a / 2) (b / 2) * 2 + max (a % 2) (b % 2)
bit_or_low zero b = omega (arith, bit_or-bitwise 0 b, bit_or-bitwise 0 (b / 2))
bit_or_low (suc a) b = omega (
  arith,
  bit_or-bitwise (suc a) b,
  bit_or-bitwise (suc a / 2) (b / 2),
  bitwise_low (λ y. y) max a b,
)

pub zero-bit_and : (b : ℕ) → bit_and 0 b ≡ 0
zero-bit_and b = bit_and-bitwise 0 b

pub bit-le-one : (k v : ℕ) → bit k v ≤ 1
bit-le-one zero v = omega arith
bit-le-one (suc k) v = bit-le-one k (v / 2)

-- `&` keeps the bits that both words have.
pub bit-bit_and : (k a b : ℕ) → bit k (bit_and a b) ≡ min (bit k a) (bit k b)
bit-bit_and zero a b = omega (arith, bit_and_low a b)
bit-bit_and (suc k) a b =
    let halved : bit_and a b / 2 ≡ bit_and (a / 2) (b / 2) = omega (arith, bit_and_low a b) in
    rw halved (bit-bit_and k (a / 2) (b / 2))

-- `|` has the bits that either word has.
pub bit-bit_or : (k a b : ℕ) → bit k (bit_or a b) ≡ max (bit k a) (bit k b)
bit-bit_or zero a b = omega (arith, bit_or_low a b)
bit-bit_or (suc k) a b =
    let halved : bit_or a b / 2 ≡ bit_or (a / 2) (b / 2) = omega (arith, bit_or_low a b) in
    rw halved (bit-bit_or k (a / 2) (b / 2))

flip_bit : (w k v : ℕ) → k < w → v < 2 ^ w → bit k (2 ^ w - 1 - v) ≡ 1 - bit k v
flip_bit zero k v h p = absurd (omega arith)
flip_bit (suc w) zero v h p = omega (arith, pow-suc 2 w, one-le-pow w 2)
flip_bit (suc w) (suc k) v h p =
    let halved : (2 ^ suc w - 1 - v) / 2 ≡ 2 ^ w - 1 - v / 2 =
      omega (arith, pow-suc 2 w, one-le-pow w 2) in
    rw halved (flip_bit w k (v / 2) (omega arith) (omega (arith, pow-suc 2 w)))

-- `~` flips every bit of a 32-bit word.
pub bit-not32 : (k v : ℕ) → k < 32 → v < 2 ^ 32 → bit k (not32 v) ≡ 1 - bit k v
bit-not32 k v h p = flip_bit 32 k v h p

-- A word all of whose bits are 0 is 0.
pub eq_zero_of_bits : (w v : ℕ) → v < 2 ^ w → ((k : ℕ) → k < w → bit k v ≡ 0) → v ≡ 0
eq_zero_of_bits zero v p h = omega arith
eq_zero_of_bits (suc w) v p h = omega (
  arith,
  h 0 (omega arith),
  eq_zero_of_bits w (v / 2) (omega (arith, pow-suc 2 w)) (λ k q. h (suc k) (omega arith)),
)

pub bit-zero : (k : ℕ) → bit k 0 ≡ 0
bit-zero zero = refl
bit-zero (suc k) = bit-zero k

bit_and-lt_pow : (w a b : ℕ) → a < 2 ^ w → bit_and a b < 2 ^ w
bit_and-lt_pow zero zero b p = omega (arith, bit_and-bitwise 0 b)
bit_and-lt_pow zero (suc a) b p = absurd (omega arith)
bit_and-lt_pow (suc w) a b p = omega (
  arith,
  pow-suc 2 w,
  bit_and_low a b,
  bit_and-lt_pow w (a / 2) (b / 2) (omega (arith, pow-suc 2 w)),
)

bit_or-lt_pow : (w a b : ℕ) → a < 2 ^ w → b < 2 ^ w → bit_or a b < 2 ^ w
bit_or-lt_pow zero zero b p q = omega (arith, bit_or-bitwise 0 b)
bit_or-lt_pow zero (suc a) b p q = absurd (omega arith)
bit_or-lt_pow (suc w) a b p q = omega (
  arith,
  pow-suc 2 w,
  bit_or_low a b,
  bit_or-lt_pow w (a / 2) (b / 2) (omega (arith, pow-suc 2 w)) (omega (arith, pow-suc 2 w)),
)

-- Words of 32 bits stay so under `&` and `|`.
pub bit_and-lt : (a b : ℕ) → a < 2 ^ 32 → bit_and a b < 2 ^ 32
bit_and-lt a b p = bit_and-lt_pow 32 a b p

pub bit_or-lt : (a b : ℕ) → a < 2 ^ 32 → b < 2 ^ 32 → bit_or a b < 2 ^ 32
bit_or-lt a b p q = bit_or-lt_pow 32 a b p q
