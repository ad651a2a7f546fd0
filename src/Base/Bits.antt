-- ===== src/Base/Bits.antt =====
-- Bits of a mask, and what `&` and `|` do to each.
use Prim.Native.Nat.{
  ℕ, zero, suc, ◌+◌, ◌*◌, ◌/◌, ◌%◌, ◌^◌, ◌≤◌, min, max, bit_and, bit_or, digits, bit_and-bitwise,
  bit_or-bitwise,
}
use mathlib.Core.Path.{◌≡◌, refl, ap}
use mathlib.Core.Bool.{Bool, true, false, ◌&&◌, ◌||◌}
use native.Mathlib.Nat.{pow-suc}
use native.Mathlib.Omega.{arith}
use tesla.Base.Tests.{◌==◌, ==_iff, if◌then◌else◌}

-- Bit `i` of `m`.
unfoldable pub bit : ℕ → ℕ → Bool
bit m zero = m % 2 == 1
bit m (suc i) = bit (m / 2) i

-- `SUBSET(x, y)`
unfoldable pub subset : ℕ → ℕ → Bool
subset x y = bit_and x y == x

-- The recursion on digits that the native operations stand for, and a change of its fuel.
abbrev and_rec : ℕ → ℕ → ℕ → ℕ
and_rec fuel a b = digits (λ _. 0) min fuel a b

abbrev or_rec : ℕ → ℕ → ℕ → ℕ
or_rec fuel a b = digits (λ y. y) max fuel a b

module _ (rest : ℕ → ℕ) (op : ℕ → ℕ → ℕ) where
  digits-more_fuel : (f g a b : ℕ) → a ≤ f → a ≤ g → digits rest op f a b ≡ digits rest op g a b
  digits-more_fuel zero g zero b p q = digits-zero g b
    where
      digits-zero : (g b : ℕ) → rest b ≡ digits rest op g 0 b
      digits-zero zero b = refl
      digits-zero (suc g) b = refl
  digits-more_fuel zero g (suc a) b p q = absurd (omega arith)
  digits-more_fuel (suc f) zero zero b p q = refl
  digits-more_fuel (suc f) zero (suc a) b p q = absurd (omega arith)
  digits-more_fuel (suc f) (suc g) zero b p q = refl
  digits-more_fuel (suc f) (suc g) (suc a) b p q =
      rw (digits-more_fuel f g (suc a / 2) (b / 2) (omega arith) (omega arith))

pub zero-and : (b : ℕ) → bit_and 0 b ≡ 0
zero-and b = bit_and-bitwise 0 b

zero-or : (b : ℕ) → bit_or 0 b ≡ b
zero-or b = bit_or-bitwise 0 b

and-halves : (a b : ℕ) → bit_and a b ≡ bit_and (a / 2) (b / 2) * 2 + min (a % 2) (b % 2)
and-halves zero b = omega (arith, zero-and b, zero-and (b / 2))
and-halves (suc a) b = omega (
  arith,
  bit_and-bitwise (suc a) b,
  bit_and-bitwise (suc a / 2) (b / 2),
  digits-more_fuel (λ _. 0) min a (suc a / 2) (suc a / 2) (b / 2) (omega arith) (omega arith),
)

or-halves : (a b : ℕ) → bit_or a b ≡ bit_or (a / 2) (b / 2) * 2 + max (a % 2) (b % 2)
or-halves zero b = omega (arith, zero-or b, zero-or (b / 2))
or-halves (suc a) b = omega (
  arith,
  bit_or-bitwise (suc a) b,
  bit_or-bitwise (suc a / 2) (b / 2),
  digits-more_fuel (λ y. y) max a (suc a / 2) (suc a / 2) (b / 2) (omega arith) (omega arith),
)

pub bit-and : (a b i : ℕ) → bit (bit_and a b) i ≡ (bit a i && bit b i)
unfolding bit
bit-and a b zero = ground (arith, and-halves a b)
bit-and a b (suc i) =
    let half : bit_and a b / 2 ≡ bit_and (a / 2) (b / 2) = omega (arith, and-halves a b) in
    rw half (bit-and (a / 2) (b / 2) i)

pub bit-or : (a b i : ℕ) → bit (bit_or a b) i ≡ (bit a i || bit b i)
unfolding bit
bit-or a b zero = ground (arith, or-halves a b)
bit-or a b (suc i) =
    let half : bit_or a b / 2 ≡ bit_or (a / 2) (b / 2) = omega (arith, or-halves a b) in
    rw half (bit-or (a / 2) (b / 2) i)

bit-zero : (i : ℕ) → bit 0 i ≡ false
unfolding bit
bit-zero zero = refl
bit-zero (suc i) = bit-zero i

eq_of_bits_below : (f a b : ℕ) → a ≤ f → b ≤ f → ((i : ℕ) → bit a i ≡ bit b i) → a ≡ b
unfolding bit
eq_of_bits_below zero a b p q h = omega arith
eq_of_bits_below (suc f) a b p q h =
    let low : a % 2 ≡ b % 2 = ground (arith, h 0) in
    omega (arith, eq_of_bits_below f (a / 2) (b / 2) (omega arith) (omega arith) (λ i. h (suc i)))

-- Numbers with the same bits are equal.
pub eq_of_bits : (a b : ℕ) → ((i : ℕ) → bit a i ≡ bit b i) → a ≡ b
eq_of_bits a b h = eq_of_bits_below (max a b) a b (omega arith) (omega arith) h

pub subset-bit : (x y i : ℕ) → subset x y ≡ true → bit x i ≡ true → bit y i ≡ true
unfolding subset
subset-bit x y i h b =
    let e : bit_and x y ≡ x = (==_iff _ x).0 h in ground (arith, bit-and x y i, ap (λ m. bit m i) e)

pub subset-of_bits : (x y : ℕ) → ((i : ℕ) → bit x i ≡ true → bit y i ≡ true) → subset x y ≡ true
unfolding subset
subset-of_bits x y h = (==_iff _ x).1 (eq_of_bits _ x (λ i. ground (arith, bit-and x y i, h i)))

and-zero : (a : ℕ) → bit_and a 0 ≡ 0
and-zero a = eq_of_bits _ 0 (λ i. ground (arith, bit-and a 0 i, bit-zero i))

-- `m & (1 << i)`, as `IS_SET` and the loops of the source test it.
pub and-bit : (m i : ℕ) → bit_and m (2 ^ i) ≡ (if bit m i then 2 ^ i else 0)
unfolding bit
and-bit m zero = ground (arith, and-halves m 1, and-zero (m / 2))
and-bit m (suc i) = ground (arith, and-halves m (2 ^ suc i), pow-suc 2 i, and-bit (m / 2) i)
