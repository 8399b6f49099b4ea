-- ===== src/Prelude/Bits.antt =====
-- `&` with a mask of ones and `|` of fields that do not overlap, as arithmetic at every width.
-- The native operations stand for a recursion on binary digits, from which both laws are drawn.
use Prim.Native.Nat.{digits, bit_and-bitwise, bit_or-bitwise}
use native.Mathlib.Nat.{pow-suc, one-le-pow, div-add-mod}
use gta_psp_multiplayer.Prelude.{
  ℕ, zero, suc, ◌+◌, ◌-◌, ◌*◌, ◌/◌, ◌%◌, ◌^◌, ◌≤◌, ◌<◌, min, max, bit_and, bit_or, ◌≡◌, refl, ap,
  arith,
}

-- One binary digit of a digitwise operation, whatever the fuel, if it covers the first number.
module _ (z : ℕ → ℕ) (f : ℕ → ℕ → ℕ) where
  unroll : (n m a b : ℕ) → a ≤ n → a ≤ m → digits z f n a b ≡ digits z f m a b
  unroll n m zero b p q = both n m
    where
      both : (i j : ℕ) → digits z f i zero b ≡ digits z f j zero b
      both zero zero = refl
      both zero (suc j) = refl
      both (suc i) zero = refl
      both (suc i) (suc j) = refl
  unroll zero m (suc a) b p q = absurd (omega arith)
  unroll (suc n) zero (suc a) b p q = absurd (omega arith)
  unroll (suc n) (suc m) (suc a) b p q =
      ap (λ (d : ℕ). d * 2 + f (suc a % 2) (b % 2))
        (unroll n m (suc a / 2) (b / 2) (omega arith) (omega arith))

pub bit_or_step : (a b : ℕ) → bit_or a b ≡ bit_or (a / 2) (b / 2) * 2 + max (a % 2) (b % 2)
bit_or_step zero b = omega (arith, bit_or-bitwise 0 b, bit_or-bitwise 0 (b / 2))
bit_or_step (suc a) b = omega (
  arith,
  bit_or-bitwise (suc a) b,
  bit_or-bitwise (suc a / 2) (b / 2),
  unroll (λ t. t) max a (suc a / 2) (suc a / 2) (b / 2) (omega arith) (omega arith),
)

pub bit_and_step : (a b : ℕ) → bit_and a b ≡ bit_and (a / 2) (b / 2) * 2 + min (a % 2) (b % 2)
bit_and_step zero b = omega (arith, bit_and-bitwise 0 b, bit_and-bitwise 0 (b / 2))
bit_and_step (suc a) b = omega (
  arith,
  bit_and-bitwise (suc a) b,
  bit_and-bitwise (suc a / 2) (b / 2),
  unroll (λ t. 0) min a (suc a / 2) (suc a / 2) (b / 2) (omega arith) (omega arith),
)

and_nothing : (k a : ℕ) → a ≤ k → bit_and a 0 ≡ 0
and_nothing k zero h = omega (arith, bit_and-bitwise 0 0)
and_nothing zero (suc a) h = absurd (omega arith)
and_nothing (suc k) (suc a) h =
    omega (arith, bit_and_step (suc a) 0, and_nothing k (suc a / 2) (omega arith))

-- The product by a power of two, one binary place at a time.
place : (q k : ℕ) → q * 2 ^ suc k ≡ q * 2 ^ k + q * 2 ^ k
place q k = omega (arith, ap (λ (t : ℕ). q * t) (pow-suc 2 k))

mask_keeps : (k q r : ℕ) → r < 2 ^ k → bit_and (r + q * 2 ^ k) (2 ^ k - 1) ≡ r
mask_keeps zero q r h = omega (arith, and_nothing (r + q * 2 ^ 0) (r + q * 2 ^ 0) (omega arith))
mask_keeps (suc k) q r h = ground (
  arith,
  bit_and_step (r + q * 2 ^ suc k) (2 ^ suc k - 1),
  place q k,
  pow-suc 2 k,
  one-le-pow k 2,
  mask_keeps k q (r / 2) (omega (arith, pow-suc 2 k)),
)

-- `a & (2^k - 1)` keeps the low `k` bits.
pub bit_and_mask : (k a : ℕ) → bit_and a (2 ^ k - 1) ≡ a % 2 ^ k
bit_and_mask k a =
    ground (arith, one-le-pow k 2, mask_keeps k (a / 2 ^ k) (a % 2 ^ k), div-add-mod a (2 ^ k))

-- `r | (q << k)` is a sum when `r` fits the `k` bits that the shift left free.
pub bit_or_shifted : (k q r : ℕ) → r < 2 ^ k → bit_or r (q * 2 ^ k) ≡ r + q * 2 ^ k
bit_or_shifted zero q r h = or_zero_left (q * 1) r h
  where
    or_zero_left : (b r : ℕ) → r < 1 → bit_or r b ≡ r + b
    or_zero_left b zero h = omega (arith, bit_or-bitwise 0 b)
    or_zero_left b (suc r) h = absurd (omega arith)
bit_or_shifted (suc k) q r h = ground (
  arith,
  bit_or_step r (q * 2 ^ suc k),
  place q k,
  bit_or_shifted k q (r / 2) (omega (arith, pow-suc 2 k)),
)
