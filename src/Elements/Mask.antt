-- ===== src/Elements/Mask.antt =====
-- The masks of bits that say which parts of an element's state follow.
use native.Mathlib.Nat.{pow-suc, one-le-pow}
use gta_psp_multiplayer.Prelude.{
  ℕ, zero, suc, ◌+◌, ◌*◌, ◌^◌, ◌≤◌, ◌<◌, bit_and, bit_or, Bool, true, false, not, List, [], ◌∷◌,
  get_or, length, ◌≡◌, ◌≢◌, refl, sym, ap, subst, ◌∙◌, arith, ◌==◌, if◌then◌else◌,
}
use gta_psp_multiplayer.Prelude.Bits.{bit_or_shifted}
use gta_psp_multiplayer.Prelude.Digits.{
  digit, and-digit, digit-or, digit-pow_self, digit-zero, digit-pow_ne, digit-le,
}

-- `mask & BIT(k)`, as a condition.
abbrev pub has_bit : ℕ → ℕ → Bool
has_bit k mask = not (bit_and mask (2 ^ k) == 0)

-- `if (changed) mask |= BIT(k)`
abbrev pub set_bit : Bool → ℕ → ℕ → ℕ
set_bit changed k mask = if changed then bit_or mask (2 ^ k) else mask

-- A row of such statements, from bit `i` on.
abbrev pub set_bits : ℕ → List Bool → ℕ → ℕ
set_bits i [] mask = mask
set_bits i (b ∷ bs) mask = set_bits (suc i) bs (set_bit b i mask)

has_bit-digit : (k m : ℕ) → has_bit k m ≡ (digit k m == 1)
has_bit-digit k m = rw (and-digit k m) (by_digit (digit k m) (digit-le k m))
  where
    by_digit : (d : ℕ) → d ≤ 1 → not (d * 2 ^ k == 0) ≡ (d == 1)
    by_digit zero h = ground arith
    by_digit (suc zero) h = ground (arith, one-le-pow k 2)
    by_digit (suc (suc d)) h = absurd (omega arith)

-- Setting a bit leaves the others as they are.
has_bit-set_bit_ne : (k j : ℕ) (b : Bool) (m : ℕ) → k ≢ j → has_bit k (set_bit b j m) ≡ has_bit k m
has_bit-set_bit_ne k j false m h = refl
has_bit-set_bit_ne k j true m h =
    let e : digit k (bit_or m (2 ^ j)) ≡ digit k m =
      omega (arith, digit-or k m (2 ^ j), digit-pow_ne k j h) in
    has_bit-digit k (bit_or m (2 ^ j)) ∙ ap (λ (d : ℕ). d == 1) e ∙ sym (has_bit-digit k m)

has_bit-set_bit_self :
    (k : ℕ) (b : Bool) (m : ℕ) → has_bit k m ≡ false → has_bit k (set_bit b k m) ≡ b
has_bit-set_bit_self k false m h = h
has_bit-set_bit_self k true m h =
    let e : digit k (bit_or m (2 ^ k)) ≡ 1 =
      omega (arith, digit-or k m (2 ^ k), digit-pow_self k, digit-le k m) in
    has_bit-digit k (bit_or m (2 ^ k)) ∙ ap (λ (d : ℕ). d == 1) e

has_bit-below :
    (k i : ℕ) (bs : List Bool) (m : ℕ) → k < i → has_bit k (set_bits i bs m) ≡ has_bit k m
has_bit-below k i [] m h = refl
has_bit-below k i (b ∷ bs) m h =
    has_bit-below k (suc i) bs (set_bit b i m) (omega arith)
    ∙ has_bit-set_bit_ne k i b m (λ e. absurd (omega arith))

has_bit-from :
    (i n : ℕ) (bs : List Bool) (m : ℕ)
    → ((k : ℕ) → i ≤ k → has_bit k m ≡ false)
    → has_bit (i + n) (set_bits i bs m) ≡ get_or bs n false
has_bit-from i n [] m h = h (i + n) (omega arith)
has_bit-from i zero (b ∷ bs) m h =
    let e : i + zero ≡ i = omega arith in
    rw e (
      has_bit-below i (suc i) bs (set_bit b i m) (omega arith)
      ∙ has_bit-set_bit_self i b m (h i (omega arith)))
has_bit-from i (suc n) (b ∷ bs) m h =
    let e : i + suc n ≡ suc i + n = omega arith in
    rw e (
      has_bit-from (suc i) n bs (set_bit b i m)
        (λ k p. has_bit-set_bit_ne k i b m (λ q. absurd (omega arith)) ∙ h k (omega arith)))

-- The bits that were set are those that are found, in the order they were set in.
pub has_bit-set_bits : (n : ℕ) (bs : List Bool) → has_bit n (set_bits 0 bs 0) ≡ get_or bs n false
has_bit-set_bits n bs =
    let e : 0 + n ≡ n = omega arith in
    subst (λ k. has_bit k (set_bits 0 bs 0) ≡ get_or bs n false) e
      (has_bit-from 0 n bs 0 (λ k p. none_set k))
  where
    none_set : (k : ℕ) → has_bit k 0 ≡ false
    none_set k = has_bit-digit k 0 ∙ ap (λ (d : ℕ). d == 1) (digit-zero k)

-- So many bits make so small a mask.
pub set_bits-lt :
    (i : ℕ) (bs : List Bool) (m : ℕ) → m < 2 ^ i → set_bits i bs m < 2 ^ (i + length bs)
set_bits-lt i [] m h = let e : i + 0 ≡ i = omega arith in rw e h
set_bits-lt i (b ∷ bs) m h =
    let e : i + suc (length bs) ≡ suc i + length bs = omega arith in
    rw e (set_bits-lt (suc i) bs (set_bit b i m) (next b))
  where
    next : (b : Bool) → set_bit b i m < 2 ^ suc i
    next false = omega (arith, pow-suc 2 i)
    next true =
        let q : bit_or m (1 * 2 ^ i) ≡ m + 1 * 2 ^ i = bit_or_shifted i 1 m h in
        let k : 1 * 2 ^ i ≡ 2 ^ i = omega arith in
        let r : bit_or m (2 ^ i) ≡ m + 2 ^ i = rw k at q in omega (arith, pow-suc 2 i, r)
