-- ===== src/Prelude/Digits.antt =====
-- The binary digits of a number, and what `&` and `|` do to them.
use native.Mathlib.Nat.{pow-suc, one-le-pow}
use gta_psp_multiplayer.Prelude.{
  ℕ, zero, suc, ◌-◌, ◌*◌, ◌/◌, ◌%◌, ◌^◌, ◌≤◌, ◌<◌, max, bit_and, bit_or, ◌≡◌, ◌≢◌, refl, ap, arith,
}
use gta_psp_multiplayer.Prelude.Bits.{bit_and_mask, bit_and_step, bit_or_step}

-- The digit at place `k`.
abbrev pub digit : ℕ → ℕ → ℕ
digit zero m = m % 2
digit (suc k) m = digit k (m / 2)

pub and-digit : (k m : ℕ) → bit_and m (2 ^ k) ≡ digit k m * 2 ^ k
and-digit zero m = omega (arith, bit_and_step m 1, bit_and_mask 0 (m / 2))
and-digit (suc k) m =
    let e : 2 ^ suc k / 2 ≡ 2 ^ k = omega (arith, pow-suc 2 k) in
    let p : bit_and (m / 2) (2 ^ suc k / 2) ≡ digit k (m / 2) * 2 ^ k =
      rw e (and-digit k (m / 2)) in
    let q : digit k (m / 2) * 2 ^ suc k ≡ digit k (m / 2) * 2 ^ k * 2 =
      omega (arith, ap (λ (t : ℕ). digit k (m / 2) * t) (pow-suc 2 k)) in
    omega (arith, bit_and_step m (2 ^ suc k), pow-suc 2 k, p, q)

pub digit-or : (k a b : ℕ) → digit k (bit_or a b) ≡ max (digit k a) (digit k b)
digit-or zero a b = omega (arith, bit_or_step a b)
digit-or (suc k) a b =
    let e : bit_or a b / 2 ≡ bit_or (a / 2) (b / 2) = omega (arith, bit_or_step a b) in
    rw e (digit-or k (a / 2) (b / 2))

pub digit-pow_self : (k : ℕ) → digit k (2 ^ k) ≡ 1
digit-pow_self zero = refl
digit-pow_self (suc k) =
    let e : 2 ^ suc k / 2 ≡ 2 ^ k = omega (arith, pow-suc 2 k) in rw e (digit-pow_self k)

pub digit-zero : (k : ℕ) → digit k 0 ≡ 0
digit-zero zero = refl
digit-zero (suc k) = digit-zero k

pub digit-pow_ne : (k j : ℕ) → k ≢ j → digit k (2 ^ j) ≡ 0
digit-pow_ne zero zero h = absurd (h refl)
digit-pow_ne zero (suc j) h = omega (arith, pow-suc 2 j)
digit-pow_ne (suc k) zero h = digit-zero k
digit-pow_ne (suc k) (suc j) h =
    let e : 2 ^ suc j / 2 ≡ 2 ^ j = omega (arith, pow-suc 2 j) in
    rw e (digit-pow_ne k j (λ p. h (ap suc p)))

pub digit-le : (k m : ℕ) → digit k m ≤ 1
digit-le zero m = omega arith
digit-le (suc k) m = digit-le k (m / 2)

-- A number of `n` digits that are all ones.
abbrev pub AllOnes : ℕ → ℕ → Type 0
AllOnes zero m = Unit {0}
AllOnes (suc n) m = (digit n m ≡ 1) × AllOnes n m

AllOnes-half : (n m : ℕ) → AllOnes (suc n) m → AllOnes n (m / 2) × (m % 2 ≡ 1)
AllOnes-half zero m h = (tt, h.0)
AllOnes-half (suc n) m h = let (a, b) = AllOnes-half n m h.1 in ((h.0, a), b)

pub AllOnes-eq : (n m : ℕ) → m < 2 ^ n → AllOnes n m → m ≡ 2 ^ n - 1
AllOnes-eq zero m lt h = omega arith
AllOnes-eq (suc n) m lt h =
    let (a, b) = AllOnes-half n m h in
    omega (arith, pow-suc 2 n, one-le-pow n 2, AllOnes-eq n (m / 2) (omega (arith, pow-suc 2 n)) a)

digit-ones : (k j m : ℕ) → k < j → m ≡ 2 ^ j - 1 → digit k m ≡ 1
digit-ones k zero m h e = absurd (omega arith)
digit-ones zero (suc j) m h e = omega (arith, pow-suc 2 j, one-le-pow j 2)
digit-ones (suc k) (suc j) m h e =
    digit-ones k j (m / 2) (omega arith) (omega (arith, pow-suc 2 j, one-le-pow j 2))

pub AllOnes-full : (n j m : ℕ) → n ≤ j → m ≡ 2 ^ j - 1 → AllOnes n m
AllOnes-full zero j m h e = tt
AllOnes-full (suc n) j m h e =
    (digit-ones n j m (omega arith) e, AllOnes-full n j m (omega arith) e)

pub bit_or-lt : (n a b : ℕ) → a < 2 ^ n → b < 2 ^ n → bit_or a b < 2 ^ n
bit_or-lt zero a b h k =
    let e : a ≡ 0 = omega arith in let f : b ≡ 0 = omega arith in rw (e, f) (omega arith)
bit_or-lt (suc n) a b h k = omega (
  arith,
  pow-suc 2 n,
  bit_or_step a b,
  bit_or-lt n (a / 2) (b / 2) (omega (arith, pow-suc 2 n)) (omega (arith, pow-suc 2 n)),
)
