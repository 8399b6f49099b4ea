-- ===== src/Zone/Receive/Fragments.antt =====
-- That a state is complete exactly when all of its fragments have come.
use native.Mathlib.Nat.{pow-suc, one-le-pow, pow-le-pow_right}
use gta_psp_multiplayer.Prelude.{
  ℕ, zero, suc, ◌+◌, ◌-◌, ◌%◌, ◌^◌, ◌≤◌, ◌<◌, bit_and, bit_or, Bool, true, false, List, [], ◌∷◌,
  ◌≡◌, ◌↔◌, refl, sym, ap, ◌∙◌, ltb, ◌==◌, arith, Bool-cases, inl, inr, ℕ_discrete, if◌then◌else◌,
}
use gta_psp_multiplayer.Prelude.Bits.{bit_and_mask}
use gta_psp_multiplayer.Prelude.Digits.{
  digit, and-digit, digit-or, digit-pow_self, digit-pow_ne, digit-zero, digit-le, AllOnes,
  AllOnes-eq, AllOnes-full, bit_or-lt,
}
use gta_psp_multiplayer.Zone.{ZonePeer}
use gta_psp_multiplayer.Zone.Receive.{
  all_ones, one_shl, begin_state, index_of, is_last, is_fresh, check_off, receive_fragment,
}

-- The sequence byte of fragment `i` of `count`: the last one has the flag.
abbrev pub sequence_byte : ℕ → ℕ → ℕ
sequence_byte count i = if i + 1 == count then i + 128 else i

-- The fragments of a state, by their numbers, the one that came last in front.
abbrev pub receive_all : (ℕ → ℕ) → ℕ → ℕ → List ℕ → ZonePeer → ZonePeer
receive_all wide n count [] p = p
receive_all wide n count (i ∷ is) p =
    receive_fragment wide n (sequence_byte count i) (receive_all wide n count is p)

abbrev pub AllBelow : ℕ → List ℕ → Type 0
AllBelow count [] = Unit {0}
AllBelow count (i ∷ is) = (i < count) × AllBelow count is

abbrev pub has : ℕ → List ℕ → Bool
has k [] = false
has k (i ∷ is) = if k == i then true else has k is

-- Every one of the first `count` fragments is among those that came.
abbrev pub AllCame : ℕ → List ℕ → Type 0
AllCame zero is = Unit {0}
AllCame (suc k) is = (has k is ≡ true) × AllCame k is

-- What is known of a peer after the fragments `is` of the state `n`.
record Tracks (n count : ℕ) (is : List ℕ) (p : ZonePeer) : Type 0 where
  on_state : p.state ≡ n
  small : p.seq_bitmask < 2 ^ count
  digits : (k : ℕ) → digit k p.seq_bitmask ≡ (if has k is then 1 else 0)
  expected : p.expected_seq_mask ≡ (if has (count - 1) is then 2 ^ count - 1 else all_ones)

index_of-sequence : (count i : ℕ) → i < count → count ≤ 31 → index_of (sequence_byte count i) ≡ i
index_of-sequence count i lt le = bit_and_mask 7 (sequence_byte count i) ∙ ground arith

is_last-sequence :
    (count i : ℕ) → i < count → count ≤ 31 → is_last (sequence_byte count i) ≡ (i + 1 == count)
is_last-sequence count i lt le = elim (ℕ_discrete (i + 1) count) [
  | yes e ↦
      let q : (i + 1 == count) ≡ true = ground arith in rw (q, and-digit 7 (i + 128)) (ground arith)
  | no ne ↦ let q : (i + 1 == count) ≡ false = ground arith in rw (q, and-digit 7 i) (ground arith)
]

pow_small : (k : ℕ) → k ≤ 31 → 2 ^ k ≤ 2 ^ 31
pow_small k h = pow-le-pow_right (omega arith) h

-- A fragment that came before changes nothing.
again :
    (wide : ℕ → ℕ) (n count i : ℕ) (is : List ℕ) (p : ZonePeer)
    → i < count
    → count ≤ 31
    → Tracks n count is p
    → has i is ≡ true
    → receive_fragment wide n (sequence_byte count i) p ≡ p
unfolding receive_fragment is_fresh
again wide n count i is p lt le t h =
    let shl : ltb i 32 ≡ true = ground arith in
    let d : digit i p.seq_bitmask ≡ 1 = t.digits i ∙ rw h in
    let q : (bit_and p.seq_bitmask (2 ^ i) == 0) ≡ false =
      ground (arith, and-digit i p.seq_bitmask, one-le-pow i 2) in
    let e : (n == p.state) ≡ true = ground (arith, t.on_state) in
    rw (index_of-sequence count i lt le, shl, q, e)

mask_value : (k : ℕ) → k ≤ 31 → (2 ^ k + 2 ^ 32 - 1) % 2 ^ 32 ≡ 2 ^ k - 1
mask_value k h = omega (arith, pow_small k h, one-le-pow k 2)

-- What the last fragment says of their number.
expected_value :
    (wide : ℕ → ℕ) (count i old : ℕ)
    → count ≤ 31
    → (if i + 1 == count then (one_shl wide (i + 1) + 2 ^ 32 - 1) % 2 ^ 32 else old)
      ≡ (if i + 1 == count then 2 ^ count - 1 else old)
expected_value wide count i old le = elim (ℕ_discrete (i + 1) count) [
  | yes e ↦
      let q : (i + 1 == count) ≡ true = ground arith in
      let r : ltb (i + 1) 32 ≡ true = ground arith in rw (q, r, e) (mask_value count le)
  | no ne ↦ let q : (i + 1 == count) ≡ false = ground arith in rw q
]

-- A new one is checked off.
fresh :
    (wide : ℕ → ℕ) (n count i : ℕ) (is : List ℕ) (p : ZonePeer)
    → i < count
    → count ≤ 31
    → Tracks n count is p
    → has i is ≡ false
    → receive_fragment wide n (sequence_byte count i) p ≡ record p {
      expected_seq_mask = if i + 1 == count then 2 ^ count - 1 else p.expected_seq_mask;
      seq_bitmask = bit_or p.seq_bitmask (2 ^ i);
    }
unfolding receive_fragment is_fresh check_off
fresh wide n count i is p lt le t h =
    let shl : ltb i 32 ≡ true = ground arith in
    let d : digit i p.seq_bitmask ≡ 0 = t.digits i ∙ rw h in
    let q : (bit_and p.seq_bitmask (2 ^ i) == 0) ≡ true =
      ground (arith, and-digit i p.seq_bitmask) in
    let e : (n == p.state) ≡ true = ground (arith, t.on_state) in
    rw (is_last-sequence count i lt le, index_of-sequence count i lt le, shl, q, e)
      (ap (λ v. record p { expected_seq_mask = v; seq_bitmask = bit_or p.seq_bitmask (2 ^ i) })
        (expected_value wide count i p.expected_seq_mask le))

step-Tracks :
    (wide : ℕ → ℕ) (n count i : ℕ) (is : List ℕ) (p : ZonePeer)
    → i < count
    → count ≤ 31
    → Tracks n count is p
    → Tracks n count (i ∷ is) (receive_fragment wide n (sequence_byte count i) p)
step-Tracks wide n count i is p lt le t = elim (Bool-cases (has i is)) [
  | inl h ↦ rw (again wide n count i is p lt le t h) (kept h)
  | inr h ↦ rw (fresh wide n count i is p lt le t h) (added h)
]
  where
    same_has : has i is ≡ true → (k : ℕ) → has k (i ∷ is) ≡ has k is
    same_has h k = elim (ℕ_discrete k i) [
      | yes e ↦ let q : (k == i) ≡ true = ground arith in rw (q, e, h)
      | no ne ↦ let q : (k == i) ≡ false = ground arith in rw q
    ]

    kept : has i is ≡ true → Tracks n count (i ∷ is) p
    kept h = record {
      on_state = t.on_state;
      small = t.small;
      digits = λ k. t.digits k ∙ ap (λ b. if b then 1 else 0) (sym (same_has h k));
      expected =
          t.expected
          ∙ ap (λ b. if b then 2 ^ count - 1 else all_ones) (sym (same_has h (count - 1)));
    }

    digit_of : (k : ℕ) → digit k (bit_or p.seq_bitmask (2 ^ i)) ≡ (if has k (i ∷ is) then 1 else 0)
    digit_of k = elim (ℕ_discrete k i) [
      | yes e ↦
          let q : (k == i) ≡ true = ground arith in
          rw (q, e)
            (omega
              (arith, digit-or i p.seq_bitmask (2 ^ i), digit-pow_self i, digit-le i p.seq_bitmask))
      | no ne ↦
          let q : (k == i) ≡ false = ground arith in
          rw q (omega (arith, digit-or k p.seq_bitmask (2 ^ i), digit-pow_ne k i ne) ∙ t.digits k)
    ]

    expected_of :
        (if i + 1 == count then 2 ^ count - 1 else p.expected_seq_mask)
        ≡ (if has (count - 1) (i ∷ is) then 2 ^ count - 1 else all_ones)
    expected_of = elim (ℕ_discrete (i + 1) count) [
      | yes e ↦
          let q : (i + 1 == count) ≡ true = ground arith in
          let r : (count - 1 == i) ≡ true = ground arith in rw (q, r)
      | no ne ↦
          let q : (i + 1 == count) ≡ false = ground arith in
          let r : (count - 1 == i) ≡ false = ground arith in rw (q, r) t.expected
    ]

    added :
        has i is ≡ false
        → Tracks n count (i ∷ is) (record p {
          expected_seq_mask = if i + 1 == count then 2 ^ count - 1 else p.expected_seq_mask;
          seq_bitmask = bit_or p.seq_bitmask (2 ^ i);
        })
    added h = record {
      on_state = t.on_state;
      small = bit_or-lt count p.seq_bitmask (2 ^ i) t.small (
          omega (
            arith,
            pow-suc 2 i,
            one-le-pow i 2,
            pow-le-pow_right {n = 2} (omega arith) {i = suc i} {j = count} (omega arith),
          ));
      digits = digit_of;
      expected = expected_of;
    }

all-Tracks :
    (wide : ℕ → ℕ) (n count : ℕ) (is : List ℕ) (p : ZonePeer)
    → p.state < n
    → count ≤ 31
    → AllBelow count is
    → Tracks n count is (receive_all wide n count is (begin_state n p))
unfolding begin_state
all-Tracks wide n count [] p lt le a =
    let q : ltb p.state n ≡ true = ground arith in
    rw q (record {
      on_state = refl;
      small = omega (arith, one-le-pow count 2);
      digits = digit-zero;
      expected = refl;
    })
all-Tracks wide n count (i ∷ is) p lt le a =
    step-Tracks wide n count i is (receive_all wide n count is (begin_state n p)) a.0 le
      (all-Tracks wide n count is p lt le a.1)

AllCame-AllOnes :
    (k m : ℕ) (is : List ℕ)
    → ((j : ℕ) → digit j m ≡ (if has j is then 1 else 0))
    → AllCame k is ↔ AllOnes k m
AllCame-AllOnes zero m is h = ((λ a. tt), λ a. tt)
AllCame-AllOnes (suc k) m is h =
    let (f, g) = AllCame-AllOnes k m is h in
    ((λ a. (h k ∙ rw a.0, f a.1)), λ a. (by_bool (has k is) (h k) a.0, g a.1))
  where
    by_bool : (b : Bool) → digit k m ≡ (if b then 1 else 0) → digit k m ≡ 1 → b ≡ true
    by_bool true e d = refl
    by_bool false e d = absurd (omega arith)

top_came : (count : ℕ) (is : List ℕ) → 0 < count → AllCame count is → has (count - 1) is ≡ true
top_came zero is h c = absurd (omega arith)
top_came (suc k) is h c = let e : suc k - 1 ≡ k = omega arith in rw e c.0

-- Of a state that is newer than the last one and comes in at most 31 fragments, in any order and each as
-- often as it likes, the fragments checked off are those expected exactly when all of them have come.
pub receive_all_complete :
    (wide : ℕ → ℕ) (n count : ℕ) (is : List ℕ) (p : ZonePeer)
    → p.state < n
    → 0 < count
    → count ≤ 31
    → AllBelow count is
    → let q = receive_all wide n count is (begin_state n p) in
      (q.seq_bitmask ≡ q.expected_seq_mask) ↔ AllCame count is
receive_all_complete wide n count is p lt ne le a =
    let q = receive_all wide n count is (begin_state n p) in
    let t = all-Tracks wide n count is p lt le a in
    let (f, g) = AllCame-AllOnes count q.seq_bitmask is t.digits in
    (
      (λ e. g (AllOnes-full count count q.seq_bitmask (omega arith) (e ∙ by_last e t.expected))),
      λ c.
          AllOnes-eq count q.seq_bitmask t.small (f c)
          ∙ sym (t.expected ∙ rw (top_came count is ne c)),
    )
  where
    by_last :
        let q = receive_all wide n count is (begin_state n p) in
        q.seq_bitmask ≡ q.expected_seq_mask
        → q.expected_seq_mask ≡ (if has (count - 1) is then 2 ^ count - 1 else all_ones)
        → q.expected_seq_mask ≡ 2 ^ count - 1
    by_last e x = elim (Bool-cases (has (count - 1) is)) [
      | inl h ↦ x ∙ rw h
      | inr h ↦
          let small = (all-Tracks wide n count is p lt le a).small in
          let y : (receive_all wide n count is (begin_state n p)).expected_seq_mask ≡ all_ones =
            x ∙ rw h in
          absurd (omega (arith, e, y, small, pow_small count le))
    ]
