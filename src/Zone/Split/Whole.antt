-- ===== src/Zone/Split/Whole.antt =====
-- That the packets of a state hold all of it, in order and numbered.
use gta_psp_multiplayer.Prelude.{
  ℕ, suc, ◌+◌, ◌*◌, ◌%◌, ◌^◌, ◌≤◌, ◌<◌, bit_or, Bool, true, false, List, [], ◌∷◌, ◌++◌, length, ltb,
  ◌==◌, ◌≡◌, sym, ap, subst, ◌∙◌, arith, Bool-cases, inl, inr, append_assoc, append-nil,
}
use gta_psp_multiplayer.Prelude.Bits.{bit_or_shifted}
use gta_psp_multiplayer.Zone.Receive.Fragments.{sequence_byte}
use gta_psp_multiplayer.Zone.Split.{StatePacket, split_size, split_chunks}

-- All payloads, one behind the other.
abbrev pub payloads : List StatePacket → List ℕ
payloads [] = []
payloads (p ∷ ps) = p.payload ++ payloads ps

abbrev pub join : List (List ℕ) → List ℕ
join [] = []
join (c ∷ cs) = c ++ join cs

-- The packets are numbered from `k` on, the last of all `count` with the flag.
abbrev pub IsNumbered : ℕ → ℕ → List StatePacket → Type 0
IsNumbered count k [] = k ≡ count
IsNumbered count k (p ∷ ps) = (p.sequence ≡ sequence_byte count k) × IsNumbered count (suc k) ps

overflows : ℕ → List ℕ → List ℕ → Bool
overflows head payload c = ltb split_size (head + length (payload ++ c))

split-next :
    (head seq : ℕ) (payload c : List ℕ) (cs : List (List ℕ)) (removals : List ℕ)
    → overflows head payload c ≡ true
    → split_chunks head seq payload (c ∷ cs) removals
      ≡ record { sequence = seq; payload = payload }
        ∷ split_chunks head ((seq + 1) % 2 ^ 8) c cs removals
unfolding overflows split_chunks
split-next head seq payload c cs removals q = rw (q, split_chunks)

split-same :
    (head seq : ℕ) (payload c : List ℕ) (cs : List (List ℕ)) (removals : List ℕ)
    → overflows head payload c ≡ false
    → split_chunks head seq payload (c ∷ cs) removals
      ≡ split_chunks head seq (payload ++ c) cs removals
unfolding overflows split_chunks
split-same head seq payload c cs removals q = rw (q, split_chunks)

payloads-split :
    (head seq : ℕ) (payload : List ℕ) (cs : List (List ℕ)) (removals : List ℕ)
    → payloads (split_chunks head seq payload cs removals) ≡ payload ++ (join cs ++ removals)
unfolding split_chunks
payloads-split head seq payload [] removals = append-nil (payload ++ removals)
payloads-split head seq payload (c ∷ cs) removals = elim (Bool-cases (overflows head payload c)) [
  | inl q ↦ rw (split-next head seq payload c cs removals q) (
      ap (λ t. payload ++ t)
        (payloads-split head ((seq + 1) % 2 ^ 8) c cs removals
          ∙ sym (append_assoc c (join cs) removals)))
  | inr q ↦ rw (split-same head seq payload c cs removals q) (
      payloads-split head seq (payload ++ c) cs removals
      ∙ append_assoc payload c (join cs ++ removals)
      ∙ ap (λ t. payload ++ t) (sym (append_assoc c (join cs) removals)))
]

-- Packets numbered from `seq` on, as many as `n` elements can make.
record IsSplit (seq n : ℕ) (ps : List StatePacket) : Type 0 where
  numbered : IsNumbered (seq + length ps) seq ps
  few : length ps ≤ n + 1
  some_left : 0 < length ps

cons-IsSplit :
    (seq n : ℕ) (payload : List ℕ) (rest : List StatePacket)
    → IsSplit (suc seq) n rest
    → IsSplit seq (suc n) (record { sequence = seq; payload = payload } ∷ rest)
cons-IsSplit seq n payload rest h =
    let k : seq + suc (length rest) ≡ suc seq + length rest = omega arith in
    let t : (seq + 1 == seq + suc (length rest)) ≡ false = ground (arith, h.some_left) in
    record {
      numbered = (rw t, subst (λ m. IsNumbered m (suc seq) rest) (sym k) h.numbered);
      few = omega (arith, h.few);
      some_left = omega arith;
    }

split_chunks-IsSplit :
    (head seq : ℕ) (payload : List ℕ) (cs : List (List ℕ)) (removals : List ℕ)
    → seq + length cs < 2 ^ 7
    → IsSplit seq (length cs) (split_chunks head seq payload cs removals)
unfolding split_chunks
split_chunks-IsSplit head seq payload [] removals h =
    let e : (seq + 1 == seq + 1) ≡ true = ground arith in
    let b : bit_or seq (1 * 2 ^ 7) ≡ seq + 1 * 2 ^ 7 = bit_or_shifted 7 1 seq (omega arith) in
    record { numbered = rw e (b, omega arith); few = omega arith; some_left = omega arith }
split_chunks-IsSplit head seq payload (c ∷ cs) removals h =
    elim (Bool-cases (overflows head payload c)) [
      | inl q ↦
          let e : (seq + 1) % 2 ^ 8 ≡ suc seq = omega arith in
          rw (split-next head seq payload c cs removals q, e)
            (cons-IsSplit seq (length cs) payload (split_chunks head (suc seq) c cs removals)
              (split_chunks-IsSplit head (suc seq) c cs removals (omega arith)))
      | inr q ↦
          let r = split_chunks-IsSplit head seq (payload ++ c) cs removals (omega arith) in
          rw (split-same head seq payload c cs removals q)
            (record { numbered = r.numbered; few = omega (arith, r.few); some_left = r.some_left })
    ]

-- However the elements fall into packets, at most 127 of them: the payloads, one behind the other, are the
-- acknowledgments, all elements and all removals in order; and the packets are numbered from zero on, the
-- last and no other with the flag.
pub split_chunks-whole :
    (head : ℕ) (acks : List ℕ) (cs : List (List ℕ)) (removals : List ℕ)
    → length cs < 2 ^ 7
    → let ps = split_chunks head 0 acks cs removals in
      (payloads ps ≡ acks ++ (join cs ++ removals))
      × IsNumbered (length ps) 0 ps
      × (0 < length ps)
      × (length ps ≤ length cs + 1)
split_chunks-whole head acks cs removals h =
    let r = split_chunks-IsSplit head 0 acks cs removals (omega arith) in
    let ps = split_chunks head 0 acks cs removals in
    let e : 0 + length ps ≡ length ps = omega arith in
    (
      payloads-split head 0 acks cs removals,
      subst (λ m. IsNumbered m 0 ps) e r.numbered,
      r.some_left,
      r.few,
    )
