-- ===== src/Zone/Order/Push.antt =====
-- The acknowledgments of a peer after one more is put among them.
use mathlib.Core.List.{Memᴰ}
use mathlib.Core.List.Memᴰ
use gta_psp_multiplayer.Prelude.{
  ℕ, ◌≤◌, ◌<◌, true, false, List, [], ◌∷◌, ◌≡◌, ◌≢◌, refl, sym, ◌∙◌, ◌⊎◌, inl, inr, ltb, arith,
  Bool-cases, dec_lt,
}
use gta_psp_multiplayer.Zone.Common.{IsSorted, IsSorted-cons, head-least, tail-IsSorted}
use gta_psp_multiplayer.Zone.Receive.{all_after, push_ack}

push-Mem : (h f : ℕ) (gs : List ℕ) → Memᴰ h (push_ack f gs) → (h ≡ f) ⊎ Memᴰ h gs
unfolding push_ack
push-Mem h f [] m = Memᴰ.cases_cons m
push-Mem h f (g ∷ gs) m = elim (Bool-cases (all_after f (g ∷ gs))) [
  | inl q ↦ Memᴰ.cases_cons (rw q at m)
  | inr q ↦ elim (Memᴰ.cases_cons (rw q at m)) [
    | inl e ↦ inr (Memᴰ.head e)
    | inr n ↦ elim (push-Mem h f gs n) [ inl e ↦ inl e | inr k ↦ inr (Memᴰ.tail k) ]
  ]
]

all_after-least : (h f : ℕ) (gs : List ℕ) → all_after f gs ≡ true → Memᴰ h gs → f ≤ h
all_after-least h f [] q m = absurd (Memᴰ.not-nil m)
all_after-least h f (g ∷ gs) q m = elim (dec_lt f g) [
  | yes lt ↦
      let r : ltb f g ≡ true = ground arith in
      elim (Memᴰ.cases_cons m) [
        | inl e ↦ omega arith
        | inr n ↦ all_after-least h f gs (rw r at q) n
      ]
  | no ge ↦ let r : ltb f g ≡ false = ground arith in absurd (false≢true (rw r at q))
]
  where
    false≢true : false ≢ true
    false≢true e = cc

all_after-true : (f : ℕ) (gs : List ℕ) → ((h : ℕ) → Memᴰ h gs → f < h) → all_after f gs ≡ true
all_after-true f [] h = refl
all_after-true f (g ∷ gs) h =
    let q : ltb f g ≡ true = ground (arith, h g (Memᴰ.head refl)) in
    rw q (all_after-true f gs (λ k m. h k (Memᴰ.tail m)))

-- If not all are after `f`, the first of a list in order is not.
first-least : (f g : ℕ) (gs : List ℕ) → IsSorted (g ∷ gs) → all_after f (g ∷ gs) ≡ false → g ≤ f
first-least f g gs s q = elim (dec_lt f g) [
  | yes lt ↦ absurd (
      true≢false
        (sym (all_after-true f (g ∷ gs) (λ h m. omega (arith, head-least g h gs s m))) ∙ q))
  | no ge ↦ omega arith
]
  where
    true≢false : true ≢ false
    true≢false e = cc

pub push_ack-IsSorted : (f : ℕ) (gs : List ℕ) → IsSorted gs → IsSorted (push_ack f gs)
unfolding push_ack
push_ack-IsSorted f [] s = tt
push_ack-IsSorted f (g ∷ gs) s = elim (Bool-cases (all_after f (g ∷ gs))) [
  | inl q ↦ rw q (IsSorted-cons f (g ∷ gs) (λ h m. all_after-least h f (g ∷ gs) q m) s)
  | inr q ↦ rw q (
      IsSorted-cons g (push_ack f gs) (λ h m. bound q (push-Mem h f gs m))
        (push_ack-IsSorted f gs (tail-IsSorted g gs s)))
]
  where
    bound : {h : ℕ} → all_after f (g ∷ gs) ≡ false → (h ≡ f) ⊎ Memᴰ h gs → g ≤ h
    bound q (inl e) = omega (arith, first-least f g gs s q)
    bound {h} q (inr n) = head-least g h gs s (Memᴰ.tail n)
