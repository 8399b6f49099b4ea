-- ===== src/Zone/Common.antt =====
-- The frames that all peers of a zone have acknowledged.
use Prim.Native.Nat.{compare, Ordering}
use mathlib.Core.List.{Memᴰ}
use mathlib.Core.List.Memᴰ
use gta_psp_multiplayer.Prelude.{ℕ, ◌≤◌, List, [], ◌∷◌, ◌≡◌, refl, ◌∙◌, inl, inr, arith, dec_lt}

-- `std::set_intersection` of two ranges in order.
unfoldable pub set_intersection : List ℕ → List ℕ → List ℕ
set_intersection [] ys = []
set_intersection (x ∷ xs) [] = []
set_intersection (x ∷ xs) (y ∷ ys) = elim (compare x y) [
  | Ordering.lt ↦ set_intersection xs (y ∷ ys)
  | Ordering.gt ↦ set_intersection (x ∷ xs) ys
  | Ordering.eq ↦ x ∷ set_intersection xs ys
]

-- In order, the oldest frame first; a frame may stand there more than once.
abbrev pub IsSorted : List ℕ → Type 0
IsSorted [] = Unit {0}
IsSorted (x ∷ []) = Unit {0}
IsSorted (x ∷ y ∷ xs) = (x ≤ y) × IsSorted (y ∷ xs)

pub tail-IsSorted : (x : ℕ) (xs : List ℕ) → IsSorted (x ∷ xs) → IsSorted xs
tail-IsSorted x [] h = tt
tail-IsSorted x (y ∷ xs) h = h.1

pub head-least : (x f : ℕ) (xs : List ℕ) → IsSorted (x ∷ xs) → Memᴰ f (x ∷ xs) → x ≤ f
head-least x f xs h m = elim (Memᴰ.cases_cons m) [ inl e ↦ omega arith | inr n ↦ deeper xs h n ]
  where
    deeper : (xs : List ℕ) → IsSorted (x ∷ xs) → Memᴰ f xs → x ≤ f
    deeper [] h n = absurd (Memᴰ.not-nil n)
    deeper (y ∷ ys) h n = elim (Memᴰ.cases_cons n) [
      | inl e ↦ omega arith
      | inr k ↦ deeper ys (skip y ys h) k
    ]
      where
        skip : (y : ℕ) (ys : List ℕ) → IsSorted (x ∷ y ∷ ys) → IsSorted (x ∷ ys)
        skip y [] h = tt
        skip y (z ∷ zs) h = (omega (arith, h.0, h.1.0), h.1.1)

-- Nothing is in the intersection that is not in both.
pub set_intersection-both :
    (f : ℕ) (xs ys : List ℕ) → Memᴰ f (set_intersection xs ys) → Memᴰ f xs × Memᴰ f ys
unfolding set_intersection
set_intersection-both f [] ys m = absurd (Memᴰ.not-nil m)
set_intersection-both f (x ∷ xs) [] m = absurd (Memᴰ.not-nil m)
set_intersection-both f (x ∷ xs) (y ∷ ys) m = elim (dec_lt x y) [
  | yes lt ↦
      let q : compare x y ≡ Ordering.lt = ground arith in
      let (a, b) = set_intersection-both f xs (y ∷ ys) (rw (q, set_intersection) at m) in
      (Memᴰ.tail a, b)
  | no ge ↦ elim (dec_lt y x) [
    | yes gt ↦
        let q : compare x y ≡ Ordering.gt = ground arith in
        let (a, b) = set_intersection-both f (x ∷ xs) ys (rw (q, set_intersection) at m) in
        (a, Memᴰ.tail b)
    | no le ↦
        let q : compare x y ≡ Ordering.eq = ground arith in
        let e : x ≡ y = omega arith in
        elim (Memᴰ.cases_cons (rw (q, set_intersection) at m)) [
          | inl k ↦ (Memᴰ.head k, Memᴰ.head (k ∙ e))
          | inr n ↦ let (a, b) = set_intersection-both f xs ys n in (Memᴰ.tail a, Memᴰ.tail b)
        ]
  ]
]

-- What is in both of two lists in order is in the intersection.
pub set_intersection-all :
    (f : ℕ) (xs ys : List ℕ)
    → IsSorted xs
    → IsSorted ys
    → Memᴰ f xs
    → Memᴰ f ys
    → Memᴰ f (set_intersection xs ys)
unfolding set_intersection
set_intersection-all f [] ys h k a b = absurd (Memᴰ.not-nil a)
set_intersection-all f (x ∷ xs) [] h k a b = absurd (Memᴰ.not-nil b)
set_intersection-all f (x ∷ xs) (y ∷ ys) h k a b = elim (dec_lt x y) [
  | yes lt ↦
      let q : compare x y ≡ Ordering.lt = ground arith in
      rw (q, set_intersection)
        (elim (Memᴰ.cases_cons a) [
          | inl e ↦ absurd (omega (arith, head-least y f ys k b))
          | inr n ↦ set_intersection-all f xs (y ∷ ys) (tail-IsSorted x xs h) k n b
        ])
  | no ge ↦ elim (dec_lt y x) [
    | yes gt ↦
        let q : compare x y ≡ Ordering.gt = ground arith in
        rw (q, set_intersection)
          (elim (Memᴰ.cases_cons b) [
            | inl e ↦ absurd (omega (arith, head-least x f xs h a))
            | inr n ↦ set_intersection-all f (x ∷ xs) ys h (tail-IsSorted y ys k) a n
          ])
    | no le ↦
        let q : compare x y ≡ Ordering.eq = ground arith in
        rw (q, set_intersection)
          (elim (Memᴰ.cases_cons a) [
            | inl e ↦ Memᴰ.head e
            | inr n ↦ elim (Memᴰ.cases_cons b) [
              | inl e ↦ Memᴰ.head (omega arith)
              | inr j ↦
                  Memᴰ.tail
                    (set_intersection-all f xs ys (tail-IsSorted x xs h) (tail-IsSorted y ys k) n j)
            ]
          ])
  ]
]

pub IsSorted-cons :
    (x : ℕ) (xs : List ℕ) → ((f : ℕ) → Memᴰ f xs → x ≤ f) → IsSorted xs → IsSorted (x ∷ xs)
IsSorted-cons x [] h s = tt
IsSorted-cons x (y ∷ xs) h s = (h y (Memᴰ.head refl), s)

pub set_intersection-IsSorted : (xs ys : List ℕ) → IsSorted xs → IsSorted (set_intersection xs ys)
unfolding set_intersection
set_intersection-IsSorted [] ys h = tt
set_intersection-IsSorted (x ∷ xs) [] h = tt
set_intersection-IsSorted (x ∷ xs) (y ∷ ys) h = elim (dec_lt x y) [
  | yes lt ↦
      let q : compare x y ≡ Ordering.lt = ground arith in
      rw (q, set_intersection) (set_intersection-IsSorted xs (y ∷ ys) (tail-IsSorted x xs h))
  | no ge ↦ elim (dec_lt y x) [
    | yes gt ↦
        let q : compare x y ≡ Ordering.gt = ground arith in
        rw (q, set_intersection) (set_intersection-IsSorted (x ∷ xs) ys h)
    | no le ↦
        let q : compare x y ≡ Ordering.eq = ground arith in
        rw (q, set_intersection)
          (IsSorted-cons x (set_intersection xs ys)
            (λ f m. head-least x f xs h (Memᴰ.tail (set_intersection-both f xs ys m).0))
            (set_intersection-IsSorted xs ys (tail-IsSorted x xs h)))
  ]
]
