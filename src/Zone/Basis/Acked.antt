-- ===== src/Zone/Basis/Acked.antt =====
-- That a basis is a frame which all peers have, and stays one.
use mathlib.Core.List.{Memᴰ}
use mathlib.Core.List.Memᴰ
use gta_psp_multiplayer.Prelude.{
  ℕ, ◌^◌, ◌≤◌, ◌<◌, true, false, List, [], ◌∷◌, ◌≡◌, ◌≢◌, refl, sym, ◌⊎◌, inl, inr, arith, ltb,
  dec_lt, Bool-cases, if_case, if◌then◌else◌,
}
use gta_psp_multiplayer.Elements.History.{minus_16}
use gta_psp_multiplayer.Zone.{ZonePeer, Zone, is_empty, last_or}
use gta_psp_multiplayer.Zone.Common.{
  set_intersection, IsSorted, set_intersection-both, set_intersection-all,
  set_intersection-IsSorted,
}
use gta_psp_multiplayer.Zone.Basis.{
  combine_frames, combined_frames, is_stale, basis_of, choose_basis, trim_acks,
}

-- All peers have acknowledged a frame.
abbrev pub AllAcked : ℕ → List ZonePeer → Type 0
AllAcked f [] = Unit {0}
AllAcked f (p ∷ ps) = Memᴰ f p.acks × AllAcked f ps

abbrev pub AllSorted : List ZonePeer → Type 0
AllSorted [] = Unit {0}
AllSorted (p ∷ ps) = IsSorted p.acks × AllSorted ps

combine-both :
    (f : ℕ) (fs : List ℕ) (ps : List ZonePeer)
    → Memᴰ f (combine_frames fs ps)
    → Memᴰ f fs × AllAcked f ps
unfolding combine_frames
combine-both f fs [] m = (m, tt)
combine-both f fs (p ∷ ps) m = elim (Bool-cases (is_empty (set_intersection fs p.acks))) [
  | inl q ↦ absurd (nothing (set_intersection fs p.acks) q (rw q at m))
  | inr q ↦
      let (a, b) = combine-both f (set_intersection fs p.acks) ps (rw q at m) in
      let (c, d) = set_intersection-both f fs p.acks a in (c, (d, b))
]
  where
    nothing : (xs : List ℕ) → is_empty xs ≡ true → Memᴰ f xs → ⊥
    nothing [] q n = Memᴰ.not-nil n
    nothing (x ∷ xs) q n = true≢false (sym q)
      where
        true≢false : true ≢ false
        true≢false e = cc

combine-all :
    (f : ℕ) (fs : List ℕ) (ps : List ZonePeer)
    → IsSorted fs
    → AllSorted ps
    → Memᴰ f fs
    → AllAcked f ps
    → Memᴰ f (combine_frames fs ps)
unfolding combine_frames
combine-all f fs [] h k m a = m
combine-all f fs (p ∷ ps) h k m a =
    let n = set_intersection-all f fs p.acks h k.0 m a.0 in
    let s = set_intersection-IsSorted fs p.acks h in
    elim (Bool-cases (is_empty (set_intersection fs p.acks))) [
      | inl q ↦ rw q n
      | inr q ↦ rw q (combine-all f (set_intersection fs p.acks) ps s k.1 n a.1)
    ]

last-Mem : (x : ℕ) (xs : List ℕ) → Memᴰ (last_or x xs) (x ∷ xs)
last-Mem x [] = Memᴰ.head refl
last-Mem x (y ∷ ys) = Memᴰ.tail (last-Mem y ys)

last-greatest : (f x : ℕ) (xs : List ℕ) → IsSorted (x ∷ xs) → Memᴰ f (x ∷ xs) → f ≤ last_or x xs
last-greatest f x [] h m = elim (Memᴰ.cases_cons m) [
  | inl e ↦ omega arith
  | inr n ↦ absurd (Memᴰ.not-nil n)
]
last-greatest f x (y ∷ ys) h m = elim (Memᴰ.cases_cons m) [
  | inl e ↦ omega (arith, h.0, last-greatest y y ys h.1 (Memᴰ.head refl))
  | inr n ↦ last-greatest f y ys h.1 n
]

combined-AllAcked : (f : ℕ) (ps : List ZonePeer) → Memᴰ f (combined_frames ps) → AllAcked f ps
unfolding combined_frames
combined-AllAcked f [] m = tt
combined-AllAcked f (p ∷ ps) m = combine-both f p.acks ps m

combined-all :
    (f : ℕ) (p : ZonePeer) (ps : List ZonePeer)
    → AllSorted (p ∷ ps)
    → AllAcked f (p ∷ ps)
    → Memᴰ f (combined_frames (p ∷ ps))
unfolding combined_frames
combined-all f p ps s a = combine-all f p.acks ps s.0 s.1 a.0 a.1

combine-IsSorted :
    (fs : List ℕ) (qs : List ZonePeer) → IsSorted fs → IsSorted (combine_frames fs qs)
unfolding combine_frames
combine-IsSorted fs [] h = h
combine-IsSorted fs (q ∷ qs) h =
    let s = set_intersection-IsSorted fs q.acks h in
    if_case IsSorted (is_empty (set_intersection fs q.acks)) s
      (combine-IsSorted (set_intersection fs q.acks) qs s)

combined-IsSorted : (ps : List ZonePeer) → AllSorted ps → IsSorted (combined_frames ps)
unfolding combined_frames
combined-IsSorted [] s = tt
combined-IsSorted (p ∷ ps) s = combine-IsSorted p.acks ps s.0

-- At most 30 frames before the present one, or after it, by the difference in 16 bits.
abbrev pub IsRecent : ℕ → ℕ → Type 0
IsRecent now frame = (minus_16 now frame ≤ 30) ⊎ (2 ^ 15 ≤ minus_16 now frame)

recent : (now frame : ℕ) → is_stale now frame ≡ false → IsRecent now frame
recent now frame h = elim (dec_lt 30 (minus_16 now frame)) [
  | no le ↦ inl (omega arith)
  | yes old ↦ inr (ground arith)
]

choose_basis-basis :
    (now : ℕ) (z : Zone) → (choose_basis now z).basis ≡ basis_of now (combined_frames z.peers)
unfolding choose_basis
choose_basis-basis now z =
    if_case P (is_empty (combined_frames z.peers)) refl
      (if_case P (is_stale now (last_or 0 (combined_frames z.peers))) refl refl)
  where
    P : Zone → Type 0
    P y = y.basis ≡ basis_of now (combined_frames z.peers)

-- The frame that a state is sent against is the present one, against which everything is sent in full, or
-- one that every peer of the zone has acknowledged and that lies at most 30 frames back, or, where the
-- difference of the two in 16 bits is negative, ahead of the present one.
pub choose_basis-AllAcked :
    (now : ℕ) (z : Zone)
    → let b = (choose_basis now z).basis in (b ≡ now) ⊎ (AllAcked b z.peers × IsRecent now b)
unfolding basis_of
choose_basis-AllAcked now z =
    rw (choose_basis-basis now z)
      (by_frames (combined_frames z.peers) (λ f m. combined-AllAcked f z.peers m))
  where
    by_frames :
        (fs : List ℕ)
        → ((f : ℕ) → Memᴰ f fs → AllAcked f z.peers)
        → (basis_of now fs ≡ now)
          ⊎ (AllAcked (basis_of now fs) z.peers × IsRecent now (basis_of now fs))
    by_frames [] all = inl refl
    by_frames (f ∷ fs) all = elim (Bool-cases (is_stale now (last_or f fs))) [
      | inl q ↦ inl (rw q)
      | inr q ↦ inr (rw q (all (last_or f fs) (last-Mem f fs), recent now (last_or f fs) q))
    ]

-- With a frame that every peer has acknowledged, and the acknowledgments in order, the basis is the newest
-- such frame by its number, which all have and no frame that all have is after, or the present one if that
-- is stale.
pub choose_basis_lem :
    (now f : ℕ) (z : Zone) (p : ZonePeer) (ps : List ZonePeer)
    → z.peers ≡ p ∷ ps
    → AllSorted z.peers
    → AllAcked f z.peers
    → let g = last_or 0 (combined_frames z.peers) in
      AllAcked g z.peers
      × (f ≤ g)
      × ((choose_basis now z).basis ≡ (if is_stale now g then now else g))
unfolding basis_of
choose_basis_lem now f z p ps e s a = rw (choose_basis-basis now z) (
    by_frames (combined_frames z.peers) (λ f m. combined-AllAcked f z.peers m)
      (combined-IsSorted z.peers s) found)
  where
    found : Memᴰ f (combined_frames z.peers)
    found = rw e (combined-all f p ps (rw e at s) (rw e at a))

    by_frames :
        (fs : List ℕ)
        → ((f : ℕ) → Memᴰ f fs → AllAcked f z.peers)
        → IsSorted fs
        → Memᴰ f fs
        → AllAcked (last_or 0 fs) z.peers
          × (f ≤ last_or 0 fs)
          × (basis_of now fs ≡ (if is_stale now (last_or 0 fs) then now else last_or 0 fs))
    by_frames [] all h m = absurd (Memᴰ.not-nil m)
    by_frames (x ∷ xs) all h m =
        (all (last_or x xs) (last-Mem x xs), last-greatest f x xs h m, refl)

-- Trimming keeps the order, keeps every frame that is not before the basis, and the newest one in any case.
pub trim_acks_lem :
    (b f x : ℕ) (xs : List ℕ)
    → IsSorted (x ∷ xs)
    → Memᴰ f (x ∷ xs)
    → b ≤ f
    → IsSorted (trim_acks b (x ∷ xs))
      × Memᴰ f (trim_acks b (x ∷ xs))
      × (last_or 0 (trim_acks b (x ∷ xs)) ≡ last_or x xs)
unfolding trim_acks
trim_acks_lem b f x [] s m le = (tt, m, refl)
trim_acks_lem b f x (y ∷ xs) s m le = elim (dec_lt x b) [
  | yes lt ↦
      let q : ltb x b ≡ true = ground arith in
      rw q (trim_acks_lem b f y xs s.1 (later lt (Memᴰ.cases_cons m)) le)
  | no ge ↦ let q : ltb x b ≡ false = ground arith in rw q (s, m, refl)
]
  where
    later : x < b → (f ≡ x) ⊎ Memᴰ f (y ∷ xs) → Memᴰ f (y ∷ xs)
    later lt (inl e) = absurd (omega arith)
    later lt (inr n) = n

pub trim_acks-IsSorted : (b : ℕ) (xs : List ℕ) → IsSorted xs → IsSorted (trim_acks b xs)
unfolding trim_acks
trim_acks-IsSorted b [] s = tt
trim_acks-IsSorted b (x ∷ []) s = tt
trim_acks-IsSorted b (x ∷ y ∷ xs) s =
    if_case IsSorted (ltb x b) (trim_acks-IsSorted b (y ∷ xs) s.1) s
