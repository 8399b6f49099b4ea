-- ===== src/Zone/Split/Removals.antt =====
-- When the word that an element was removed is said for the last time.
use mathlib.Core.List.{Memᴰ}
use mathlib.Core.List.Memᴰ
use gta_psp_multiplayer.Prelude.{
  ℕ, ◌+◌, ◌≤◌, Bool, true, false, ◌&&◌, List, [], ◌∷◌, ltb, ◌≡◌, refl, sym, ◌∙◌, ◌⊎◌, inl, inr,
  arith, Bool-cases, if_case, if◌then◌else◌,
}
use gta_psp_multiplayer.Elements.History.{before, before_self}
use gta_psp_multiplayer.Zone.{ZonePeer, ElementEntry, Zone, is_empty, last_or}
use gta_psp_multiplayer.Zone.Basis.{final_flag, choose_basis, combined_frames, is_stale}
use gta_psp_multiplayer.Zone.Basis.Acked.{AllAcked, choose_basis-AllAcked}
use gta_psp_multiplayer.Zone.Split.{keep_removals, settle_removals}

-- A removal that is said for the first time is marked, with the frame of that.
abbrev pub said : ℕ → ElementEntry → ElementEntry
said now r =
    if ltb r.entity_id final_flag
    then record { entry_basis = now; entity_id = r.entity_id + final_flag }
    else r

-- The sender's frame is after the basis, and the basis after the frame in which the removal was marked.
abbrev pub is_settled : ℕ → ℕ → ElementEntry → Bool
is_settled now basis r =
    if ltb r.entity_id final_flag then false else before basis now && before r.entry_basis basis

keep_removals-turn :
    (now basis : ℕ) (x : ElementEntry) (rs : List ElementEntry)
    → keep_removals now basis false (x ∷ rs) ≡ (
        if is_settled now basis x
        then keep_removals now basis false rs
        else said now x ∷ keep_removals now basis false rs)
unfolding keep_removals
keep_removals-turn now basis x rs = elim (Bool-cases (ltb x.entity_id final_flag)) [
  | inl q ↦ rw q
  | inr q ↦ rw q
]

keep_removals-said :
    (now basis : ℕ) (r : ElementEntry) (rs : List ElementEntry)
    → Memᴰ r rs
    → is_settled now basis r ≡ false
    → Memᴰ (said now r) (keep_removals now basis false rs)
keep_removals-said now basis r [] m h = absurd (Memᴰ.not-nil m)
keep_removals-said now basis r (x ∷ rs) m h =
    rw (keep_removals-turn now basis x rs) (elim (Memᴰ.cases_cons m) [
      | inl e ↦ rw (sym e, h) (Memᴰ.head refl)
      | inr n ↦
          let k = keep_removals-said now basis r rs n h in
          if_case (Memᴰ (said now r)) (is_settled now basis x) k (Memᴰ.tail k)
    ])

both : (a b : Bool) → (a && b) ≡ true → (a ≡ true) × (b ≡ true)
both true b h = (refl, h)
both false b h = absurd (cc)

settled :
    (now basis : ℕ) (r : ElementEntry)
    → is_settled now basis r ≡ true
    → (final_flag ≤ r.entity_id) × (before basis now ≡ true) × (before r.entry_basis basis ≡ true)
settled now basis r h = elim (Bool-cases (ltb r.entity_id final_flag)) [
  | inl q ↦ let k : false ≡ true = rw q at h in absurd (cc)
  | inr q ↦
      let (a, b) = both (before basis now) (before r.entry_basis basis) (rw q at h) in
      (ground arith, a, b)
]

choose_basis-peers : (now : ℕ) (z : Zone) → (choose_basis now z).peers ≡ z.peers
unfolding choose_basis
choose_basis-peers now z =
    if_case P (is_empty (combined_frames z.peers)) refl
      (if_case P (is_stale now (last_or 0 (combined_frames z.peers))) refl refl)
  where
    P : Zone → Type 0
    P y = y.peers ≡ z.peers

-- An element that was removed from a zone with peers, other than the own one, is said to be gone again and
-- again, until every peer has acknowledged a frame after the one in which it was said for the first time.
pub settle_removals-AllAcked :
    (now : ℕ) (z : Zone) (r : ElementEntry) (p : ZonePeer) (ps : List ZonePeer)
    → z.peers ≡ p ∷ ps
    → Memᴰ r (choose_basis now z).entities
    → let y = choose_basis now z in
      Memᴰ (said now r) (settle_removals now false y).entities
      ⊎ ((final_flag ≤ r.entity_id)
          × AllAcked y.basis z.peers
          × (before r.entry_basis y.basis ≡ true))
unfolding settle_removals
settle_removals-AllAcked now z r p ps e m =
    let y = choose_basis now z in
    elim (Bool-cases (is_settled now y.basis r)) [
      | inl q ↦
          let (f, b, a) = settled now y.basis r q in
          elim (choose_basis-AllAcked now z) [
            | inl k ↦
                let c : before now now ≡ true = rw k at b in
                let d : false ≡ true = sym (before_self now) ∙ c in absurd (cc)
            | inr (k, _) ↦ inr (f, k, a)
          ]
      | inr q ↦
          let d : y.peers ≡ p ∷ ps = choose_basis-peers now z ∙ e in
          inl (rw d (keep_removals-said now y.basis r y.entities m q))
    ]
