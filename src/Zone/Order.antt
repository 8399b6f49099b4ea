-- ===== src/Zone/Order.antt =====
-- What holds of a zone whatever happens to it: each peer stands in it once, with its acknowledgments in
-- order, and no peer is acknowledged twice in one packet.
pub mod Push
pub mod Reached
use mathlib.Core.List.{Memᴰ}
use mathlib.Core.List.Memᴰ
use gta_psp_multiplayer.Prelude.{
  ℕ, Bool, true, false, List, [], ◌∷◌, ◌++◌, map, ◌≡◌, ◌≢◌, refl, sym, ◌∙◌, inl, inr, ltb, ◌==◌,
  arith, Bool-cases, ℕ_discrete, if_case, if◌then◌else◌,
}
use gta_psp_multiplayer.Zone.{
  ZonePeer, Ack, Zone, new_peer, has_peer, add_peer, erase_peer, disconnect_peer, is_empty, last_or,
}
use gta_psp_multiplayer.Zone.Common.{IsSorted}
use gta_psp_multiplayer.Zone.Basis.{
  choose_basis, trim_acks, trim_peers, clear_acks, is_stale, combined_frames,
}
use gta_psp_multiplayer.Zone.Basis.Acked.{AllSorted, trim_acks-IsSorted}
use gta_psp_multiplayer.Zone.Receive.{acknowledge, put_peer}

-- The numbers of peers are all different.
abbrev pub AllDistinct : List ZonePeer → Type 0
AllDistinct [] = Unit {0}
AllDistinct (p ∷ ps) = (has_peer p.peer_id ps ≡ false) × AllDistinct ps

unfoldable pub has_ack : ℕ → List Ack → Bool
has_ack id [] = false
has_ack id (a ∷ rest) = if a.ack_peer == id then true else has_ack id rest

abbrev pub AllOnce : List Ack → Type 0
AllOnce [] = Unit {0}
AllOnce (a ∷ rest) = (has_ack a.ack_peer rest ≡ false) × AllOnce rest

pub record IsZone (z : Zone) : Type 0 where
  pub sorted : AllSorted z.peers
  pub distinct : AllDistinct z.peers
  pub once : AllOnce z.to_ack

has-append :
    (id : ℕ) (ps : List ZonePeer) (q : ZonePeer)
    → has_peer id (ps ++ q ∷ [])
      ≡ (if has_peer id ps then true else (if q.peer_id == id then true else false))
unfolding has_peer
has-append id [] q = refl
has-append id (p ∷ ps) q = elim (Bool-cases (p.peer_id == id)) [
  | inl e ↦ rw e
  | inr e ↦ rw e (has-append id ps q)
]

append-AllDistinct :
    (ps : List ZonePeer) (q : ZonePeer)
    → AllDistinct ps
    → has_peer q.peer_id ps ≡ false
    → AllDistinct (ps ++ q ∷ [])
unfolding has_peer
append-AllDistinct [] q d h = (refl, tt)
append-AllDistinct (p ∷ ps) q d h = elim (ℕ_discrete p.peer_id q.peer_id) [
  | yes e ↦
      let r : (p.peer_id == q.peer_id) ≡ true = ground arith in absurd (true≢false (rw r at h))
  | no ne ↦
      let r : (p.peer_id == q.peer_id) ≡ false = ground arith in
      let k : (q.peer_id == p.peer_id) ≡ false = ground arith in
      (has-append p.peer_id ps q ∙ rw (d.0, k), append-AllDistinct ps q d.1 (rw r at h))
]
  where
    true≢false : true ≢ false
    true≢false e = cc

append-AllSorted :
    (ps : List ZonePeer) (q : ZonePeer) → AllSorted ps → IsSorted q.acks → AllSorted (ps ++ q ∷ [])
append-AllSorted [] q s k = (k, tt)
append-AllSorted (p ∷ ps) q s k = (s.0, append-AllSorted ps q s.1 k)

pub add_peer-IsZone : (id : ℕ) (z : Zone) → IsZone z → IsZone (add_peer id z)
unfolding add_peer
add_peer-IsZone id z h = elim (Bool-cases (has_peer id z.peers)) [
  | inl q ↦ rw q h
  | inr q ↦ rw q (record {
    sorted = append-AllSorted z.peers (new_peer id) h.sorted tt;
    distinct = append-AllDistinct z.peers (new_peer id) h.distinct q;
    once = h.once;
  })
]

erase-AllSorted : (id : ℕ) (ps : List ZonePeer) → AllSorted ps → AllSorted (erase_peer id ps)
unfolding erase_peer
erase-AllSorted id [] s = tt
erase-AllSorted id (p ∷ ps) s =
    if_case AllSorted (p.peer_id == id) s.1 (s.0, erase-AllSorted id ps s.1)

erase-absent :
    (k id : ℕ) (ps : List ZonePeer) → has_peer k ps ≡ false → has_peer k (erase_peer id ps) ≡ false
unfolding has_peer erase_peer
erase-absent k id [] h = refl
erase-absent k id (p ∷ ps) h = elim (Bool-cases (p.peer_id == k)) [
  | inl q ↦ absurd (true≢false (rw q at h))
  | inr q ↦
      let rest = rw q at h in
      if_case (λ qs. has_peer k qs ≡ false) (p.peer_id == id) rest
        (rw q (erase-absent k id ps rest))
]
  where
    true≢false : true ≢ false
    true≢false e = cc

erase-AllDistinct : (id : ℕ) (ps : List ZonePeer) → AllDistinct ps → AllDistinct (erase_peer id ps)
unfolding erase_peer
erase-AllDistinct id [] d = tt
erase-AllDistinct id (p ∷ ps) d =
    if_case AllDistinct (p.peer_id == id) d.1
      (erase-absent p.peer_id id ps d.0, erase-AllDistinct id ps d.1)

pub put-AllSorted :
    (q : ZonePeer) (ps : List ZonePeer) → IsSorted q.acks → AllSorted ps → AllSorted (put_peer q ps)
unfolding put_peer
put-AllSorted q [] k s = tt
put-AllSorted q (p ∷ ps) k s =
    if_case AllSorted (p.peer_id == q.peer_id) (k, s.1) (s.0, put-AllSorted q ps k s.1)

put-has : (k : ℕ) (q : ZonePeer) (ps : List ZonePeer) → has_peer k (put_peer q ps) ≡ has_peer k ps
unfolding has_peer put_peer
put-has k q [] = refl
put-has k q (p ∷ ps) = elim (ℕ_discrete p.peer_id q.peer_id) [
  | yes e ↦ let r : (p.peer_id == q.peer_id) ≡ true = ground arith in rw (r, e)
  | no ne ↦ let r : (p.peer_id == q.peer_id) ≡ false = ground arith in rw (r, put-has k q ps)
]

pub put-AllDistinct :
    (q : ZonePeer) (ps : List ZonePeer) → AllDistinct ps → AllDistinct (put_peer q ps)
unfolding put_peer
put-AllDistinct q [] d = tt
put-AllDistinct q (p ∷ ps) d = elim (ℕ_discrete p.peer_id q.peer_id) [
  | yes e ↦ let r : (p.peer_id == q.peer_id) ≡ true = ground arith in rw r ((rw e at d.0), d.1)
  | no ne ↦
      let r : (p.peer_id == q.peer_id) ≡ false = ground arith in
      rw r (put-has p.peer_id q ps ∙ d.0, put-AllDistinct q ps d.1)
]

acknowledge-has :
    (k id n : ℕ) (rest : List Ack)
    → has_ack k rest ≡ false
    → id ≢ k
    → has_ack k (acknowledge id n rest) ≡ false
unfolding has_ack acknowledge
acknowledge-has k id n [] h ne = let r : (id == k) ≡ false = ground arith in rw r
acknowledge-has k id n (a ∷ rest) h ne = elim (Bool-cases (a.ack_peer == k)) [
  | inl q ↦ absurd (true≢false (rw q at h))
  | inr q ↦ elim (Bool-cases (a.ack_peer == id)) [
    | inl r ↦ rw r (
        if_case (λ (b : Ack). (if b.ack_peer == k then true else has_ack k rest) ≡ false)
          (ltb a.frame n) h h)
    | inr r ↦ rw (r, q) (acknowledge-has k id n rest (rw q at h) ne)
  ]
]
  where
    true≢false : true ≢ false
    true≢false e = cc

pub acknowledge-AllOnce :
    (id n : ℕ) (rest : List Ack) → AllOnce rest → AllOnce (acknowledge id n rest)
unfolding acknowledge has_ack
acknowledge-AllOnce id n [] d = (refl, tt)
acknowledge-AllOnce id n (a ∷ rest) d = elim (ℕ_discrete a.ack_peer id) [
  | yes e ↦
      let r : (a.ack_peer == id) ≡ true = ground arith in
      rw r (if_case (λ (b : Ack). AllOnce (b ∷ rest)) (ltb a.frame n) d d)
  | no ne ↦
      let r : (a.ack_peer == id) ≡ false = ground arith in
      rw r (
        acknowledge-has a.ack_peer id n rest d.0 (λ e. ne (sym e)),
        acknowledge-AllOnce id n rest d.1,
      )
]

pub disconnect_peer-IsZone : (id : ℕ) (z : Zone) → IsZone z → IsZone (disconnect_peer id z)
unfolding disconnect_peer
disconnect_peer-IsZone id z h = record {
  sorted = erase-AllSorted id z.peers h.sorted;
  distinct = erase-AllDistinct id z.peers h.distinct;
  once = h.once;
}

-- What a turn of sending does to the acknowledgments.
abbrev pub after_send : ℕ → Zone → Zone
after_send now z = clear_acks (trim_peers (choose_basis now z))

choose_basis-peers : (now : ℕ) (z : Zone) → (choose_basis now z).peers ≡ z.peers
unfolding choose_basis
choose_basis-peers now z =
    if_case (λ (y : Zone). y.peers ≡ z.peers) (is_empty (combined_frames z.peers)) refl
      (if_case (λ (y : Zone). y.peers ≡ z.peers)
        (is_stale now (last_or 0 (combined_frames z.peers))) refl refl)

abbrev trimmed : ℕ → List ZonePeer → List ZonePeer
trimmed b ps = map (λ (p : ZonePeer). record p { acks = trim_acks b p.acks }) ps

trimmed-AllSorted : (b : ℕ) (ps : List ZonePeer) → AllSorted ps → AllSorted (trimmed b ps)
trimmed-AllSorted b [] s = tt
trimmed-AllSorted b (p ∷ ps) s = (trim_acks-IsSorted b p.acks s.0, trimmed-AllSorted b ps s.1)

trimmed-has : (k b : ℕ) (ps : List ZonePeer) → has_peer k (trimmed b ps) ≡ has_peer k ps
unfolding has_peer
trimmed-has k b [] = refl
trimmed-has k b (p ∷ ps) = rw (trimmed-has k b ps)

trimmed-AllDistinct : (b : ℕ) (ps : List ZonePeer) → AllDistinct ps → AllDistinct (trimmed b ps)
trimmed-AllDistinct b [] d = tt
trimmed-AllDistinct b (p ∷ ps) d = (trimmed-has p.peer_id b ps ∙ d.0, trimmed-AllDistinct b ps d.1)

pub after_send-IsZone : (now : ℕ) (z : Zone) → IsZone z → IsZone (after_send now z)
unfolding trim_peers
after_send-IsZone now z h = record {
  sorted =
      trimmed-AllSorted (choose_basis now z).basis (choose_basis now z).peers
        (rw (choose_basis-peers now z) h.sorted);
  distinct =
      trimmed-AllDistinct (choose_basis now z).basis (choose_basis now z).peers
        (rw (choose_basis-peers now z) h.distinct);
  once = tt;
}
