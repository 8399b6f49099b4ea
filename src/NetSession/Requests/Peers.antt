-- ===== src/NetSession/Requests/Peers.antt =====
-- `ConnectPeer`, `DisconnectPeer`, `DisconnectAllPeers` and `Reset`.
use gta_psp_multiplayer.Prelude.{
  ℕ, zero, suc, ◌+◌, ◌-◌, ◌^◌, ◌≤◌, ◌<◌, ◌≡◌, ◌≢◌, refl, ap, sym, subst, ◌∙◌, max, false, Option,
  none, some, List, [], ◌∷◌, length, length-append, length-replicate, replicate, set, length-set,
  arith, inl, inr, ℕ_discrete, dec_lt,
}
use gta_psp_multiplayer.Prelude.Int.{ℤ}
use gta_psp_multiplayer.NetSession.Reliable.{num_sent, Sender, request_at}
use gta_psp_multiplayer.NetSession.Requests.{
  Session, peer_at, clear_peer_array, grow, connect_peer, disconnect_peer, disconnect_last,
  disconnect_all_peers, reset, trim_queue, update_peers, update_peer, update_pending_sent, ◌>>=◌,
  on_peer,
}
use gta_psp_multiplayer.NetSession.Requests.Owed.{
  owed_by, owed_all, num_present, present, peer_at-set_self, peer_at-set_ne, at_cases,
}
use gta_psp_multiplayer.NetSession.Requests.Link.{IsSession}
use gta_psp_multiplayer.NetSession.Requests.Trim.{trim_queue-empty, trim_queue-Trimmed}
use gta_psp_multiplayer.NetSession.Requests.Flow.{
  clear_peer_array-Cleared, IsSession-removed, grow-IsSession, IsSession-added,
}

grown : (id self : ℕ) (ps : List (Option Sender)) → id < length (grow (max id self + 1) ps)
grown id self ps = omega (
  arith,
  length-append ps (replicate (max id self + 1 - length ps) none),
  length-replicate {A = Option Sender} (max id self + 1 - length ps) none,
)

pub connect_peer-IsSession :
    (id : ℕ) (q : Session) → id < 2 ^ 16 → IsSession q → IsSession (connect_peer id q)
unfolding connect_peer
connect_peer-IsSession id q small v =
    let ps = grow (max id q.self_peer_id + 1) q.peers in
    let g = grow-IsSession (max id q.self_peer_id + 1) q v (omega (arith, v.here)) in
    elim (at_cases (peer_at id ps)) [
      | inl free ↦
          rw free
            (IsSession-added (record q { peers = ps }) id g (grown id q.self_peer_id q.peers) free)
      | inr (s, h) ↦ rw h g
    ]

-- What `DisconnectPeer` leaves: nobody at `id`, and the other places as they were.
record Left (id : ℕ) (q t : Session) : Type 0 where
  valid : IsSession t
  size : length t.peers ≡ length q.peers
  gone : peer_at id t.peers ≡ none
  others : (j : ℕ) → id ≢ j → peer_at j t.peers ≡ peer_at j q.peers

abbrev left_by : ℕ → Session → Session
left_by id q = on_peer (peer_at id q.peers) q (λ s.
    let c = clear_peer_array id q in
    record c { peers = set c.peers id none; peer_count = c.peer_count - 1 })

disconnect_peer-there :
    (id : ℕ) (q : Session) → id < length q.peers → disconnect_peer id q ≡ some (left_by id q)
unfolding disconnect_peer
disconnect_peer-there id q h = ground (arith, h)

left_by-Left : (id : ℕ) (q : Session) → IsSession q → id < length q.peers → Left id q (left_by id q)
left_by-Left id q v there = elim (at_cases (peer_at id q.peers)) [
  | inl gone ↦ rw gone (record { valid = v; size = refl; gone = gone; others = λ j ne. refl })
  | inr (s, h) ↦
      let k = clear_peer_array-Cleared id q s v h in
      let c = clear_peer_array id q in
      let mine : peer_at id c.peers ≡ some k.sender =
        ap (peer_at id) k.peers ∙ peer_at-set_self q.peers id (some k.sender) there in
      let size : length c.peers ≡ length q.peers =
        ap length k.peers ∙ length-set q.peers id (some k.sender) in
      rw h (record {
        valid = IsSession-removed c id k.sender k.valid mine k.waits;
        size = length-set c.peers id none ∙ size;
        gone = peer_at-set_self c.peers id none (omega (arith, size));
        others = λ j ne.
            peer_at-set_ne c.peers id j none ne
            ∙ ap (peer_at j) k.peers
            ∙ peer_at-set_ne q.peers id j (some k.sender) ne;
      })
]

-- A session that is left by all its peers.
pub record Deserted (q : Session) : Type 0 where
  pub valid : IsSession q
  pub empty : (j : ℕ) → peer_at j q.peers ≡ none

peer_at-outside : (j : ℕ) (ps : List (Option Sender)) → length ps ≤ j → peer_at j ps ≡ none
unfolding peer_at
peer_at-outside j [] h = refl
peer_at-outside zero (p ∷ ps) h = elim h [ ]
peer_at-outside (suc j) (p ∷ ps) h = peer_at-outside j ps (omega arith)

disconnect_last-Deserted :
    (n : ℕ) (q : Session)
    → IsSession q
    → n ≤ length q.peers
    → ((j : ℕ) → j + n < length q.peers → peer_at j q.peers ≡ none)
    → (t : Session) × (disconnect_last n q ≡ some t) × Deserted t
unfolding disconnect_last
disconnect_last-Deserted zero q v few gone = (
  q,
  refl,
  record {
    valid = v;
    empty = λ j. elim (dec_lt j (length q.peers)) [
      | yes h ↦ gone j (omega arith)
      | no h ↦ peer_at-outside j q.peers (omega arith)
    ];
  },
)
disconnect_last-Deserted (suc n) q v few gone =
    let id = length q.peers - suc n in
    let t = left_by id q in
    let l = left_by-Left id q v (omega arith) in
    let rest = disconnect_last-Deserted n t l.valid (omega (arith, l.size)) (λ j h.
      elim (ℕ_discrete id j) [
        | yes e ↦ subst (λ k. peer_at k t.peers ≡ none) e l.gone
        | no ne ↦ l.others j ne ∙ gone j (omega (arith, l.size))
      ]) in
    (
      rest.0,
      ap (λ m. m >>= disconnect_last n) (disconnect_peer-there id q (omega arith)) ∙ rest.1,
      rest.2,
    )

nobody :
    (ps : List (Option Sender))
    → ((j : ℕ) → peer_at j ps ≡ none)
    → ((r : ℕ) → owed_all r ps ≡ 0) × (num_present ps ≡ 0)
unfolding peer_at
nobody [] h = (λ r. refl, refl)
nobody (p ∷ ps) h =
    let rest = nobody ps (λ j. h (suc j)) in
    (λ r. omega (arith, rest.0 r, ap (owed_by r) (h 0)), omega (arith, rest.1, ap present (h 0)))

still :
    (threshold : ℕ → ℤ) (now n : ℕ) (q : Session)
    → ((j : ℕ) → peer_at j q.peers ≡ none)
    → update_peers threshold now n q ≡ q
unfolding update_peers update_peer
still threshold now zero q h = refl
still threshold now (suc n) q h = rw (h (length q.peers - suc n)) (still threshold now n q h)

-- `DisconnectAllPeers` throws nothing; it leaves no peer, a peer count of 0 and the invariant, and the
-- `UpdatePendingSent` that comes next empties the queue of requests, which lets `UpdateSend` reset the
-- session.
pub disconnect_all_peers-deserts :
    (threshold : ℕ → ℤ) (now : ℕ) (q : Session)
    → IsSession q
    → (t : Session) × (disconnect_all_peers q ≡ some t)
      × Deserted t
      × (t.peer_count ≡ 0)
      × ((update_pending_sent threshold now t).queue_count ≡ 0)
unfolding disconnect_all_peers update_pending_sent
disconnect_all_peers-deserts threshold now q v =
    let (t, made, d) =
      disconnect_last-Deserted (length q.peers) q v (omega arith)
        (λ j h. absurd (omega (arith, h))) in
    let none_left = nobody t.peers d.empty in
    let trimmed = (trim_queue-Trimmed (num_sent - 1) t d.valid).0 in
    (
      t,
      made,
      d,
      d.valid.peer_counted ∙ none_left.1,
      ap (λ (u : Session). u.queue_count)
            (still threshold now (length t.peers)
              (record (trim_queue (num_sent - 1) t) { limit_reached = false })
              (λ j. ap (peer_at j) trimmed.peers ∙ d.empty j))
          ∙ trim_queue-empty (num_sent - 1) t d.valid none_left.0,
    )

-- `Reset` forgets the peers and what they waited for.
pub reset-IsSession : (q : Session) → IsSession q → IsSession (reset q)
unfolding reset peer_at
reset-IsSession q v = record {
  stale = λ r. (request_at q.requests r).count_a;
  counted = λ r. omega arith;
  bounded = v.bounded;
  slots = v.slots;
  index = v.index;
  few = omega arith;
  sound = λ i s h. absurd (nobody_there i s h);
  inside = λ r hr near. elim near [ ];
  outside = λ r hr far. refl;
  many = omega arith;
  here = omega arith;
  peer_counted = refl;
}
  where
    nobody_there : (i : ℕ) (s : Sender) → peer_at i (none ∷ []) ≢ some s
    nobody_there zero s e = cc
    nobody_there (suc i) s e = cc

pub disconnect_peer-IsSession :
    (id : ℕ) (q t : Session) → IsSession q → disconnect_peer id q ≡ some t → IsSession t
disconnect_peer-IsSession id q t v h = elim (dec_lt id (length q.peers)) [
  | yes there ↦
      subst IsSession (some-inj (sym (disconnect_peer-there id q there) ∙ h))
        (left_by-Left id q v there).valid
  | no out ↦ absurd (thrown id q t out h)
]
  where
    some-inj : {a b : Session} → some a ≡ some b → a ≡ b
    some-inj e = cc

    throws : (id : ℕ) (q : Session) → ¬ (id < length q.peers) → disconnect_peer id q ≡ none
    throws id q h = unfold disconnect_peer in ground (arith, h)

    thrown : (id : ℕ) (q t : Session) → ¬ (id < length q.peers) → disconnect_peer id q ≢ some t
    thrown id q t h e = let k = throws id q h in cc
