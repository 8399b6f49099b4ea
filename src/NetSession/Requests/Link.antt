-- ===== src/NetSession/Requests/Link.antt =====
-- The invariant that ties the requests of a session to the rings of its peers, and the operations on one
-- peer that keep it.
use gta_psp_multiplayer.Prelude.{
  ℕ, ◌+◌, ◌-◌, ◌%◌, ◌^◌, ◌≤◌, ◌<◌, ◌≡◌, ap, sym, subst, ◌∙◌, Bool, Option, none, some, List, length,
  set, length-set, arith, inl, inr, ℕ_discrete,
}
use gta_psp_multiplayer.NetSession.Reliable.{
  num_requests, num_sent, Sender, Request, request_at, handle_ack_recv,
}
use gta_psp_multiplayer.NetSession.Reliable.Ring.{IsRing, waiting}
use gta_psp_multiplayer.NetSession.Reliable.Ack.{handle_ack_recv-settle}
use gta_psp_multiplayer.NetSession.Reliable.Accounts.{owed}
use gta_psp_multiplayer.NetSession.Reliable.Resend.{AllReliable}
use gta_psp_multiplayer.NetSession.Reliable.Keeps.{
  IsSender, SameParts, AllReliable-SameParts, handle_ack_recv-IsSender,
}
use gta_psp_multiplayer.NetSession.Requests.{Session, peer_at, recv_ack}
use gta_psp_multiplayer.NetSession.Requests.Owed.{
  owed_by, owed_all, num_present, present, IsSound, peer_at-set_self, peer_at-set_ne, peer_at-bound,
  owed_all-split, owed_all-set, num_present-set, owed-settle, at_cases,
}

-- How far behind the newest request a slot lies. The queue holds the first `queue_count` of these.
abbrev pub place : Session → ℕ → ℕ
place q r = (r + num_requests - q.queue_index) % num_requests

-- Each request counts the entries of all peers that wait for it, and `stale` more that were lost with the
-- peers of an earlier session; in the queue there is nothing stale, and nobody waits for a request
-- outside of it. The peers are counted, and their number is one that the 32 bits of a count allow.
pub record IsSession (q : Session) : Type 0 where
  pub stale : ℕ → ℕ
  pub counted : (r : ℕ) → (request_at q.requests r).count_a ≡ stale r + owed_all r q.peers
  pub bounded : (r : ℕ) → (request_at q.requests r).count_a < 2 ^ 32
  pub slots : length q.requests ≡ num_requests
  pub index : q.queue_index < num_requests
  pub few : q.queue_count ≤ num_sent
  pub sound : IsSound q.peers q.requests
  pub inside : (r : ℕ) → r < num_requests → place q r < q.queue_count → stale r ≡ 0
  pub outside : (r : ℕ) → r < num_requests → q.queue_count ≤ place q r → owed_all r q.peers ≡ 0
  pub many : length q.peers ≤ 2 ^ 16
  pub here : q.self_peer_id < 2 ^ 16
  pub peer_counted : q.peer_count ≡ num_present q.peers

-- What a peer sees: the requests count its own entries, those of the others, and what is stale.
abbrev pub others : (ℕ → ℕ) → ℕ → List (Option Sender) → ℕ → ℕ
others stale i ps r = stale r + owed_all r (set ps i none)

pub IsSession-IsSender :
    (q : Session) (v : IsSession q) (i : ℕ) (s : Sender)
    → peer_at i q.peers ≡ some s
    → IsSender (others v.stale i q.peers) s q.requests
IsSession-IsSender q v i s h = record {
  ring = (v.sound i s h).0;
  accounts = record {
    counted = λ r. omega (arith, v.counted r, owed_all-split r i q.peers, ap (owed_by r) h);
    bounded = v.bounded;
  };
  reliable = (v.sound i s h).1;
}

pub IsSound-set :
    (i : ℕ) (p : Option Sender) (ps : List (Option Sender)) (rs qs : List Request)
    → IsSound ps rs
    → SameParts rs qs
    → i < length ps
    → ((t : Sender) → p ≡ some t → IsRing t × AllReliable (waiting t) qs)
    → IsSound (set ps i p) qs
IsSound-set i p ps rs qs sound same h new j t there = elim (ℕ_discrete i j) [
  | yes e ↦ new t (sym (peer_at-set_self ps i p h) ∙ ap (λ k. peer_at k (set ps i p)) e ∙ there)
  | no ne ↦
      let old = sound j t (sym (peer_at-set_ne ps i j p ne) ∙ there) in
      (old.0, AllReliable-SameParts (waiting t) rs qs same old.1)
]

-- A peer is replaced by one that counts for nothing outside the queue.
pub IsSession-replaced :
    (q : Session) (v : IsSession q) (i : ℕ) (s t : Sender) (rs : List Request) (limit : Bool)
    → peer_at i q.peers ≡ some s
    → IsSender (others v.stale i q.peers) t rs
    → SameParts q.requests rs
    → ((r : ℕ) → q.queue_count ≤ place q r → owed r (waiting t) ≤ owed r (waiting s))
    → IsSession (record q { peers = set q.peers i (some t); requests = rs; limit_reached = limit })
IsSession-replaced q v i s t rs limit h sent same fewer =
    let there = peer_at-bound q.peers i s h in
    record {
      stale = v.stale;
      counted =
          λ r. omega (arith, sent.accounts.counted r, owed_all-set r i q.peers (some t) there);
      bounded = sent.accounts.bounded;
      slots = same.many ∙ v.slots;
      index = v.index;
      few = v.few;
      sound = IsSound-set i (some t) q.peers q.requests rs v.sound same there (λ u e.
          subst (λ u. IsRing u × AllReliable (waiting u) rs) (some-inj e)
            (sent.ring, sent.reliable));
      inside = v.inside;
      outside = λ r hr far. omega (
        arith,
        v.outside r hr far,
        fewer r far,
        owed_all-set r i q.peers (some t) there,
        owed_all-split r i q.peers,
        ap (owed_by r) h,
      );
      many = omega (arith, length-set q.peers i (some t), v.many);
      here = v.here;
      peer_counted =
          omega (arith, v.peer_counted, num_present-set i q.peers (some t) there, ap present h);
    }
  where
    some-inj : {a b : Sender} → some a ≡ some b → a ≡ b
    some-inj e = cc

-- An acknowledgement from a peer.
pub recv_ack-IsSession :
    (id flags : ℕ) (q : Session) → IsSession q → IsSession (recv_ack id flags q)
unfolding recv_ack
recv_ack-IsSession id flags q v = elim (at_cases (peer_at id q.peers)) [
  | inl gone ↦ rw gone v
  | inr (s, h) ↦
      let k =
        handle_ack_recv-IsSender flags (others v.stale id q.peers) s q.requests
          (IsSession-IsSender q v id s h) in
      rw h (
        IsSession-replaced q v id s (handle_ack_recv flags s q.requests).0
          (handle_ack_recv flags s q.requests).1 q.limit_reached h k.0 k.1
          (λ r far.
            rw ((handle_ack_recv-settle flags s q.requests (v.sound id s h).0).1)
              (owed-settle flags r (waiting s))))
]
