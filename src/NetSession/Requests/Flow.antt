-- ===== src/NetSession/Requests/Flow.antt =====
-- `UpdatePendingSent` over all peers, and how peers come and go.
use gta_psp_multiplayer.Prelude.{
  ℕ, zero, suc, ◌+◌, ◌-◌, ◌^◌, ◌≤◌, ◌<◌, ◌≡◌, ◌≢◌, refl, ap, sym, subst, ◌∙◌, Bool, true, false,
  Option, none, some, List, [], length, length-append, length-replicate, replicate, set, length-set,
  arith, Bool-cases, inl, inr,
}
use gta_psp_multiplayer.Prelude.Int.{ℤ}
use gta_psp_multiplayer.NetSession.Reliable.{
  num_sent, Sender, Shared, update_sender, resend_pending, clear_sender,
}
use gta_psp_multiplayer.NetSession.Reliable.Ring.{IsRing, waiting}
use gta_psp_multiplayer.NetSession.Reliable.Accounts.{owed}
use gta_psp_multiplayer.NetSession.Reliable.Resend.{AllReliable}
use gta_psp_multiplayer.NetSession.Reliable.Pending.{fresh, update_sender-Resent}
use gta_psp_multiplayer.NetSession.Reliable.Keeps.{
  SameParts-refl, owed-Resent, update_sender-IsSender,
}
use gta_psp_multiplayer.NetSession.Reliable.Clear.{clear_sender-IsSender}
use gta_psp_multiplayer.NetSession.Requests.{
  Session, peer_at, shared_of, update_peer, update_peers, update_pending_sent, clear_peer_array,
  new_sender, grow,
}
use gta_psp_multiplayer.NetSession.Requests.Owed.{
  owed_by, owed_all, present, peer_at-bound, owed_all-split, owed_all-set, num_present-set,
  owed_all-grow, num_present-grow, peer_at-grow, at_cases,
}
use gta_psp_multiplayer.NetSession.Requests.Link.{
  IsSession, IsSession-IsSender, IsSession-replaced, IsSound-set, others,
}
use gta_psp_multiplayer.NetSession.Requests.Trim.{trim_queue-Trimmed}

-- To a peer that has overflowed nothing is sent again.
update_sender-overflow :
    (threshold : ℤ) (now : ℕ) (s : Sender) (sh : Shared)
    → s.send_overflow ≡ true
    → update_sender threshold now s sh ≡ record { sender = s; shared = sh; effects = [] }
unfolding update_sender resend_pending
update_sender-overflow threshold now s sh h = rw h (ground arith)

update_peer-IsSession :
    (threshold : ℕ → ℤ) (now id : ℕ) (q : Session)
    → IsSession q
    → IsSession (update_peer threshold now id q)
unfolding update_peer
update_peer-IsSession threshold now id q v = elim (at_cases (peer_at id q.peers)) [
  | inl gone ↦ rw gone v
  | inr (s, h) ↦
      let o = update_sender (threshold id) now s (shared_of q) in
      let mine = IsSession-IsSender q v id s h in
      elim (Bool-cases s.send_overflow) [
        | inl over ↦
            rw (h, update_sender-overflow (threshold id) now s (shared_of q) over)
              (IsSession-replaced q v id s s q.requests q.limit_reached h mine
                (SameParts-refl q.requests) (λ r far. omega arith))
        | inr calm ↦
            let k =
              update_sender-IsSender (threshold id) now (others v.stale id q.peers) s (shared_of q)
                mine calm in
            let w =
              update_sender-Resent (threshold id) now s (shared_of q) mine.ring calm
                mine.reliable in
            rw (h, k.1)
              (IsSession-replaced q v id s o.sender q.requests o.shared.limit_reached h k.0
                (SameParts-refl q.requests)
                (λ r far. omega (
                  arith,
                  ap (owed r) w.waits,
                  owed-Resent r now (fresh (threshold id) now (waiting s)) (waiting s),
                )))
      ]
]

update_peers-IsSession :
    (threshold : ℕ → ℤ) (now n : ℕ) (q : Session)
    → IsSession q
    → IsSession (update_peers threshold now n q)
unfolding update_peers
update_peers-IsSession threshold now zero q v = v
update_peers-IsSession threshold now (suc n) q v =
    update_peers-IsSession threshold now n _
      (update_peer-IsSession threshold now (length q.peers - suc n) q v)

limit-IsSession :
    (b : Bool) (q : Session) → IsSession q → IsSession (record q { limit_reached = b })
limit-IsSession b q v = record {
  stale = v.stale;
  counted = v.counted;
  bounded = v.bounded;
  slots = v.slots;
  index = v.index;
  few = v.few;
  sound = v.sound;
  inside = v.inside;
  outside = v.outside;
  many = v.many;
  here = v.here;
  peer_counted = v.peer_counted;
}

pub update_pending_sent-IsSession :
    (threshold : ℕ → ℤ) (now : ℕ) (q : Session)
    → IsSession q
    → IsSession (update_pending_sent threshold now q)
unfolding update_pending_sent
update_pending_sent-IsSession threshold now q v =
    update_peers-IsSession threshold now (length q.peers) _
      (limit-IsSession false _ (trim_queue-Trimmed (num_sent - 1) q v).0.valid)

-- What clearing a peer leaves: the peer waits for nothing, and the others are as they were.
pub record Cleared (id : ℕ) (q t : Session) : Type 0 where
  pub valid : IsSession t
  pub sender : Sender
  pub peers : t.peers ≡ set q.peers id (some sender)
  pub waits : waiting sender ≡ []
  pub peer_count : t.peer_count ≡ q.peer_count

pub clear_peer_array-Cleared :
    (id : ℕ) (q : Session) (s : Sender)
    → IsSession q
    → peer_at id q.peers ≡ some s
    → Cleared id q (clear_peer_array id q)
unfolding clear_peer_array
clear_peer_array-Cleared id q s v h =
    let c = clear_sender s q.requests in
    let k =
      clear_sender-IsSender (others v.stale id q.peers) s q.requests
        (IsSession-IsSender q v id s h) in
    let u =
      IsSession-replaced q v id s c.0 c.1 q.limit_reached h k.0 k.2
        (λ r far. rw (k.1) (omega arith)) in
    let t = (trim_queue-Trimmed num_sent _ u).0 in
    rw h (record {
      valid = t.valid;
      sender = c.0;
      peers = t.peers;
      waits = k.1;
      peer_count = t.peer_count;
    })

-- A peer that waits for nothing leaves.
pub IsSession-removed :
    (q : Session) (i : ℕ) (s : Sender)
    → IsSession q
    → peer_at i q.peers ≡ some s
    → waiting s ≡ []
    → IsSession (record q { peers = set q.peers i none; peer_count = q.peer_count - 1 })
IsSession-removed q i s v h idle =
    let there = peer_at-bound q.peers i s h in
    let same : (r : ℕ) → owed_all r (set q.peers i none) ≡ owed_all r q.peers =
      λ r. omega (arith, owed_all-split r i q.peers, ap (owed_by r) h, ap (owed r) idle) in
    record {
      stale = v.stale;
      counted = λ r. omega (arith, v.counted r, same r);
      bounded = v.bounded;
      slots = v.slots;
      index = v.index;
      few = v.few;
      sound =
          IsSound-set i none q.peers q.requests q.requests v.sound (SameParts-refl q.requests) there
            (λ t e. absurd (none≢some t e));
      inside = v.inside;
      outside = λ r hr far. same r ∙ v.outside r hr far;
      many = omega (arith, length-set q.peers i none, v.many);
      here = v.here;
      peer_counted =
          omega (arith, v.peer_counted, num_present-set i q.peers none there, ap present h);
    }
  where
    none≢some : (t : Sender) → none ≢ some t
    none≢some t e = cc

-- The ring of a new peer.
new_sender-IsRing : IsRing new_sender
new_sender-IsRing = record { slots = refl; begun = omega arith; few = omega arith; closed = refl }

-- Empty places are added behind.
pub grow-IsSession :
    (size : ℕ) (q : Session)
    → IsSession q
    → size ≤ 2 ^ 16
    → IsSession (record q { peers = grow size q.peers })
grow-IsSession size q v small =
    let n = size - length q.peers in
    record {
      stale = v.stale;
      counted = λ r. omega (arith, v.counted r, owed_all-grow r n q.peers);
      bounded = v.bounded;
      slots = v.slots;
      index = v.index;
      few = v.few;
      sound = λ i s h. v.sound i s (sym (peer_at-grow i n q.peers) ∙ h);
      inside = v.inside;
      outside = λ r hr far. owed_all-grow r n q.peers ∙ v.outside r hr far;
      many = grow-length size q.peers v.many small;
      here = v.here;
      peer_counted = omega (arith, v.peer_counted, num_present-grow n q.peers);
    }
  where
    grow-length :
        (size : ℕ) (ps : List (Option Sender))
        → length ps ≤ 2 ^ 16
        → size ≤ 2 ^ 16
        → length (grow size ps) ≤ 2 ^ 16
    grow-length size ps h k = omega (
      arith,
      length-append ps (replicate (size - length ps) none),
      length-replicate {A = Option Sender} (size - length ps) none,
    )

-- A new peer takes an empty place.
pub IsSession-added :
    (q : Session) (i : ℕ)
    → IsSession q
    → i < length q.peers
    → peer_at i q.peers ≡ none
    → IsSession
        (record q { peers = set q.peers i (some new_sender); peer_count = q.peer_count + 1 })
IsSession-added q i v there free =
    let same : (r : ℕ) → owed_all r (set q.peers i (some new_sender)) ≡ owed_all r q.peers = λ r.
      omega (
        arith,
        owed_all-split r i q.peers,
        owed_all-set r i q.peers (some new_sender) there,
        ap (owed_by r) free,
      ) in
    record {
      stale = v.stale;
      counted = λ r. omega (arith, v.counted r, same r);
      bounded = v.bounded;
      slots = v.slots;
      index = v.index;
      few = v.few;
      sound =
          IsSound-set i (some new_sender) q.peers q.requests q.requests v.sound
            (SameParts-refl q.requests) there
            (λ t e.
              subst (λ u. IsRing u × AllReliable (waiting u) q.requests) (some-inj e)
                (new_sender-IsRing, tt));
      inside = v.inside;
      outside = λ r hr far. same r ∙ v.outside r hr far;
      many = omega (arith, length-set q.peers i (some new_sender), v.many);
      here = v.here;
      peer_counted = omega (
        arith,
        v.peer_counted,
        num_present-set i q.peers (some new_sender) there,
        ap present free,
      );
    }
  where
    some-inj : {a b : Sender} → some a ≡ some b → a ≡ b
    some-inj e = cc
