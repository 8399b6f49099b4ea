-- ===== src/NetSession/Requests.antt =====
-- The peers of a session and the 48 requests they share: the part of `UpdateSend` that makes a request
-- and sends it, `HandleAckRecv`, `UpdatePendingSent`, and how peers come and go (`ConnectPeer`,
-- `ClearPeerArray`, `DisconnectPeer`, `DisconnectAllPeers`, `Reset`).
pub mod Owed
pub mod Link
pub mod Turn
pub mod Trim
pub mod Flow
pub mod Peers
pub mod History
mod Tests
use gta_psp_multiplayer.Prelude.{
  ℕ, zero, suc, ◌+◌, ◌-◌, ◌%◌, max, Bool, false, Option, none, some, List, [], ◌∷◌, ◌++◌, length,
  set, replicate, ltb, ◌==◌, if◌then◌else◌,
}
use gta_psp_multiplayer.Prelude.Int.{ℤ}
use gta_psp_multiplayer.NetSession.Reliable.{
  num_requests, num_sent, Sender, Request, Shared, Outcome, no_entry, request_at,
  attempt_send_packet, handle_ack_recv, clear_sender, update_sender,
}

-- The part of a `cNetSession` that sending works on. The queue of requests is the stretch of
-- `m_nSendQueueCount` slots of `m_aPackets` from `m_nSendQueueIndex` on.
pub record Session : Type 0 where
  pub peers : List (Option Sender)
  pub requests : List Request
  pub limit_reached : Bool
  pub queue_index : ℕ
  pub queue_count : ℕ
  pub queue_unk_a : ℕ
  pub peer_count : ℕ
  pub self_peer_id : ℕ

-- `m_vPeers[id]`, or none for nil. Out of bounds it is undefined; here it is none.
unfoldable pub peer_at : ℕ → List (Option Sender) → Option Sender
peer_at i [] = none
peer_at zero (p ∷ ps) = p
peer_at (suc i) (p ∷ ps) = peer_at i ps

abbrev pub shared_of : Session → Shared
shared_of q = record { requests = q.requests; limit_reached = q.limit_reached }

-- The session after an operation on one of its peers.
abbrev pub with_outcome : ℕ → Outcome → Session → Session
with_outcome id o q = record q {
  peers = set q.peers id (some o.sender);
  requests = o.shared.requests;
  limit_reached = o.shared.limit_reached;
}

-- What is done if the peer is there.
abbrev pub on_peer : {A : Type 0} → Option Sender → A → (Sender → A) → A
on_peer none d f = d
on_peer (some s) d f = f s

infixl 5 ◌>>=◌
abbrev pub ◌>>=◌ : {A B : Type 0} → Option A → (A → Option B) → Option B
none >>= f = none
some a >>= f = f a

-- `AttemptSendPacket` of the newest request to a peer, if it is there.
unfoldable pub attempt_to : ℕ → ℕ → Session → Session
attempt_to now id q =
    on_peer (peer_at id q.peers) q
      (λ s. with_outcome id (attempt_send_packet now q.queue_index 0 s (shared_of q)) q)

-- A new request: the slot before the queue is cleared, and gets a reliable part of the given length.
unfoldable pub begin_request : ℕ → ℕ → Session → Session
begin_request now reliable q =
    let i = if q.queue_index == 0 then num_requests - 1 else q.queue_index - 1 in
    record q {
      queue_count = q.queue_count + 1;
      queue_index = i;
      requests = set q.requests i (record { count_a = 0; delta = now; field_2 = reliable });
    }

-- The loop over the peers of a group: `targets` are those for which the packet is not empty.
unfoldable pub send_all : ℕ → List ℕ → Session → Session
unfolding attempt_to
send_all now [] q = q
send_all now (id ∷ ids) q = send_all now ids (attempt_to now id q)

-- A request that nobody was sent reliably leaves the queue at once.
unfoldable pub finish_request : Session → Session
finish_request q =
    if (request_at q.requests q.queue_index).count_a == 0
    then record q {
      queue_count = q.queue_count - 1;
      queue_index = if q.queue_index == num_requests - 1 then 0 else q.queue_index + 1;
    }
    else q

-- A turn of the inner loop of `UpdateSend`, which stops when 47 requests are in the queue.
unfoldable pub send_request : ℕ → ℕ → List ℕ → Session → Session
unfolding begin_request send_all finish_request
send_request now reliable targets q =
    if ltb q.queue_count num_sent
    then finish_request (send_all now targets (begin_request now reliable q))
    else q

-- `HandleAckRecv` from a peer that is there.
unfoldable pub recv_ack : ℕ → ℕ → Session → Session
recv_ack id flags q = on_peer (peer_at id q.peers) q (λ s.
    let t = handle_ack_recv flags s q.requests in
    record q { peers = set q.peers id (some t.0); requests = t.1 })

-- The oldest requests leave the queue while they count nothing; `wrap` is what `m_nSendQueueUnkA` becomes
-- after 0, which differs between the two places that do this. The fuel is the number of requests.
unfoldable pub trim_loop : ℕ → ℕ → Session → Session
trim_loop wrap zero q = q
trim_loop wrap (suc n) q =
    let rest = trim_loop wrap n (record q {
      queue_count = n;
      queue_unk_a = if q.queue_unk_a == 0 then wrap else q.queue_unk_a - 1;
    }) in
    if (request_at q.requests ((n + q.queue_index) % num_requests)).count_a == 0 then rest else q

unfoldable pub trim_queue : ℕ → Session → Session
unfolding trim_loop
trim_queue wrap q = trim_loop wrap q.queue_count q

-- A turn of the loop of `UpdatePendingSent` over the peers; `threshold` is the peer's `nPerfI`.
unfoldable pub update_peer : (ℕ → ℤ) → ℕ → ℕ → Session → Session
update_peer threshold now id q =
    on_peer (peer_at id q.peers) q
      (λ s. with_outcome id (update_sender (threshold id) now s (shared_of q)) q)

-- The last `n` peers, in order.
unfoldable pub update_peers : (ℕ → ℤ) → ℕ → ℕ → Session → Session
unfolding update_peer
update_peers threshold now zero q = q
update_peers threshold now (suc n) q =
    update_peers threshold now n (update_peer threshold now (length q.peers - suc n) q)

-- `UpdatePendingSent`.
unfoldable pub update_pending_sent : (ℕ → ℤ) → ℕ → Session → Session
unfolding trim_queue update_peers
update_pending_sent threshold now q =
    update_peers threshold now (length q.peers)
      (record (trim_queue (num_sent - 1) q) { limit_reached = false })

-- `ClearPeerArray` of a peer that is there.
unfoldable pub clear_peer_array : ℕ → Session → Session
unfolding trim_queue
clear_peer_array id q = on_peer (peer_at id q.peers) q (λ s.
    let c = clear_sender s q.requests in
    trim_queue num_sent (record q { peers = set q.peers id (some c.0); requests = c.1 }))

-- `cNetPeerState()`, with the overflow flag of a new `sPeerState`.
abbrev pub new_sender : Sender
new_sender = record {
  entries = replicate num_sent no_entry;
  sent_begin = 0;
  sent_end = 0;
  sent_count = 0;
  next_packet_seq = 0;
  send_overflow = false;
}

-- `m_vPeers.resize(size, nil)`, to a size that is not smaller.
abbrev pub grow : ℕ → List (Option Sender) → List (Option Sender)
grow size ps = ps ++ replicate (size - length ps) none

-- `ConnectPeer` for a peer that is not this console.
unfoldable pub connect_peer : ℕ → Session → Session
connect_peer id q =
    let ps = grow (max id q.self_peer_id + 1) q.peers in
    on_peer (peer_at id ps)
      (record q { peers = set ps id (some new_sender); peer_count = q.peer_count + 1 })
      (λ s. record q { peers = ps })

-- `DisconnectPeer`: `at` throws when there is no such index. The groups are those of `Groups`.
unfoldable pub disconnect_peer : ℕ → Session → Option Session
unfolding clear_peer_array
disconnect_peer id q =
    if ltb id (length q.peers)
    then some (
        on_peer (peer_at id q.peers) q (λ s.
          let c = clear_peer_array id q in
          record c { peers = set c.peers id none; peer_count = c.peer_count - 1 }))
    else none

-- `DisconnectAllPeers`: the last `n` peers, in order.
unfoldable pub disconnect_last : ℕ → Session → Option Session
unfolding disconnect_peer
disconnect_last zero q = some q
disconnect_last (suc n) q = do c ← disconnect_peer (length q.peers - suc n) q; disconnect_last n c

unfoldable pub disconnect_all_peers : Session → Option Session
disconnect_all_peers q = disconnect_last (length q.peers) q

-- `Reset`: no peer but an empty place for this console, which is the host's.
unfoldable pub reset : Session → Session
reset q = record q {
  peers = none ∷ [];
  queue_unk_a = q.queue_index;
  queue_count = 0;
  self_peer_id = 0;
  peer_count = 0;
}
