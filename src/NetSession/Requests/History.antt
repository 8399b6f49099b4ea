-- ===== src/NetSession/Requests/History.antt =====
-- The life of a session: its operations in every order.
use gta_psp_multiplayer.Prelude.{
  ℕ, ◌+◌, ◌-◌, ◌%◌, ◌^◌, ◌<◌, ◌≡◌, ◌≢◌, refl, false, some, List, [], length, ◌==◌, if◌then◌else◌,
  arith,
}
use gta_psp_multiplayer.Prelude.Int.{ℤ}
use gta_psp_multiplayer.NetSession.Reliable.{Request, num_requests, num_sent, Sender, request_at}
use gta_psp_multiplayer.NetSession.Requests.{
  Session, peer_at, begin_request, send_request, recv_ack, update_pending_sent, connect_peer,
  disconnect_peer, reset,
}
use gta_psp_multiplayer.NetSession.Requests.Owed.{owed_all}
use gta_psp_multiplayer.NetSession.Requests.Link.{IsSession, place, recv_ack-IsSession}
use gta_psp_multiplayer.NetSession.Requests.Turn.{send_request-IsSession}
use gta_psp_multiplayer.NetSession.Requests.Flow.{update_pending_sent-IsSession}
use gta_psp_multiplayer.NetSession.Requests.Peers.{
  connect_peer-IsSession, disconnect_peer-IsSession, reset-IsSession,
}

-- `cNetSession()` for the peer number `id` of this console, up to its `Reset`. The constructor of a
-- `tNetPacketReq` leaves `nCountA` as the memory has it.
unfoldable pub new_session : ℕ → List Request → Session
new_session id memory = record {
  peers = [];
  requests = memory;
  limit_reached = false;
  queue_index = 0;
  queue_count = 0;
  queue_unk_a = 0;
  peer_count = 0;
  self_peer_id = id;
}

-- One operation. Numbers of peers have at most 16 bits.
pub data Step : Session → Session → Type 0 where
  sends :
      {q : Session} (now reliable : ℕ) (targets : List ℕ)
      → Step q (send_request now reliable targets q)
  acknowledged : {q : Session} (id flags : ℕ) → Step q (recv_ack id flags q)
  resends :
      {q : Session} (threshold : ℕ → ℤ) (now : ℕ) → Step q (update_pending_sent threshold now q)
  connects : {q : Session} (id : ℕ) → id < 2 ^ 16 → Step q (connect_peer id q)
  disconnects : {q t : Session} (id : ℕ) → disconnect_peer id q ≡ some t → Step q t
  resets : {q : Session} → Step q (reset q)

-- What a session can become from its making on.
pub data Reached : Session → Type 0 where
  made :
      (id : ℕ) (memory : List Request)
      → id < 2 ^ 16
      → length memory ≡ num_requests
      → ((r : ℕ) → (request_at memory r).count_a < 2 ^ 32)
      → Reached (reset (new_session id memory))
  after : {q t : Session} → Reached q → Step q t → Reached t

new_session-IsSession :
    (id : ℕ) (memory : List Request)
    → id < 2 ^ 16
    → length memory ≡ num_requests
    → ((r : ℕ) → (request_at memory r).count_a < 2 ^ 32)
    → IsSession (new_session id memory)
unfolding new_session peer_at
new_session-IsSession id memory small size words = record {
  stale = λ r. (request_at memory r).count_a;
  counted = λ r. omega arith;
  bounded = words;
  slots = size;
  index = omega arith;
  few = omega arith;
  sound = λ i s h. absurd (nobody_there i s h);
  inside = λ r hr near. elim near [ ];
  outside = λ r hr far. refl;
  many = omega arith;
  here = small;
  peer_counted = refl;
}
  where
    nobody_there : (i : ℕ) (s : Sender) → peer_at i [] ≢ some s
    nobody_there i s e = cc

Step-IsSession : {q t : Session} → Step q t → IsSession q → IsSession t
Step-IsSession (sends now reliable targets) v = send_request-IsSession now reliable targets _ v
Step-IsSession (acknowledged id flags) v = recv_ack-IsSession id flags _ v
Step-IsSession (resends threshold now) v = update_pending_sent-IsSession threshold now _ v
Step-IsSession (connects id small) v = connect_peer-IsSession id _ small v
Step-IsSession (disconnects id h) v = disconnect_peer-IsSession id _ _ v h
Step-IsSession resets v = reset-IsSession _ v

-- In every session that the operations can reach from a new one, the rings have their form, each request
-- in the queue counts exactly the entries of all peers that wait for it, nobody waits for a request
-- outside of the queue, and the peers are counted.
pub Reached-IsSession : {q : Session} → Reached q → IsSession q
Reached-IsSession (made id memory small size words) =
    reset-IsSession (new_session id memory) (new_session-IsSession id memory small size words)
Reached-IsSession (after reached step) = Step-IsSession step (Reached-IsSession reached)

-- In a session that the operations can reach, a request in the queue counts the entries of all peers that
-- wait for it: it can be forgotten when, and only when, its count is 0.
pub Reached-count :
    (q : Session) (r : ℕ)
    → Reached q
    → r < num_requests
    → place q r < q.queue_count
    → (request_at q.requests r).count_a ≡ owed_all r q.peers
Reached-count q r reached small near =
    let v = Reached-IsSession reached in omega (arith, v.counted r, v.inside r small near)

-- In a session that the operations can reach and that has room for a request, the slot that the next
-- request overwrites is one that no peer waits for.
pub Reached-free_slot :
    (now reliable : ℕ) (q : Session)
    → Reached q
    → q.queue_count < num_sent
    → owed_all (begin_request now reliable q).queue_index q.peers ≡ 0
unfolding begin_request
Reached-free_slot now reliable q reached room =
    let v = Reached-IsSession reached in
    let i = if q.queue_index == 0 then num_requests - 1 else q.queue_index - 1 in
    let next : q.queue_index ≡ (i + 1) % num_requests = ground (arith, v.index) in
    v.outside i (ground (arith, v.index)) (omega (arith, next, room))
