-- ===== src/NetSession/Groups/Send.antt =====
-- `SendMessage` and `SendMessagePriority`: a packet waits in its group's queue until `UpdateSend`.
use gta_psp_multiplayer.Prelude.{
  ℕ, Bool, true, false, Option, none, some, List, [], ◌++◌, length, ltb, if◌then◌else◌,
}
use gta_psp_multiplayer.Prelude.Int.{ℤ, pos}
use gta_psp_multiplayer.NetSession.Groups.{
  SendQueue, Queues, same, get_peer_queue, has_peer_queue, at_queue,
}

-- NET_SESSION_MAX_GROUP_USED_BYTES and its counterpart for priority messages
abbrev pub max_used_bytes : ℕ
max_used_bytes = 10000

abbrev pub max_used_bytes_priority : ℕ
max_used_bytes_priority = 51200

-- The queues after a send, and whether it raised the error flag of `cAdhoc`.
pub record Sent : Type 0 where
  pub queues : Queues
  pub has_error : Bool

-- Build of the program: without FINAL and MASTER a full queue of plain messages is emptied.
pub data Build : Type 0 where
  develop release : Build

-- The else branch appends the packet's `pckt_size` bytes.
unfoldable pub enqueue : Build → List ℕ → SendQueue → SendQueue
enqueue build packet q =
    if ltb max_used_bytes (length q.packet_buffer)
    then elim build [ develop ↦ record q { packet_buffer = [] } | release ↦ q ]
    else record q { packet_buffer = q.packet_buffer ++ packet }

unfoldable pub enqueue_priority : List ℕ → SendQueue → SendQueue
enqueue_priority packet q =
    if ltb max_used_bytes_priority (length q.packet_buffer_prio)
    then q
    else record q { packet_buffer_prio = q.packet_buffer_prio ++ packet }

-- `none` is the use of the nil pointer of an unknown group.
unfoldable pub send_message : Build → ℕ → List ℕ → ℤ → Queues → Option Queues
send_message build self packet g qs =
    if same g (pos self)
    then some qs
    else if has_peer_queue g qs
    then some (at_queue g (enqueue build packet) qs)
    else none

unfoldable pub is_full_priority : ℤ → Queues → Bool
is_full_priority g qs = elim (get_peer_queue g qs) [
  | none ↦ false
  | some q ↦ ltb max_used_bytes_priority (length q.packet_buffer_prio)
]

-- The two branches for a queue that is there: full, or not.
unfoldable pub put_priority : List ℕ → ℤ → Sent → Sent
unfolding is_full_priority
put_priority packet g s = record {
  queues = at_queue g (enqueue_priority packet) s.queues;
  has_error = if is_full_priority g s.queues then true else s.has_error;
}

unfoldable pub send_message_priority : ℕ → List ℕ → ℤ → Sent → Option Sent
unfolding put_priority
send_message_priority self packet g s =
    if same g (pos self)
    then some s
    else if has_peer_queue g s.queues
    then some (put_priority packet g s)
    else none

-- `SendAckPacket`.
unfoldable pub send_ack_packet : Build → ℕ → List ℕ → ℤ → Queues → Option Queues
send_ack_packet build self packet g qs =
    if same g (pos self) then some qs else send_message build self packet g qs
