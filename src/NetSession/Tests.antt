-- ===== src/NetSession/Tests.antt =====
-- The theorems of the session at concrete groups and packets, and runs of its operations.
use gta_psp_multiplayer.Prelude.{
  ℕ, false, some, List, [], ◌∷◌, ◌++◌, ◌≡◌, refl, arith, if◌then◌else◌, ◌==◌,
}
use gta_psp_multiplayer.Prelude.Int.{ℤ, pos}
use gta_psp_multiplayer.NetSession.Groups.{
  SendQueue, Queues, broadcast, team_a, same, get_peer_queue, delete_peer, listed, ids,
}
use gta_psp_multiplayer.NetSession.Groups.Order.{InOrder}
use gta_psp_multiplayer.NetSession.Groups.Effects.{delete_peer_lem}
use gta_psp_multiplayer.NetSession.Groups.Send.{Sent, develop, send_message, send_message_priority}
use gta_psp_multiplayer.NetSession.Groups.Delivery.{
  AllBounded, BoundedAfter, queues_of, send-AllBounded,
}
use gta_psp_multiplayer.NetSession.Groups.Fifo.{OthersKept, send_all, send_all-in_order}

abbrev queue : ℤ → List ℕ → SendQueue
queue g peers = record {
  id = g;
  is_used = 1;
  force_queue_id = broadcast;
  packet_buffer = [];
  packet_buffer_prio = [];
  peer_list = peers;
}

-- Three peers: everybody, one team, and the groups of the peers 1 and 2.
abbrev groups : Queues
groups =
    queue broadcast (0 ∷ 1 ∷ 2 ∷ [])
    ∷ queue team_a (1 ∷ [])
    ∷ queue (pos 1) (1 ∷ [])
    ∷ queue (pos 2) (2 ∷ [])
    ∷ []

groups-InOrder : InOrder groups
groups-InOrder = (
  (omega arith, (omega arith, (omega arith, tt))),
  ((omega arith, tt), ((omega arith, tt), ((omega arith, tt), tt))),
)

delete_peer_example :
    (rs : Queues) × (delete_peer 1 groups ≡ some rs)
    × InOrder rs
    × (ids rs ≡ ids groups)
    × ((h : ℤ) (r : ℕ) → listed h r rs ≡ (if 1 == r then false else listed h r groups))
delete_peer_example = delete_peer_lem 1 groups groups-InOrder

abbrev quiet_session : Sent
quiet_session = record { queues = groups; has_error = false }

groups-AllBounded : AllBounded groups
groups-AllBounded = (
  record { plain = omega arith; priority = omega arith },
  (
    record { plain = omega arith; priority = omega arith },
    (
      record { plain = omega arith; priority = omega arith },
      (record { plain = omega arith; priority = omega arith }, tt),
    ),
  ),
)

-- A heart beat.
abbrev heart_beat : List ℕ
heart_beat = 3 ∷ 0 ∷ 16 ∷ []

send-AllBounded_example :
    BoundedAfter (send_message develop 0 heart_beat team_a groups)
    × BoundedAfter (queues_of (send_message_priority 0 heart_beat team_a quiet_session))
send-AllBounded_example =
    send-AllBounded develop 0 heart_beat team_a quiet_session (omega arith) groups-AllBounded

not_self : same team_a (pos 0) ≡ false
unfolding same
not_self = refl

team_queue-found : get_peer_queue team_a groups ≡ some (queue team_a (1 ∷ []))
unfolding get_peer_queue same
team_queue-found = refl

send_all-in_order_example :
    (t : Sent) × (send_all 0 (heart_beat ∷ heart_beat ∷ []) team_a quiet_session ≡ some t)
    × (t.has_error ≡ false)
    × (get_peer_queue team_a t.queues
        ≡ some (record (queue team_a (1 ∷ [])) {
          packet_buffer_prio = heart_beat ++ heart_beat ++ [];
        }))
    × OthersKept team_a groups t.queues
send_all-in_order_example =
    send_all-in_order 0 (heart_beat ∷ heart_beat ∷ []) team_a quiet_session (queue team_a (1 ∷ []))
      not_self team_queue-found (omega arith)
