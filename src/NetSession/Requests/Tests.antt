-- ===== src/NetSession/Requests/Tests.antt =====
-- The theorems on sending at a concrete session, and runs of it.
use gta_psp_multiplayer.Prelude.{
  ℕ, zero, suc, ◌^◌, ◌<◌, ◌≡◌, refl, ◌++◌, get_or, false, none, some, List, [], ◌∷◌, replicate,
  arith,
}
use gta_psp_multiplayer.Prelude.Int.{pos}
use gta_psp_multiplayer.NetSession.Reliable.{
  push_entry, Entry, Sender, Request, Shared, no_entry, no_request, request_at, handle_ack_recv,
  attempt_send_packet,
}
use gta_psp_multiplayer.NetSession.Reliable.Ring.{IsRing, waiting}
use gta_psp_multiplayer.NetSession.Reliable.Ack.{settle, handle_ack_recv-settle}
use gta_psp_multiplayer.NetSession.Reliable.Send.{
  view, first_sending, attempt_send_packet-first_sending,
}
use gta_psp_multiplayer.NetSession.Reliable.High.{handle_ack_recv-high}
use gta_psp_multiplayer.NetSession.Requests.{
  Session, new_sender, begin_request, send_request, send_all, attempt_to, finish_request, recv_ack,
  connect_peer, disconnect_all_peers, update_pending_sent, reset, peer_at,
}
use gta_psp_multiplayer.NetSession.Requests.Owed.{owed_all}
use gta_psp_multiplayer.NetSession.Requests.Link.{IsSession}
use gta_psp_multiplayer.NetSession.Requests.Peers.{Deserted, disconnect_all_peers-deserts}
use gta_psp_multiplayer.NetSession.Requests.History.{
  sends, acknowledged, connects, Reached, made, after, new_session, Reached-IsSession,
  Reached-free_slot,
}

-- Two datagrams wait, numbers 1 and 0, the first made at 100 and the second at 160.
abbrev newest : Entry
newest = record { processed = false; seq = 1; request = 4; delta = 160 }

abbrev oldest : Entry
oldest = record { processed = false; seq = 0; request = 5; delta = 100 }

abbrev sender : Sender
sender = record {
  entries = newest ∷ oldest ∷ replicate 45 no_entry;
  sent_begin = 0;
  sent_end = 2;
  sent_count = 2;
  next_packet_seq = 2;
  send_overflow = false;
}

sender-IsRing : IsRing sender
sender-IsRing = record { slots = refl; begun = omega arith; few = omega arith; closed = refl }

-- Each of the two requests counts one entry and has a reliable part.
abbrev used : Request
used = record { count_a = 1; delta = 100; field_2 = 7 }

abbrev requests : List Request
requests = replicate 4 no_request ++ used ∷ used ∷ replicate 42 no_request

abbrev shared : Shared
shared = record { requests = requests; limit_reached = false }

-- The acknowledgement of number 0.
handle_ack_recv-settle_example :
    IsRing (handle_ack_recv 0 sender requests).0
    × (waiting (handle_ack_recv 0 sender requests).0 ≡ settle 0 (waiting sender))
handle_ack_recv-settle_example = handle_ack_recv-settle 0 sender requests sender-IsRing

attempt_send_packet-first_sending_example :
    let o = attempt_send_packet 200 4 0 sender shared in
    (view o.sender, o.effects) ≡ first_sending 200 4 used (view sender)
attempt_send_packet-first_sending_example =
    attempt_send_packet-first_sending 200 4 sender shared sender-IsRing

-- A new sender, and the acknowledgement of number 300.
handle_ack_recv-high_example :
    handle_ack_recv 300 new_sender requests ≡ (new_sender, requests, none)
handle_ack_recv-high_example =
    handle_ack_recv-high 300 new_sender requests (narrow 47) (omega arith)
  where
    narrow : (n i : ℕ) → (get_or (replicate n no_entry) i no_entry).seq < 2 ^ 8
    narrow zero i = omega arith
    narrow (suc n) zero = omega arith
    narrow (suc n) (suc i) = narrow n i

-- What the memory held before: counts of 9.
abbrev memory : List Request
memory = replicate 48 (record no_request { count_a = 9 })

memory-count :
    (n r : ℕ) → (request_at (replicate n (record no_request { count_a = 9 })) r).count_a < 2 ^ 32
memory-count zero r = omega arith
memory-count (suc n) zero = omega arith
memory-count (suc n) (suc r) = memory-count n r

-- Peer 1 connects to the host, gets a reliable request, and acknowledges it.
abbrev connected : Session
connected = connect_peer 1 (reset (new_session 0 memory))

abbrev asked : Session
asked = send_request 100 7 (1 ∷ []) connected

abbrev asked-Reached : Reached asked
asked-Reached =
    after (after (made 0 memory (omega arith) refl (memory-count 48)) (connects 1 (omega arith)))
      (sends 100 7 (1 ∷ []))

Reached-IsSession_example : IsSession (recv_ack 1 0 asked)
Reached-IsSession_example = Reached-IsSession (after asked-Reached (acknowledged 1 0))

-- The request stands in slot 47, the only one of the queue.
asked-queue : (asked.queue_index ≡ 47) × (asked.queue_count ≡ 1) × (owed_all 47 asked.peers ≡ 1)
unfolding send_request begin_request send_all attempt_to finish_request attempt_send_packet
    push_entry connect_peer peer_at reset new_session
asked-queue = (refl, refl, refl)

Reached-free_slot_example : owed_all (begin_request 200 9 asked).queue_index asked.peers ≡ 0
Reached-free_slot_example =
    Reached-free_slot 200 9 asked asked-Reached (omega (arith, asked-queue.1))

disconnect_all_peers-deserts_example :
    (t : Session) × (disconnect_all_peers asked ≡ some t)
    × Deserted t
    × (t.peer_count ≡ 0)
    × ((update_pending_sent (λ i. pos 50) 200 t).queue_count ≡ 0)
disconnect_all_peers-deserts_example =
    disconnect_all_peers-deserts (λ i. pos 50) 200 asked (Reached-IsSession asked-Reached)
