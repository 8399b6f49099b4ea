-- ===== src/NetSession/Batch/Tests.antt =====
-- The theorems of the datagrams at concrete packets, and runs of the loops.
use gta_psp_multiplayer.Prelude.{
  ℕ, false, some, List, [], ◌∷◌, ◌++◌, length, replicate, length-replicate, ◌≡◌, refl, arith,
}
use gta_psp_multiplayer.NetSession.Batch.{
  Dispatcher, packet_append, whole_packets, append_turn, dispatch_messages, running, ended,
  broadcast_all, handle,
}
use gta_psp_multiplayer.NetSession.Batch.Fitting.{Wire, IsBatch, concat, packet_append-IsBatch}
use gta_psp_multiplayer.NetSession.Batch.Dispatch.{deliver, dispatch_messages-deliver}
use gta_psp_multiplayer.NetSession.Batch.Broadcast.{
  Broadcasts, receive, broadcast_all-Broadcasts, receive-broadcast_all, broadcast_all-stuck,
}

-- A packet of `n` bytes behind the size and the number.
abbrev heart_beat : Wire
heart_beat = record { low = 3; high = 0; rest = 16 ∷ []; sized = omega arith }

abbrev ack : Wire
ack = record { low = 5; high = 0; rest = 1 ∷ 7 ∷ 0 ∷ []; sized = omega arith }

abbrev wires : List Wire
wires = heart_beat ∷ ack ∷ heart_beat ∷ []

-- A receiver that notes what it is handed.
abbrev notes : Dispatcher (List (List ℕ))
notes = record {
  handle_ack = λ n s. s ++ (n ∷ []) ∷ [];
  dispatch = λ p s. s ++ p ∷ [];
  had_error = λ s. false;
}

packet_append-IsBatch_example : IsBatch 14 6 wires (packet_append 14 6 (concat wires))
packet_append-IsBatch_example = packet_append-IsBatch 14 6 wires (omega arith)

dispatch_messages-deliver_example :
    dispatch_messages notes 11 (concat wires) [] ≡ deliver notes wires []
dispatch_messages-deliver_example = dispatch_messages-deliver notes 11 wires [] (omega arith)

broadcast_all-Broadcasts_example : Broadcasts wires (broadcast_all 11 (concat wires))
broadcast_all-Broadcasts_example = broadcast_all-Broadcasts 11 wires (omega arith) refl

receive-broadcast_all_example :
    (sent : List (List ℕ)) × (broadcast_all (length (concat wires)) (concat wires) ≡ ended sent)
    × (receive notes sent [] ≡ deliver notes wires [])
receive-broadcast_all_example = receive-broadcast_all notes (λ s. refl) wires refl []

-- 1410 bytes
abbrev large : Wire
large = record {
  low = 130;
  high = 5;
  rest = replicate 1408 0;
  sized = omega (arith, length-replicate {A = ℕ} 1408 0);
}

broadcast_all-stuck_example : broadcast_all 20 (concat (large ∷ heart_beat ∷ [])) ≡ running
broadcast_all-stuck_example =
    broadcast_all-stuck 20 large (heart_beat ∷ []) (omega (arith, length-replicate {A = ℕ} 1408 0))

packet_append_test : packet_append 14 6 (concat wires) ≡ some 8
unfolding packet_append whole_packets append_turn
packet_append_test = refl

dispatch_messages_test :
    dispatch_messages notes 11 (concat wires) []
    ≡ (3 ∷ 0 ∷ 16 ∷ []) ∷ (7 ∷ []) ∷ (3 ∷ 0 ∷ 16 ∷ []) ∷ []
unfolding dispatch_messages handle
dispatch_messages_test = refl
