-- ===== src/NetSession/Window/Tests.antt =====
-- The theorems of the window at concrete datagrams, and runs of it.
use gta_psp_multiplayer.Prelude.{
  ℕ, ◌<◌, List, none, some, [], ◌∷◌, ◌++◌, length, replicate, ◌≡◌, refl, arith, if◌then◌else◌, ◌==◌,
}
use gta_psp_multiplayer.NetSession.Window.{
  Datagram, Window, Effect, dispatched, empty_datagram, store, deliver_window, receive_window,
  clear_slots,
}
use gta_psp_multiplayer.NetSession.Window.Slots.{IsWindow}
use gta_psp_multiplayer.NetSession.Window.Store.{pending, pending-store}
use gta_psp_multiplayer.NetSession.Window.Late.{receive_window-late}
use gta_psp_multiplayer.NetSession.Window.Tracks.{IsCopy, parts}
use gta_psp_multiplayer.NetSession.Window.History.{
  new_window, Run, starts, receives, delivers, Run-in_order, Run-progress,
}

-- A datagram with a number and a reliable heart beat.
abbrev numbered : ℕ → Datagram
numbered n = record { size = 11; field_2 = 5; cur_time = 0; body = n ∷ 0 ∷ 3 ∷ 0 ∷ 16 ∷ [] }

-- Nothing waits; the next number is 5, and its place the last of the ring.
abbrev window : Window
window = record {
  packets = replicate 32 empty_datagram;
  packet_index = 31;
  packet_end = 31;
  count = 0;
  last_ack = 5;
}

window-IsWindow : IsWindow window
window-IsWindow = record { slots = refl; index = omega arith; narrow = omega arith }

pending-store_example :
    IsWindow (store 1 (numbered 6) window)
    × (pending (store 1 (numbered 6) window) 1 ≡ (
        if 1 == 1
        then elim (pending window 1) [ none ↦ some (numbered 6) | some x ↦ some x ]
        else pending window 1))
pending-store_example =
    pending-store 1 1 (numbered 6) window window-IsWindow (omega arith) (omega arith) (omega arith)

-- Number 6 and then number 5 have come.
abbrev two_waiting : Window
two_waiting = record window {
  packets = numbered 6 ∷ replicate 30 empty_datagram ++ numbered 5 ∷ [];
  packet_end = 1;
  count = 2;
}

receive_window-late_example : receive_window (numbered 4) window ≡ (window, [])
receive_window-late_example =
    receive_window-late (numbered 4) window 1 (omega arith) (omega arith) (omega arith)
      (omega arith) refl

-- Out of order, and delivered in order.
two_waiting_test :
    (receive_window (numbered 5) (receive_window (numbered 6) window).0).0 ≡ two_waiting
unfolding receive_window store clear_slots
two_waiting_test = refl

deliver_window_test :
    (deliver_window 2 two_waiting).0
    ≡ dispatched (3 ∷ 0 ∷ 16 ∷ []) 0 ∷ dispatched (3 ∷ 0 ∷ 16 ∷ []) 0 ∷ []
unfolding deliver_window
deliver_window_test = refl

-- The sender's parts, each with its number as its last byte, and their datagrams.
abbrev sent_part : ℕ → Effect
sent_part n = dispatched (3 ∷ 0 ∷ n ∷ []) 0

abbrev sent_datagram : ℕ → Datagram
sent_datagram n = record { size = 11; field_2 = 5; cur_time = 0; body = n ∷ 0 ∷ 3 ∷ 0 ∷ n ∷ [] }

sent_datagram-IsCopy : (n : ℕ) → n < 256 → IsCopy sent_part n (sent_datagram n)
sent_datagram-IsCopy n h = record {
  number = omega arith;
  narrow = omega (arith, h);
  content = refl;
  real = omega arith;
  reliable = omega arith;
}

-- Number 1 comes before number 0.
abbrev crossed : Window
crossed = (receive_window (sent_datagram 0) (receive_window (sent_datagram 1) new_window).0).0

crossed-Run : Run sent_part crossed []
crossed-Run =
    receives 0 (sent_datagram 0)
      (receives 1 (sent_datagram 1) starts (sent_datagram-IsCopy 1 (omega arith)) (omega arith)
        (omega arith))
      (sent_datagram-IsCopy 0 (omega arith)) (omega arith) (omega arith)

Run-in_order_example :
    (deliver_window crossed.count crossed).0
    ≡ parts sent_part (length (deliver_window crossed.count crossed).0) 0
Run-in_order_example =
    Run-in_order sent_part (deliver_window crossed.count crossed).1
      (deliver_window crossed.count crossed).0 (delivers crossed-Run)

Run-progress_example :
    let w = (receive_window (sent_datagram 1) new_window).0 in
    let r = receive_window (sent_datagram 0) w in
    let next = deliver_window r.0.count r.0 in (rest : List Effect) × (next.0 ≡ sent_part 0 ∷ rest)
Run-progress_example =
    Run-progress sent_part (receive_window (sent_datagram 1) new_window).0 [] (sent_datagram 0)
      (receives 1 (sent_datagram 1) starts (sent_datagram-IsCopy 1 (omega arith)) (omega arith)
        (omega arith))
      (sent_datagram-IsCopy 0 (omega arith))

crossed_test : (deliver_window crossed.count crossed).0 ≡ sent_part 0 ∷ sent_part 1 ∷ []
unfolding receive_window store clear_slots deliver_window
crossed_test = refl
