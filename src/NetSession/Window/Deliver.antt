-- ===== src/NetSession/Window/Deliver.antt =====
-- The delivery loop: what waits next is dispatched, up to the first gap.
use gta_psp_multiplayer.Prelude.{
  ℕ, zero, suc, ◌+◌, ◌-◌, ◌%◌, ◌^◌, ◌<◌, ◌≡◌, refl, ap, none, some, List, [], ◌∷◌, length, take,
  drop, get_or, ◌==◌, if◌then◌else◌, arith,
}
use gta_psp_multiplayer.NetSession.Window.{
  Datagram, Window, place, slot, seq, num_packets, empty_datagram, Effect, dispatched,
  deliver_window,
}
use gta_psp_multiplayer.NetSession.Window.Store.{pending}

-- The window after its first datagram is delivered.
abbrev pub advance : Window → Window
advance w = record w {
  last_ack = (seq (slot w 0) + 1) % 2 ^ 16;
  packet_index = if w.packet_index == num_packets - 1 then 0 else w.packet_index + 1;
  count = w.count - 1;
}

advance-place :
    (w : Window) (k : ℕ) → w.packet_index < num_packets → place (advance w) k ≡ place w (suc k)
advance-place w k h = ground arith

-- What waits is one place nearer.
pub pending-advance :
    (w : Window) (k : ℕ) → w.packet_index < num_packets → pending (advance w) k ≡ pending w (suc k)
pending-advance w k h =
    ground (arith, ap (λ i. get_or w.packets i empty_datagram) (advance-place w k h))

-- The reliable part of a datagram, behind its number.
abbrev pub delivery : Datagram → Effect
delivery d = dispatched (drop 2 (take d.field_2 d.body)) d.cur_time

-- The datagrams that wait from place `k` on, up to the first gap, and at most `n`.
abbrev pub ready : ℕ → ℕ → Window → List Effect
ready zero k w = []
ready (suc n) k w = elim (pending w k) [ none ↦ [] | some d ↦ delivery d ∷ ready n (suc k) w ]

ready-advance :
    (n k : ℕ) (w : Window)
    → w.packet_index < num_packets
    → ready n k (advance w) ≡ ready n (suc k) w
ready-advance zero k w h = refl
ready-advance (suc n) k w h = ground (arith, pending-advance w k h, ready-advance n (suc k) w h)

-- The loop dispatches the datagrams that are ready, each once and in order; what still waits is as
-- many places nearer, and no datagram is ready any more.
pub deliver_window-ready :
    (n k : ℕ) (w : Window)
    → w.packet_index < num_packets
    → n ≡ w.count
    → ((deliver_window n w).0 ≡ ready n 0 w)
      × (pending (deliver_window n w).1 k ≡ pending w (length (ready n 0 w) + k))
      × (pending (deliver_window n w).1 0 ≡ none)
unfolding deliver_window
deliver_window-ready zero k w h e = ground arith
deliver_window-ready (suc n) k w h e =
    let rest = deliver_window-ready n k (advance w) (ground arith) (omega arith) in
    ground
      (arith, rest, ready-advance n 0 w h, pending-advance w (length (ready n 0 (advance w)) + k) h)
