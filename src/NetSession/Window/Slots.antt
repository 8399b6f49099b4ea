-- ===== src/NetSession/Window/Slots.antt =====
-- What the slots hold after a datagram is stored.
use gta_psp_multiplayer.Prelude.{
  ℕ, zero, suc, ◌+◌, ◌<◌, ◌≡◌, refl, ap, ◌∙◌, length, get_or-set_self, get_or-set_ne, length-set,
  ltb, ◌==◌, if◌then◌else◌, arith, ℕ_discrete,
}
use gta_psp_multiplayer.NetSession.Window.{
  Datagram, Window, place, slot, with_slot, clear_slots, num_packets, empty_datagram,
}

-- The ring has its 32 slots, and the window fewer.
pub record IsWindow (w : Window) : Type 0 where
  pub slots : length w.packets ≡ num_packets
  pub index : w.packet_index < num_packets
  pub narrow : w.count < num_packets

pub slot-with_slot :
    (w : Window) (j k : ℕ) (d : Datagram)
    → length w.packets ≡ num_packets
    → j < num_packets
    → k < num_packets
    → slot (with_slot j d w) k ≡ (if j == k then d else slot w k)
slot-with_slot w j k d full hj hk = ground (
  arith,
  get_or-set_self w.packets (place w j) d empty_datagram,
  get_or-set_ne w.packets (place w j) (place w k) d empty_datagram,
)

pub clear_slots-fields :
    (n k : ℕ) (w : Window)
    → (length (clear_slots n k w).packets ≡ length w.packets)
      × ((clear_slots n k w).packet_index ≡ w.packet_index)
      × ((clear_slots n k w).count ≡ w.count)
      × ((clear_slots n k w).last_ack ≡ w.last_ack)
unfolding clear_slots
clear_slots-fields zero k w = (refl, refl, refl, refl)
clear_slots-fields (suc n) k w =
    let h = clear_slots-fields n (suc k) (with_slot k (record (slot w k) { size = 0 }) w) in
    (h.0 ∙ length-set w.packets _ _, h.1, h.2, h.3)

abbrev pub cleared : Datagram → Datagram
cleared d = record d { size = 0 }

-- One turn of the loop, at its own place or another.
at_place :
    (k j n : ℕ) (w : Window) (d : Datagram)
    → d ≡ (if k == j then cleared (slot w k) else slot w j)
    → (if ltb j (suc k) then d else if ltb j (suc k + n) then cleared d else d)
      ≡ (if ltb j k then slot w j else if ltb j (k + suc n) then cleared (slot w j) else slot w j)
at_place k j n w d e = elim (ℕ_discrete k j) [
  | yes q ↦ ground (arith, ap (slot w) q)
  | no ne ↦ ground arith
]

-- Clearing marks the slots from `k` to `k + n`, and no other.
pub slot-clear_slots :
    (n k j : ℕ) (w : Window)
    → length w.packets ≡ num_packets
    → k + n < num_packets
    → j < num_packets
    → slot (clear_slots n k w) j ≡ (
        if ltb j k
        then slot w j
        else if ltb j (k + n)
        then record (slot w j) { size = 0 }
        else slot w j)
unfolding clear_slots
slot-clear_slots zero k j w full hk hj = ground arith
slot-clear_slots (suc n) k j w full hk hj =
    slot-clear_slots n (suc k) j (with_slot k (record (slot w k) { size = 0 }) w)
      (length-set w.packets _ _ ∙ full) (omega arith) hj
    ∙ at_place k j n w (slot (with_slot k (cleared (slot w k)) w) j)
        (slot-with_slot w k j (cleared (slot w k)) full (omega arith) hj)
