-- ===== src/NetSession/Window/Store.antt =====
-- The window as a map: which datagram waits at which distance from the next one to deliver.
use gta_psp_multiplayer.Prelude.{
  ℕ, ◌+◌, ◌-◌, ◌≤◌, ◌<◌, ◌≡◌, ◌≢◌, ap, ◌∙◌, Option, none, some, length-set, ltb, ◌==◌,
  if◌then◌else◌, arith, ℕ_discrete, Bool-cases, ltb→lt, inl, inr,
}
use gta_psp_multiplayer.NetSession.Window.{
  Datagram, Window, place, slot, clear_slots, store, num_packets,
}
use gta_psp_multiplayer.NetSession.Window.Slots.{
  IsWindow, slot-with_slot, slot-clear_slots, clear_slots-fields,
}

-- The datagram that waits `k` places behind the next.
abbrev pub pending : Window → ℕ → Option Datagram
pending w k = if ltb k w.count then if (slot w k).size == 0 then none else some (slot w k) else none

-- The window with its new bounds, its new slots marked as empty.
abbrev widened : ℕ → Window → Window
widened delta w =
    clear_slots (delta - w.count) w.count
      (record w { count = delta + 1; packet_end = place w (delta + 1) })

-- A datagram inside of the window.
store-inside :
    (delta k : ℕ) (d : Datagram) (w : Window)
    → IsWindow w
    → k < num_packets
    → delta < w.count
    → d.size ≢ 0
    → pending (store delta d w) k ≡ (
        if delta == k
        then elim (pending w delta) [ none ↦ some d | some x ↦ some x ]
        else pending w k)
unfolding store
store-inside delta k d w v hk inside real = elim (ℕ_discrete delta k) [
  | yes q ↦
      ground (arith, slot-with_slot w delta k d v.slots (omega (arith, v.narrow)) hk, ap (slot w) q)
  | no ne ↦ ground (arith, slot-with_slot w delta k d v.slots (omega (arith, v.narrow)) hk)
]

store-beyond :
    (delta k : ℕ) (d : Datagram) (w : Window)
    → IsWindow w
    → k < num_packets
    → w.count ≤ delta
    → delta + 1 < num_packets
    → d.size ≢ 0
    → pending (store delta d w) k ≡ (
        if delta == k
        then elim (pending w delta) [ none ↦ some d | some x ↦ some x ]
        else pending w k)
unfolding store
store-beyond delta k d w v hk beyond small real =
    let fields =
      clear_slots-fields (delta - w.count) w.count
        (record w { count = delta + 1; packet_end = place w (delta + 1) }) in
    ground (
      arith,
      slot-with_slot (widened delta w) delta k d (fields.0 ∙ v.slots) (omega arith) hk,
      slot-clear_slots (delta - w.count) w.count k
          (record w { count = delta + 1; packet_end = place w (delta + 1) }) v.slots (omega arith)
          hk,
      fields.2,
    )

store-IsWindow :
    (delta : ℕ) (d : Datagram) (w : Window)
    → IsWindow w
    → delta + 1 < num_packets
    → IsWindow (store delta d w)
unfolding store
store-IsWindow delta d w v small =
    let fields =
      clear_slots-fields (delta - w.count) w.count
        (record w { count = delta + 1; packet_end = place w (delta + 1) }) in
    record {
      slots = ground (
        arith,
        v.slots,
        fields.0,
        length-set w.packets (place w delta) d,
        length-set (widened delta w).packets (place (widened delta w) delta) d,
      );
      index = ground (arith, v.index, fields.1);
      narrow = ground (arith, v.narrow, fields.2);
    }

-- A datagram of some size that is stored less than 31 places ahead waits at its distance, unless one
-- waits there already, which stays; what waits at any other distance is untouched, and the ring keeps
-- its form.
pub pending-store :
    (delta k : ℕ) (d : Datagram) (w : Window)
    → IsWindow w
    → k < num_packets
    → delta + 1 < num_packets
    → d.size ≢ 0
    → IsWindow (store delta d w)
      × (pending (store delta d w) k ≡ (
          if delta == k
          then elim (pending w delta) [ none ↦ some d | some x ↦ some x ]
          else pending w k))
pending-store delta k d w v hk small real = (
  store-IsWindow delta d w v small,
  elim (Bool-cases (ltb delta w.count)) [
    | inl inside ↦ store-inside delta k d w v hk (omega (arith, ltb→lt delta w.count inside)) real
    | inr beyond ↦ store-beyond delta k d w v hk (ground arith) small real
  ],
)
