-- ===== src/NetSession/Window.antt =====
-- `HandlePacketRecv` and the delivery loop of `UpdateReceivePvt`: the reliable parts of the datagrams
-- of one peer wait in a ring of 32 slots until every one before them has come.
use gta_psp_multiplayer.Prelude.{
  ℕ, zero, suc, ◌+◌, ◌-◌, ◌*◌, ◌%◌, ◌^◌, Bool, true, List, [], ◌∷◌, take, drop, get_or, set, ltb,
  ◌==◌, if◌then◌else◌, not, ◌&&◌,
}
pub mod Slots
pub mod Store
pub mod Deliver
pub mod Late
pub mod Tracks
pub mod History
mod Tests

-- A `tNetPacket`: `field_2` is the length of its reliable part, which starts with the sequence
-- number; `body` is the bytes from the sequence number on; a size of 0 marks an empty slot.
pub record Datagram : Type 0 where
  pub size : ℕ
  pub field_2 : ℕ
  pub cur_time : ℕ
  pub body : List ℕ

-- The `uint16` at the front of the body.
abbrev pub seq : Datagram → ℕ
seq d = get_or d.body 0 0 + 256 * get_or d.body 1 0

-- NET_SESSION_NUM_PACKETS_2
abbrev pub num_packets : ℕ
num_packets = 32

-- The part of a `cNetPeerState` for what it has received.
pub record Window : Type 0 where
  pub packets : List Datagram
  pub packet_index : ℕ
  pub packet_end : ℕ
  pub count : ℕ
  pub last_ack : ℕ

abbrev pub empty_datagram : Datagram
empty_datagram = record { size = 0; field_2 = 0; cur_time = 0; body = [] }

-- The slot `k` places behind the first.
abbrev pub place : Window → ℕ → ℕ
place w k = (w.packet_index + k) % num_packets

abbrev pub slot : Window → ℕ → Datagram
slot w k = get_or w.packets (place w k) empty_datagram

abbrev pub with_slot : ℕ → Datagram → Window → Window
with_slot k d w = record w { packets = set w.packets (place w k) d }

-- The loop over `k` that marks `n` slots as empty.
unfoldable pub clear_slots : ℕ → ℕ → Window → Window
clear_slots zero k w = w
clear_slots (suc n) k w = clear_slots n (suc k) (with_slot k (record (slot w k) { size = 0 }) w)

-- `delta`: how far the number is ahead of the next one that is expected, in 12 bits. The code takes
-- a difference with bit 11 as negative, and a negative one is refused.
abbrev pub ahead : ℕ → ℕ → ℕ
ahead number last_ack = (number + 2 ^ 16 - last_ack) % 2 ^ 12

-- The two branches for a datagram that is `delta` ahead of the next.
unfoldable pub store : ℕ → Datagram → Window → Window
store delta d w =
    if ltb delta w.count
    then if (slot w delta).size == 0 then with_slot delta d w else w
    else with_slot delta d (
        clear_slots (delta - w.count) w.count
          (record w { count = delta + 1; packet_end = place w (delta + 1) }))

-- Whether the datagram is kept and acknowledged.
abbrev pub accepts : ℕ → Bool
accepts delta = ltb delta (2 ^ 11) && ltb (delta + 1) num_packets

-- What a received datagram brings about besides the window: its other part is dispatched, and an
-- acknowledgement is sent.
pub data Effect : Type 0 where
  dispatched : List ℕ → ℕ → Effect
  acknowledged : ℕ → Effect

-- A peer, as far as receiving goes: the fields of its `cNetPeerState`, and `IsConnected` and
-- `bCheckSender` of its `sPeerState`. An address is a number.
pub record Peer : Type 0 where
  pub addr : ℕ
  pub is_connected : Bool
  pub check_sender : Bool
  pub time_c : ℕ
  pub window : Window

unfoldable pub receive_window : Datagram → Window → Window × List Effect
receive_window d w =
    if d.field_2 == 0
    then (w, [])
    else if accepts (ahead (seq d) w.last_ack)
    then (store (ahead (seq d) w.last_ack) d w, acknowledged (seq d) ∷ [])
    else (w, [])

-- `HandlePacketRecv` for a sender that is a peer; the counts of bytes are left out.
unfoldable pub handle_packet_recv : ℕ → Datagram → Peer → Peer × List Effect
handle_packet_recv from d peer =
    let (w, effects) = receive_window d peer.window in
    if peer.is_connected && not (peer.addr == from) then (peer, []) else (
      record peer {
        addr = from;
        check_sender = true;
        time_c = if ltb peer.time_c d.cur_time then d.cur_time else peer.time_c;
        window = w;
      },
      dispatched (drop d.field_2 d.body) d.cur_time ∷ effects,
    )

-- The loop of `UpdateReceivePvt` for one peer: what is dispatched, and the window afterwards. Each turn
-- takes one off the count.
unfoldable pub deliver_window : ℕ → Window → List Effect × Window
deliver_window zero w = ([], w)
deliver_window (suc n) w =
    let d = slot w 0 in
    let (effects, w') = deliver_window n (record w {
      last_ack = (seq d + 1) % 2 ^ 16;
      packet_index = if w.packet_index == num_packets - 1 then 0 else w.packet_index + 1;
      count = n;
    }) in
    if d.size == 0
    then ([], w)
    else (dispatched (drop 2 (take d.field_2 d.body)) d.cur_time ∷ effects, w')
