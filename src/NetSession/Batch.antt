-- ===== src/NetSession/Batch.antt =====
-- `PacketAppend`, `DispatchMessages` and the broadcast loop of `UpdateSend`: packets of a group's
-- queue are put into datagrams, and taken out of them. A packet starts with its own size.
use gta_psp_multiplayer.Prelude.{
  ℕ, zero, suc, ◌+◌, ◌*◌, Bool, true, false, Option, none, some, List, [], ◌∷◌, length, take, drop,
  ltb, ◌==◌, if◌then◌else◌,
}
pub mod Fitting
pub mod Dispatch
pub mod Broadcast
mod Tests

-- NET_SESSION_MAX_PACKET_SIZE, the value of `m_nMaxPacketSz`
abbrev pub max_packet_size : ℕ
max_packet_size = 1400

-- sizeof(tNetOutgoingPacketHeader)
abbrev pub header_size : ℕ
header_size = 6

-- The `uint16` at the front, in the byte order of the machines, and what is there of it.
abbrev pub size_field : List ℕ → ℕ
size_field [] = 0
size_field (low ∷ []) = low
size_field (low ∷ high ∷ rest) = low + 256 * high

abbrev pub plus : ℕ → Option ℕ → Option ℕ
plus n o = elim o [ none ↦ none | some m ↦ some (n + m) ]

-- One turn of the loop of `PacketAppend`, at a packet whose size field is `n`, with `available`
-- bytes up to the end and `used` bytes of `room` taken; `rest` is what the next turns copy.
-- `none` is an iterator past the end of the buffer.
unfoldable pub append_turn : ℕ → ℕ → ℕ → ℕ → Option ℕ → Option ℕ
append_turn n available room used rest =
    if ltb available 2
    then some 0
    else if n == 0
    then some 0
    else if ltb room (used + n)
    then some 0
    else if ltb available n
    then none
    else plus n rest

-- The loop: the bytes of the whole packets at the front that fit. A turn skips a byte at least, so
-- that as much fuel as there are bytes lasts.
unfoldable pub whole_packets : ℕ → ℕ → ℕ → List ℕ → Option ℕ
whole_packets fuel room used [] = some 0
whole_packets zero room used (b ∷ bs) = none
whole_packets (suc fuel) room used (b ∷ bs) =
    let n = size_field (b ∷ bs) in
    append_turn n (length (b ∷ bs)) room used (whole_packets fuel room (used + n) (drop n (b ∷ bs)))

-- `PacketAppend`, on the packet's size so far: the number of bytes that are copied.
unfoldable pub packet_append : ℕ → ℕ → List ℕ → Option ℕ
packet_append room initial buffer =
    if ltb room (length buffer + initial)
    then whole_packets (length buffer) room initial buffer
    else some (length buffer)

-- The parts of the program that take a packet: `HandleAckRecv`, and the game's dispatcher, which
-- also tells whether `cAdhoc` has an error afterwards.
pub record Dispatcher (S : Type 0) : Type 0 where
  pub handle_ack : ℕ → S → S
  pub dispatch : List ℕ → S → S
  pub had_error : S → Bool

-- `pckt_id` and `nFlags`, from the packet's start; a byte that is not there reads as 0.
abbrev pub pckt_id : List ℕ → ℕ
pckt_id (low ∷ high ∷ id ∷ rest) = id
pckt_id bs = 0

abbrev pub ack_flags : List ℕ → ℕ
ack_flags (low ∷ high ∷ id ∷ rest) = size_field rest
ack_flags bs = 0

-- `ack.pckt_id`
abbrev pub ack_id : ℕ
ack_id = 1

module _ {S : Type 0} (dispatcher : Dispatcher S) where
  -- The body of the loop of `DispatchMessages` for one packet, and whether the loop goes on.
  unfoldable pub handle : List ℕ → S → S × Bool
  handle packet s =
      if pckt_id packet == ack_id
      then (dispatcher.handle_ack (ack_flags packet) s, true)
      else let s' = dispatcher.dispatch packet s in
        (s', if dispatcher.had_error s' then false else true)

  -- `DispatchMessages`, for a session that has a dispatcher. A turn skips a byte at least. A packet
  -- whose size leads past the end is handed on with the bytes that are there.
  unfoldable pub dispatch_messages : ℕ → List ℕ → S → S
  dispatch_messages fuel [] s = s
  dispatch_messages zero (b ∷ bs) s = s
  dispatch_messages (suc fuel) (b ∷ bs) s =
      let n = size_field (b ∷ bs) in
      let next = handle (take n (b ∷ bs)) s in
      let rest = dispatch_messages fuel (drop n (b ∷ bs)) next.0 in
      if n == 0 then s else if next.1 then rest else next.0

-- How the broadcast loop stands: not ended yet, at an iterator past the end of the queue, or ended, with
-- the payloads of the datagrams that were sent.
pub data Sending : Type 0 where
  running : Sending
  past_end : Sending
  ended : List (List ℕ) → Sending

abbrev pub after_datagram : List ℕ → Sending → Sending
after_datagram d running = running
after_datagram d past_end = past_end
after_datagram d (ended sent) = ended (d ∷ sent)

-- A turn of the loop, with what `PacketAppend` copied and what the next turns do.
abbrev pub broadcast_turn : List ℕ → Option ℕ → (ℕ → Sending) → Sending
broadcast_turn bs none rest = past_end
broadcast_turn bs (some appended) rest = after_datagram (take appended bs) (rest appended)

-- The broadcast loop of `UpdateSend`: the payloads of the datagrams that are sent until the queue is
-- empty, without their headers; the counts of sent bytes are left out. Each turn takes one of the fuel.
unfoldable pub broadcast_all : ℕ → List ℕ → Sending
broadcast_all fuel [] = ended []
broadcast_all zero (b ∷ bs) = running
broadcast_all (suc fuel) (b ∷ bs) =
    broadcast_turn (b ∷ bs) (packet_append max_packet_size header_size (b ∷ bs))
      (λ appended. broadcast_all fuel (drop appended (b ∷ bs)))
