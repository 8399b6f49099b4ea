-- ===== src/NetSession/Reliable.antt =====
-- `AttemptSendPacket`, `HandleAckRecv`, `UpdatePendingSent` and `ClearPeerArray`: datagrams with a
-- reliable part are noted in their peer's ring of 47 entries until they are acknowledged, and sent
-- again when that takes too long. An entry shares its request with the entries of other peers; the
-- request counts them.
pub mod Ring
pub mod Ack
pub mod Accounts
pub mod Resend
pub mod Pending
pub mod Keeps
pub mod Send
pub mod Clear
pub mod High
use gta_psp_multiplayer.Prelude.{
  ℕ, zero, suc, ◌+◌, ◌-◌, ◌/◌, ◌%◌, ◌^◌, Bool, true, false, Option, none, some, List, [], ◌∷◌, ◌++◌,
  get_or, set, ◌==◌, if◌then◌else◌, not, ◌&&◌, ◌||◌,
}
use gta_psp_multiplayer.Prelude.Int.{ℤ, ltb_ℤ}
use gta_psp_multiplayer.Sync.Types.{to_signed}

-- NET_SESSION_NUM_PACKETS and NET_SESSION_NUM_SENT_PACKETS
abbrev pub num_requests : ℕ
num_requests = 48

abbrev pub num_sent : ℕ
num_sent = 47

-- A `cNetPeerState_1`. Its `nSeq` is a `uint8`; `request` is the index of `pRequest` in `m_aPackets`.
pub record Entry : Type 0 where
  pub processed : Bool
  pub seq : ℕ
  pub request : ℕ
  pub delta : ℕ

-- The part of a `cNetPeerState`, and of its `sPeerState`, for what was sent to it.
pub record Sender : Type 0 where
  pub entries : List Entry
  pub sent_begin : ℕ
  pub sent_end : ℕ
  pub sent_count : ℕ
  pub next_packet_seq : ℕ
  pub send_overflow : Bool

abbrev pub no_entry : Entry
no_entry = record { processed = false; seq = 0; request = 0; delta = 0 }

abbrev pub entry_at : Sender → ℕ → Entry
entry_at s i = get_or s.entries i no_entry

-- The index before `i`, and the one behind it.
abbrev pub before : ℕ → ℕ
before i = (if i == 0 then num_sent else i) - 1

abbrev pub behind : ℕ → ℕ
behind i = (i + 1) % num_sent

-- The part of a `tNetPacketReq` that the bookkeeping reads: `nCountA`, a `uint32`, the time at which
-- it was made, and the length of its reliable part.
pub record Request : Type 0 where
  pub count_a : ℕ
  pub delta : ℕ
  pub field_2 : ℕ

abbrev pub no_request : Request
no_request = record { count_a = 0; delta = 0; field_2 = 0 }

abbrev pub request_at : List Request → ℕ → Request
request_at rs r = get_or rs r no_request

-- `++nCountA` and `--nCountA`.
abbrev pub count_up : ℕ → List Request → List Request
count_up r rs =
    set rs r (record (request_at rs r) { count_a = ((request_at rs r).count_a + 1) % 2 ^ 32 })

abbrev pub count_down : ℕ → List Request → List Request
count_down r rs =
    set rs r
      (record (request_at rs r) { count_a = ((request_at rs r).count_a + 2 ^ 32 - 1) % 2 ^ 32 })

-- A datagram goes out: the request, and the number that is put in front of its reliable part, or none
-- where the number stays what it was.
pub data Effect : Type 0 where
  sent : ℕ → Option ℕ → Effect

-- What the senders of all peers share: `m_aPackets`, and `m_bSendLimitReached`.
pub record Shared : Type 0 where
  pub requests : List Request
  pub limit_reached : Bool

-- What an operation on one sender leaves, and what it sends.
pub record Outcome : Type 0 where
  pub sender : Sender
  pub shared : Shared
  pub effects : List Effect

-- A new entry in front.
unfoldable pub push_entry : ℕ → ℕ → ℕ → Sender → Sender
push_entry r seq now s = record s {
  entries =
      set s.entries (before s.sent_begin)
        (record { processed = false; seq = seq % 256; request = r; delta = now });
  sent_begin = before s.sent_begin;
  sent_count = suc s.sent_count;
}

-- The number of a datagram: the peer's next, or for one that is sent again the number that is given.
abbrev pub number_for : ℕ → Sender → ℕ
number_for packet_seq s = if packet_seq == 0 then s.next_packet_seq else packet_seq % 2 ^ 16

-- `AttemptSendPacket` for the request `r` at the time `now`; `packet_seq` is 0 for a request that goes
-- to the peer for the first time. The counts of bytes are left out.
unfoldable pub attempt_send_packet : ℕ → ℕ → ℕ → Sender → Shared → Outcome
unfolding push_entry
attempt_send_packet now r packet_seq s sh =
    let pushed = push_entry r (number_for packet_seq s) now s in
    let limit = if pushed.sent_count == num_sent - 1 then true else sh.limit_reached in
    if (request_at sh.requests r).field_2 == 0 || s.send_overflow
    then record { sender = s; shared = sh; effects = sent r none ∷ [] }
    else if s.sent_count == num_sent - 1
    then record { sender = record s { send_overflow = true }; shared = sh; effects = [] }
    else record {
      sender =
          if packet_seq == 0
          then record pushed { next_packet_seq = (s.next_packet_seq + 1) % 2 ^ 12 }
          else pushed;
      shared = record {
        requests = if packet_seq == 0 then count_up r sh.requests else sh.requests;
        limit_reached = limit;
      };
      effects = sent r (some (number_for packet_seq s)) ∷ [];
    }

abbrev pub mark_processed : ℕ → Sender → Sender
mark_processed i s = record s {
  entries = set s.entries i (record (entry_at s i) { processed = true });
}

-- Whether the flags of an acknowledgement say that the datagram was sent again.
abbrev pub is_resent : ℕ → Bool
is_resent flags = not (flags / 2 ^ 12 == 0)

-- Whether an acknowledgement is for the entry.
abbrev pub matches : ℕ → Entry → Bool
matches flags e = not e.processed && (e.seq % 2 ^ 12 == flags % 2 ^ 12)

-- The sender and the requests after the loop of `HandleAckRecv`, and the time from which the round trip
-- is measured, if it is: the statistics that are made of it are left out. The loop visits each entry of
-- the ring once at most.
unfoldable pub ack_loop : ℕ → ℕ → ℕ → Sender → List Request → Sender × List Request × Option ℕ
ack_loop zero flags i s rs = (s, rs, none)
ack_loop (suc fuel) flags i s rs =
    let e = entry_at s i in
    let hit = matches flags e in
    let s' = if hit then mark_processed i s else s in
    let rs' = if hit then count_down e.request rs else rs in
    let rest = ack_loop fuel flags (behind i) s' rs' in
    if i == s.sent_end
    then (s, rs, none)
    else if hit && not (is_resent flags && not (e.seq == flags))
    then (s', rs', some (if is_resent flags then e.delta else (request_at rs' e.request).delta))
    else rest

-- `HandleAckRecv` for the peer that the acknowledgement is from.
unfoldable pub handle_ack_recv : ℕ → Sender → List Request → Sender × List Request × Option ℕ
unfolding ack_loop
handle_ack_recv flags s rs = ack_loop num_sent flags s.sent_begin s rs

-- The first half of `ClearPeerArray`: the requests of the entries that wait are counted down.
unfoldable pub clear_loop : ℕ → ℕ → Sender → List Request → List Request
clear_loop zero i s rs = rs
clear_loop (suc fuel) i s rs =
    let e = entry_at s i in
    let rest = clear_loop fuel (behind i) s (if e.processed then rs else count_down e.request rs) in
    if i == s.sent_end then rs else rest

unfoldable pub clear_sender : Sender → List Request → Sender × List Request
unfolding clear_loop
clear_sender s rs =
    (record s { sent_end = s.sent_begin; sent_count = 0 }, clear_loop num_sent s.sent_begin s rs)

-- Whether an entry has waited longer than `nPerfI`. The clock is an `int32` that wraps around.
unfoldable pub is_late : ℤ → ℕ → Entry → Bool
is_late threshold now e = ltb_ℤ threshold (to_signed 32 ((now + 2 ^ 32 - e.delta) % 2 ^ 32))

-- Whether the search for what is sent again stops at an entry: one that is acknowledged, or late.
unfoldable pub stops : ℤ → ℕ → Entry → Bool
unfolding is_late
stops threshold now e = e.processed || is_late threshold now e

-- The first loop of `UpdatePendingSent` over a peer's entries, newest first.
unfoldable pub find_stop : ℕ → ℤ → ℕ → ℕ → Sender → ℕ
unfolding stops
find_stop zero threshold now i s = i
find_stop (suc fuel) threshold now i s =
    let e = entry_at s i in
    let rest = find_stop fuel threshold now (behind i) s in
    if (i == s.sent_end) || stops threshold now e then i else rest

-- A turn of the second loop: the oldest entry, at `i`, is dropped, and sent again if it still waits.
unfoldable pub resend_turn : ℕ → ℕ → Sender → Shared → Outcome
unfolding attempt_send_packet
resend_turn now i s sh =
    let e = entry_at s i in
    let dropped = record s { sent_count = s.sent_count - 1; sent_end = before s.sent_end } in
    if e.processed
    then record { sender = dropped; shared = sh; effects = [] }
    else attempt_send_packet now e.request (e.seq + 2 ^ 12) dropped sh

-- The second loop, back to the entry at `stop`.
unfoldable pub resend_loop : ℕ → ℕ → ℕ → ℕ → Sender → Shared → Outcome
unfolding resend_turn
resend_loop zero now stop i s sh = record { sender = s; shared = sh; effects = [] }
resend_loop (suc fuel) now stop i s sh =
    let o = resend_turn now (before i) s sh in
    let rest = resend_loop fuel now stop (before i) o.sender o.shared in
    if before i == stop then o else record rest { effects = o.effects ++ rest.effects }

-- The two loops, from the newest entry on and from the oldest back.
unfoldable pub resend_pending : ℤ → ℕ → Sender → Shared → Outcome
resend_pending threshold now s sh =
    let stop = find_stop num_sent threshold now s.sent_begin s in
    if not (s.sent_count == 0) && not s.send_overflow && not (stop == s.sent_end)
    then resend_loop num_sent now stop s.sent_end s sh
    else record { sender = s; shared = sh; effects = [] }

-- `m_bSendLimitReached` is raised when the ring of a peer is full.
abbrev pub note_limit : Outcome → Outcome
note_limit o =
    if (o.sender.sent_count == num_sent - 1) && not o.sender.send_overflow
    then record o { shared = record o.shared { limit_reached = true } }
    else o

-- The body of the loop of `UpdatePendingSent` over the peers, for one that is there.
unfoldable pub update_sender : ℤ → ℕ → Sender → Shared → Outcome
update_sender threshold now s sh = note_limit (resend_pending threshold now s sh)
