-- ===== src/Zone/Receive.antt =====
-- A state that arrives in fragments (`cInterestZone::ReceiveGameState` of C Reversed/InterestZone.cpp):
-- which fragments have come, what they acknowledge, and when the state is acknowledged in turn.
pub mod Fragments
pub mod Stale
use gta_psp_multiplayer.Prelude.{
  ℕ, zero, suc, ◌+◌, ◌-◌, ◌*◌, ◌%◌, ◌^◌, bit_and, bit_or, Bool, true, false, not, ◌&&◌, none, some,
  List, [], ◌∷◌, ltb, ◌==◌, if◌then◌else◌,
}
use gta_psp_multiplayer.Sync.Reader.{ReadStream}
use gta_psp_multiplayer.Sync.Reader.Values.{read_u8_value, read_u16_value}
use gta_psp_multiplayer.Zone.{ZonePeer, Ack, Zone, find_peer}

-- MP_ZONE_SEQ_FLAG and MP_ZONE_SEQ_MASK
abbrev pub seq_flag : ℕ
seq_flag = 0x80

abbrev pub seq_mask : ℕ
seq_mask = 0x7f

abbrev pub all_ones : ℕ
all_ones = 2 ^ 32 - 1

-- `1 << k`, as a `uint32`; from 32 on the language does not say what it is, which is `wide`.
abbrev pub one_shl : (ℕ → ℕ) → ℕ → ℕ
one_shl wide k = if ltb k 32 then 2 ^ k else wide k

-- A state newer than the last is waited for from its first fragment on.
unfoldable pub begin_state : ℕ → ZonePeer → ZonePeer
begin_state n p =
    if ltb p.state n
    then record p { state = n; seq_bitmask = 0; expected_seq_mask = all_ones }
    else p

abbrev pub index_of : ℕ → ℕ
index_of flags = bit_and flags seq_mask

abbrev pub is_last : ℕ → Bool
is_last flags = not (bit_and flags seq_flag == 0)

-- `nState == zonePeerFrom.nState && !(zonePeerFrom.nSeqBitmask & (1 << seqIndex))`
unfoldable pub is_fresh : (ℕ → ℕ) → ℕ → ℕ → ZonePeer → Bool
is_fresh wide n flags p =
    (n == p.state) && (bit_and p.seq_bitmask (one_shl wide (index_of flags)) == 0)

-- A fragment is checked off; the last one says how many there are.
unfoldable pub check_off : (ℕ → ℕ) → ℕ → ZonePeer → ZonePeer
check_off wide flags p = record p {
  expected_seq_mask =
      if is_last flags
      then (one_shl wide (index_of flags + 1) + 2 ^ 32 - 1) % 2 ^ 32
      else p.expected_seq_mask;
  seq_bitmask = bit_or p.seq_bitmask (one_shl wide (index_of flags));
}

unfoldable pub receive_fragment : (ℕ → ℕ) → ℕ → ℕ → ZonePeer → ZonePeer
unfolding is_fresh check_off
receive_fragment wide n flags p = if is_fresh wide n flags p then check_off wide flags p else p

abbrev pub all_after : ℕ → List ℕ → Bool
all_after f [] = true
all_after f (g ∷ gs) = if ltb f g then all_after f gs else false

-- `push_back`, and the swaps that bring the frame before those that are after it.
unfoldable pub push_ack : ℕ → List ℕ → List ℕ
push_ack f [] = f ∷ []
push_ack f (g ∷ gs) =
    let rest = push_ack f gs in if all_after f (g ∷ gs) then f ∷ g ∷ gs else g ∷ rest

-- The loop over the acknowledgments, of which the local ones are taken. A read of a short packet gives what
-- its variable held before: `unset k` for the `k`-th of the variables that no value is put into.
unfoldable pub read_acks : (ℕ → ℕ) → ℕ → ℕ → List ℕ → ReadStream → List ℕ × ReadStream
unfolding push_ack
read_acks unset own zero acks s = (acks, s)
read_acks unset own (suc n) acks s =
    let (peer, t) = read_u8_value (unset (2 * n + 2) % 2 ^ 8) s in
    let (frame, u) = read_u16_value (unset (2 * n + 3) % 2 ^ 16) t in
    read_acks unset own n (if peer == own then push_ack frame acks else acks) u

-- `m_vAck` with the state `n` of a peer.
unfoldable pub acknowledge : ℕ → ℕ → List Ack → List Ack
acknowledge id n [] = record { ack_peer = id; frame = n } ∷ []
acknowledge id n (a ∷ rest) =
    if a.ack_peer == id
    then (if ltb a.frame n then record a { frame = n } else a) ∷ rest
    else a ∷ acknowledge id n rest

-- The first peer of that number, replaced.
unfoldable pub put_peer : ZonePeer → List ZonePeer → List ZonePeer
put_peer q [] = []
put_peer q (p ∷ ps) = if p.peer_id == q.peer_id then q ∷ ps else p ∷ put_peer q ps

-- What is done when the elements have been read: a state that is complete is acknowledged.
unfoldable pub finish_state : ℕ → ZonePeer → Zone → Zone
unfolding acknowledge put_peer
finish_state n p z =
    let stored = record z { peers = put_peer p z.peers } in
    if p.seq_bitmask == p.expected_seq_mask
    then record stored { to_ack = acknowledge p.peer_id n z.to_ack }
    else stored

-- The acknowledgments that the first fragment brings.
unfoldable pub read_head :
    (ℕ → ℕ) → (ℕ → ℕ) → ℕ → ℕ → ℕ → ZonePeer → ReadStream → ZonePeer × ReadStream
unfolding receive_fragment read_acks
read_head unset wide own n flags p s =
    let (count, t) = read_u8_value (unset 1 % 2 ^ 8) s in
    let (acks, u) = read_acks unset own count p.acks t in
    if is_fresh wide n flags p && (index_of flags == 0)
    then (record (receive_fragment wide n flags p) { acks = acks }, u)
    else (receive_fragment wide n flags p, s)

-- `ReceiveGameState`, with no error and the game open, on the console `own`. `connected` is
-- `IsPeerConnected` of the sender. `entities` reads the elements: false where it stopped at one that is not
-- known, after which nothing is acknowledged.
unfoldable pub receive_game_state :
    (ℕ → ℕ)
    → (ℕ → ℕ)
    → ℕ
    → Bool
    → (ReadStream → Bool × ReadStream)
    → ℕ
    → ℕ
    → ℕ
    → Zone
    → ReadStream
    → Zone × ReadStream
unfolding finish_state read_head begin_state
receive_game_state unset wide own connected entities id n flags z s =
    let (basis, t) = read_u16_value (unset 0 % 2 ^ 16) s in
    elim (find_peer id z.peers) [
      | none ↦ (z, t)
      | some p ↦
          let (q, u) = read_head unset wide own n flags (begin_state n p) t in
          let (done, v) = entities u in
          let r = record q { peer_basis = basis } in
          if connected
          then (if done then finish_state n r z else record z { peers = put_peer r z.peers }, v)
          else (z, t)
    ]
