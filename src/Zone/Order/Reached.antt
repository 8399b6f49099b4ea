-- ===== src/Zone/Order/Reached.antt =====
-- The zones that there can be: a new one after any row of operations.
use gta_psp_multiplayer.Prelude.{
  ℕ, zero, suc, ◌+◌, ◌*◌, ◌%◌, ◌^◌, Bool, ◌&&◌, none, some, List, [], ◌∷◌, ◌≡◌, ◌≢◌, subst,
  Option-cases, inl, inr, ltb, ◌==◌, Bool-cases, if_case, if◌then◌else◌,
}
use gta_psp_multiplayer.Prelude.Int.{ℤ}
use gta_psp_multiplayer.Sync.Reader.{ReadStream}
use gta_psp_multiplayer.Sync.Reader.Values.{read_u8_value, read_u16_value}
use gta_psp_multiplayer.Zone.{
  ZonePeer, Zone, new_zone, find_peer, add_peer, disconnect_peer, register_element, remove_element,
}
use gta_psp_multiplayer.Zone.Common.{IsSorted}
use gta_psp_multiplayer.Zone.Basis.Acked.{AllSorted}
use gta_psp_multiplayer.Zone.Receive.{
  begin_state, receive_fragment, is_fresh, check_off, push_ack, read_acks, put_peer, finish_state,
  read_head, receive_game_state, index_of,
}
use gta_psp_multiplayer.Zone.Order.Push.{push_ack-IsSorted}
use gta_psp_multiplayer.Zone.Order.{
  IsZone, add_peer-IsZone, disconnect_peer-IsZone, after_send, after_send-IsZone, put-AllSorted,
  put-AllDistinct, acknowledge-AllOnce,
}

read_acks-IsSorted :
    (unset : ℕ → ℕ) (own n : ℕ) (acks : List ℕ) (s : ReadStream)
    → IsSorted acks
    → IsSorted (read_acks unset own n acks s).0
unfolding read_acks
read_acks-IsSorted unset own zero acks s h = h
read_acks-IsSorted unset own (suc n) acks s h =
    let (peer, t) = read_u8_value (unset (2 * n + 2) % 2 ^ 8) s in
    let (frame, u) = read_u16_value (unset (2 * n + 3) % 2 ^ 16) t in
    read_acks-IsSorted unset own n (if peer == own then push_ack frame acks else acks) u
      (if_case IsSorted (peer == own) (push_ack-IsSorted frame acks h) h)

-- The peer that is found is one of the list.
find-IsSorted :
    (id : ℕ) (ps : List ZonePeer)
    → AllSorted ps
    → (p : ZonePeer) → find_peer id ps ≡ some p
    → IsSorted p.acks
unfolding find_peer
find-IsSorted id [] s q e = absurd (none≢some e)
  where
    none≢some : none ≢ some q
    none≢some e = cc
find-IsSorted id (p ∷ ps) s q e = elim (Bool-cases (p.peer_id == id)) [
  | inl r ↦ subst (λ (x : ZonePeer). IsSorted x.acks) (some-inj (rw r at e)) s.0
  | inr r ↦ find-IsSorted id ps s.1 q (rw r at e)
]
  where
    some-inj : some p ≡ some q → p ≡ q
    some-inj e = cc

abbrev HasSorted : ZonePeer → Type 0
HasSorted p = IsSorted p.acks

begun : (n : ℕ) (p : ZonePeer) → HasSorted p → HasSorted (begin_state n p)
unfolding begin_state
begun n p k = if_case HasSorted (ltb p.state n) k k

receive_fragment-acks :
    (wide : ℕ → ℕ) (n flags : ℕ) (p : ZonePeer)
    → HasSorted p
    → HasSorted (receive_fragment wide n flags p)
unfolding receive_fragment check_off
receive_fragment-acks wide n flags p h = if_case HasSorted (is_fresh wide n flags p) h h

read_head-IsSorted :
    (unset wide : ℕ → ℕ) (own n flags : ℕ) (p : ZonePeer) (s : ReadStream)
    → HasSorted p
    → HasSorted (read_head unset wide own n flags p s).0
unfolding read_head
read_head-IsSorted unset wide own n flags p s h =
    let (count, t) = read_u8_value (unset 1 % 2 ^ 8) s in
    if_case (λ (m : ZonePeer × ReadStream). HasSorted m.0)
      (is_fresh wide n flags p && (index_of flags == 0))
      (read_acks-IsSorted unset own count p.acks t h) (receive_fragment-acks wide n flags p h)

finish_state-IsZone :
    (n : ℕ) (p : ZonePeer) (z : Zone) → HasSorted p → IsZone z → IsZone (finish_state n p z)
unfolding finish_state
finish_state-IsZone n p z k h =
    if_case IsZone (p.seq_bitmask == p.expected_seq_mask)
      (record {
        sorted = put-AllSorted p z.peers k h.sorted;
        distinct = put-AllDistinct p z.peers h.distinct;
        once = acknowledge-AllOnce p.peer_id n z.to_ack h.once;
      })
      (record {
        sorted = put-AllSorted p z.peers k h.sorted;
        distinct = put-AllDistinct p z.peers h.distinct;
        once = h.once;
      })

put_peer-IsZone :
    (q : ZonePeer) (z : Zone)
    → HasSorted q
    → IsZone z
    → IsZone (record z { peers = put_peer q z.peers })
put_peer-IsZone q z k h = record {
  sorted = put-AllSorted q z.peers k h.sorted;
  distinct = put-AllDistinct q z.peers h.distinct;
  once = h.once;
}

receive_game_state-IsZone :
    (unset wide : ℕ → ℕ) (own : ℕ) (connected : Bool) (entities : ReadStream → Bool × ReadStream)
    (id n flags : ℕ) (z : Zone) (s : ReadStream)
    → IsZone z
    → IsZone (receive_game_state unset wide own connected entities id n flags z s).0
unfolding receive_game_state
receive_game_state-IsZone unset wide own connected entities id n flags z s h =
    let (basis, t) = read_u16_value (unset 0 % 2 ^ 16) s in
    elim (Option-cases (find_peer id z.peers)) [
      | inl q ↦ rw (q, receive_game_state) h
      | inr e ↦
          let (q, u) = read_head unset wide own n flags (begin_state n e.0) t in
          let k : HasSorted q =
            read_head-IsSorted unset wide own n flags (begin_state n e.0) t
              (begun n e.0 (find-IsSorted id z.peers h.sorted e.0 e.1)) in
          let r = record q { peer_basis = basis } in
          rw (e.1, receive_game_state)
            (if_case (λ (m : Zone × ReadStream). IsZone m.0) connected
              (if_case IsZone (entities u).0 (finish_state-IsZone n r z k h)
                (put_peer-IsZone r z k h))
              h)
    ]

-- A zone after some row of operations. `on_receive` is a packet from a peer, read from any stream.
pub data Reached (wide : ℕ → ℕ) (own : ℕ) : Zone → Type 0 where
  on_new : (id : ℤ) → Reached wide own (new_zone id)
  on_add : {z : Zone} (id : ℕ) → Reached wide own z → Reached wide own (add_peer id z)
  on_disconnect : {z : Zone} (id : ℕ) → Reached wide own z → Reached wide own (disconnect_peer id z)
  on_register : {z : Zone} (a : ℕ) → Reached wide own z → Reached wide own (register_element a z)
  on_remove :
      {z : Zone} (now a id : ℕ) → Reached wide own z → Reached wide own (remove_element now a id z)
  on_send : {z : Zone} (now : ℕ) → Reached wide own z → Reached wide own (after_send now z)
  on_receive :
      {z : Zone} (unset : ℕ → ℕ) (connected : Bool) (entities : ReadStream → Bool × ReadStream)
      (id n flags : ℕ) (s : ReadStream)
      → Reached wide own z
      → Reached wide own (receive_game_state unset wide own connected entities id n flags z s).0

-- However the peers come and go and whatever packets arrive from them, however often, damaged or cut short:
-- each peer stands in a zone once, its acknowledged frames are in order, and a packet acknowledges no peer
-- twice.
pub Reached-IsZone : {wide : ℕ → ℕ} {own : ℕ} {z : Zone} → Reached wide own z → IsZone z
unfolding new_zone register_element remove_element
Reached-IsZone (on_new id) = record { sorted = tt; distinct = tt; once = tt }
Reached-IsZone (on_add id r) = add_peer-IsZone id _ (Reached-IsZone r)
Reached-IsZone (on_disconnect id r) = disconnect_peer-IsZone id _ (Reached-IsZone r)
Reached-IsZone (on_register a r) =
    let h = Reached-IsZone r in record { sorted = h.sorted; distinct = h.distinct; once = h.once }
Reached-IsZone (on_remove now a id r) =
    let h = Reached-IsZone r in record { sorted = h.sorted; distinct = h.distinct; once = h.once }
Reached-IsZone (on_send now r) = after_send-IsZone now _ (Reached-IsZone r)
Reached-IsZone {wide} {own} (on_receive {z} unset connected entities id n flags s r) =
    receive_game_state-IsZone unset wide own connected entities id n flags z s (Reached-IsZone r)
