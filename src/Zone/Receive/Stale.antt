-- ===== src/Zone/Receive/Stale.antt =====
-- What becomes of a packet of a state that is not the newest.
use gta_psp_multiplayer.Prelude.{ℕ, ◌<◌, true, false, ◌≡◌, arith, ltb, ◌==◌}
use gta_psp_multiplayer.Sync.Reader.{ReadStream}
use gta_psp_multiplayer.Zone.{ZonePeer, Zone}
use gta_psp_multiplayer.Zone.Receive.{
  begin_state, is_fresh, receive_fragment, read_head, acknowledge, finish_state,
}

-- Of a state that is numbered lower than the newest, the first fragment is not checked off, and the
-- acknowledgments in it are neither taken nor passed over: the stream still stands before them. After the
-- clock has wrapped that is every state.
pub read_head-stale :
    (unset wide : ℕ → ℕ) (own n flags : ℕ) (p : ZonePeer) (s : ReadStream)
    → n < p.state
    → read_head unset wide own n flags (begin_state n p) s ≡ (p, s)
unfolding read_head begin_state receive_fragment is_fresh
read_head-stale unset wide own n flags p s lt =
    let q : ltb p.state n ≡ false = ground arith in
    let e : (n == p.state) ≡ false = ground arith in rw (q, e)

-- While the newest state is complete, any packet of an older one whose elements can be read has that older
-- state acknowledged, though fragments of it may never have come.
pub finish_state-stale :
    (wide : ℕ → ℕ) (n flags : ℕ) (p : ZonePeer) (z : Zone)
    → n < p.state
    → p.seq_bitmask ≡ p.expected_seq_mask
    → (finish_state n (receive_fragment wide n flags (begin_state n p)) z).to_ack
      ≡ acknowledge p.peer_id n z.to_ack
unfolding finish_state begin_state receive_fragment is_fresh
finish_state-stale wide n flags p z lt full =
    let q : ltb p.state n ≡ false = ground arith in
    let e : (n == p.state) ≡ false = ground arith in
    let k : (p.seq_bitmask == p.expected_seq_mask) ≡ true = ground arith in rw (q, e, k)
