-- ===== src/NetSession/Reliable/High.antt =====
-- What the eight bits of `nSeq` lose: datagrams numbered 256 and above.
use gta_psp_multiplayer.Prelude.{
  ℕ, zero, suc, ◌%◌, ◌^◌, ◌≤◌, ◌<◌, ◌≡◌, refl, ap, subst, ◌∙◌, false, none, List, [], ◌∷◌, get_or,
  get_or-set_self, get_or-set_ne, set, length, arith, dec_lt, ℕ_discrete,
}
use gta_psp_multiplayer.NetSession.Reliable.{
  Entry, Sender, Request, no_entry, num_sent, behind, before, entry_at, ack_loop, handle_ack_recv,
  push_entry,
}
use gta_psp_multiplayer.NetSession.Reliable.Ack.{ack_loop-end, ack_loop-miss}

-- Every slot holds eight bits of a number.
abbrev pub IsNarrow : Sender → Type 0
IsNarrow s = (i : ℕ) → (entry_at s i).seq < 2 ^ 8

ack_loop-high :
    (fuel flags i : ℕ) (s : Sender) (rs : List Request)
    → IsNarrow s
    → 2 ^ 8 ≤ flags % 2 ^ 12
    → ack_loop fuel flags i s rs ≡ (s, rs, none)
ack_loop-high zero flags i s rs narrow high = unfold ack_loop in refl
ack_loop-high (suc fuel) flags i s rs narrow high = elim (ℕ_discrete i s.sent_end) [
  | yes e ↦ ack_loop-end (suc fuel) flags i s rs e
  | no going ↦
      ack_loop-miss fuel flags i s rs going (ground (arith, narrow i))
      ∙ ack_loop-high fuel flags (behind i) s rs narrow high
]

-- `AttemptSendPacket` writes eight bits of the number into a slot, and the other slots stay.
pub push_entry-IsNarrow :
    (r seq now : ℕ) (s : Sender) → IsNarrow s → IsNarrow (push_entry r seq now s)
unfolding push_entry
push_entry-IsNarrow r seq now s narrow j =
    let e : Entry = record { processed = false; seq = seq % 256; request = r; delta = now } in
    elim (ℕ_discrete (before s.sent_begin) j) [
      | no ne ↦ rw (get_or-set_ne s.entries (before s.sent_begin) j e no_entry ne) (narrow j)
      | yes q ↦ elim (dec_lt (before s.sent_begin) (length s.entries)) [
        | yes h ↦
            subst (λ k. (get_or (set s.entries (before s.sent_begin) e) k no_entry).seq < 2 ^ 8) q
              (rw (get_or-set_self s.entries (before s.sent_begin) e no_entry h) (omega arith))
        | no h ↦ rw (outside s.entries (before s.sent_begin) e h) (narrow j)
      ]
    ]
  where
    outside : (es : List Entry) (i : ℕ) (e : Entry) → ¬ (i < length es) → set es i e ≡ es
    outside [] i e h = refl
    outside (x ∷ es) zero e h = absurd (omega (arith, h))
    outside (x ∷ es) (suc i) e h =
        ap (λ ys. x ∷ ys) (outside es i e (λ k. absurd (omega (arith, h, k))))

-- For a sender whose slots hold eight bits of each number, as `push_entry` writes them, an acknowledgement
-- of a datagram numbered 256 or above (modulo 4096) settles nothing and counts nothing down: such a
-- datagram stays in the ring until it is late.
pub handle_ack_recv-high :
    (flags : ℕ) (s : Sender) (rs : List Request)
    → IsNarrow s
    → 2 ^ 8 ≤ flags % 2 ^ 12
    → handle_ack_recv flags s rs ≡ (s, rs, none)
unfolding handle_ack_recv
handle_ack_recv-high flags s rs narrow high =
    ack_loop-high num_sent flags s.sent_begin s rs narrow high
