-- ===== src/NetSession/Reliable/Pending.antt =====
-- `UpdatePendingSent` for one peer as a whole, and what it leaves of the accounts.
use gta_psp_multiplayer.Prelude.{
  ℕ, zero, suc, ◌+◌, ◌-◌, ◌%◌, ◌≤◌, ◌<◌, ◌≡◌, refl, sym, subst, Bool, true, false, List, [], ◌∷◌,
  length, take_all, drop_all, ◌==◌, if◌then◌else◌, not, ◌&&◌, arith, Bool-cases, inl, inr, dec_lt,
}
use gta_psp_multiplayer.Prelude.Int.{ℤ}
use gta_psp_multiplayer.NetSession.Reliable.{
  Entry, Sender, Shared, Outcome, num_sent, behind, entry_at, stops, find_stop, resend_pending,
  note_limit, update_sender,
}
use gta_psp_multiplayer.NetSession.Reliable.Ring.{IsRing, entries_from, waiting}
use gta_psp_multiplayer.NetSession.Reliable.Resend.{
  AllReliable, Resent, resend_loop-Resent, length-entries_from,
}

-- How many of the newest entries still wait, and not for too long.
abbrev pub fresh : ℤ → ℕ → List Entry → ℕ
fresh threshold now [] = 0
fresh threshold now (e ∷ es) =
    let rest = fresh threshold now es in if stops threshold now e then 0 else suc rest

fresh-le : (threshold : ℤ) (now : ℕ) (es : List Entry) → fresh threshold now es ≤ length es
fresh-le threshold now [] = omega arith
fresh-le threshold now (e ∷ es) = ground (arith, fresh-le threshold now es)

find_stop-fresh :
    (fuel n i : ℕ) (threshold : ℤ) (now : ℕ) (s : Sender)
    → n ≤ fuel
    → n < num_sent
    → i < num_sent
    → s.sent_end ≡ (i + n) % num_sent
    → find_stop fuel threshold now i s
      ≡ (i + fresh threshold now (entries_from n i s.entries)) % num_sent
unfolding find_stop
find_stop-fresh zero zero i threshold now s hf hn hi closed = ground arith
find_stop-fresh zero (suc n) i threshold now s hf hn hi closed = elim hf [ ]
find_stop-fresh (suc fuel) zero i threshold now s hf hn hi closed = ground arith
find_stop-fresh (suc fuel) (suc n) i threshold now s hf hn hi closed =
    let ih =
      find_stop-fresh fuel n (behind i) threshold now s (omega arith) (omega arith) (omega arith)
        (omega arith) in
    elim (Bool-cases (stops threshold now (entry_at s i))) [
      | inl q ↦ rw q (ground arith)
      | inr q ↦ rw q (ground (arith, ih))
    ]

-- With nothing to send again, the peer stays as it is.
Resent-nothing :
    (now : ℕ) (s : Sender) (sh : Shared)
    → IsRing s
    → s.send_overflow ≡ false
    → Resent now s.sent_count (waiting s) sh (record { sender = s; shared = sh; effects = [] })
Resent-nothing now s sh v calm = record {
  ring = v;
  waits = rw (drop_all s.sent_count (waiting s) many, take_all s.sent_count (waiting s) many) refl;
  calm = calm;
  requests = refl;
  effects = rw (drop_all s.sent_count (waiting s) many) refl;
}
  where
    many : length (waiting s) ≤ s.sent_count
    many = omega (arith, length-entries_from s.sent_count s.sent_begin s.entries)

-- The outcome with another flag is the same for all of this.
Resent-limit :
    (now k : ℕ) (es : List Entry) (sh : Shared) (o : Outcome) (b : Bool)
    → Resent now k es sh o
    → Resent now k es sh (record o { shared = record o.shared { limit_reached = b } })
Resent-limit now k es sh o b h = record {
  ring = h.ring;
  waits = h.waits;
  calm = h.calm;
  requests = h.requests;
  effects = h.effects;
}

resend_pending-Resent :
    (threshold : ℤ) (now : ℕ) (s : Sender) (sh : Shared)
    → IsRing s
    → s.send_overflow ≡ false
    → AllReliable (waiting s) sh.requests
    → Resent now
        (fresh threshold now (waiting s))
        (waiting s)
        sh
        (resend_pending threshold now s sh)
unfolding resend_pending
resend_pending-Resent threshold now s sh v calm reliable =
    let m = fresh threshold now (waiting s) in
    let found : find_stop num_sent threshold now s.sent_begin s ≡ (s.sent_begin + m) % num_sent =
      find_stop-fresh num_sent s.sent_count s.sent_begin threshold now s (omega (arith, v.few))
        v.few v.begun v.closed in
    let few : m ≤ s.sent_count = omega (
      arith,
      fresh-le threshold now (waiting s),
      length-entries_from s.sent_count s.sent_begin s.entries,
    ) in
    elim (dec_lt m s.sent_count) [
      | yes some_left ↦
          let going : (not (s.sent_count == 0)
                && not s.send_overflow
                && not ((s.sent_begin + m) % num_sent == s.sent_end))
              ≡ true =
            ground (arith, v.closed, v.few, v.begun) in
          rw (found, going)
            (resend_loop-Resent num_sent (s.sent_count - m - 1) m now
              ((s.sent_begin + m) % num_sent) s sh (omega (arith, v.few)) (omega arith) v calm
              reliable (omega arith) (omega (arith, v.closed, v.few, v.begun)))
      | no all ↦
          let all' : m ≡ s.sent_count = omega arith in
          let still : (not (s.sent_count == 0)
                && not s.send_overflow
                && not ((s.sent_begin + m) % num_sent == s.sent_end))
              ≡ false =
            ground (arith, v.closed) in
          rw (found, still)
            (subst
              (λ k. Resent now k (waiting s) sh (record { sender = s; shared = sh; effects = [] }))
              (sym all') (Resent-nothing now s sh v calm))
    ]

pub update_sender-Resent :
    (threshold : ℤ) (now : ℕ) (s : Sender) (sh : Shared)
    → IsRing s
    → s.send_overflow ≡ false
    → AllReliable (waiting s) sh.requests
    → Resent now (fresh threshold now (waiting s)) (waiting s) sh (update_sender threshold now s sh)
unfolding update_sender
update_sender-Resent threshold now s sh v calm reliable =
    noted (resend_pending threshold now s sh)
      (resend_pending-Resent threshold now s sh v calm reliable)
  where
    noted :
        (o : Outcome)
        → Resent now (fresh threshold now (waiting s)) (waiting s) sh o
        → Resent now (fresh threshold now (waiting s)) (waiting s) sh (note_limit o)
    noted o h =
        elim (Bool-cases ((o.sender.sent_count == num_sent - 1) && not o.sender.send_overflow)) [
          | inl q ↦ rw q (Resent-limit _ _ _ sh o true h)
          | inr q ↦ rw q h
        ]
