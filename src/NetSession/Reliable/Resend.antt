-- ===== src/NetSession/Reliable/Resend.antt =====
-- `UpdatePendingSent` for one peer: which datagrams are sent again, and in which order.
use gta_psp_multiplayer.Prelude.{
  ℕ, zero, suc, ◌+◌, ◌-◌, ◌%◌, ◌^◌, ◌≤◌, ◌<◌, ◌≡◌, ◌≢◌, refl, ap, ap₂, sym, subst, ◌∙◌, false, some,
  List, [], ◌∷◌, ◌++◌, length, length-append, take, drop, if◌then◌else◌, arith, Bool-cases, inl,
  inr, append_assoc, append-nil,
}
use gta_psp_multiplayer.NetSession.Reliable.{
  Entry, Sender, Request, Shared, Outcome, Effect, sent, num_sent, before, behind, entry_at,
  request_at, push_entry, attempt_send_packet, resend_turn, resend_loop,
}
use gta_psp_multiplayer.NetSession.Reliable.Ring.{
  IsRing, entries_from, waiting, drop_oldest, drop_oldest-IsRing, waiting-drop_oldest,
  push_entry-IsRing, waiting-push_entry,
}

-- The request of every entry that waits has a reliable part.
abbrev pub AllReliable : List Entry → List Request → Type 0
AllReliable [] rs = Unit {0}
AllReliable (e ∷ es) rs =
    ((if e.processed then 1 else (request_at rs e.request).field_2) ≢ 0) × AllReliable es rs

-- The entry of a datagram that is sent again.
abbrev pub again : ℕ → Entry → Entry
again now e = record {
  processed = false;
  seq = (e.seq + 2 ^ 12) % 2 ^ 16 % 256;
  request = e.request;
  delta = now;
}

-- The entries, sent again where they still wait.
abbrev pub resent : ℕ → List Entry → List Entry
resent now [] = []
resent now (e ∷ es) = let rest = resent now es in if e.processed then rest else again now e ∷ rest

-- What goes out for them, the oldest first.
abbrev pub resent_effects : List Entry → List Effect
resent_effects [] = []
resent_effects (e ∷ es) =
    resent_effects es
    ++ (if e.processed then [] else sent e.request (some ((e.seq + 2 ^ 12) % 2 ^ 16)) ∷ [])

resent-append :
    (now : ℕ) (xs : List Entry) (e : Entry)
    → resent now (xs ++ e ∷ []) ≡ resent now xs ++ resent now (e ∷ [])
resent-append now [] e = refl
resent-append now (x ∷ xs) e = ground (arith, resent-append now xs e)

resent_effects-append :
    (xs : List Entry) (e : Entry)
    → resent_effects (xs ++ e ∷ []) ≡ resent_effects (e ∷ []) ++ resent_effects xs
resent_effects-append [] e = sym (append-nil _)
resent_effects-append (x ∷ xs) e =
    rw (resent_effects-append xs e) (append_assoc (resent_effects (e ∷ [])) (resent_effects xs) _)

AllReliable-last :
    (xs : List Entry) (e : Entry) (rs : List Request)
    → AllReliable (xs ++ e ∷ []) rs
    → AllReliable xs rs × AllReliable (e ∷ []) rs
AllReliable-last [] e rs h = (tt, h)
AllReliable-last (x ∷ xs) e rs h = let k = AllReliable-last xs e rs h.1 in ((h.0, k.0), k.1)

-- A datagram that is sent again, where there is room.
attempt_again :
    (now r packet_seq : ℕ) (s : Sender) (sh : Shared)
    → packet_seq ≢ 0
    → (request_at sh.requests r).field_2 ≢ 0
    → s.send_overflow ≡ false
    → s.sent_count + 1 < num_sent
    → let o = attempt_send_packet now r packet_seq s sh in
      (o.sender ≡ push_entry r (packet_seq % 2 ^ 16) now s)
      × (o.shared.requests ≡ sh.requests)
      × (o.effects ≡ sent r (some (packet_seq % 2 ^ 16)) ∷ [])
unfolding attempt_send_packet
attempt_again now r packet_seq s sh again real calm room = ground arith

pub push_entry-keeps :
    (r seq now : ℕ) (s : Sender)
    → ((push_entry r seq now s).sent_end ≡ s.sent_end)
      × ((push_entry r seq now s).send_overflow ≡ s.send_overflow)
unfolding push_entry
push_entry-keeps r seq now s = (refl, refl)

-- What a turn leaves, for the oldest entry `e` and the others `xs`: it is dropped, and stands in front
-- again if it waits.
record Turned (now end : ℕ) (xs : List Entry) (e : Entry) (sh : Shared) (o : Outcome) : Type 0 where
  ring : IsRing o.sender
  waits : waiting o.sender ≡ resent now (e ∷ []) ++ xs
  calm : o.sender.send_overflow ≡ false
  requests : o.shared.requests ≡ sh.requests
  effects : o.effects ≡ resent_effects (e ∷ [])
  ended : o.sender.sent_end ≡ end

resend_turn-Turned :
    (now : ℕ) (s : Sender) (sh : Shared) (e : Entry)
    → IsRing s
    → 0 < s.sent_count
    → s.send_overflow ≡ false
    → entry_at s (before s.sent_end) ≡ e
    → AllReliable (e ∷ []) sh.requests
    → Turned now
        (before s.sent_end)
        (waiting (drop_oldest s))
        e
        sh
        (resend_turn now (before s.sent_end) s sh)
unfolding resend_turn
resend_turn-Turned now s sh e v some_left calm last reliable = elim (Bool-cases e.processed) [
  | inl done ↦
      rw (last, done)
        (record {
          ring = drop_oldest-IsRing s v some_left;
          waits = ground (arith, done);
          calm = calm;
          requests = refl;
          effects = ground (arith, done);
          ended = refl;
        })
  | inr waits ↦
      let d = drop_oldest s in
      let dv = drop_oldest-IsRing s v some_left in
      let room : d.sent_count + 1 < num_sent = omega (arith, v.few) in
      let o =
        attempt_again now e.request (e.seq + 2 ^ 12) d sh (omega arith)
          (ground (arith, reliable.0, waits)) calm room in
      let kept = push_entry-keeps e.request ((e.seq + 2 ^ 12) % 2 ^ 16) now d in
      rw (last, waits)
        (record {
          ring =
              subst IsRing (sym o.0)
                (push_entry-IsRing e.request ((e.seq + 2 ^ 12) % 2 ^ 16) now d dv room);
          waits =
              ap waiting o.0
              ∙ waiting-push_entry e.request ((e.seq + 2 ^ 12) % 2 ^ 16) now d dv room
              ∙ ground (arith, waits);
          calm = ap (λ (t : Sender). t.send_overflow) o.0 ∙ kept.1 ∙ calm;
          requests = o.1;
          effects = o.2 ∙ ground (arith, waits);
          ended = ap (λ (t : Sender). t.sent_end) o.0 ∙ kept.0;
        })
]

pub length-entries_from : (n i : ℕ) (es : List Entry) → length (entries_from n i es) ≡ n
length-entries_from zero i es = refl
length-entries_from (suc n) i es = ap suc (length-entries_from n (behind i) es)

take-last :
    (k : ℕ) (xs : List Entry) (e : Entry) → k ≤ length xs → take k (xs ++ e ∷ []) ≡ take k xs
take-last zero xs e h = refl
take-last (suc k) [] e h = elim h [ ]
take-last (suc k) (x ∷ xs) e h = ap (λ ys. x ∷ ys) (take-last k xs e (omega arith))

drop-last :
    (k : ℕ) (xs : List Entry) (e : Entry)
    → k ≤ length xs
    → drop k (xs ++ e ∷ []) ≡ drop k xs ++ e ∷ []
drop-last zero xs e h = refl
drop-last (suc k) [] e h = elim h [ ]
drop-last (suc k) (x ∷ xs) e h = drop-last k xs e (omega arith)

-- The entries `es` from place `k` on were sent again, and stand before the first `k`.
pub record Resent (now k : ℕ) (es : List Entry) (sh : Shared) (o : Outcome) : Type 0 where
  pub ring : IsRing o.sender
  pub waits : waiting o.sender ≡ resent now (drop k es) ++ take k es
  pub calm : o.sender.send_overflow ≡ false
  pub requests : o.shared.requests ≡ sh.requests
  pub effects : o.effects ≡ resent_effects (drop k es)

-- The first turn of the loop is the last.
Resent-once :
    (now end k : ℕ) (xs : List Entry) (e : Entry) (sh : Shared) (o : Outcome)
    → k ≡ length xs
    → Turned now end xs e sh o
    → Resent now k (xs ++ e ∷ []) sh o
Resent-once now end k xs e sh o h t = record {
  ring = t.ring;
  waits =
      t.waits
      ∙ rw (h) (ap₂ (λ ys zs. resent now ys ++ zs) (sym (drop-all xs e)) (sym (take-all xs e)));
  calm = t.calm;
  requests = t.requests;
  effects = t.effects ∙ rw (h) (ap resent_effects (sym (drop-all xs e)));
}
  where
    drop-all : (xs : List Entry) (e : Entry) → drop (length xs) (xs ++ e ∷ []) ≡ e ∷ []
    drop-all [] e = refl
    drop-all (x ∷ xs) e = drop-all xs e

    take-all : (xs : List Entry) (e : Entry) → take (length xs) (xs ++ e ∷ []) ≡ xs
    take-all [] e = refl
    take-all (x ∷ xs) e = ap (λ ys. x ∷ ys) (take-all xs e)

-- The first `k` entries and the one, if any, that a turn puts before them.
abbrev with_front : Entry → ℕ → ℕ
with_front e k = if e.processed then k else suc k

drop-with_front :
    (now k : ℕ) (e : Entry) (xs : List Entry)
    → drop (with_front e k) (resent now (e ∷ []) ++ xs) ≡ drop k xs
drop-with_front now k e xs = elim (Bool-cases e.processed) [ inl q ↦ rw q refl | inr q ↦ rw q refl ]

append-take-with_front :
    (now k : ℕ) (e : Entry) (xs ys : List Entry)
    → ys ++ take (with_front e k) (resent now (e ∷ []) ++ xs)
      ≡ (ys ++ resent now (e ∷ [])) ++ take k xs
append-take-with_front now k e xs ys = elim (Bool-cases e.processed) [
  | inl q ↦ rw q (ap (λ zs. zs ++ take k xs) (sym (append-nil ys)))
  | inr q ↦ rw q (sym (append_assoc ys (again now e ∷ []) (take k xs)))
]

-- A turn and the rest of the loop.
Resent-more :
    (now end k : ℕ) (xs : List Entry) (e : Entry) (sh : Shared) (o r : Outcome)
    → k ≤ length xs
    → Turned now end xs e sh o
    → Resent now (with_front e k) (resent now (e ∷ []) ++ xs) o.shared r
    → Resent now k (xs ++ e ∷ []) sh (record r { effects = o.effects ++ r.effects })
Resent-more now end k xs e sh o r h t rest = record {
  ring = rest.ring;
  waits =
      rest.waits
      ∙ ap (λ ys. resent now ys ++ take (with_front e k) (resent now (e ∷ []) ++ xs))
          (drop-with_front now k e xs)
      ∙ append-take-with_front now k e xs (resent now (drop k xs))
      ∙ ap₂ (λ ys zs. ys ++ zs)
          (sym (resent-append now (drop k xs) e) ∙ ap (resent now) (sym (drop-last k xs e h)))
          (sym (take-last k xs e h));
  calm = rest.calm;
  requests = rest.requests ∙ t.requests;
  effects =
      ap₂ (λ ys zs. ys ++ zs) t.effects
        (rest.effects ∙ ap resent_effects (drop-with_front now k e xs))
      ∙ sym (resent_effects-append (drop k xs) e)
      ∙ ap resent_effects (sym (drop-last k xs e h));
}

-- The turns of the loop.
resend_loop-last :
    (fuel now stop i : ℕ) (s : Sender) (sh : Shared)
    → before i ≡ stop
    → resend_loop (suc fuel) now stop i s sh ≡ resend_turn now (before i) s sh
unfolding resend_loop
resend_loop-last fuel now stop i s sh h = ground arith

resend_loop-more :
    (fuel now stop i : ℕ) (s : Sender) (sh : Shared)
    → before i ≢ stop
    → let o = resend_turn now (before i) s sh in
      let rest = resend_loop fuel now stop (before i) o.sender o.shared in
      resend_loop (suc fuel) now stop i s sh ≡ record rest { effects = o.effects ++ rest.effects }
unfolding resend_loop
resend_loop-more fuel now stop i s sh h = ground arith

-- The first turn, where something waits.
first_turn :
    (now : ℕ) (s : Sender) (sh : Shared)
    → 0 < s.sent_count
    → IsRing s
    → s.send_overflow ≡ false
    → AllReliable (waiting s) sh.requests
    → let xs = waiting (drop_oldest s) in
      let e = entry_at s (before s.sent_end) in
      (waiting s ≡ xs ++ e ∷ [])
      × (length xs + 1 ≡ s.sent_count)
      × AllReliable (resent now (e ∷ []) ++ xs) sh.requests
      × Turned now (before s.sent_end) xs e sh (resend_turn now (before s.sent_end) s sh)
first_turn now s sh some_left v calm reliable =
    let xs = waiting (drop_oldest s) in
    let e = entry_at s (before s.sent_end) in
    let split : waiting s ≡ xs ++ e ∷ [] = waiting-drop_oldest s v some_left in
    let sure =
      AllReliable-last xs e sh.requests (subst (λ es. AllReliable es sh.requests) split reliable) in
    (
      split,
      omega (arith, length-entries_from (s.sent_count - 1) s.sent_begin s.entries),
      again-reliable now e xs sh.requests sure.1 sure.0,
      resend_turn-Turned now s sh e v some_left calm refl sure.1,
    )
  where
    again-reliable :
        (now : ℕ) (e : Entry) (xs : List Entry) (rs : List Request)
        → AllReliable (e ∷ []) rs
        → AllReliable xs rs
        → AllReliable (resent now (e ∷ []) ++ xs) rs
    again-reliable now e xs rs h k = elim (Bool-cases e.processed) [
      | inl q ↦ rw q k
      | inr q ↦ ground (arith, h.0, k, q)
    ]

pub resend_loop-Resent :
    (fuel d k now stop : ℕ) (s : Sender) (sh : Shared)
    → d < fuel
    → k + suc d ≡ s.sent_count
    → IsRing s
    → s.send_overflow ≡ false
    → AllReliable (waiting s) sh.requests
    → stop < num_sent
    → s.sent_end ≡ (stop + suc d) % num_sent
    → Resent now k (waiting s) sh (resend_loop fuel now stop s.sent_end s sh)
resend_loop-Resent zero d k now stop s sh hf hk v calm reliable hs he = elim hf [ ]
resend_loop-Resent (suc fuel) zero k now stop s sh hf hk v calm reliable hs he =
    let first = first_turn now s sh (omega arith) v calm reliable in
    rw (resend_loop-last fuel now stop s.sent_end s sh (ground (arith, he)), first.0)
      (Resent-once now _ k _ _ sh _ (omega (arith, first.1)) first.3)
resend_loop-Resent (suc fuel) (suc d) k now stop s sh hf hk v calm reliable hs he =
    let first = first_turn now s sh (omega arith) v calm reliable in
    let e = entry_at s (before s.sent_end) in
    let o = resend_turn now (before s.sent_end) s sh in
    let t = first.3 in
    let size : with_front e k + suc d ≡ o.sender.sent_count = ground (
      arith,
      length-entries_from o.sender.sent_count o.sender.sent_begin o.sender.entries,
      ap length t.waits,
      first.1,
      length-append (resent now (e ∷ [])) (waiting (drop_oldest s)),
    ) in
    let rest : Resent now (with_front e k) (waiting o.sender) o.shared
        (resend_loop fuel now stop o.sender.sent_end o.sender o.shared) =
      resend_loop-Resent fuel d (with_front e k) now stop o.sender o.shared (omega arith) size
        t.ring t.calm
        (subst (λ rs. AllReliable (waiting o.sender) rs) (sym t.requests)
          (subst (λ es. AllReliable es sh.requests) (sym t.waits) first.2))
        hs (t.ended ∙ ground (arith, he)) in
    rw (resend_loop-more fuel now stop s.sent_end s sh (ground (arith, he)), first.0)
      (Resent-more now (before s.sent_end) k (waiting (drop_oldest s)) e sh o _
        (omega (arith, first.1)) t
        (subst
          (λ i.
            Resent now (with_front e k) (resent now (e ∷ []) ++ waiting (drop_oldest s)) o.shared
              (resend_loop fuel now stop i o.sender o.shared))
          t.ended
          (subst
            (λ es.
              Resent now (with_front e k) es o.shared
                (resend_loop fuel now stop o.sender.sent_end o.sender o.shared))
            t.waits rest)))
