-- ===== src/NetSession/Reliable/Ack.antt =====
-- `HandleAckRecv`: which entries an acknowledgement settles, and what the requests count.
use gta_psp_multiplayer.Prelude.{
  ℕ, zero, suc, ◌+◌, ◌/◌, ◌%◌, Bool, ◌≤◌, ◌<◌, ◌≡◌, ◌≢◌, refl, ap, ap₂, sym, ◌∙◌, true, false, none,
  List, [], ◌∷◌, length, get_or, length-set, get_or-set_self, get_or-set_ne, ◌==◌, if◌then◌else◌,
  not, ◌&&◌, arith, Bool-cases, inl, inr,
}
use gta_psp_multiplayer.NetSession.Reliable.{
  Entry, Sender, Request, no_entry, num_sent, behind, entry_at, count_down, mark_processed,
  is_resent, matches, ack_loop, handle_ack_recv,
}
use gta_psp_multiplayer.NetSession.Reliable.Ring.{
  IsRing, entries_from, waiting, distance, entries_from-set,
}

abbrev pub settled : Entry → Entry
settled e = record e { processed = true }

-- An entry that waits, and whose number, of which it keeps eight bits, is the lower twelve bits of the
-- acknowledgement.
abbrev pub is_acknowledged : ℕ → Entry → Bool
is_acknowledged flags e = not e.processed && (e.seq % 4096 == flags % 4096)

-- An acknowledgement of a datagram that was not sent again settles the first such entry; one that was sent
-- again, which the bits above the twelve say, goes on to the entries behind that one.
abbrev pub settle : ℕ → List Entry → List Entry
settle flags [] = []
settle flags (e ∷ es) =
    let rest = settle flags es in
    if is_acknowledged flags e
    then settled e ∷ (if not (flags / 4096 == 0) && not (e.seq == flags) then rest else es)
    else e ∷ rest

-- What the loop leaves in the stretch that it has before it, and outside of it.
record Settles (flags n i : ℕ) (s t : Sender) : Type 0 where
  inside : entries_from n i t.entries ≡ settle flags (entries_from n i s.entries)
  outside :
      (j : ℕ)
      → j < num_sent
      → n ≤ distance i j
      → get_or t.entries j no_entry ≡ get_or s.entries j no_entry
  slots : length t.entries ≡ length s.entries
  begun : t.sent_begin ≡ s.sent_begin
  ended : t.sent_end ≡ s.sent_end
  counted : t.sent_count ≡ s.sent_count

stays : (flags i : ℕ) (s : Sender) → Settles flags 0 i s s
stays flags i s = record {
  inside = refl;
  outside = λ j h far. refl;
  slots = refl;
  begun = refl;
  ended = refl;
  counted = refl;
}

-- The loop goes past the entry at `i`.
Settles-skip :
    (flags n i : ℕ) (s t : Sender)
    → i < num_sent
    → suc n < num_sent
    → matches flags (entry_at s i) ≡ false
    → Settles flags n (behind i) s t
    → Settles flags (suc n) i s t
Settles-skip flags n i s t hi hn miss rest = record {
  inside =
      ap₂ (λ (x : Entry) xs. x ∷ xs) (rest.outside i hi (omega arith)) rest.inside
      ∙ ground (arith, miss);
  outside = λ j hj far. rest.outside j hj (omega arith);
  slots = rest.slots;
  begun = rest.begun;
  ended = rest.ended;
  counted = rest.counted;
}

-- The loop settles the entry at `i`, and goes on as `t` says.
Settles-hit :
    (flags n i : ℕ) (s t : Sender) (es : List Entry)
    → i < num_sent
    → suc n < num_sent
    → length s.entries ≡ num_sent
    → matches flags (entry_at s i) ≡ true
    → (if is_resent flags && not ((entry_at s i).seq == flags)
        then settle flags (entries_from n (behind i) s.entries)
        else entries_from n (behind i) s.entries)
      ≡ es
    → entries_from n (behind i) t.entries ≡ es
    → ((j : ℕ)
        → j < num_sent
        → n ≤ distance (behind i) j
        → get_or t.entries j no_entry ≡ get_or (mark_processed i s).entries j no_entry)
    → length t.entries ≡ length s.entries
    → t.sent_begin ≡ s.sent_begin
    → t.sent_end ≡ s.sent_end
    → t.sent_count ≡ s.sent_count
    → Settles flags (suc n) i s t
Settles-hit flags n i s t es hi hn full hit which inside outside slots begun ended counted =
    record {
      inside =
          ap₂ (λ (x : Entry) xs. x ∷ xs)
            (outside i hi (omega arith)
              ∙ get_or-set_self s.entries i (settled (entry_at s i)) no_entry (omega (arith, full)))
            (inside ∙ sym which)
          ∙ ground (arith, hit);
      outside = λ j hj far.
          outside j hj (omega arith)
          ∙ get_or-set_ne s.entries i j (settled (entry_at s i)) no_entry
              (λ q. omega (arith, ap (distance i) q));
      slots = slots;
      begun = begun;
      ended = ended;
      counted = counted;
    }

-- The turns of the loop.
pub ack_loop-end :
    (fuel flags i : ℕ) (s : Sender) (rs : List Request)
    → i ≡ s.sent_end
    → (ack_loop fuel flags i s rs) ≡ (s, rs, none)
unfolding ack_loop
ack_loop-end zero flags i s rs h = refl
ack_loop-end (suc fuel) flags i s rs h = ground arith

pub ack_loop-miss :
    (fuel flags i : ℕ) (s : Sender) (rs : List Request)
    → i ≢ s.sent_end
    → matches flags (entry_at s i) ≡ false
    → ack_loop (suc fuel) flags i s rs ≡ ack_loop fuel flags (behind i) s rs
unfolding ack_loop
ack_loop-miss fuel flags i s rs h miss = rw miss (ground arith)

pub ack_loop-last :
    (fuel flags i : ℕ) (s : Sender) (rs : List Request)
    → i ≢ s.sent_end
    → matches flags (entry_at s i) ≡ true
    → (is_resent flags && not ((entry_at s i).seq == flags)) ≡ false
    → ((ack_loop (suc fuel) flags i s rs).0 ≡ mark_processed i s)
      × ((ack_loop (suc fuel) flags i s rs).1 ≡ count_down (entry_at s i).request rs)
unfolding ack_loop
ack_loop-last fuel flags i s rs h hit last = rw (hit, last) (ground arith)

pub ack_loop-hit :
    (fuel flags i : ℕ) (s : Sender) (rs : List Request)
    → i ≢ s.sent_end
    → matches flags (entry_at s i) ≡ true
    → (is_resent flags && not ((entry_at s i).seq == flags)) ≡ true
    → ack_loop (suc fuel) flags i s rs
      ≡ ack_loop fuel flags (behind i) (mark_processed i s) (count_down (entry_at s i).request rs)
unfolding ack_loop
ack_loop-hit fuel flags i s rs h hit more = rw (hit, more) (ground arith)

ack_loop-Settles :
    (fuel flags n i : ℕ) (s : Sender) (rs : List Request)
    → n ≤ fuel
    → n < num_sent
    → i < num_sent
    → length s.entries ≡ num_sent
    → s.sent_end ≡ (i + n) % num_sent
    → Settles flags n i s (ack_loop fuel flags i s rs).0
ack_loop-Settles fuel flags zero i s rs hf hn hi full closed =
    rw (ack_loop-end fuel flags i s rs (omega arith)) (stays flags i s)
ack_loop-Settles zero flags (suc n) i s rs hf hn hi full closed = elim hf [ ]
ack_loop-Settles (suc fuel) flags (suc n) i s rs hf hn hi full closed =
    let going : i ≢ s.sent_end = omega (arith, closed) in
    let m = mark_processed i s in
    let full' : length m.entries ≡ num_sent =
      length-set s.entries i (settled (entry_at s i)) ∙ full in
    let same : entries_from n (behind i) m.entries ≡ entries_from n (behind i) s.entries =
      entries_from-set n (behind i) i s.entries (settled (entry_at s i)) (omega arith) hi
        (omega arith) in
    elim (Bool-cases (matches flags (entry_at s i))) [
      | inl hit ↦ elim (Bool-cases (is_resent flags && not ((entry_at s i).seq == flags))) [
        | inl more ↦
            let rest =
              ack_loop-Settles fuel flags n (behind i) m (count_down (entry_at s i).request rs)
                (omega arith) (omega arith) (omega arith) full' (omega arith) in
            rw (ack_loop-hit fuel flags i s rs going hit more) (
              Settles-hit flags n i s _ (settle flags (entries_from n (behind i) s.entries)) hi hn
                full hit (rw more refl) (rest.inside ∙ ap (settle flags) same) rest.outside
                (rest.slots ∙ length-set s.entries i (settled (entry_at s i))) rest.begun rest.ended
                rest.counted)
        | inr last ↦ rw ((ack_loop-last fuel flags i s rs going hit last).0) (
            Settles-hit flags n i s m (entries_from n (behind i) s.entries) hi hn full hit
              (rw last refl) same (λ j hj far. refl)
              (length-set s.entries i (settled (entry_at s i))) refl refl refl)
      ]
      | inr miss ↦ rw (ack_loop-miss fuel flags i s rs going miss) (
          Settles-skip flags n i s _ hi hn miss (
            ack_loop-Settles fuel flags n (behind i) s rs (omega arith) (omega arith) (omega arith)
              full (omega arith)))
    ]

-- An acknowledgement settles, of the entries that are not processed and that keep the number that its lower
-- twelve bits are, the newest one, or, if its upper bits say that the datagram was sent again, all of them
-- from the newest on, up to one that keeps the whole of the acknowledgement if there is one; no other entry
-- changes, and the ring keeps its form and its length.
pub handle_ack_recv-settle :
    (flags : ℕ) (s : Sender) (rs : List Request)
    → IsRing s
    → IsRing (handle_ack_recv flags s rs).0
      × (waiting (handle_ack_recv flags s rs).0 ≡ settle flags (waiting s))
unfolding handle_ack_recv
handle_ack_recv-settle flags s rs v =
    let h =
      ack_loop-Settles num_sent flags s.sent_count s.sent_begin s rs (omega (arith, v.few)) v.few
        v.begun v.slots v.closed in
    (
      record {
        slots = h.slots ∙ v.slots;
        begun = omega (arith, h.begun, v.begun);
        few = omega (arith, h.counted, v.few);
        closed =
            h.ended
            ∙ v.closed
            ∙ ap₂ (λ (a b : ℕ). (a + b) % num_sent) (sym h.begun) (sym h.counted);
      },
      ap₂ (λ (n i : ℕ). entries_from n i (handle_ack_recv flags s rs).0.entries) h.counted h.begun
          ∙ h.inside,
    )
