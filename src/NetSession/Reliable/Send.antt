-- ===== src/NetSession/Reliable/Send.antt =====
-- `AttemptSendPacket` for a request that goes to a peer for the first time.
use gta_psp_multiplayer.Prelude.{
  ℕ, ◌+◌, ◌-◌, ◌%◌, ◌^◌, ◌<◌, ◌≡◌, ◌≢◌, refl, ap, sym, subst, ◌∙◌, Bool, true, false, none, some,
  List, [], ◌∷◌, length, ◌==◌, if◌then◌else◌, ◌||◌, arith, Bool-cases, if_case, inl, inr,
  ℕ_discrete,
}
use gta_psp_multiplayer.NetSession.Reliable.{
  Entry, Sender, Request, Shared, Outcome, Effect, sent, num_sent, request_at, count_up, push_entry,
  attempt_send_packet,
}
use gta_psp_multiplayer.NetSession.Reliable.Ring.{
  IsRing, waiting, push_entry-IsRing, waiting-push_entry,
}
use gta_psp_multiplayer.NetSession.Reliable.Accounts.{owed, Accounted, count_up_at}
use gta_psp_multiplayer.NetSession.Reliable.Resend.{length-entries_from, push_entry-keeps}
use gta_psp_multiplayer.NetSession.Reliable.Keeps.{
  IsSender, SameParts, SameParts-refl, changed-SameParts, AllReliable-SameParts,
}

-- The entry of a request that goes out for the first time.
abbrev pub first_entry : ℕ → ℕ → Sender → Entry
first_entry now r s = record {
  processed = false;
  seq = s.next_packet_seq % 256;
  request = r;
  delta = now;
}

-- What is left when the request was noted, when it goes out without being noted, and when the ring is full.
pub record Noted (now r : ℕ) (s : Sender) (sh : Shared) (o : Outcome) : Type 0 where
  pub ring : IsRing o.sender
  pub waits : waiting o.sender ≡ first_entry now r s ∷ waiting s
  pub numbered : o.sender.next_packet_seq ≡ (s.next_packet_seq + 1) % 2 ^ 12
  pub requests : o.shared.requests ≡ count_up r sh.requests
  pub effects : o.effects ≡ sent r (some s.next_packet_seq) ∷ []
  pub calm : o.sender.send_overflow ≡ s.send_overflow

push_numbered :
    (now r : ℕ) (s : Sender)
    → IsRing s
    → s.sent_count + 1 < num_sent
    → let t = record (push_entry r s.next_packet_seq now s) {
      next_packet_seq = (s.next_packet_seq + 1) % 2 ^ 12;
    } in
      IsRing t × (waiting t ≡ first_entry now r s ∷ waiting s)
push_numbered now r s v room =
    let pv = push_entry-IsRing r s.next_packet_seq now s v room in
    (
      record { slots = pv.slots; begun = pv.begun; few = pv.few; closed = pv.closed },
      waiting-push_entry r s.next_packet_seq now s v room,
    )

-- The branches of the first sending.
pub attempt_first :
    (now r : ℕ) (s : Sender) (sh : Shared)
    → (request_at sh.requests r).field_2 ≢ 0
    → s.send_overflow ≡ false
    → s.sent_count + 1 < num_sent
    → let o = attempt_send_packet now r 0 s sh in
      (o.sender ≡ record (push_entry r s.next_packet_seq now s) {
        next_packet_seq = (s.next_packet_seq + 1) % 2 ^ 12;
      })
      × (o.shared.requests ≡ count_up r sh.requests)
      × (o.effects ≡ sent r (some s.next_packet_seq) ∷ [])
unfolding attempt_send_packet
attempt_first now r s sh real calm room = ground arith

pub attempt_first-Noted :
    (now r : ℕ) (s : Sender) (sh : Shared)
    → IsRing s
    → (request_at sh.requests r).field_2 ≢ 0
    → s.send_overflow ≡ false
    → s.sent_count + 1 < num_sent
    → Noted now r s sh (attempt_send_packet now r 0 s sh)
attempt_first-Noted now r s sh v real calm room =
    let h = attempt_first now r s sh real calm room in
    let p = push_numbered now r s v room in
    record {
      ring = subst IsRing (sym h.0) p.0;
      waits = ap waiting h.0 ∙ p.1;
      numbered = ap (λ (t : Sender). t.next_packet_seq) h.0;
      requests = h.1;
      effects = h.2;
      calm =
          ap (λ (t : Sender). t.send_overflow) h.0 ∙ (push_entry-keeps r s.next_packet_seq now s).1;
    }

attempt_plain :
    (now r : ℕ) (s : Sender) (sh : Shared)
    → ((request_at sh.requests r).field_2 == 0 || s.send_overflow) ≡ true
    → let o = attempt_send_packet now r 0 s sh in
      (o.sender ≡ s) × (o.shared ≡ sh) × (o.effects ≡ sent r none ∷ [])
unfolding attempt_send_packet
attempt_plain now r s sh h = rw h (refl, refl, refl)

attempt_full :
    (now r : ℕ) (s : Sender) (sh : Shared)
    → ((request_at sh.requests r).field_2 == 0 || s.send_overflow) ≡ false
    → s.sent_count ≡ num_sent - 1
    → let o = attempt_send_packet now r 0 s sh in
      (o.sender ≡ record s { send_overflow = true }) × (o.shared ≡ sh) × (o.effects ≡ [])
unfolding attempt_send_packet
attempt_full now r s sh h full = rw (h, full) (refl, refl, refl)

-- The three branches.
attempt_send_packet-branches :
    (now r : ℕ) (s : Sender) (sh : Shared)
    → IsRing s
    → let o = attempt_send_packet now r 0 s sh in
      let plain = (request_at sh.requests r).field_2 == 0 || s.send_overflow in
      (plain ≡ true → (o.sender ≡ s) × (o.shared ≡ sh) × (o.effects ≡ sent r none ∷ []))
      × (plain ≡ false
          → s.sent_count ≡ num_sent - 1
          → (o.sender ≡ record s { send_overflow = true }) × (o.shared ≡ sh) × (o.effects ≡ []))
      × (plain ≡ false → s.sent_count ≢ num_sent - 1 → Noted now r s sh o)
attempt_send_packet-branches now r s sh v = (
  attempt_plain now r s sh,
  attempt_full now r s sh,
  λ h room. attempt_first-Noted now r s sh v (ground arith) (ground arith) (omega (arith, v.few)),
)

-- One more entry waits for the request, and it counts it.
count_up-Accounted :
    (extra : ℕ → ℕ) (e : Entry) (es : List Entry) (rs : List Request)
    → e.processed ≡ false
    → e.request < length rs
    → (request_at rs e.request).count_a + 1 < 2 ^ 32
    → Accounted extra es rs
    → Accounted extra (e ∷ es) (count_up e.request rs)
count_up-Accounted extra e es rs waits h small a = record {
  counted = λ r. ground (arith, a.counted r, count_up_at rs e.request r h small, waits);
  bounded = λ r. elim (ℕ_discrete e.request r) [
    | yes q ↦
        subst (λ k. (request_at (count_up e.request rs) k).count_a < 2 ^ 32) q
          (ground (arith, count_up_at rs e.request e.request h small))
    | no ne ↦ ground (arith, a.bounded r, count_up_at rs e.request r h small)
  ];
}

-- The first sending of a request that is there and counts less than it can.
pub attempt_send_packet-IsSender :
    (now r : ℕ) (extra : ℕ → ℕ) (s : Sender) (sh : Shared)
    → IsSender extra s sh.requests
    → r < length sh.requests
    → (request_at sh.requests r).count_a + 1 < 2 ^ 32
    → let o = attempt_send_packet now r 0 s sh in
      IsSender extra o.sender o.shared.requests × SameParts sh.requests o.shared.requests
attempt_send_packet-IsSender now r extra s sh v h small =
    let plain = (request_at sh.requests r).field_2 == 0 || s.send_overflow in
    let b = attempt_send_packet-branches now r s sh v.ring in
    elim (Bool-cases plain) [
      | inl q ↦ let k = b.0 q in rw (k.0, k.1) (v, SameParts-refl sh.requests)
      | inr q ↦ elim (ℕ_discrete s.sent_count (num_sent - 1)) [
        | yes full ↦
            let k = b.1 q full in
            rw (k.0, k.1)
              (
                record {
                  ring = record {
                    slots = v.ring.slots;
                    begun = v.ring.begun;
                    few = v.ring.few;
                    closed = v.ring.closed;
                  };
                  accounts = record { counted = v.accounts.counted; bounded = v.accounts.bounded };
                  reliable = v.reliable;
                },
                SameParts-refl sh.requests,
              )
        | no room ↦
            let k = b.2 q room in
            let e = first_entry now r s in
            let same : SameParts sh.requests (count_up r sh.requests) =
              changed-SameParts sh.requests r _ in
            rw (k.requests) (
              record {
                ring = k.ring;
                accounts =
                    rw (k.waits)
                      (count_up-Accounted extra e (waiting s) sh.requests refl h small v.accounts);
                reliable = rw (k.waits) (
                  ground (arith, q, same.parts r),
                  AllReliable-SameParts (waiting s) sh.requests _ same v.reliable,
                );
              },
              same,
            )
      ]
    ]

-- A sender without its ring: what waits, the newest first, the next number, and whether it has overflowed.
pub record View : Type 0 where
  pub pending : List Entry
  pub next : ℕ
  pub overflowed : Bool

abbrev pub view : Sender → View
view s = record { pending = waiting s; next = s.next_packet_seq; overflowed = s.send_overflow }

-- What the first sending of a request means to a sender: a request without a reliable part, or to a peer
-- that has overflowed, goes out as it is, with no new number. With 46 entries waiting the peer overflows and
-- nothing goes out. Otherwise an entry is put in front, and the request goes out under the next number.
abbrev pub first_sending : ℕ → ℕ → Request → View → View × List Effect
first_sending now r q v =
    if q.field_2 == 0 || v.overflowed
    then (v, sent r none ∷ [])
    else if length v.pending == num_sent - 1
    then (record v { overflowed = true }, [])
    else (
      record {
        pending =
            record { processed = false; seq = v.next % 256; request = r; delta = now } ∷ v.pending;
        next = (v.next + 1) % 2 ^ 12;
        overflowed = v.overflowed;
      },
      sent r (some v.next) ∷ [],
    )

-- For a ring in its form, `AttemptSendPacket` of a request that goes to the peer for the first time does
-- to what waits, to the next number, to the overflow flag and to the network what `first_sending` says.
pub attempt_send_packet-first_sending :
    (now r : ℕ) (s : Sender) (sh : Shared)
    → IsRing s
    → let o = attempt_send_packet now r 0 s sh in
      (view o.sender, o.effects) ≡ first_sending now r (request_at sh.requests r) (view s)
attempt_send_packet-first_sending now r s sh v =
    let plain = (request_at sh.requests r).field_2 == 0 || s.send_overflow in
    let b = attempt_send_packet-branches now r s sh v in
    let size = length-entries_from s.sent_count s.sent_begin s.entries in
    elim (Bool-cases plain) [
      | inl q ↦ let k = b.0 q in rw (k.0, k.2, q) refl
      | inr q ↦ elim (ℕ_discrete s.sent_count (num_sent - 1)) [
        | yes full ↦ let k = b.1 q full in rw (k.0, k.2, q) (ground (arith, size, full))
        | no room ↦
            let k = b.2 q room in
            rw (k.waits, k.numbered, k.effects, k.calm, q) (ground (arith, size, room, q))
      ]
    ]

-- No other request is owed more or less.
first_sending-owed :
    (now r k : ℕ) (q : Request) (v : View)
    → r ≢ k
    → owed k (first_sending now r q v).0.pending ≡ owed k v.pending
first_sending-owed now r k q v ne =
    let P : View × List Effect → Type 0 = λ p. owed k p.0.pending ≡ owed k v.pending in
    if_case P (q.field_2 == 0 || v.overflowed) refl
      (if_case P (length v.pending == num_sent - 1) refl (ground arith))

pub attempt_send_packet-owed :
    (now r k : ℕ) (s : Sender) (sh : Shared)
    → IsRing s
    → r ≢ k
    → owed k (waiting (attempt_send_packet now r 0 s sh).sender) ≡ owed k (waiting s)
attempt_send_packet-owed now r k s sh v ne =
    ap (λ (p : View × List Effect). owed k p.0.pending)
      (attempt_send_packet-first_sending now r s sh v)
    ∙ first_sending-owed now r k (request_at sh.requests r) (view s) ne
