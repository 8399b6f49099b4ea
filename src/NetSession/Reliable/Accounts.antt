-- ===== src/NetSession/Reliable/Accounts.antt =====
-- What a request counts: the entries of all peers that wait for it to be acknowledged.
use gta_psp_multiplayer.Prelude.{
  ℕ, zero, suc, ◌+◌, ◌-◌, ◌%◌, ◌^◌, ◌≤◌, ◌<◌, ◌≡◌, ◌≢◌, ap, sym, subst, ◌∙◌, true, false, List, [],
  ◌∷◌, length, length-set, get_or-set_self, get_or-set_ne, ◌==◌, if◌then◌else◌, not, ◌&&◌, arith,
  Bool-cases, inl, inr, ℕ_discrete,
}
use gta_psp_multiplayer.NetSession.Reliable.{
  Entry, Sender, Request, no_request, num_sent, behind, entry_at, request_at, count_up, count_down,
  mark_processed, is_resent, matches, ack_loop, handle_ack_recv,
}
use gta_psp_multiplayer.NetSession.Reliable.Ring.{IsRing, entries_from, waiting, entries_from-set}
use gta_psp_multiplayer.NetSession.Reliable.Ack.{
  settled, settle, ack_loop-end, ack_loop-miss, ack_loop-last, ack_loop-hit, handle_ack_recv-settle,
}

-- Whether an entry waits for request `r`, as a number.
abbrev pub owes : ℕ → Entry → ℕ
owes r e = if e.processed then 0 else if e.request == r then 1 else 0

abbrev pub owed : ℕ → List Entry → ℕ
owed r [] = 0
owed r (e ∷ es) = owes r e + owed r es

-- Each request counts the entries of the list that wait for it, and `extra` more, which other lists hold.
pub record Accounted (extra : ℕ → ℕ) (es : List Entry) (rs : List Request) : Type 0 where
  pub counted : (r : ℕ) → (request_at rs r).count_a ≡ extra r + owed r es
  pub bounded : (r : ℕ) → (request_at rs r).count_a < 2 ^ 32

-- A request that counts something is there.
there : (rs : List Request) (r : ℕ) → 0 < (request_at rs r).count_a → r < length rs
there [] r h = elim h [ ]
there (x ∷ rs) zero h = omega arith
there (x ∷ rs) (suc r) h = omega (arith, there rs r h)

count_down_self :
    (rs : List Request) (r : ℕ)
    → 0 < (request_at rs r).count_a
    → (request_at rs r).count_a < 2 ^ 32
    → (request_at (count_down r rs) r).count_a + 1 ≡ (request_at rs r).count_a
count_down_self rs r h small =
    let old = request_at rs r in
    let new : Request = record old { count_a = (old.count_a + 2 ^ 32 - 1) % 2 ^ 32 } in
    omega
      (arith, ap (λ (q : Request). q.count_a) (get_or-set_self rs r new no_request (there rs r h)))

count_down_other :
    (rs : List Request) (r q : ℕ)
    → r ≢ q
    → (request_at (count_down r rs) q).count_a ≡ (request_at rs q).count_a
count_down_other rs r q ne = ap (λ (x : Request). x.count_a) (get_or-set_ne rs r q _ no_request ne)

pub count_down_at :
    (rs : List Request) (r q : ℕ)
    → 0 < (request_at rs r).count_a
    → (request_at rs r).count_a < 2 ^ 32
    → (request_at (count_down r rs) q).count_a + (if r == q then 1 else 0)
      ≡ (request_at rs q).count_a
count_down_at rs r q h small = elim (ℕ_discrete r q) [
  | yes e ↦
      subst
        (λ k.
          (request_at (count_down r rs) k).count_a + (if r == k then 1 else 0)
          ≡ (request_at rs k).count_a)
        e (ground (arith, count_down_self rs r h small))
  | no ne ↦ ground (arith, count_down_other rs r q ne)
]

pub count_up_at :
    (rs : List Request) (r q : ℕ)
    → r < length rs
    → (request_at rs r).count_a + 1 < 2 ^ 32
    → (request_at (count_up r rs) q).count_a ≡ (request_at rs q).count_a + (if r == q then 1 else 0)
count_up_at rs r q h small =
    let old = request_at rs r in
    let new : Request = record old { count_a = (old.count_a + 1) % 2 ^ 32 } in
    elim (ℕ_discrete r q) [
      | yes e ↦
          subst
            (λ k.
              (request_at (count_up r rs) k).count_a
              ≡ (request_at rs k).count_a + (if r == k then 1 else 0))
            e
            (ground
              (arith, ap (λ (x : Request). x.count_a) (get_or-set_self rs r new no_request h)))
      | no ne ↦
          ground (arith, ap (λ (x : Request). x.count_a) (get_or-set_ne rs r q new no_request ne))
    ]

-- The first entry of a list as one of the others, and back.
pub Accounted-shift :
    (extra : ℕ → ℕ) (e : Entry) (es : List Entry) (rs : List Request)
    → Accounted extra (e ∷ es) rs
    → Accounted (λ r. extra r + owes r e) es rs
Accounted-shift extra e es rs a = record {
  counted = λ r. omega (arith, a.counted r);
  bounded = a.bounded;
}

pub Accounted-unshift :
    (extra : ℕ → ℕ) (e : Entry) (es : List Entry) (rs : List Request)
    → Accounted (λ r. extra r + owes r e) es rs
    → Accounted extra (e ∷ es) rs
Accounted-unshift extra e es rs a = record {
  counted = λ r. omega (arith, a.counted r);
  bounded = a.bounded;
}

-- An entry that waits is settled, and its request counted down.
pub Accounted-settled :
    (extra : ℕ → ℕ) (e : Entry) (es : List Entry) (rs : List Request)
    → e.processed ≡ false
    → Accounted extra (e ∷ es) rs
    → Accounted extra (settled e ∷ es) (count_down e.request rs)
Accounted-settled extra e es rs waits a =
    let some_left : 0 < (request_at rs e.request).count_a = ground (arith, a.counted e.request) in
    record {
      counted = λ r.
          ground (arith, a.counted r, count_down_at rs e.request r some_left (a.bounded e.request));
      bounded = λ r.
          omega (arith, a.bounded r, count_down_at rs e.request r some_left (a.bounded e.request));
    }

matches-waits : (flags : ℕ) (e : Entry) → matches flags e ≡ true → e.processed ≡ false
matches-waits flags e h = ground arith

ack_loop-Accounted :
    (fuel flags n i : ℕ) (extra : ℕ → ℕ) (s : Sender) (rs : List Request)
    → n ≤ fuel
    → n < num_sent
    → i < num_sent
    → length s.entries ≡ num_sent
    → s.sent_end ≡ (i + n) % num_sent
    → Accounted extra (entries_from n i s.entries) rs
    → Accounted extra (settle flags (entries_from n i s.entries)) (ack_loop fuel flags i s rs).1
ack_loop-Accounted fuel flags zero i extra s rs hf hn hi full closed a =
    rw (ack_loop-end fuel flags i s rs (omega arith)) a
ack_loop-Accounted zero flags (suc n) i extra s rs hf hn hi full closed a = elim hf [ ]
ack_loop-Accounted (suc fuel) flags (suc n) i extra s rs hf hn hi full closed a =
    let e = entry_at s i in
    let tail = entries_from n (behind i) s.entries in
    let going : i ≢ s.sent_end = omega (arith, closed) in
    let same : entries_from n (behind i) (mark_processed i s).entries ≡ tail =
      entries_from-set n (behind i) i s.entries (settled e) (omega arith) hi (omega arith) in
    elim (Bool-cases (matches flags e)) [
      | inl hit ↦
          let b = Accounted-settled extra e tail rs (matches-waits flags e hit) a in
          elim (Bool-cases (is_resent flags && not (e.seq == flags))) [
            | inl more ↦
                let rest =
                  ack_loop-Accounted fuel flags n (behind i) (λ r. extra r + owes r (settled e))
                    (mark_processed i s) (count_down e.request rs) (omega arith) (omega arith)
                    (omega arith) (length-set s.entries i (settled e) ∙ full) (omega arith)
                    (rw same (Accounted-shift extra (settled e) tail _ b)) in
                rw (ack_loop-hit fuel flags i s rs going hit more, hit, more)
                  (Accounted-unshift extra (settled e) (settle flags tail) _ (
                    subst
                      (λ es.
                        Accounted (λ r. extra r + owes r (settled e)) (settle flags es)
                          (ack_loop fuel flags (behind i) (mark_processed i s)
                            (count_down e.request rs)).1)
                      same rest))
            | inr last ↦ rw ((ack_loop-last fuel flags i s rs going hit last).1, hit, last) b
          ]
      | inr miss ↦
          rw (ack_loop-miss fuel flags i s rs going miss, miss)
            (Accounted-unshift extra e (settle flags tail) _ (
              ack_loop-Accounted fuel flags n (behind i) (λ r. extra r + owes r e) s rs
                (omega arith) (omega arith) (omega arith) full (omega arith)
                (Accounted-shift extra e tail rs a)))
    ]

-- An acknowledgement keeps the accounts of every request, whatever the other peers hold.
pub handle_ack_recv-Accounted :
    (flags : ℕ) (extra : ℕ → ℕ) (s : Sender) (rs : List Request)
    → IsRing s
    → Accounted extra (waiting s) rs
    → Accounted extra (waiting (handle_ack_recv flags s rs).0) (handle_ack_recv flags s rs).1
handle_ack_recv-Accounted flags extra s rs v a =
    subst (λ es. Accounted extra es (handle_ack_recv flags s rs).1)
      (sym (handle_ack_recv-settle flags s rs v).1)
      (unfold handle_ack_recv in
        ack_loop-Accounted num_sent flags s.sent_count s.sent_begin extra s rs
          (omega (arith, v.few)) v.few v.begun v.slots v.closed a)
