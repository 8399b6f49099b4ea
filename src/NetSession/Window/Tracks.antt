-- ===== src/NetSession/Window/Tracks.antt =====
-- The invariant of a window whose datagrams are copies of what one sender sent, and that receipt keeps it.
use gta_psp_multiplayer.Prelude.{
  ℕ, zero, suc, ◌+◌, ◌-◌, ◌%◌, ◌^◌, ◌≤◌, ◌<◌, ◌≡◌, ◌≢◌, refl, ap, sym, subst, ◌∙◌, true, false,
  Option, none, some, List, [], ◌∷◌, ltb, ◌==◌, if◌then◌else◌, arith, Bool-cases, inl, inr, dec_lt,
}
use gta_psp_multiplayer.NetSession.Window.{
  Datagram, Window, Effect, place, slot, seq, num_packets, ahead, accepts, store, receive_window,
  deliver_window,
}
use gta_psp_multiplayer.NetSession.Window.Slots.{IsWindow, clear_slots-fields}
use gta_psp_multiplayer.NetSession.Window.Store.{pending, pending-store}
use gta_psp_multiplayer.NetSession.Window.Deliver.{advance, pending-advance, delivery}
use gta_psp_multiplayer.NetSession.Window.Late.{receive_window-late}

-- A datagram that carries the `n`-th reliable part that the sender sent, counted from 0, under its number.
-- The upper four bits of the number, which mark a datagram that is sent again, do not matter.
pub record IsCopy (part : ℕ → Effect) (n : ℕ) (d : Datagram) : Type 0 where
  pub number : seq d % 2 ^ 12 ≡ n % 2 ^ 12
  pub narrow : seq d < 2 ^ 16
  pub content : delivery d ≡ part n
  pub real : d.size ≢ 0
  pub reliable : d.field_2 ≢ 0

-- The parts from the `i`-th on.
abbrev pub parts : (ℕ → Effect) → ℕ → ℕ → List Effect
parts part zero i = []
parts part (suc n) i = part i ∷ parts part n (suc i)

-- What waits at a place is nothing, or a copy of the `n`-th part.
abbrev pub Waits : (ℕ → Effect) → ℕ → Option Datagram → Type 0
Waits part n none = Unit {0}
Waits part n (some d) = IsCopy part n d

-- The next part to deliver is the `n`-th, and what waits is where it belongs.
pub record Tracks (part : ℕ → Effect) (n : ℕ) (w : Window) : Type 0 where
  pub valid : IsWindow w
  pub next : w.last_ack % 2 ^ 12 ≡ n % 2 ^ 12
  pub small : w.last_ack < 2 ^ 16
  pub waits : (k : ℕ) → k < num_packets → Waits part (n + k) (pending w k)

-- A copy that is stored.
Waits-store :
    (part : ℕ → Effect) (n delta k : ℕ) (d : Datagram) (old here : Option Datagram)
    → IsCopy part (n + delta) d
    → Waits part (n + delta) old
    → Waits part (n + k) here
    → Waits part (n + k) (if delta == k then elim old [ none ↦ some d | some x ↦ some x ] else here)
Waits-store part n delta k d old here copy old_waits here_waits = elim (Bool-cases (delta == k)) [
  | inr apart ↦ rw apart here_waits
  | inl same ↦ rw same (
      subst (λ j. Waits part (n + j) (elim old [ none ↦ some d | some x ↦ some x ]))
        (ground (arith, same)) (kept old old_waits))
]
  where
    kept :
        (old : Option Datagram)
        → Waits part (n + delta) old
        → Waits part (n + delta) (elim old [ none ↦ some d | some x ↦ some x ])
    kept none h = copy
    kept (some x) h = h

store-last_ack : (delta : ℕ) (d : Datagram) (w : Window) → (store delta d w).last_ack ≡ w.last_ack
unfolding store
store-last_ack delta d w = ground (
  arith,
  (clear_slots-fields (delta - w.count) w.count
      (record w { count = delta + 1; packet_end = place w (delta + 1) })).3,
)

pub ahead-next :
    (number last_ack n next : ℕ)
    → number < 2 ^ 16
    → last_ack < 2 ^ 16
    → number % 2 ^ 12 ≡ n % 2 ^ 12
    → last_ack % 2 ^ 12 ≡ next % 2 ^ 12
    → next ≤ n
    → n < next + 2 ^ 11
    → ahead number last_ack ≡ n - next
ahead-next number last_ack n next hn hl en el low high = omega arith

pub receive_window-stored :
    (d : Datagram) (w : Window)
    → d.field_2 ≢ 0
    → accepts (ahead (seq d) w.last_ack) ≡ true
    → (receive_window d w).0 ≡ store (ahead (seq d) w.last_ack) d w
unfolding receive_window
receive_window-stored d w h ok = ground (arith, ok)

receive_window-refused :
    (d : Datagram) (w : Window)
    → accepts (ahead (seq d) w.last_ack) ≡ false
    → (receive_window d w).0 ≡ w
unfolding receive_window
receive_window-refused d w refused = ground (arith, refused)

store-Tracks :
    (part : ℕ → Effect) (next delta : ℕ) (d : Datagram) (w : Window)
    → Tracks part next w
    → IsCopy part (next + delta) d
    → delta + 1 < num_packets
    → Tracks part next (store delta d w)
store-Tracks part next delta d w t copy small = record {
  valid = (pending-store delta delta d w t.valid (omega arith) small copy.real).0;
  next = omega (arith, store-last_ack delta d w, t.next);
  small = omega (arith, store-last_ack delta d w, t.small);
  waits = λ k hk.
      subst (Waits part (next + k)) (sym (pending-store delta k d w t.valid hk small copy.real).1) (
        Waits-store part next delta k d (pending w delta) (pending w k) copy
          (t.waits delta (omega arith)) (t.waits k hk));
}

pub receive_window-Tracks :
    (part : ℕ → Effect) (next n : ℕ) (d : Datagram) (w : Window)
    → Tracks part next w
    → IsCopy part n d
    → n < next + 2 ^ 11
    → next ≤ n + 2 ^ 11
    → Tracks part next (receive_window d w).0
receive_window-Tracks part next n d w t copy high low = elim (dec_lt n next) [
  | yes late ↦
      rw
        (receive_window-late d w (next - n) copy.narrow t.small (omega arith) (omega arith)
          (omega (arith, copy.number, t.next)))
        t
  | no early ↦
      let far : ahead (seq d) w.last_ack ≡ n - next =
        ahead-next (seq d) w.last_ack n next copy.narrow t.small copy.number t.next (omega arith)
          high in
      elim (Bool-cases (accepts (ahead (seq d) w.last_ack))) [
        | inr refused ↦ rw (receive_window-refused d w refused) t
        | inl ok ↦
            rw (receive_window-stored d w copy.reliable ok, far)
              (store-Tracks part next (n - next) d w t
                (subst (λ j. IsCopy part j d) (omega arith) copy) (ground (arith, far, ok)))
      ]
]

-- A datagram that waits at the first place is the one in its slot.
pub pending-first :
    (w : Window) (d : Datagram)
    → pending w 0 ≡ some d
    → (0 < w.count) × ((slot w 0).size ≢ 0) × (slot w 0 ≡ d)
pending-first w d h = elim (Bool-cases (ltb 0 w.count)) [
  | inr out ↦ absurd (none≢some (sym (rw out refl) ∙ h))
  | inl inside ↦ elim (Bool-cases ((slot w 0).size == 0)) [
    | inl empty ↦ absurd (none≢some (sym (rw (inside, empty) refl) ∙ h))
    | inr full ↦
        (ground (arith, inside), ground (arith, full), some-inj (sym (rw (inside, full) refl) ∙ h))
  ]
]
  where
    none≢some : none ≢ some d
    none≢some e = cc

    some-inj : {a b : Datagram} → some a ≡ some b → a ≡ b
    some-inj e = cc

-- The first datagram that waits is delivered.
pub advance-Tracks :
    (part : ℕ → Effect) (next : ℕ) (d : Datagram) (w : Window)
    → Tracks part next w
    → pending w 0 ≡ some d
    → Tracks part (suc next) (advance w) × (delivery (slot w 0) ≡ part next)
advance-Tracks part next d w t h =
    let first = pending-first w d h in
    let copy : IsCopy part (next + 0) d =
      subst (Waits part (next + 0)) h (t.waits 0 (omega arith)) in
    (
      record {
        valid = record {
          slots = t.valid.slots;
          index = ground (arith, t.valid.index);
          narrow = omega (arith, t.valid.narrow);
        };
        next = omega (arith, copy.number, ap seq first.2);
        small = omega arith;
        waits = λ k hk.
            subst (Waits part (suc next + k)) (sym (pending-advance w k t.valid.index))
              (shifted k hk);
      },
      ap delivery first.2 ∙ copy.content ∙ ap part (omega arith),
    )
  where
    beyond : (k : ℕ) → num_packets ≤ suc k → none ≡ pending w (suc k)
    beyond k far = ground (arith, t.valid.narrow)

    shifted : (k : ℕ) → k < num_packets → Waits part (suc next + k) (pending w (suc k))
    shifted k hk = elim (dec_lt (suc k) num_packets) [
      | yes inside ↦
          subst (λ j. Waits part j (pending w (suc k))) (omega arith) (t.waits (suc k) inside)
      | no outside ↦ subst (Waits part (suc next + k)) (beyond k (omega arith)) tt
    ]

-- The turns of the loop.
pub deliver_window-gap :
    (n : ℕ) (w : Window) → (slot w 0).size ≡ 0 → deliver_window (suc n) w ≡ ([], w)
unfolding deliver_window
deliver_window-gap n w h = ground (arith, h)

pub deliver_window-turn :
    (n : ℕ) (w : Window)
    → w.count ≡ suc n
    → (slot w 0).size ≢ 0
    → let rest = deliver_window n (advance w) in
      deliver_window (suc n) w ≡ (delivery (slot w 0) ∷ rest.0, rest.1)
unfolding deliver_window
deliver_window-turn n w size h =
    let full : ((slot w 0).size == 0) ≡ false = ground (arith, h) in
    let same : n ≡ w.count - 1 = omega (arith, size) in
    rw (full) (ap (λ c. turn (deliver_window n (record (advance w) { count = c }))) same)
  where
    turn : List Effect × Window → List Effect × Window
    turn t = (delivery (slot w 0) ∷ t.0, t.1)
