-- ===== src/NetSession/Window/History.antt =====
-- Receipt and delivery in any order: `HandlePacketRecv` and the delivery loop of `UpdateReceivePvt` for one
-- peer, from its connection on.
use gta_psp_multiplayer.Prelude.{
  ℕ, zero, suc, ◌+◌, ◌-◌, ◌^◌, ◌≤◌, ◌<◌, ◌≡◌, ◌≢◌, refl, ap, ap₂, subst, ◌∙◌, Option, none, some,
  List, [], ◌∷◌, ◌++◌, length, length-append, replicate, ◌==◌, arith, Bool-cases, inl, inr,
}
use gta_psp_multiplayer.NetSession.Window.{
  Datagram, Window, Effect, slot, seq, num_packets, empty_datagram, ahead, store, receive_window,
  deliver_window,
}
use gta_psp_multiplayer.NetSession.Window.Store.{pending, pending-store}
use gta_psp_multiplayer.NetSession.Window.Deliver.{advance}
use gta_psp_multiplayer.NetSession.Window.Tracks.{
  IsCopy, parts, Waits, Tracks, receive_window-Tracks, receive_window-stored, ahead-next,
  pending-first, advance-Tracks, deliver_window-gap, deliver_window-turn,
}

-- What a call of the delivery loop does: it dispatches the next `size` parts.
record Delivers (part : ℕ → Effect) (next : ℕ) (w : Window) (r : List Effect × Window)
    : Type 0 where
  size : ℕ
  effects : r.0 ≡ parts part size next
  tracks : Tracks part (next + size) r.1
  some_first : (slot w 0).size ≢ 0 → 0 < w.count → 0 < size

deliver_window-Delivers :
    (part : ℕ → Effect) (n next : ℕ) (w : Window)
    → Tracks part next w
    → w.count ≡ n
    → Delivers part next w (deliver_window n w)
deliver_window-Delivers part zero next w t size = record {
  size = 0;
  effects = unfold deliver_window in refl;
  tracks = unfold deliver_window in subst (λ j. Tracks part j w) (omega arith) t;
  some_first = λ h k. omega (arith, k, size);
}
deliver_window-Delivers part (suc n) next w t size = elim (Bool-cases ((slot w 0).size == 0)) [
  | inl empty ↦ rw (deliver_window-gap n w (ground (arith, empty))) (record {
    size = 0;
    effects = refl;
    tracks = subst (λ j. Tracks part j w) (omega arith) t;
    some_first = λ h k. absurd (h (ground (arith, empty)));
  })
  | inr full ↦
      let first : pending w 0 ≡ some (slot w 0) = ground (arith, full, size) in
      let (later, now) = advance-Tracks part next (slot w 0) w t first in
      let rest =
        deliver_window-Delivers part n (suc next) (advance w) later (omega (arith, size)) in
      rw (deliver_window-turn n w size (ground (arith, full))) (record {
        size = suc rest.size;
        effects = ap₂ (λ (x : Effect) xs. x ∷ xs) now rest.effects;
        tracks =
            subst (λ j. Tracks part j (deliver_window n (advance w)).1) (omega arith) rest.tracks;
        some_first = λ h k. omega arith;
      })
]

-- The receiving part of a new `cNetPeerState`.
abbrev pub new_window : Window
new_window = record {
  packets = replicate num_packets empty_datagram;
  packet_index = 0;
  packet_end = 0;
  count = 0;
  last_ack = 0;
}

-- What can happen to the window of a peer, and what is dispatched: copies of the sender's datagrams come, in
-- any order and any number of times, less than 2048 ahead of the next and at most 2048 behind it, and
-- what is ready is delivered.
pub data Run (part : ℕ → Effect) : Window → List Effect → Type 0 where
  starts : Run part new_window []
  receives :
      {w : Window} {log : List Effect} (n : ℕ) (d : Datagram)
      → Run part w log
      → IsCopy part n d
      → n < length log + 2 ^ 11
      → length log ≤ n + 2 ^ 11
      → Run part (receive_window d w).0 log
  delivers :
      {w : Window} {log : List Effect}
      → Run part w log
      → Run part (deliver_window w.count w).1 (log ++ (deliver_window w.count w).0)

parts-append :
    (part : ℕ → Effect) (m n i : ℕ) → parts part m i ++ parts part n (i + m) ≡ parts part (m + n) i
parts-append part zero n i =
    ap (parts part n) {x = i + zero} {y = i} (omega arith)
    ∙ ap (λ k. parts part k i) {x = n} {y = zero + n} (omega arith)
parts-append part (suc m) n i =
    ap (λ xs. part i ∷ xs)
      (ap (λ j. parts part m (suc i) ++ parts part n j) {x = i + suc m} {y = suc i + m}
          (omega arith)
        ∙ parts-append part m n (suc i))
    ∙ ap (λ k. parts part k i) {x = suc (m + n)} {y = suc m + n} (omega arith)

length-parts : (part : ℕ → Effect) (n i : ℕ) → length (parts part n i) ≡ n
length-parts part zero i = refl
length-parts part (suc n) i = ap suc (length-parts part n (suc i))

new_window-Tracks : (part : ℕ → Effect) → Tracks part 0 new_window
new_window-Tracks part = record {
  valid = record { slots = refl; index = omega arith; narrow = omega arith };
  next = refl;
  small = omega arith;
  waits = λ k hk. subst (Waits part (0 + k)) (nothing k) tt;
}
  where
    nothing : (k : ℕ) → none ≡ pending new_window k
    nothing k = ground arith

Run-Tracks :
    {part : ℕ → Effect} {w : Window} {log : List Effect}
    → Run part w log
    → Tracks part (length log) w × (log ≡ parts part (length log) 0)
Run-Tracks {part = part} starts = (new_window-Tracks part, refl)
Run-Tracks {part = part} (receives {w = w} {log = log} n d run copy high low) =
    let (t, e) = Run-Tracks run in
    (receive_window-Tracks part (length log) n d w t copy high low, e)
Run-Tracks {part = part} (delivers {w = w} {log = log} run) =
    let (t, e) = Run-Tracks run in
    let r = deliver_window-Delivers part w.count (length log) w t refl in
    let more = (deliver_window w.count w).0 in
    let total : length log + r.size ≡ length (log ++ more) =
      omega (
        arith,
        length-append log more,
        ap length r.effects,
        length-parts part r.size (length log),
      ) in
    (
      subst (λ k. Tracks part k (deliver_window w.count w).1) total r.tracks,
      ap₂ (λ xs ys. xs ++ ys) e r.effects
          ∙ ap (λ j. parts part (length log) 0 ++ parts part r.size j) {x = length log}
              {y = 0 + length log} (omega arith)
          ∙ parts-append part (length log) r.size 0
          ∙ ap (λ k. parts part k 0) total,
    )

-- Whatever copies of the sender's datagrams come, in whatever order and however often, less than 2048
-- ahead of the next and at most 2048 behind it, and whenever the delivery loop runs: what is dispatched
-- is the first parts that were sent, each once and in the order in which they were sent.
pub Run-in_order :
    (part : ℕ → Effect) (w : Window) (log : List Effect)
    → Run part w log
    → log ≡ parts part (length log) 0
Run-in_order part w log run = (Run-Tracks run).1

-- The next part waits at the first place once it has come.
next-waits :
    (part : ℕ → Effect) (next : ℕ) (d : Datagram) (w : Window)
    → Tracks part next w
    → IsCopy part next d
    → (k : Datagram) × (pending (receive_window d w).0 0 ≡ some k)
next-waits part next d w t copy =
    let near : ahead (seq d) w.last_ack ≡ 0 =
      ahead-next (seq d) w.last_ack next next copy.narrow t.small copy.number t.next (omega arith)
        (omega arith)
      ∙ omega arith in
    let stored : (receive_window d w).0 ≡ store 0 d w =
      receive_window-stored d w copy.reliable (rw near refl) ∙ ap (λ k. store k d w) near in
    kept (pending w 0) (
      ap (λ v. pending v 0) stored
      ∙ (pending-store 0 0 d w t.valid (omega arith) (omega arith) copy.real).1)
  where
    kept :
        (old : Option Datagram)
        → pending (receive_window d w).0 0 ≡ elim old [ none ↦ some d | some x ↦ some x ]
        → (k : Datagram) × (pending (receive_window d w).0 0 ≡ some k)
    kept none h = (d, h)
    kept (some x) h = (x, h)

-- After such a history, when a copy of the next part comes that carries its number, the delivery loop
-- dispatches it.
pub Run-progress :
    (part : ℕ → Effect) (w : Window) (log : List Effect) (d : Datagram)
    → Run part w log
    → IsCopy part (length log) d
    → let r = receive_window d w in
      let next = deliver_window r.0.count r.0 in
      (rest : List Effect) × (log ++ next.0 ≡ parts part (length log) 0 ++ part (length log) ∷ rest)
Run-progress part w log d run copy =
    let next = length log in
    let (t, e) = Run-Tracks run in
    let w1 = (receive_window d w).0 in
    let t1 = receive_window-Tracks part next next d w t copy (omega arith) (omega arith) in
    let r = deliver_window-Delivers part w1.count next w1 t1 refl in
    let (k, waits) = next-waits part next d w t copy in
    let first = pending-first w1 k waits in
    let s = r.some_first first.1 first.0 in
    (
      parts part (r.size - 1) (suc next),
      ap₂ (λ xs ys. xs ++ ys) e r.effects
          ∙ ap (λ c. parts part next 0 ++ parts part c next) {x = r.size} {y = suc (r.size - 1)}
              (omega (arith, s)),
    )
