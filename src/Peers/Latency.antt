-- ===== src/Peers/Latency.antt =====
-- `UpdatePeerLatency`: the ring of the last latencies of a peer, and their sum. The numbers are `float`;
-- the addition and subtraction of the processor are parameters.
pub mod Fifteenth
use gta_psp_multiplayer.Peers.{◌>>=◌}
use gta_psp_multiplayer.Prelude.{
  ℕ, ◌+◌, ◌-◌, ◌%◌, ◌<◌, ◌≡◌, ◌≢◌, refl, ◌∙◌, true, false, Option, none, some, List, [], ◌∷◌,
  get_or, set, ltb, ◌==◌, if◌then◌else◌, arith, Bool-cases, inl, inr, ◌⊎◌, ℕ_discrete,
}

-- PEER_STATE_MAX_BUFFER_SIZE
abbrev pub max_buffer : ℕ
max_buffer = 15

-- The part of an `sPeerState` for latencies.
pub record Latency (F : Type 0) : Type 0 where
  pub sum : F
  pub count : ℕ
  pub start : ℕ
  pub index : ℕ
  pub buffer : List F

module _ {F : Type 0} (zero_float : F) (plus minus : F → F → F) where
  -- A read and a write of the buffer; none is an access outside of it.
  abbrev pub read_at : ℕ → Latency F → Option F
  read_at i l = if ltb i max_buffer then some (get_or l.buffer i zero_float) else none

  abbrev pub write_at : ℕ → F → Latency F → Option (Latency F)
  write_at i x l = if ltb i max_buffer then some (record l { buffer = set l.buffer i x }) else none

  -- The index before one of the ring: 0 becomes 15 first.
  abbrev pub previous : ℕ → ℕ
  previous i = (if i == 0 then max_buffer else i) - 1

  -- While the ring fills. The write is at the index before `m_bufferCount`, which is outside at 0.
  unfoldable pub fill : F → Latency F → Option (Latency F)
  fill x l =
      let count = previous l.count in
      let next = record l { index = l.index + 1; sum = plus l.sum x; count = count } in
      if count == 0 then none else write_at (count - 1) x next

  -- When the ring is full: the oldest latency leaves the sum.
  unfoldable pub shift : F → Latency F → Option (Latency F)
  shift x l =
      let idx = l.index - 1 + l.count in
      let start = previous l.start in
      let count = previous l.count in
      do
        old ← read_at (if ltb idx max_buffer then idx else idx - max_buffer) l
        at_start ← read_at start l
        copied ← if count == start then some l else write_at count at_start l
        write_at count x
            (record copied { sum = plus l.sum (minus x old); start = start; count = count })

  -- `UpdatePeerLatency` of a peer that is there, for a latency that is scaled already.
  unfoldable pub update_peer_latency : F → Latency F → Option (Latency F)
  update_peer_latency x l = if l.index == max_buffer - 1 then shift x l else fill x l

  -- One latency after the other.
  unfoldable pub update_all : List F → Latency F → Option (Latency F)
  unfolding update_peer_latency
  update_all [] l = some l
  update_all (x ∷ xs) l = do m ← update_peer_latency x l; update_all xs m

  -- A new peer, whose buffer holds what the memory held before.
  abbrev pub new_latency : List F → Latency F
  new_latency memory = record { sum = zero_float; count = 0; start = 0; index = 0; buffer = memory }

  -- The indices lie in the ring; while it fills, the count runs down from its end.
  pub record IsLatency (l : Latency F) : Type 0 where
    pub filling : l.index < max_buffer
    pub counts : l.count < max_buffer
    pub starts : l.start < max_buffer
    pub down : (l.index ≡ max_buffer - 1) ⊎ (l.count ≡ (max_buffer - l.index) % max_buffer)

  previous-small : (i : ℕ) → i < max_buffer → ltb (previous i) max_buffer ≡ true
  previous-small i h = ground arith

  -- The slot that leaves the sum.
  abbrev pub oldest : Latency F → ℕ
  oldest l = let idx = l.index - 1 + l.count in if ltb idx max_buffer then idx else idx - max_buffer

  pub shift-IsLatency :
      (x : F) (l : Latency F)
      → IsLatency l
      → l.index ≡ max_buffer - 1
      → (m : Latency F) × (shift x l ≡ some m)
        × IsLatency m
        × (m.sum ≡ plus l.sum (minus x (get_or l.buffer (oldest l) zero_float)))
  unfolding shift
  shift-IsLatency x l v full =
      let idx = l.index - 1 + l.count in
      let inside : ltb (if ltb idx max_buffer then idx else idx - max_buffer) max_buffer ≡ true =
        ground (arith, v.counts, full) in
      let after : (c : Latency F)
          → c.index ≡ l.index
          → IsLatency (record {
            sum = plus l.sum (
                minus x (
                  get_or l.buffer (if ltb idx max_buffer then idx else idx - max_buffer)
                    zero_float));
            start = previous l.start;
            count = previous l.count;
            index = c.index;
            buffer = set c.buffer (previous l.count) x;
          }) =
        λ c e. record {
          filling = omega (arith, e, v.filling);
          counts = ground (arith, v.counts);
          starts = ground (arith, v.starts);
          down = inl (e ∙ full);
        } in
      elim (Bool-cases (previous l.count == previous l.start)) [
        | inl same ↦ (
          _,
          rw (inside, previous-small l.start v.starts, previous-small l.count v.counts, same) refl,
          after l refl,
          refl,
        )
        | inr apart ↦ (
          _,
          rw (inside, previous-small l.start v.starts, previous-small l.count v.counts, apart) refl,
          after
              (record l {
                buffer =
                    set l.buffer (previous l.count) (get_or l.buffer (previous l.start) zero_float);
              })
              refl,
          refl,
        )
      ]

  fill-IsLatency :
      (x : F) (l : Latency F)
      → IsLatency l
      → l.index ≢ max_buffer - 1
      → (m : Latency F) × (fill x l ≡ some m) × IsLatency m
  unfolding fill
  fill-IsLatency x l v more =
      let down : l.count ≡ (max_buffer - l.index) % max_buffer = elim v.down [
        | inl e ↦ absurd (more e)
        | inr e ↦ e
      ] in
      let some_left : (previous l.count == 0) ≡ false = ground (arith, down, v.filling, more) in
      let inside : ltb (previous l.count - 1) max_buffer ≡ true = ground (arith, v.counts) in
      let m : Latency F = record {
        sum = plus l.sum x;
        count = previous l.count;
        start = l.start;
        index = l.index + 1;
        buffer = set l.buffer (previous l.count - 1) x;
      } in
      (
        m,
        rw (some_left, inside) refl,
        record {
          filling = omega (arith, v.filling, more);
          counts = ground (arith, v.counts);
          starts = v.starts;
          down = elim (ℕ_discrete (l.index + 1) (max_buffer - 1)) [
            | yes e ↦ inl e
            | no ne ↦ inr (ground (arith, down, v.filling, more))
          ];
        },
      )

  update_peer_latency-IsLatency :
      (x : F) (l : Latency F)
      → IsLatency l
      → (m : Latency F) × (update_peer_latency x l ≡ some m) × IsLatency m
  unfolding update_peer_latency
  update_peer_latency-IsLatency x l v = elim (Bool-cases (l.index == max_buffer - 1)) [
    | inl full ↦
        let (m, h, k, s) = shift-IsLatency x l v (ground (arith, full)) in (m, rw full h, k)
    | inr more ↦ let (m, h, k) = fill-IsLatency x l v (ground (arith, more)) in (m, rw more h, k)
  ]

  new_latency-IsLatency : (memory : List F) → IsLatency (new_latency memory)
  new_latency-IsLatency memory = record {
    filling = omega arith;
    counts = omega arith;
    starts = omega arith;
    down = inr refl;
  }

  -- From a peer whose indices lie in the ring and whose count, as long as the ring fills, has come down
  -- from 15 by as many as there are latencies, modulo 15, as with a new peer: any number of updates reads
  -- and writes the buffer inside of its bounds only, and leaves such a peer.
  pub update_all-IsLatency :
      (xs : List F) (l : Latency F)
      → IsLatency l
      → (m : Latency F) × (update_all xs l ≡ some m) × IsLatency m
  unfolding update_all
  update_all-IsLatency [] l v = (l, refl, v)
  update_all-IsLatency (x ∷ xs) l v =
      let (m, h, k) = update_peer_latency-IsLatency x l v in
      let (n, i, j) = update_all-IsLatency xs m k in (n, rw h i, j)
