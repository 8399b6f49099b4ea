-- ===== src/Peers/Latency/Fifteenth.antt =====
-- `UpdatePeerLatency`, from the first latency of a new peer to the one that finds the ring full.
use gta_psp_multiplayer.Prelude.{
  ℕ, ◌+◌, ◌-◌, ◌%◌, ◌≤◌, ◌<◌, ◌≡◌, refl, ap, ap₂, ◌∙◌, true, false, Option, none, some, List, [],
  ◌∷◌, length, get_or, get_or-set_ne, set, ◌++◌, ltb, ◌==◌, arith, inl,
}
use gta_psp_multiplayer.Peers.{◌>>=◌}
use gta_psp_multiplayer.Peers.Latency.{
  Latency, max_buffer, previous, oldest, fill, update_peer_latency, update_all, new_latency,
  IsLatency, shift-IsLatency,
}

module _ {F : Type 0} (zero_float : F) (plus minus : F → F → F) where
  abbrev pub sum_from : F → List F → F
  sum_from s [] = s
  sum_from s (x ∷ xs) = sum_from (plus s x) xs

  -- What `n` latencies leave of a peer whose ring still fills.
  record Filled (n : ℕ) (s : F) (l m : Latency F) : Type 0 where
    index : m.index ≡ l.index + n
    count : m.count ≡ (max_buffer - m.index) % max_buffer
    start : m.start ≡ l.start
    sum : m.sum ≡ s
    last : get_or m.buffer (max_buffer - 1) zero_float ≡ get_or l.buffer (max_buffer - 1) zero_float

  fill-Filled :
      (x : F) (l : Latency F)
      → l.index < max_buffer - 1
      → l.count ≡ (max_buffer - l.index) % max_buffer
      → (m : Latency F) × (fill zero_float plus minus x l ≡ some m) × Filled 1 (plus l.sum x) l m
  unfolding fill
  fill-Filled x l more down =
      let some_left : (previous zero_float plus minus l.count == 0) ≡ false =
        ground (arith, down, more) in
      let small : previous zero_float plus minus l.count - 1 < max_buffer - 1 =
        ground (arith, down, more) in
      let inside : ltb (previous zero_float plus minus l.count - 1) max_buffer ≡ true =
        ground (arith, small) in
      let m : Latency F = record {
        sum = plus l.sum x;
        count = previous zero_float plus minus l.count;
        start = l.start;
        index = l.index + 1;
        buffer = set l.buffer (previous zero_float plus minus l.count - 1) x;
      } in
      (
        m,
        rw (some_left, inside) refl,
        record {
          index = refl;
          count = ground (arith, down, more);
          start = refl;
          sum = refl;
          last =
              get_or-set_ne l.buffer (previous zero_float plus minus l.count - 1) (max_buffer - 1) x
                zero_float (λ e. omega (arith, e, small));
        },
      )

  update_all-Filled :
      (xs : List F) (l : Latency F)
      → l.index + length xs ≤ max_buffer - 1
      → l.count ≡ (max_buffer - l.index) % max_buffer
      → (m : Latency F) × (update_all zero_float plus minus xs l ≡ some m)
        × Filled (length xs) (sum_from l.sum xs) l m
  unfolding update_all update_peer_latency
  update_all-Filled [] l few down =
      (l, refl, record { index = omega arith; count = down; start = refl; sum = refl; last = refl })
  update_all-Filled (x ∷ xs) l few down =
      let (m, h, f) = fill-Filled x l (omega arith) down in
      let (n, i, g) = update_all-Filled xs m (omega (arith, f.index)) f.count in
      let more : (l.index == max_buffer - 1) ≡ false = ground (arith, few) in
      (
        n,
        rw (more, h) i,
        record {
          index = omega (arith, f.index, g.index);
          count = g.count;
          start = g.start ∙ f.start;
          sum = g.sum ∙ ap (λ s. sum_from s xs) f.sum;
          last = g.last ∙ f.last;
        },
      )

  update_all-append :
      (xs : List F) (x : F) (l : Latency F)
      → update_all zero_float plus minus (xs ++ x ∷ []) l
        ≡ (update_all zero_float plus minus xs l >>= update_peer_latency zero_float plus minus x)
  unfolding update_all
  update_all-append [] x l = first (update_peer_latency zero_float plus minus x l)
    where
      first : (o : Option (Latency F)) → (o >>= λ m. some m) ≡ o
      first none = refl
      first (some m) = refl
  update_all-append (y ∷ xs) x l =
      later (update_peer_latency zero_float plus minus y l) (update_all-append xs x)
    where
      later :
          (o : Option (Latency F))
          → ((m : Latency F)
              → update_all zero_float plus minus (xs ++ x ∷ []) m ≡ (
                  update_all zero_float plus minus xs m
                  >>= update_peer_latency zero_float plus minus x))
          → (o >>= update_all zero_float plus minus (xs ++ x ∷ [])) ≡ (
              (o >>= update_all zero_float plus minus xs)
              >>= update_peer_latency zero_float plus minus x)
      later none h = refl
      later (some m) h = h m

  -- The fifteenth latency of a new peer takes from the sum what the memory of the last slot held before the
  -- peer was made: none of the first fourteen is written there.
  pub fifteenth_latency :
      (memory xs : List F) (x : F)
      → length xs ≡ max_buffer - 1
      → (m : Latency F) × (update_all zero_float plus minus
            (xs ++ x ∷ [])
            (new_latency zero_float plus minus memory)
          ≡ some m)
        × (m.sum
            ≡ plus (sum_from zero_float xs) (minus x (get_or memory (max_buffer - 1) zero_float)))
  unfolding update_peer_latency
  fifteenth_latency memory xs x size =
      let l = new_latency zero_float plus minus memory in
      let (n, h, f) = update_all-Filled xs l (omega (arith, size)) refl in
      let full : n.index ≡ max_buffer - 1 = omega (arith, f.index, size) in
      let one : n.count ≡ 1 = omega (arith, f.count, full) in
      let v : IsLatency zero_float plus minus n = record {
        filling = omega (arith, full);
        counts = omega (arith, one);
        starts = omega (arith, f.start);
        down = inl full;
      } in
      let (m, i, k, s) = shift-IsLatency zero_float plus minus x n v full in
      let at_end : oldest zero_float plus minus n ≡ max_buffer - 1 = ground (arith, full, one) in
      let turn : (n.index == max_buffer - 1) ≡ true = ground (arith, full) in
      (
        m,
        update_all-append xs x l
            ∙ ap (λ o. o >>= update_peer_latency zero_float plus minus x) h
            ∙ rw turn i,
        s
            ∙ ap₂ (λ a b. plus a (minus x b)) f.sum
                (ap (λ j. get_or n.buffer j zero_float) at_end ∙ f.last),
      )
