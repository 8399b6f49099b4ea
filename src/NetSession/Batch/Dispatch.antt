-- ===== src/NetSession/Batch/Dispatch.antt =====
-- What `DispatchMessages` does with whole packets, and what a broadcast delivers.
use gta_psp_multiplayer.Prelude.{
  ℕ, zero, suc, ◌≤◌, ◌≡◌, refl, ap, ◌∙◌, Bool, true, false, not, List, [], ◌∷◌, ◌++◌, length, take,
  drop, ◌==◌, if◌then◌else◌, length-append, arith,
}
use gta_psp_multiplayer.NetSession.Batch.{Dispatcher, size_field, handle, dispatch_messages}
use gta_psp_multiplayer.NetSession.Batch.Fitting.{
  Wire, bytes, concat, drop-append, take-append, size_field-bytes,
}

module _ {S : Type 0} (dispatcher : Dispatcher S) where
  -- What a receiver does with a packet, and whether it goes on: a packet whose third byte is 1 is an
  -- acknowledgement of the number behind it, any other goes to the game, which may find an error.
  abbrev pub handed_by : List ℕ → List ℕ → S → S × Bool
  handed_by packet [] s =
      (dispatcher.dispatch packet s, not (dispatcher.had_error (dispatcher.dispatch packet s)))
  handed_by packet (id ∷ body) s =
      if id == 1
      then (dispatcher.handle_ack (size_field body) s, true)
      else (dispatcher.dispatch packet s, not (dispatcher.had_error (dispatcher.dispatch packet s)))

  abbrev pub handed : Wire → S → S × Bool
  handed p s = handed_by (bytes p) p.rest s

  -- Each packet is handed on in its turn, until one leaves an error.
  abbrev pub deliver : List Wire → S → S
  deliver [] s = s
  deliver (p ∷ ps) s =
      let next = handed p s in let rest = deliver ps next.0 in if next.1 then rest else next.0

  handle-handed : (p : Wire) (s : S) → handle dispatcher (bytes p) s ≡ handed p s
  unfolding handle
  handle-handed p s = by_rest p.rest
    where
      by_rest :
          (rest : List ℕ)
          → handle dispatcher (p.low ∷ p.high ∷ rest) s ≡ handed_by (p.low ∷ p.high ∷ rest) rest s
      by_rest [] = ground arith
      by_rest (id ∷ body) = ground arith

  abbrev turn : ℕ → List ℕ → S → ℕ → S
  turn fuel bs s n =
      if n == 0
      then s
      else if (handle dispatcher (take n bs) s).1
      then dispatch_messages dispatcher fuel (drop n bs) (handle dispatcher (take n bs) s).0
      else (handle dispatcher (take n bs) s).0

  non_zero : (n : ℕ) → 2 ≤ n → (n == 0) ≡ false
  non_zero n h = ground arith

  dispatch_messages-turn :
      (fuel : ℕ) (p : Wire) (bs : List ℕ) (s : S)
      → dispatch_messages dispatcher (suc fuel) (bytes p ++ bs) s ≡ (
          if (handle dispatcher (bytes p) s).1
          then dispatch_messages dispatcher fuel bs (handle dispatcher (bytes p) s).0
          else (handle dispatcher (bytes p) s).0)
  unfolding dispatch_messages
  dispatch_messages-turn fuel p bs s =
      ap (turn fuel (bytes p ++ bs) s) (size_field-bytes p bs)
      ∙ ap
          (λ b.
            if b
            then s
            else if (handle dispatcher (take (length (bytes p)) (bytes p ++ bs)) s).1
            then dispatch_messages dispatcher fuel (drop (length (bytes p)) (bytes p ++ bs))
                (handle dispatcher (take (length (bytes p)) (bytes p ++ bs)) s).0
            else (handle dispatcher (take (length (bytes p)) (bytes p ++ bs)) s).0)
          (non_zero (length (bytes p)) (omega arith))
      ∙ ap
          (λ t.
            if (handle dispatcher t s).1
            then dispatch_messages dispatcher fuel (drop (length (bytes p)) (bytes p ++ bs))
                (handle dispatcher t s).0
            else (handle dispatcher t s).0)
          (take-append (bytes p) bs)
      ∙ ap
          (λ cs.
            if (handle dispatcher (bytes p) s).1
            then dispatch_messages dispatcher fuel cs (handle dispatcher (bytes p) s).0
            else (handle dispatcher (bytes p) s).0)
          (drop-append (bytes p) bs)

  -- From a datagram of whole packets, DispatchMessages hands on each with exactly its own bytes, in order:
  -- an acknowledgement to HandleAckRecv, any other packet to the game, and nothing after the first packet
  -- that leaves an error.
  pub dispatch_messages-deliver :
      (fuel : ℕ) (ps : List Wire) (s : S)
      → length (concat ps) ≤ fuel
      → dispatch_messages dispatcher fuel (concat ps) s ≡ deliver ps s
  unfolding dispatch_messages
  dispatch_messages-deliver fuel [] s h = refl
  dispatch_messages-deliver zero (p ∷ ps) s h = ground arith
  dispatch_messages-deliver (suc fuel) (p ∷ ps) s h =
      dispatch_messages-turn fuel p (concat ps) s
      ∙ ap
          (λ (r : S × Bool). if r.1 then dispatch_messages dispatcher fuel (concat ps) r.0 else r.0)
          (handle-handed p s)
      ∙ ap (λ r. if (handed p s).1 then r else (handed p s).0)
          (dispatch_messages-deliver fuel ps (handed p s).0
            (omega (arith, length-append (bytes p) (concat ps))))
