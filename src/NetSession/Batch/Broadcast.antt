-- ===== src/NetSession/Batch/Broadcast.antt =====
-- The broadcast loop of `UpdateSend`: it ends, and the datagrams carry every packet of the queue.
use gta_psp_multiplayer.Prelude.{
  ℕ, zero, suc, ◌+◌, ◌≤◌, ◌<◌, ◌≡◌, refl, ap, ap₂, sym, ◌∙◌, Bool, true, false, List, [], ◌∷◌, ◌++◌,
  length, take, drop, ltb, if◌then◌else◌, length-append, arith, map, append_assoc,
}
use gta_psp_multiplayer.NetSession.Batch.{
  Dispatcher, dispatch_messages, Sending, running, ended, after_datagram, broadcast_turn,
  broadcast_all, max_packet_size, header_size,
}
use gta_psp_multiplayer.NetSession.Batch.Fitting.{
  Wire, bytes, concat, fitting, leftover, drop-append, take-append, packet_append_lem,
  fitting-leftover, fitting-bounded,
}
use gta_psp_multiplayer.NetSession.Batch.Dispatch.{
  handed_by, handed, deliver, dispatch_messages-deliver,
}

-- Every packet has room in a datagram of its own.
abbrev pub all_small : List Wire → Bool
all_small [] = true
all_small (p ∷ ps) =
    if ltb max_packet_size (header_size + length (bytes p)) then false else all_small ps

abbrev taken : List Wire → List Wire
taken = fitting max_packet_size header_size

abbrev left : List Wire → List Wire
left = leftover max_packet_size header_size

concat-append : (ps qs : List Wire) → concat (ps ++ qs) ≡ concat ps ++ concat qs
concat-append [] qs = refl
concat-append (p ∷ ps) qs =
    ap (λ bs. bytes p ++ bs) (concat-append ps qs) ∙ sym (append_assoc (bytes p) _ _)

concat-split : (ps : List Wire) → concat ps ≡ concat (taken ps) ++ concat (left ps)
concat-split ps =
    sym (ap concat (fitting-leftover max_packet_size header_size ps))
    ∙ concat-append (taken ps) (left ps)

leftover-small :
    (used : ℕ) (ps : List Wire)
    → all_small ps ≡ true
    → all_small (leftover max_packet_size used ps) ≡ true
leftover-small used [] h = refl
leftover-small used (p ∷ ps) h = ground (arith, leftover-small (used + length (bytes p)) ps)

taken-progress :
    (p : Wire) (ps : List Wire) → all_small (p ∷ ps) ≡ true → 2 ≤ length (concat (taken (p ∷ ps)))
taken-progress p ps h = ground (
  arith,
  length-append (bytes p) (concat (fitting max_packet_size (header_size + length (bytes p)) ps)),
)

-- One turn sends the packets that fit.
broadcast_all-turn :
    (fuel : ℕ) (p : Wire) (ps : List Wire)
    → broadcast_all (suc fuel) (concat (p ∷ ps))
      ≡ after_datagram (concat (taken (p ∷ ps))) (broadcast_all fuel (concat (left (p ∷ ps))))
unfolding broadcast_all
broadcast_all-turn fuel p ps =
    let n = length (concat (taken (p ∷ ps))) in
    ap
      (λ o.
        broadcast_turn (concat (p ∷ ps)) o
          (λ appended. broadcast_all fuel (drop appended (concat (p ∷ ps)))))
      (packet_append_lem max_packet_size header_size (p ∷ ps))
    ∙ ap (λ bs. after_datagram (take n bs) (broadcast_all fuel (drop n bs))) (concat-split (p ∷ ps))
    ∙ ap₂ (λ bs cs. after_datagram bs (broadcast_all fuel cs))
        (take-append (concat (taken (p ∷ ps))) (concat (left (p ∷ ps))))
        (drop-append (concat (taken (p ∷ ps))) (concat (left (p ∷ ps))))

abbrev pub flatten : List (List Wire) → List Wire
flatten [] = []
flatten (b ∷ bs) = b ++ flatten bs

-- Every datagram, its header included, is within the limit.
abbrev pub all_bounded : List (List ℕ) → Bool
all_bounded [] = true
all_bounded (d ∷ ds) =
    if ltb max_packet_size (header_size + length d) then false else all_bounded ds

-- The loop ends, no datagram is too large, each holds whole packets, and together they hold the
-- packets of the queue, each once and in order.
pub record Broadcasts (ps : List Wire) (sent : Sending) : Type 0 where
  pub batches : List (List Wire)
  pub payloads : sent ≡ ended (map concat batches)
  pub complete : flatten batches ≡ ps
  pub bounded : all_bounded (map concat batches) ≡ true

-- On a queue whose packets all have room in a datagram, the broadcast loop ends within as many turns as the
-- queue has bytes, its datagrams are within the limit, and they hold the packets of the queue in order.
pub broadcast_all-Broadcasts :
    (fuel : ℕ) (ps : List Wire)
    → length (concat ps) ≤ fuel
    → all_small ps ≡ true
    → Broadcasts ps (broadcast_all fuel (concat ps))
unfolding broadcast_all
broadcast_all-Broadcasts fuel [] h small = record {
  batches = [];
  payloads = refl;
  complete = refl;
  bounded = refl;
}
broadcast_all-Broadcasts zero (p ∷ ps) h small = elim h [ ]
broadcast_all-Broadcasts (suc fuel) (p ∷ ps) h small =
    let rest : Broadcasts (left (p ∷ ps)) (broadcast_all fuel (concat (left (p ∷ ps)))) =
      broadcast_all-Broadcasts fuel (left (p ∷ ps))
        (omega (
          arith,
          ap length (concat-split (p ∷ ps)),
          length-append (concat (taken (p ∷ ps))) (concat (left (p ∷ ps))),
          taken-progress p ps small,
        ))
        (leftover-small header_size (p ∷ ps) small) in
    record {
      batches = taken (p ∷ ps) ∷ rest.batches;
      payloads =
          broadcast_all-turn fuel p ps
          ∙ ap (after_datagram (concat (taken (p ∷ ps)))) rest.payloads;
      complete =
          ap (λ qs. taken (p ∷ ps) ++ qs) rest.complete
          ∙ fitting-leftover max_packet_size header_size (p ∷ ps);
      bounded = ground (arith, rest.bounded, fitting-bounded max_packet_size header_size (p ∷ ps));
    }

module _ {S : Type 0} (dispatcher : Dispatcher S) where
  -- A receiver dispatches each datagram.
  abbrev pub receive : List (List ℕ) → S → S
  receive [] s = s
  receive (d ∷ ds) s = receive ds (dispatch_messages dispatcher (length d) d s)

  handed-goes :
      ((s : S) → dispatcher.had_error s ≡ false)
      → (p : Wire) (s : S) → (handed dispatcher p s).1 ≡ true
  handed-goes quiet p s = by_rest p.rest
    where
      by_rest : (rest : List ℕ) → (handed_by dispatcher (bytes p) rest s).1 ≡ true
      by_rest [] = rw (quiet (dispatcher.dispatch (bytes p) s))
      by_rest (id ∷ body) = ground (arith, quiet (dispatcher.dispatch (bytes p) s))

  deliver-append :
      ((s : S) → dispatcher.had_error s ≡ false)
      → (ps qs : List Wire) (s : S)
      → deliver dispatcher (ps ++ qs) s ≡ deliver dispatcher qs (deliver dispatcher ps s)
  deliver-append quiet [] qs s = refl
  deliver-append quiet (p ∷ ps) qs s =
      ground (arith, handed-goes quiet p s, deliver-append quiet ps qs (handed dispatcher p s).0)

  receive-flatten :
      ((s : S) → dispatcher.had_error s ≡ false)
      → (batches : List (List Wire)) (s : S)
      → receive (map concat batches) s ≡ deliver dispatcher (flatten batches) s
  receive-flatten quiet [] s = refl
  receive-flatten quiet (b ∷ bs) s =
      receive-flatten quiet bs _
      ∙ ap (deliver dispatcher (flatten bs))
          (dispatch_messages-deliver dispatcher (length (concat b)) b s (omega arith))
      ∙ sym (deliver-append quiet b (flatten bs) s)

  -- What a broadcast sends reaches the game of a receiver without errors packet for packet: no packet
  -- is lost, split, repeated or out of order, and the loop that sends them ends.
  pub receive-broadcast_all :
      ((s : S) → dispatcher.had_error s ≡ false)
      → (ps : List Wire) → all_small ps ≡ true
      → (s : S)
      → (sent : List (List ℕ)) × (broadcast_all (length (concat ps)) (concat ps) ≡ ended sent)
        × (receive sent s ≡ deliver dispatcher ps s)
  receive-broadcast_all quiet ps small s =
      let all : Broadcasts ps (broadcast_all (length (concat ps)) (concat ps)) =
        broadcast_all-Broadcasts (length (concat ps)) ps (omega arith) small in
      (
        map concat all.batches,
        all.payloads,
        receive-flatten quiet all.batches s ∙ ap (λ qs. deliver dispatcher qs s) all.complete,
      )

-- A packet with no room in a datagram stops the loop for good: after any number of turns it is still
-- running, and no iterator has gone past the end, whatever is queued behind the packet.
pub broadcast_all-stuck :
    (fuel : ℕ) (p : Wire) (ps : List Wire)
    → max_packet_size < header_size + length (bytes p)
    → broadcast_all fuel (concat (p ∷ ps)) ≡ running
unfolding broadcast_all
broadcast_all-stuck zero p ps large = refl
broadcast_all-stuck (suc fuel) p ps large =
    broadcast_all-turn fuel p ps ∙ ground (arith, broadcast_all-stuck fuel p ps large)
