-- ===== src/NetSession/Batch/Fitting.antt =====
-- What `PacketAppend` takes from a queue that holds whole packets.
use gta_psp_multiplayer.Prelude.{
  ℕ, zero, suc, ◌+◌, ◌*◌, ◌≤◌, ◌≡◌, refl, ap, ◌∙◌, Bool, true, Option, some, List, [], ◌∷◌, ◌++◌,
  length, take, drop, ltb, if◌then◌else◌, length-append, arith,
}
use gta_psp_multiplayer.NetSession.Batch.{
  plus, append_turn, size_field, whole_packets, packet_append,
}

-- A packet, as `SendMessage` queues it: its first two bytes are its size, which counts them.
pub record Wire : Type 0 where
  pub low : ℕ
  pub high : ℕ
  pub rest : List ℕ
  pub sized : low + 256 * high ≡ 2 + length rest

abbrev pub bytes : Wire → List ℕ
bytes p = p.low ∷ p.high ∷ p.rest

abbrev pub concat : List Wire → List ℕ
concat [] = []
concat (p ∷ ps) = bytes p ++ concat ps

-- The packets at the front that fit.
abbrev pub fitting : ℕ → ℕ → List Wire → List Wire
fitting room used [] = []
fitting room used (p ∷ ps) =
    if ltb room (used + length (bytes p)) then [] else p ∷ fitting room (used + length (bytes p)) ps

pub drop-append : (xs ys : List ℕ) → drop (length xs) (xs ++ ys) ≡ ys
drop-append [] ys = refl
drop-append (x ∷ xs) ys = drop-append xs ys

pub take-append : (xs ys : List ℕ) → take (length xs) (xs ++ ys) ≡ xs
take-append [] ys = refl
take-append (x ∷ xs) ys = ap (λ zs. x ∷ zs) (take-append xs ys)

pub size_field-bytes : (p : Wire) (bs : List ℕ) → size_field (bytes p ++ bs) ≡ length (bytes p)
size_field-bytes p bs = omega (arith, p.sized)

-- A turn at a packet that is all there.
append_turn-there :
    (n available room used : ℕ) (rest : Option ℕ)
    → 2 ≤ n
    → n ≤ available
    → append_turn n available room used rest ≡ (if ltb room (used + n) then some 0 else plus n rest)
unfolding append_turn
append_turn-there n available room used rest low high = ground arith

whole_packets-turn :
    (fuel room used : ℕ) (p : Wire) (bs : List ℕ)
    → whole_packets (suc fuel) room used (bytes p ++ bs) ≡ (
        if ltb room (used + length (bytes p))
        then some 0
        else plus (length (bytes p)) (whole_packets fuel room (used + length (bytes p)) bs))
unfolding whole_packets
whole_packets-turn fuel room used p bs =
    ap
      (λ n.
        append_turn n (length (bytes p ++ bs)) room used
          (whole_packets fuel room (used + n) (drop n (bytes p ++ bs))))
      (size_field-bytes p bs)
    ∙ append_turn-there _ _ _ _ _ (omega arith) (omega (arith, length-append (bytes p) bs))
    ∙ ap
        (λ cs.
          if ltb room (used + length (bytes p))
          then some 0
          else plus (length (bytes p)) (whole_packets fuel room (used + length (bytes p)) cs))
        (drop-append (bytes p) bs)

whole_packets-fitting :
    (fuel room used : ℕ) (ps : List Wire)
    → length (concat ps) ≤ fuel
    → whole_packets fuel room used (concat ps) ≡ some (length (concat (fitting room used ps)))
unfolding whole_packets
whole_packets-fitting fuel room used [] h = refl
whole_packets-fitting zero room used (p ∷ ps) h = ground arith
whole_packets-fitting (suc fuel) room used (p ∷ ps) h = ground (
  arith,
  whole_packets-turn fuel room used p (concat ps),
  whole_packets-fitting fuel room (used + length (bytes p)) ps,
  length-append (bytes p) (concat ps),
  length-append (bytes p) (concat (fitting room (used + length (bytes p)) ps)),
)

-- Packets that fit together are all taken.
fitting-all :
    (room used : ℕ) (ps : List Wire) → used + length (concat ps) ≤ room → fitting room used ps ≡ ps
fitting-all room used [] h = refl
fitting-all room used (p ∷ ps) h =
    ground
      (arith, fitting-all room (used + length (bytes p)) ps, length-append (bytes p) (concat ps))

-- From a queue of whole packets, what is copied behind `used` bytes is the packets at the front that
-- fit, each as a whole.
pub packet_append_lem :
    (room used : ℕ) (ps : List Wire)
    → packet_append room used (concat ps) ≡ some (length (concat (fitting room used ps)))
unfolding packet_append
packet_append_lem room used ps =
    ground
      (arith, whole_packets-fitting (length (concat ps)) room used ps, fitting-all room used ps)

-- The packets that stay in the queue.
abbrev pub leftover : ℕ → ℕ → List Wire → List Wire
leftover room used [] = []
leftover room used (p ∷ ps) =
    if ltb room (used + length (bytes p))
    then p ∷ ps
    else leftover room (used + length (bytes p)) ps

pub fitting-leftover :
    (room used : ℕ) (ps : List Wire) → fitting room used ps ++ leftover room used ps ≡ ps
fitting-leftover room used [] = refl
fitting-leftover room used (p ∷ ps) =
    ground (arith, fitting-leftover room (used + length (bytes p)) ps)

pub fitting-bounded :
    (room used : ℕ) (ps : List Wire)
    → used ≤ room
    → used + length (concat (fitting room used ps)) ≤ room
fitting-bounded room used [] h = omega arith
fitting-bounded room used (p ∷ ps) h = ground (
  arith,
  fitting-bounded room (used + length (bytes p)) ps,
  length-append (bytes p) (concat (fitting room (used + length (bytes p)) ps)),
)

-- Whether the next packet, if there is one, has no room.
abbrev pub no_room : ℕ → ℕ → List Wire → Bool
no_room room used [] = true
no_room room used (p ∷ ps) = ltb room (used + length (bytes p))

fitting-maximal :
    (room used : ℕ) (ps : List Wire)
    → no_room room (used + length (concat (fitting room used ps))) (leftover room used ps) ≡ true
fitting-maximal room used [] = refl
fitting-maximal room used (q ∷ ps) = ground (
  arith,
  fitting-maximal room (used + length (bytes q)) ps,
  length-append (bytes q) (concat (fitting room (used + length (bytes q)) ps)),
)

-- What `PacketAppend` promises of the number of bytes that it copies: they are the first packets of
-- the queue, they fit, and the next packet, if there is one, would not.
pub record IsBatch (room used : ℕ) (ps : List Wire) (copied : Option ℕ) : Type 0 where
  pub taken : List Wire
  pub left : List Wire
  pub split : taken ++ left ≡ ps
  pub whole : copied ≡ some (length (concat taken))
  pub bounded : used + length (concat taken) ≤ room
  pub maximal : no_room room (used + length (concat taken)) left ≡ true

-- Behind the `used` bytes of a datagram that has room for them, `PacketAppend` copies whole packets
-- from the front of the queue, as many as fit and no more.
pub packet_append-IsBatch :
    (room used : ℕ) (ps : List Wire)
    → used ≤ room
    → IsBatch room used ps (packet_append room used (concat ps))
packet_append-IsBatch room used ps h = record {
  taken = fitting room used ps;
  left = leftover room used ps;
  split = fitting-leftover room used ps;
  whole = packet_append_lem room used ps;
  bounded = fitting-bounded room used ps h;
  maximal = fitting-maximal room used ps;
}
