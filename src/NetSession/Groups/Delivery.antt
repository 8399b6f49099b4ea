-- ===== src/NetSession/Groups/Delivery.antt =====
-- Queued messages: bounded, in order, and in their own group's queue only.
use gta_psp_multiplayer.Prelude.{
  ℕ, none, Option, ◌+◌, ◌^◌, ◌≤◌, ◌<◌, some, List, [], ◌∷◌, length, ◌≡◌, arith, length-append,
  if◌then◌else◌, Bool-cases, inl, inr,
}
use mathlib.Core.Option
use gta_psp_multiplayer.Prelude.Int.{ℤ}
use gta_psp_multiplayer.NetSession.Groups.{SendQueue, Queues, same, get_peer_queue, at_queue}
use gta_psp_multiplayer.NetSession.Groups.Members.{same-eq, same_refl}
use gta_psp_multiplayer.NetSession.Groups.Send.{
  Sent, Build, develop, release, enqueue, enqueue_priority, send_message, send_message_priority,
}

-- What a change of the queue of one group shows to a look-up.
pub get_peer_queue-at_queue :
    (g h : ℤ) (f : SendQueue → SendQueue) (qs : Queues)
    → ((q : SendQueue) → (f q).id ≡ q.id)
    → get_peer_queue h (at_queue g f qs)
      ≡ (if same g h then Option.map f (get_peer_queue h qs) else get_peer_queue h qs)
unfolding get_peer_queue at_queue
get_peer_queue-at_queue g h f [] keep = ground arith
get_peer_queue-at_queue g h f (q ∷ qs) keep =
    ground (
      arith,
      get_peer_queue-at_queue g h f qs keep,
      keep q,
      same-eq q.id g,
      same-eq g h,
      same_refl g,
    )

-- No queue holds more than its limit, 10000 or 51200 bytes, and one packet of the largest size, 65535.
pub record IsBounded (q : SendQueue) : Type 0 where
  pub plain : length q.packet_buffer ≤ 10000 + 65535
  pub priority : length q.packet_buffer_prio ≤ 51200 + 65535

abbrev pub AllBounded : Queues → Type 0
AllBounded [] = Unit {0}
AllBounded (q ∷ qs) = IsBounded q × AllBounded qs

enqueue-IsBounded :
    (b : Build) (packet : List ℕ) (q : SendQueue)
    → length packet < 2 ^ 16
    → IsBounded q
    → IsBounded (enqueue b packet q)
unfolding enqueue
enqueue-IsBounded develop packet q h v = ground (arith, length-append q.packet_buffer packet)
enqueue-IsBounded release packet q h v = ground (arith, length-append q.packet_buffer packet)

enqueue_priority-IsBounded :
    (packet : List ℕ) (q : SendQueue)
    → length packet < 2 ^ 16
    → IsBounded q
    → IsBounded (enqueue_priority packet q)
unfolding enqueue_priority
enqueue_priority-IsBounded packet q h v = ground (arith, length-append q.packet_buffer_prio packet)

at_queue-AllBounded :
    (g : ℤ) (f : SendQueue → SendQueue) (qs : Queues)
    → ((q : SendQueue) → IsBounded q → IsBounded (f q))
    → AllBounded qs
    → AllBounded (at_queue g f qs)
unfolding at_queue
at_queue-AllBounded g f [] keep v = tt
at_queue-AllBounded g f (q ∷ qs) keep v = elim (Bool-cases (same q.id g)) [
  | inl e ↦ rw e (keep q v.0, v.1)
  | inr e ↦ rw e (v.0, at_queue-AllBounded g f qs keep v.1)
]

-- The same of the queues that a send returns, if it returns.
abbrev pub BoundedAfter : Option Queues → Type 0
BoundedAfter none = Unit {0}
BoundedAfter (some qs) = AllBounded qs

-- The queues of an outcome of `send_message_priority`.
abbrev pub queues_of : Option Sent → Option Queues
queues_of none = none
queues_of (some t) = some t.queues

-- Where no queue is past its limit, of 10000 bytes or 51200 of priority messages, and 65535 bytes more, the
-- largest packet, neither send lets one grow past that, whichever packet of at most 65535 bytes is sent,
-- and to whichever group.
pub send-AllBounded :
    (b : Build) (self : ℕ) (packet : List ℕ) (g : ℤ) (s : Sent)
    → length packet < 2 ^ 16
    → AllBounded s.queues
    → BoundedAfter (send_message b self packet g s.queues)
      × BoundedAfter (queues_of (send_message_priority self packet g s))
unfolding send_message send_message_priority
send-AllBounded b self packet g s h v = (
  ground (
    arith,
    at_queue-AllBounded g (enqueue b packet) s.queues (λ q. enqueue-IsBounded b packet q h) v,
  ),
  ground (
    arith,
    at_queue-AllBounded g (enqueue_priority packet) s.queues
        (λ q. enqueue_priority-IsBounded packet q h) v,
  ),
)
