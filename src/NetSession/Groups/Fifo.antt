-- ===== src/NetSession/Groups/Fifo.antt =====
-- Priority messages to one group: all of them in order, or the error flag.
use gta_psp_multiplayer.Prelude.{
  ℕ, if◌then◌else◌, ◌+◌, ◌≤◌, ◌<◌, true, false, Option, none, some, List, [], ◌∷◌, ◌++◌, length,
  ltb, ◌≡◌, refl, ◌∙◌, arith, length-append, append-nil, append_assoc,
}
use gta_psp_multiplayer.Prelude.Int.{ℤ, pos}
use gta_psp_multiplayer.NetSession.Groups.{
  SendQueue, Queues, same, get_peer_queue, has_peer_queue, at_queue,
}
use gta_psp_multiplayer.NetSession.Groups.Members.{same_refl}
use gta_psp_multiplayer.NetSession.Groups.Send.{
  max_used_bytes_priority, Sent, is_full_priority, enqueue_priority, send_message_priority,
  put_priority,
}
use gta_psp_multiplayer.NetSession.Groups.Delivery.{get_peer_queue-at_queue}

has_peer_queue-get :
    (g : ℤ) (qs : Queues) (q : SendQueue)
    → get_peer_queue g qs ≡ some q
    → has_peer_queue g qs ≡ true
unfolding get_peer_queue has_peer_queue
has_peer_queue-get g [] q e = cc
has_peer_queue-get g (r ∷ qs) q e = ground (arith, has_peer_queue-get g qs q)

-- The look-ups of the other groups are as they were.
abbrev pub OthersKept : ℤ → Queues → Queues → Type 0
OthersKept g qs rs =
    (h : ℤ)
    → (if same g h then none else get_peer_queue h rs)
      ≡ (if same g h then none else get_peer_queue h qs)

others-at_queue :
    (g : ℤ) (packet : List ℕ) (qs : Queues)
    → OthersKept g qs (at_queue g (enqueue_priority packet) qs)
others-at_queue g packet qs h =
    ground (arith, get_peer_queue-at_queue g h (enqueue_priority packet) qs keeps_id)
  where
    keeps_id : (q : SendQueue) → (enqueue_priority packet q).id ≡ q.id
    keeps_id q = unfold enqueue_priority in ground arith

own-at_queue :
    (g : ℤ) (packet : List ℕ) (qs : Queues) (q : SendQueue)
    → get_peer_queue g qs ≡ some q
    → get_peer_queue g (at_queue g (enqueue_priority packet) qs) ≡ some (enqueue_priority packet q)
own-at_queue g packet qs q e =
    get_peer_queue-at_queue g g (enqueue_priority packet) qs keeps_id ∙ rw (same_refl g, e)
  where
    keeps_id : (r : SendQueue) → (enqueue_priority packet r).id ≡ r.id
    keeps_id r = unfold enqueue_priority in ground arith

is_full_priority-get :
    (g : ℤ) (qs : Queues) (q : SendQueue)
    → get_peer_queue g qs ≡ some q
    → is_full_priority g qs ≡ ltb max_used_bytes_priority (length q.packet_buffer_prio)
unfolding is_full_priority
is_full_priority-get g qs q e = rw (e, is_full_priority)

-- A priority message to the full queue of a group other than the own is dropped: the error flag goes up
-- and no look-up changes.
pub send_message_priority-full :
    (self : ℕ) (packet : List ℕ) (g : ℤ) (s : Sent) (q : SendQueue)
    → same g (pos self) ≡ false
    → get_peer_queue g s.queues ≡ some q
    → max_used_bytes_priority < length q.packet_buffer_prio
    → (t : Sent) × (send_message_priority self packet g s ≡ some t)
      × (t.has_error ≡ true)
      × (get_peer_queue g t.queues ≡ some q)
      × OthersKept g s.queues t.queues
unfolding send_message_priority
send_message_priority-full self packet g s q other found full = (
  put_priority packet g s,
  rw (other, has_peer_queue-get g s.queues q found),
  unfold put_priority in ground (arith, is_full_priority-get g s.queues q found),
  own-at_queue g packet s.queues q found ∙ unfold enqueue_priority in ground arith,
  others-at_queue g packet s.queues,
)

send_message_priority-fits :
    (self : ℕ) (packet : List ℕ) (g : ℤ) (s : Sent) (q : SendQueue)
    → same g (pos self) ≡ false
    → get_peer_queue g s.queues ≡ some q
    → length q.packet_buffer_prio ≤ max_used_bytes_priority
    → (t : Sent) × (send_message_priority self packet g s ≡ some t)
      × (t.has_error ≡ s.has_error)
      × (get_peer_queue g t.queues
          ≡ some (record q { packet_buffer_prio = q.packet_buffer_prio ++ packet }))
      × OthersKept g s.queues t.queues
unfolding send_message_priority
send_message_priority-fits self packet g s q other found room = (
  put_priority packet g s,
  rw (other, has_peer_queue-get g s.queues q found),
  unfold put_priority in ground (arith, is_full_priority-get g s.queues q found),
  own-at_queue g packet s.queues q found ∙ unfold enqueue_priority in ground arith,
  others-at_queue g packet s.queues,
)

-- A row of priority messages to one group.
unfoldable pub send_all : ℕ → List (List ℕ) → ℤ → Sent → Option Sent
send_all self [] g s = some s
send_all self (packet ∷ packets) g s = elim (send_message_priority self packet g s) [
  | none ↦ none
  | some t ↦ send_all self packets g t
]

abbrev pub joined : List (List ℕ) → List ℕ
joined [] = []
joined (xs ∷ xss) = xs ++ joined xss

-- Priority messages to a group other than the own, which fit its queue, stand there in the order of the
-- sends, behind what was there; no error is raised and no other group is touched.
pub send_all-in_order :
    (self : ℕ) (packets : List (List ℕ)) (g : ℤ) (s : Sent) (q : SendQueue)
    → same g (pos self) ≡ false
    → get_peer_queue g s.queues ≡ some q
    → length q.packet_buffer_prio + length (joined packets) ≤ max_used_bytes_priority
    → (t : Sent) × (send_all self packets g s ≡ some t)
      × (t.has_error ≡ s.has_error)
      × (get_peer_queue g t.queues
          ≡ some (record q { packet_buffer_prio = q.packet_buffer_prio ++ joined packets }))
      × OthersKept g s.queues t.queues
unfolding send_all
send_all-in_order self [] g s q other found room =
    (s, refl, refl, found ∙ rw (append-nil q.packet_buffer_prio), λ h. refl)
send_all-in_order self (packet ∷ packets) g s q other found room =
    let room' : length q.packet_buffer_prio + length packet + length (joined packets)
        ≤ max_used_bytes_priority =
      omega (arith, length-append packet (joined packets)) in
    let first = send_message_priority-fits self packet g s q other found (omega arith) in
    let rest =
      send_all-in_order self packets g first.0
        (record q { packet_buffer_prio = q.packet_buffer_prio ++ packet }) other first.3
        (omega (arith, length-append q.packet_buffer_prio packet)) in
    (
      rest.0,
      rw (first.1, send_all) rest.1,
      rest.2 ∙ first.2,
      rest.3 ∙ rw (append_assoc q.packet_buffer_prio packet (joined packets)),
      λ h. rest.4 h ∙ first.4 h,
    )
