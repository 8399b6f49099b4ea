-- ===== src/NetSession/Requests/Turn.antt =====
-- The turn of `UpdateSend` that makes a request and sends it to the peers of a group.
use gta_psp_multiplayer.Prelude.{
  ℕ, ◌+◌, ◌-◌, ◌%◌, ◌^◌, ◌<◌, ◌≡◌, ◌≢◌, refl, ap, subst, ◌∙◌, List, [], ◌∷◌, set, length-set,
  get_or-set_self, get_or-set_ne, ltb, ◌==◌, if◌then◌else◌, arith, Bool-cases, inl, inr, ℕ_discrete,
}
use gta_psp_multiplayer.NetSession.Reliable.{
  num_requests, num_sent, Request, no_request, request_at, attempt_send_packet,
}
use gta_psp_multiplayer.NetSession.Reliable.Send.{
  attempt_send_packet-IsSender, attempt_send_packet-owed,
}
use gta_psp_multiplayer.NetSession.Requests.{
  Session, peer_at, shared_of, attempt_to, begin_request, send_all, finish_request, send_request,
}
use gta_psp_multiplayer.NetSession.Requests.Owed.{
  owed_all, owed_all-bound, at_cases, IsSound-overwritten,
}
use gta_psp_multiplayer.NetSession.Requests.Link.{
  IsSession, IsSession-IsSender, IsSession-replaced, others, place,
}

-- The newest request counts fewer entries than its 32 bits hold.
newest-count :
    (q : Session)
    → IsSession q
    → 0 < q.queue_count
    → (request_at q.requests q.queue_index).count_a + 1 < 2 ^ 32
newest-count q v some_left = omega (
  arith,
  v.counted q.queue_index,
  v.inside q.queue_index v.index (omega (arith, v.index)),
  owed_all-bound q.queue_index q.peers q.requests v.sound,
  v.many,
)

-- The queue itself stays as it is.
attempt_to-queue :
    (now id : ℕ) (q : Session)
    → ((attempt_to now id q).queue_count ≡ q.queue_count)
      × ((attempt_to now id q).queue_index ≡ q.queue_index)
unfolding attempt_to
attempt_to-queue now id q = elim (at_cases (peer_at id q.peers)) [
  | inl gone ↦ rw gone (refl, refl)
  | inr (s, h) ↦ rw h (refl, refl)
]

attempt_to-IsSession :
    (now id : ℕ) (q : Session) → IsSession q → 0 < q.queue_count → IsSession (attempt_to now id q)
unfolding attempt_to
attempt_to-IsSession now id q v some_left = elim (at_cases (peer_at id q.peers)) [
  | inl gone ↦ rw gone v
  | inr (s, h) ↦
      let o = attempt_send_packet now q.queue_index 0 s (shared_of q) in
      let k =
        attempt_send_packet-IsSender now q.queue_index (others v.stale id q.peers) s (shared_of q)
          (IsSession-IsSender q v id s h) (omega (arith, v.index, v.slots))
          (newest-count q v some_left) in
      rw h (
        IsSession-replaced q v id s o.sender o.shared.requests o.shared.limit_reached h k.0 k.1
          (λ r far. omega (
            arith,
            attempt_send_packet-owed now q.queue_index r s (shared_of q) (v.sound id s h).0
                (λ e. omega (arith, ap (place q) e, v.index, far)),
          )))
]

send_all-queue :
    (now : ℕ) (ids : List ℕ) (q : Session)
    → ((send_all now ids q).queue_count ≡ q.queue_count)
      × ((send_all now ids q).queue_index ≡ q.queue_index)
unfolding send_all
send_all-queue now [] q = (refl, refl)
send_all-queue now (id ∷ ids) q =
    let h = attempt_to-queue now id q in
    let k = send_all-queue now ids (attempt_to now id q) in (k.0 ∙ h.0, k.1 ∙ h.1)

send_all-IsSession :
    (now : ℕ) (ids : List ℕ) (q : Session)
    → IsSession q
    → 0 < q.queue_count
    → IsSession (send_all now ids q)
unfolding send_all
send_all-IsSession now [] q v some_left = v
send_all-IsSession now (id ∷ ids) q v some_left =
    send_all-IsSession now ids (attempt_to now id q) (attempt_to-IsSession now id q v some_left)
      (omega (arith, (attempt_to-queue now id q).0))

-- The slot before the queue is one that nobody waits for.
begin_request-IsSession :
    (now reliable : ℕ) (q : Session)
    → IsSession q
    → q.queue_count < num_sent
    → IsSession (begin_request now reliable q)
unfolding begin_request
begin_request-IsSession now reliable q v room =
    let i = if q.queue_index == 0 then num_requests - 1 else q.queue_index - 1 in
    let x : Request = record { count_a = 0; delta = now; field_2 = reliable } in
    let small : i < num_requests = ground (arith, v.index) in
    let next : q.queue_index ≡ (i + 1) % num_requests = ground (arith, v.index) in
    let free : owed_all i q.peers ≡ 0 = v.outside i small (omega (arith, next, room)) in
    let self : (request_at (set q.requests i x) i).count_a ≡ 0 =
      ap (λ (y : Request). y.count_a)
        (get_or-set_self q.requests i x no_request (omega (arith, small, v.slots))) in
    let other : (r : ℕ)
        → i ≢ r
        → (request_at (set q.requests i x) r).count_a ≡ (request_at q.requests r).count_a =
      λ r ne. ap (λ (y : Request). y.count_a) (get_or-set_ne q.requests i r x no_request ne) in
    record {
      stale = λ r. if r == i then 0 else v.stale r;
      counted = λ r. elim (ℕ_discrete i r) [
        | yes e ↦
            subst
              (λ k.
                (request_at (set q.requests i x) k).count_a
                ≡ (if k == i then 0 else v.stale k) + owed_all k q.peers)
              e (ground (arith, self, free))
        | no ne ↦ ground (arith, other r ne, v.counted r)
      ];
      bounded = λ r. elim (ℕ_discrete i r) [
        | yes e ↦
            subst (λ k. (request_at (set q.requests i x) k).count_a < 2 ^ 32) e
              (omega (arith, self))
        | no ne ↦ omega (arith, other r ne, v.bounded r)
      ];
      slots = length-set q.requests i x ∙ v.slots;
      index = small;
      few = omega arith;
      sound = IsSound-overwritten i x q.peers q.requests free v.sound;
      inside = λ r hr near. elim (ℕ_discrete r i) [
        | yes e ↦ ground arith
        | no ne ↦ ground (arith, v.inside r hr (omega (arith, next, small)))
      ];
      outside = λ r hr far. v.outside r hr (omega (arith, next, small));
      many = v.many;
      here = v.here;
      peer_counted = v.peer_counted;
    }

-- A request that counts nothing leaves the queue at its new end.
finish_request-IsSession :
    (q : Session) → IsSession q → 0 < q.queue_count → IsSession (finish_request q)
unfolding finish_request
finish_request-IsSession q v some_left =
    elim (Bool-cases ((request_at q.requests q.queue_index).count_a == 0)) [
      | inr counts ↦ rw counts v
      | inl empty ↦
          let next = if q.queue_index == num_requests - 1 then 0 else q.queue_index + 1 in
          let is_next : next ≡ (q.queue_index + 1) % num_requests = ground (arith, v.index) in
          rw empty (record {
            stale = v.stale;
            counted = v.counted;
            bounded = v.bounded;
            slots = v.slots;
            index = ground (arith, v.index);
            few = omega (arith, v.few);
            sound = v.sound;
            inside = λ r hr near. v.inside r hr (omega (arith, is_next, v.index));
            outside = λ r hr far. elim (ℕ_discrete r q.queue_index) [
              | yes e ↦ rw e (ground (arith, v.counted q.queue_index, empty))
              | no ne ↦ v.outside r hr (omega (arith, is_next, v.index))
            ];
            many = v.many;
            here = v.here;
            peer_counted = v.peer_counted;
          })
    ]

begun : (now reliable : ℕ) (q : Session) → 0 < (begin_request now reliable q).queue_count
unfolding begin_request
begun now reliable q = omega arith

-- A turn of `UpdateSend`, for any peers.
pub send_request-IsSession :
    (now reliable : ℕ) (targets : List ℕ) (q : Session)
    → IsSession q
    → IsSession (send_request now reliable targets q)
unfolding send_request
send_request-IsSession now reliable targets q v = elim (Bool-cases (ltb q.queue_count num_sent)) [
  | inr full ↦ rw full v
  | inl room ↦
      let b = begin_request now reliable q in
      let bv = begin_request-IsSession now reliable q v (ground arith) in
      let more : 0 < b.queue_count = begun now reliable q in
      let a = send_all-IsSession now targets b bv more in
      rw room (
        finish_request-IsSession (send_all now targets b) a
          (omega (arith, (send_all-queue now targets b).0)))
]
