-- ===== src/NetSession/Groups/Create.antt =====
-- A group that is created.
use gta_psp_multiplayer.Prelude.{ℕ, true, List, [], ◌∷◌, ◌++◌, ◌≡◌, refl, ap, sym, ◌∙◌, arith}
use gta_psp_multiplayer.Prelude.Int.{ℤ, pos}
use gta_psp_multiplayer.NetSession.Groups.{
  SendQueue, Queues, get_peer_queue, has_peer_queue, search_equal, contains, update_from,
  update_peer_groups, fresh_queue, name_last, create_peer_group, listed,
}
use gta_psp_multiplayer.NetSession.Groups.Order.{InOrder}
use gta_psp_multiplayer.NetSession.Groups.Members.{
  same_refl, listed-update_from, InOrder-update_from, has_id, has_peer_queue-ids, ids-update_from,
}

has_peer_queue-name_last :
    (g : ℤ) (qs : Queues) (q : SendQueue) → has_peer_queue g (name_last g (qs ++ q ∷ [])) ≡ true
unfolding has_peer_queue name_last
has_peer_queue-name_last g [] q = ground (arith, same_refl g)
has_peer_queue-name_last g (x ∷ []) q = ground (arith, same_refl g)
has_peer_queue-name_last g (x ∷ (y ∷ qs)) q = ground (arith, has_peer_queue-name_last g (y ∷ qs) q)

-- An empty queue at the end adds no member to any group.
listed-name_last :
    (g h : ℤ) (r : ℕ) (qs : Queues) (q : SendQueue)
    → q.peer_list ≡ []
    → listed h r (name_last g (qs ++ q ∷ [])) ≡ listed h r qs
unfolding listed get_peer_queue name_last contains
listed-name_last g h r [] q e = ground arith
listed-name_last g h r (x ∷ []) q e = ground arith
listed-name_last g h r (x ∷ (y ∷ qs)) q e = ground (arith, listed-name_last g h r (y ∷ qs) q e)

InOrder-name_last :
    (g : ℤ) (qs : Queues) (q : SendQueue)
    → q.peer_list ≡ []
    → InOrder qs
    → InOrder (name_last g (qs ++ q ∷ []))
unfolding name_last
InOrder-name_last g [] q e o = rw e (tt, tt)
InOrder-name_last g (x ∷ []) q e o = rw e (o.0, (tt, tt))
InOrder-name_last g (x ∷ (y ∷ qs)) q e o = (o.0, InOrder-name_last g (y ∷ qs) q e o.1)

-- The update of a row with one queue more is that of the row, with the queue behind it.
update_from-append :
    (before : List (List ℕ)) (qs : Queues) (q : SendQueue)
    → (last : SendQueue) × (update_from before (qs ++ q ∷ []) ≡ update_from before qs ++ last ∷ [])
      × (last.peer_list ≡ q.peer_list)
unfolding update_from
update_from-append before [] q = (_, refl, refl)
update_from-append before (x ∷ qs) q =
    let rest = update_from-append (before ++ x.peer_list ∷ []) qs q in
    (
      rest.0,
      ap (λ t. record x { force_queue_id = search_equal x.peer_list 0 before } ∷ t) rest.1,
      rest.2,
    )

-- On groups whose peers are in order, `create_peer_group` gives the number a queue, keeps the peers in
-- order, and changes no membership.
pub create_peer_group_lem :
    (g : ℤ) (qs : Queues)
    → InOrder qs
    → let rs = create_peer_group g qs in
      (has_peer_queue g rs ≡ true) × InOrder rs × ((h : ℤ) (r : ℕ) → listed h r rs ≡ listed h r qs)
unfolding create_peer_group update_peer_groups
create_peer_group_lem g qs o =
    let u = update_from-append [] qs (fresh_queue (pos 0)) in
    let before = update_from [] qs in
    rw u.1 (
      has_peer_queue-name_last g before u.0,
      InOrder-name_last g before u.0 u.2 (InOrder-update_from [] qs o),
      λ h r. listed-name_last g h r before u.0 u.2 ∙ listed-update_from h r [] qs,
    )

has_peer_queue-kept :
    (g h : ℤ) (qs : Queues) (q : SendQueue)
    → has_peer_queue h qs ≡ true
    → has_peer_queue h (name_last g (qs ++ q ∷ [])) ≡ true
unfolding has_peer_queue name_last
has_peer_queue-kept g h [] q e = cc
has_peer_queue-kept g h (x ∷ []) q e = ground arith
has_peer_queue-kept g h (x ∷ (y ∷ qs)) q e = ground (arith, has_peer_queue-kept g h (y ∷ qs) q)

-- A group that is known stays known.
pub has_peer_queue-create_peer_group :
    (g h : ℤ) (qs : Queues)
    → has_peer_queue h qs ≡ true
    → has_peer_queue h (create_peer_group g qs) ≡ true
unfolding create_peer_group update_peer_groups
has_peer_queue-create_peer_group g h qs e =
    let u = update_from-append [] qs (fresh_queue (pos 0)) in
    rw u.1 (
      has_peer_queue-kept g h (update_from [] qs) u.0 (
        has_peer_queue-ids h (update_from [] qs)
        ∙ ap (has_id h) (ids-update_from [] qs)
        ∙ sym (has_peer_queue-ids h qs)
        ∙ e))
