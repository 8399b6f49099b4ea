-- ===== src/NetSession/Groups/Effects.antt =====
-- What each operation does to the groups, stated for every group and every peer.
use gta_psp_multiplayer.Prelude.{
  ℕ, subst, ℕ_discrete, true, false, some, List, [], ◌∷◌, ◌≡◌, ◌≢◌, refl, sym, ap, ◌∙◌, arith, ◌==◌,
  if◌then◌else◌, Bool-cases, inl, inr,
}
use gta_psp_multiplayer.Prelude.Int.{ℤ}
use gta_psp_multiplayer.NetSession.Groups.{
  Queues, same, get_peer_queue, has_peer_queue, at_queue, insert_peer, erase_peer,
  update_peer_groups, register_group_peer, listed, is_same_group, remove_peer_from_group,
  delete_from, delete_peer, ids,
}
use gta_psp_multiplayer.NetSession.Groups.Order.{
  InOrder, insert_peer-Rises, erase_peer-Rises, contains-insert_peer, contains-erase_peer,
}
use gta_psp_multiplayer.NetSession.Groups.Members.{
  same-eq, same_refl, with_peers, listed-update_from, ids-update_from, InOrder-update_from, has_id,
  has_peer_queue-ids, ids-at_queue, InOrder-at_queue, listed-at_queue,
}

-- On groups whose peers are in order, for a group that has a queue, `register_group_peer` returns, puts
-- the peer into the group and changes no other membership; the peers stay in order, and the queues
-- keep their numbers.
pub register_group_peer_lem :
    (g : ℤ) (p : ℕ) (qs : Queues)
    → InOrder qs
    → has_peer_queue g qs ≡ true
    → (rs : Queues) × (register_group_peer g p qs ≡ some rs)
      × InOrder rs
      × (ids rs ≡ ids qs)
      × ((h : ℤ) (r : ℕ)
          → listed h r rs
            ≡ (if same g h then (if p == r then true else listed h r qs) else listed h r qs))
unfolding register_group_peer update_peer_groups
register_group_peer_lem g p qs o known =
    let changed = at_queue g (with_peers (insert_peer p)) qs in
    (
      update_peer_groups changed,
      rw known,
      InOrder-update_from [] changed
          (InOrder-at_queue g (insert_peer p) qs (λ xs. insert_peer-Rises 0 p xs (omega arith)) o),
      ids-update_from [] changed ∙ ids-at_queue g (insert_peer p) qs,
      λ h r.
          listed-update_from h r [] changed
          ∙ listed-at_queue g h r (insert_peer p) (λ b. if p == r then true else b) qs
              (λ xs _. contains-insert_peer r p xs) o known,
    )

-- A peer that is not in the group of a number is not listed by its queue.
outsider :
    (g : ℤ) (p : ℕ) (qs : Queues)
    → is_same_group g p qs ≡ false
    → has_peer_queue g qs ≡ true
    → (h : ℤ) (r : ℕ)
    → listed h r qs
      ≡ (if same g h then (if p == r then false else listed h r qs) else listed h r qs)
unfolding is_same_group
outsider g p qs e known h r = ground (arith, same-eq g h)

-- On groups whose peers are in order, for a group that has a queue, `remove_peer_from_group` returns,
-- takes the peer out of the group and changes no other membership; the peers stay in order, and the
-- queues keep their numbers.
pub remove_peer_from_group_lem :
    (g : ℤ) (p : ℕ) (qs : Queues)
    → InOrder qs
    → has_peer_queue g qs ≡ true
    → (rs : Queues) × (remove_peer_from_group g p qs ≡ some rs)
      × InOrder rs
      × (ids rs ≡ ids qs)
      × ((h : ℤ) (r : ℕ)
          → listed h r rs
            ≡ (if same g h then (if p == r then false else listed h r qs) else listed h r qs))
unfolding remove_peer_from_group update_peer_groups
remove_peer_from_group_lem g p qs o known = elim (Bool-cases (is_same_group g p qs)) [
  | inl e ↦
      let changed = at_queue g (with_peers (erase_peer p)) qs in
      (
        update_peer_groups changed,
        rw (e, known),
        InOrder-update_from [] changed
            (InOrder-at_queue g (erase_peer p) qs (λ xs. erase_peer-Rises 0 p xs) o),
        ids-update_from [] changed ∙ ids-at_queue g (erase_peer p) qs,
        λ h r.
            listed-update_from h r [] changed
            ∙ listed-at_queue g h r (erase_peer p) (λ b. if p == r then false else b) qs
                (λ xs. contains-erase_peer r p 0 xs) o known,
      )
  | inr e ↦ (qs, rw e, o, refl, outsider g p qs e known)
]

-- What is left after the loop over some of the queues' numbers.
record Cleared (p : ℕ) (gs : List ℤ) (qs : Queues) : Type 0 where
  left : Queues
  returns : delete_from p gs qs ≡ some left
  ordered : InOrder left
  numbers : ids left ≡ ids qs
  others : (h : ℤ) (r : ℕ) → p ≢ r → listed h r left ≡ listed h r qs
  gone : (h : ℤ) → has_id h gs ≡ true → listed h p left ≡ false
  stays : (h : ℤ) → listed h p qs ≡ false → listed h p left ≡ false

delete_from-some :
    (p : ℕ) (g : ℤ) (gs : List ℤ) (qs rs : Queues)
    → remove_peer_from_group g p qs ≡ some rs
    → delete_from p (g ∷ gs) qs ≡ delete_from p gs rs
delete_from-some p g gs qs rs e = unfold delete_from in rw (e, delete_from)

delete_from-Cleared :
    (p : ℕ) (gs : List ℤ) (qs : Queues)
    → InOrder qs
    → ((h : ℤ) → has_id h gs ≡ true → has_peer_queue h qs ≡ true)
    → Cleared p gs qs
unfolding delete_from has_id
delete_from-Cleared p [] qs o known = record {
  left = qs;
  returns = refl;
  ordered = o;
  numbers = refl;
  others = λ h r ne. refl;
  gone = λ h e. cc;
  stays = λ h e. e;
}
delete_from-Cleared p (g ∷ gs) qs o known =
    let step = remove_peer_from_group_lem g p qs o (known g (rw (same_refl g))) in
    let rest = delete_from-Cleared p gs step.0 step.2 (λ h e.
      has_peer_queue-ids h step.0
      ∙ ap (has_id h) step.3
      ∙ sym (has_peer_queue-ids h qs)
      ∙ known h (ground (arith, e))) in
    record {
      left = rest.left;
      returns = delete_from-some p g gs qs step.0 step.1 ∙ rest.returns;
      ordered = rest.ordered;
      numbers = rest.numbers ∙ step.3;
      others = λ h r ne. rest.others h r ne ∙ ground (arith, step.4 h r);
      gone = λ h e. ground (arith, rest.gone h, rest.stays h, step.4 h p);
      stays = λ h e. rest.stays h (ground (arith, step.4 h p));
    }

has_id-own : (h : ℤ) (qs : Queues) → has_id h (ids qs) ≡ true → has_peer_queue h qs ≡ true
has_id-own h qs e = has_peer_queue-ids h qs ∙ e

listed-unknown : (h : ℤ) (p : ℕ) (qs : Queues) → has_peer_queue h qs ≡ false → listed h p qs ≡ false
unfolding listed get_peer_queue has_peer_queue
listed-unknown h p [] e = refl
listed-unknown h p (q ∷ qs) e = ground (arith, listed-unknown h p qs)

-- On groups whose peers are in order, `delete_peer` returns, takes the peer out of every group and
-- leaves every other membership as it was; the peers stay in order, and the queues keep their numbers.
pub delete_peer_lem :
    (p : ℕ) (qs : Queues)
    → InOrder qs
    → (rs : Queues) × (delete_peer p qs ≡ some rs)
      × InOrder rs
      × (ids rs ≡ ids qs)
      × ((h : ℤ) (r : ℕ) → listed h r rs ≡ (if p == r then false else listed h r qs))
unfolding delete_peer
delete_peer_lem p qs o =
    let c = delete_from-Cleared p (ids qs) qs o (λ h. has_id-own h qs) in
    (c.left, c.returns, c.ordered, c.numbers, λ h r. changed c h r (nowhere c h))
  where
    nowhere : (c : Cleared p (ids qs) qs) (h : ℤ) → listed h p c.left ≡ false
    nowhere c h = elim (Bool-cases (has_id h (ids qs))) [
      | inl e ↦ c.gone h e
      | inr e ↦ c.stays h (listed-unknown h p qs (has_peer_queue-ids h qs ∙ e))
    ]

    changed :
        (c : Cleared p (ids qs) qs) (h : ℤ) (r : ℕ)
        → listed h p c.left ≡ false
        → listed h r c.left ≡ (if p == r then false else listed h r qs)
    changed c h r off = elim (ℕ_discrete p r) [
      | yes e ↦
          subst (λ n. listed h n c.left ≡ (if p == n then false else listed h n qs)) e
            (off ∙ ground arith)
      | no ne ↦ c.others h r ne ∙ ground arith
    ]
