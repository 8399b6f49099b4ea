-- ===== src/NetSession/Groups/Members.antt =====
-- Which peers each group has, after every operation on groups.
use gta_psp_multiplayer.Prelude.{
  ℕ, Bool, true, false, some, List, [], ◌∷◌, ◌++◌, ◌≡◌, refl, ap, arith, if◌then◌else◌, Bool-cases,
  inl, inr,
}
use gta_psp_multiplayer.Prelude.Int.{ℤ, pos, negsuc}
use gta_psp_multiplayer.NetSession.Groups.{
  SendQueue, Queues, same, get_peer_queue, has_peer_queue, at_queue, contains, update_from, listed,
  ids,
}
use gta_psp_multiplayer.NetSession.Groups.Order.{Rises, InOrder}

pub same-eq : (g h : ℤ) → same g h ≡ true → g ≡ h
unfolding same
same-eq (pos a) (pos b) e = ground arith
same-eq (pos a) (negsuc b) e = ground arith
same-eq (negsuc a) (pos b) e = ground arith
same-eq (negsuc a) (negsuc b) e = ground arith

pub same_refl : (g : ℤ) → same g g ≡ true
unfolding same
same_refl (pos a) = ground arith
same_refl (negsuc a) = ground arith

-- A queue with its group's peers in order, found or not.
abbrev pub FoundInOrder : ℤ → Queues → Type 0
FoundInOrder g qs = (q : SendQueue) → get_peer_queue g qs ≡ some q → Rises 0 q.peer_list

pub get_peer_queue-InOrder : (g : ℤ) (qs : Queues) → InOrder qs → FoundInOrder g qs
unfolding get_peer_queue
get_peer_queue-InOrder g [] o q e = ground arith
get_peer_queue-InOrder g (r ∷ qs) o q e = ground (arith, get_peer_queue-InOrder g qs o.1 q)

-- The update of the forced queues changes no group.
pub listed-update_from :
    (h : ℤ) (r : ℕ) (before : List (List ℕ)) (qs : Queues)
    → listed h r (update_from before qs) ≡ listed h r qs
unfolding listed get_peer_queue update_from
listed-update_from h r before [] = refl
listed-update_from h r before (q ∷ qs) =
    ground (arith, listed-update_from h r (before ++ q.peer_list ∷ []) qs)

pub ids-update_from : (before : List (List ℕ)) (qs : Queues) → ids (update_from before qs) ≡ ids qs
unfolding update_from
ids-update_from before [] = refl
ids-update_from before (q ∷ qs) =
    ap (λ t. q.id ∷ t) (ids-update_from (before ++ q.peer_list ∷ []) qs)

pub InOrder-update_from :
    (before : List (List ℕ)) (qs : Queues) → InOrder qs → InOrder (update_from before qs)
unfolding update_from
InOrder-update_from before [] o = tt
InOrder-update_from before (q ∷ qs) o =
    (o.0, InOrder-update_from (before ++ q.peer_list ∷ []) qs o.1)

-- Whether a group has a queue depends on the numbers alone.
unfoldable pub has_id : ℤ → List ℤ → Bool
has_id g [] = false
has_id g (i ∷ is) = if same i g then true else has_id g is

pub has_peer_queue-ids : (g : ℤ) (qs : Queues) → has_peer_queue g qs ≡ has_id g (ids qs)
unfolding has_peer_queue has_id
has_peer_queue-ids g [] = refl
has_peer_queue-ids g (q ∷ qs) = ground (arith, has_peer_queue-ids g qs)

-- A change of one group's peers, and nothing else of its queue.
abbrev pub with_peers : (List ℕ → List ℕ) → SendQueue → SendQueue
with_peers f q = record q { peer_list = f q.peer_list }

pub ids-at_queue :
    (g : ℤ) (f : List ℕ → List ℕ) (qs : Queues) → ids (at_queue g (with_peers f) qs) ≡ ids qs
unfolding at_queue
ids-at_queue g f [] = refl
ids-at_queue g f (q ∷ qs) = ground (arith, ids-at_queue g f qs)

pub InOrder-at_queue :
    (g : ℤ) (f : List ℕ → List ℕ) (qs : Queues)
    → ((xs : List ℕ) → Rises 0 xs → Rises 0 (f xs))
    → InOrder qs
    → InOrder (at_queue g (with_peers f) qs)
unfolding at_queue
InOrder-at_queue g f [] keep o = tt
InOrder-at_queue g f (q ∷ qs) keep o =
    ground (arith, keep q.peer_list o.0, InOrder-at_queue g f qs keep o.1)

-- The peers that `f` makes of those of the group `g`; the other groups keep theirs.
pub listed-at_queue :
    (g h : ℤ) (r : ℕ) (f : List ℕ → List ℕ) (k : Bool → Bool) (qs : Queues)
    → ((xs : List ℕ) → Rises 0 xs → contains r (f xs) ≡ k (contains r xs))
    → InOrder qs
    → has_peer_queue g qs ≡ true
    → listed h r (at_queue g (with_peers f) qs)
      ≡ (if same g h then k (listed h r qs) else listed h r qs)
unfolding listed get_peer_queue at_queue has_peer_queue
listed-at_queue g h r f k [] law o e = ground arith
listed-at_queue g h r f k (q ∷ qs) law o e = elim (Bool-cases (same q.id g)) [
  | inl i ↦ let j = same-eq q.id g i in ground (arith, law q.peer_list o.0, same_refl g)
  | inr i ↦ ground (arith, listed-at_queue g h r f k qs law o.1, same-eq g h)
]
