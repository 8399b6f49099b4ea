-- ===== src/NetSession/Groups/Force.antt =====
-- `UpdatePeerGroups`: which queue stands in for another that has the same peers.
use gta_psp_multiplayer.Prelude.{
  ℕ, zero, suc, ◌+◌, true, false, some, List, [], ◌∷◌, ◌++◌, get_elem?, take, ◌≡◌, ◌≢◌, refl, sym,
  ap, ◌∙◌, ◌⊎◌, inl, inr, arith, Bool-cases, append-nil, append_assoc,
}
use native.Mathlib.Nat.{add-zero}
use gta_psp_multiplayer.Prelude.Int.{ℤ, pos}
use gta_psp_multiplayer.NetSession.Groups.{
  SendQueue, Queues, broadcast, equal_lists, search_equal, update_from, update_peer_groups,
}

equal_lists-true : (xs ys : List ℕ) → equal_lists xs ys ≡ true → xs ≡ ys
unfolding equal_lists
equal_lists-true [] [] e = refl
equal_lists-true [] (y ∷ ys) e = cc
equal_lists-true (x ∷ xs) [] e = cc
equal_lists-true (x ∷ xs) (y ∷ ys) e = ground (arith, equal_lists-true xs ys)

equal_lists_refl : (xs : List ℕ) → equal_lists xs xs ≡ true
unfolding equal_lists
equal_lists_refl [] = refl
equal_lists_refl (x ∷ xs) = ground (arith, equal_lists_refl xs)

-- `f` is the index, counted from `b`, of the first of the lists `ls` that is `xs`, or BROADCAST_PEER_GROUPID
-- if none of them is.
abbrev pub IsFirstEqual : List ℕ → ℕ → List (List ℕ) → ℤ → Type 0
IsFirstEqual xs b ls f =
    ((f ≡ broadcast) × ((j : ℕ) → get_elem? ls j ≢ some xs))
    ⊎ ((i : ℕ) × (f ≡ pos (b + i))
        × (get_elem? ls i ≡ some xs)
        × ((j : ℕ) → get_elem? (take i ls) j ≢ some xs))

search_equal-IsFirstEqual :
    (xs : List ℕ) (b : ℕ) (ls : List (List ℕ)) → IsFirstEqual xs b ls (search_equal xs b ls)
unfolding search_equal
search_equal-IsFirstEqual xs b [] = inl (refl, λ j e. cc)
search_equal-IsFirstEqual xs b (ys ∷ ls) = elim (Bool-cases (equal_lists xs ys)) [
  | inl e ↦
      rw e (inr (0, ap pos (sym (add-zero b)), ap some (sym (equal_lists-true xs ys e)), λ j e. cc))
  | inr e ↦ rw e (later e (search_equal-IsFirstEqual xs (b + 1) ls))
]
  where
    differs : equal_lists xs ys ≡ false → some ys ≢ some xs
    differs e h = ground (arith, equal_lists_refl xs)

    behind :
        equal_lists xs ys ≡ false
        → (j : ℕ) → ((k : ℕ) → j ≡ suc k → get_elem? ls k ≢ some xs)
        → get_elem? (ys ∷ ls) j ≢ some xs
    behind e zero h = differs e
    behind e (suc k) h = h k refl

    beyond :
        equal_lists xs ys ≡ false
        → (i j : ℕ) → ((k : ℕ) → get_elem? (take i ls) k ≢ some xs)
        → get_elem? (ys ∷ take i ls) j ≢ some xs
    beyond e i zero h = differs e
    beyond e i (suc k) h = h k

    later :
        equal_lists xs ys ≡ false
        → IsFirstEqual xs (b + 1) ls (search_equal xs (b + 1) ls)
        → IsFirstEqual xs b (ys ∷ ls) (search_equal xs (b + 1) ls)
    later e (inl h) = inl (h.0, λ j. behind e j (λ k _. h.1 k))
    later e (inr (i, f, at_i, before)) =
        inr (suc i, f ∙ ap pos (omega arith), at_i, λ j. beyond e i j before)

abbrev pub peers_of : Queues → List (List ℕ)
peers_of [] = []
peers_of (q ∷ qs) = q.peer_list ∷ peers_of qs

update_from-get :
    (before : List (List ℕ)) (qs : Queues) (a : ℕ) (q : SendQueue)
    → get_elem? qs a ≡ some q
    → get_elem? (update_from before qs) a
      ≡ some (record q {
        force_queue_id = search_equal q.peer_list 0 (before ++ peers_of (take a qs));
      })
unfolding update_from
update_from-get before [] a q e = cc
update_from-get before (x ∷ qs) zero q e = ground (arith, append-nil before)
update_from-get before (x ∷ qs) (suc a) q e =
    rw (← append_assoc before (x.peer_list ∷ []) (peers_of (take a qs)))
      (update_from-get (before ++ x.peer_list ∷ []) qs a q e)

-- After the update each queue is forced to the first earlier queue with exactly its peers, and to
-- BROADCAST_PEER_GROUPID if there is none; nothing else of it changes.
pub update_peer_groups_lem :
    (qs : Queues) (a : ℕ) (q : SendQueue)
    → get_elem? qs a ≡ some q
    → (f : ℤ) × (get_elem? (update_peer_groups qs) a ≡ some (record q { force_queue_id = f }))
      × IsFirstEqual q.peer_list 0 (peers_of (take a qs)) f
unfolding update_peer_groups
update_peer_groups_lem qs a q e =
    (_, update_from-get [] qs a q e, search_equal-IsFirstEqual q.peer_list 0 (peers_of (take a qs)))
