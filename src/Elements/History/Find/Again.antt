-- ===== src/Elements/History/Find/Again.antt =====
-- A state that was worked out for a time is the one that is found for it from then on.
use gta_psp_multiplayer.Prelude.{
  ℕ, suc, true, false, Option, none, some, List, [], ◌∷◌, ◌++◌, ◌==◌, ◌≡◌, refl, ap, ◌∙◌, arith,
  Bool-cases, ◌⊎◌, inl, inr,
}
use gta_psp_multiplayer.Elements.History.{Entry, Element, SyncOps, before, before_self}
use gta_psp_multiplayer.Elements.History.Find.{
  any_before, split_back, neighbours, front_sync, starts_at, new_sync, find_sync,
}

module _ {S : Type 0} where
  -- What stands before a time at all stands before it in the front part.
  any_before-front :
      (t : ℕ) (xs ys : List (Entry S))
      → any_before t xs ≡ true
      → any_before t ((split_back t xs).0 ++ ys) ≡ true
  unfolding split_back
  any_before-front t [] ys h = absurd (cc)
  any_before-front t (x ∷ xs) ys h = rw h (elim (Bool-cases (before x.time t)) [
    | inl q ↦ rw q
    | inr q ↦ rw q (any_before-front t xs ys (rw q at h))
  ])

  split_back-before :
      (t : ℕ) (x : Entry S) (xs : List (Entry S))
      → any_before t (x ∷ xs) ≡ true
      → split_back t (x ∷ xs) ≡ (x ∷ (split_back t xs).0, (split_back t xs).1)
  unfolding split_back
  split_back-before t x xs h = rw h

  split_back-none :
      (t : ℕ) (xs : List (Entry S)) → any_before t xs ≡ false → split_back t xs ≡ ([], xs)
  unfolding split_back
  split_back-none t [] h = refl
  split_back-none t (x ∷ xs) h = rw h

  -- An entry for the time, put where the search ended, is where the search ends again.
  split_back-again :
      (t : ℕ) (n : Entry S) (xs : List (Entry S))
      → n.time ≡ t
      → split_back t ((split_back t xs).0 ++ n ∷ (split_back t xs).1)
        ≡ ((split_back t xs).0, n ∷ (split_back t xs).1)
  unfolding split_back
  split_back-again t n [] e = split_back-none t (n ∷ []) (rw (e, before_self t))
  split_back-again t n (x ∷ xs) e = elim (Bool-cases (any_before t (x ∷ xs))) [
    | inl q ↦ rw (split_back-before t x xs q) (
        split_back-before t x ((split_back t xs).0 ++ n ∷ (split_back t xs).1) (any_front q)
        ∙ rw (split_back-again t n xs e))
    | inr q ↦
        rw (split_back-none t (x ∷ xs) q)
          (split_back-none t (n ∷ x ∷ xs) (rw (e, before_self t, q)))
  ]
    where
      any_front :
          any_before t (x ∷ xs) ≡ true
          → any_before t (x ∷ (split_back t xs).0 ++ n ∷ (split_back t xs).1) ≡ true
      any_front q = elim (Bool-cases (before x.time t)) [
        | inl b ↦ rw b
        | inr b ↦ rw b (any_before-front t xs (n ∷ (split_back t xs).1) (rw b at q))
      ]

Option-cases : {A : Type 0} (o : Option A) → (o ≡ none) ⊎ ((a : A) × (o ≡ some a))
Option-cases none = inl refl
Option-cases (some a) = inr (a, refl)

module _ {S : Type 0} (ops : SyncOps S) where
  find_sync-cached :
      (t : ℕ) (e : Element S)
      → starts_at t (split_back t e.interpolated).1 ≡ true
      → find_sync ops t e ≡ record {
        found = front_sync (split_back t e.interpolated).1;
        is_new_sync = true;
        element = e;
      }
  unfolding find_sync
  find_sync-cached t e h = rw h

  find_sync-first :
      (t : ℕ) (e : Element S)
      → starts_at t (split_back t e.interpolated).1 ≡ false
      → (neighbours t none e.syncs).0 ≡ none
      → (find_sync ops t e).element ≡ e
  unfolding find_sync
  find_sync-first t e h p = rw (h, p)

  find_sync-there :
      (t : ℕ) (e : Element S) (q : Entry S)
      → starts_at t (split_back t e.interpolated).1 ≡ false
      → (neighbours t none e.syncs).0 ≡ some q
      → (q.time == t) ≡ true
      → (find_sync ops t e).element ≡ e
  unfolding find_sync
  find_sync-there t e q h p k = rw (h, p, k)

  -- The entry of a state that is worked out.
  abbrev worked_out : ℕ → Element S → Entry S → Entry S
  worked_out t e q = record {
    time = t;
    address = e.next_address;
    sync = new_sync ops t e.delta_time q (neighbours t none e.syncs).1;
  }

  abbrev with_worked_out : ℕ → Element S → Entry S → Element S
  with_worked_out t e q = record e {
    interpolated =
        (split_back t e.interpolated).0 ++ worked_out t e q ∷ (split_back t e.interpolated).1;
    next_address = suc e.next_address;
  }

  find_sync-new :
      (t : ℕ) (e : Element S) (q : Entry S)
      → starts_at t (split_back t e.interpolated).1 ≡ false
      → (neighbours t none e.syncs).0 ≡ some q
      → (q.time == t) ≡ false
      → find_sync ops t e ≡ record {
        found = some (worked_out t e q).sync;
        is_new_sync = true;
        element = with_worked_out t e q;
      }
  unfolding find_sync
  find_sync-new t e q h p k = rw (h, p, k)

  find_sync-kept :
      (t : ℕ) (e : Element S)
      → (find_sync ops t e).element ≡ e
      → find_sync ops t (find_sync ops t e).element ≡ find_sync ops t e
  find_sync-kept t e h = ap (find_sync ops t) h

  find_sync-worked_out :
      (t : ℕ) (e : Element S) (q : Entry S)
      → find_sync ops t (with_worked_out t e q) ≡ record {
        found = some (worked_out t e q).sync;
        is_new_sync = true;
        element = with_worked_out t e q;
      }
  find_sync-worked_out t e q =
      let r = split_back-again t (worked_out t e q) e.interpolated refl in
      let k : (t == t) ≡ true = ground arith in
      find_sync-cached t (with_worked_out t e q) (rw (r, k)) ∙ rw r

  -- Once the state for a time was asked for, asking for it again gives the very same state, and leaves the
  -- element as it is: nothing is worked out twice.
  pub find_sync-again :
      (t : ℕ) (e : Element S) → find_sync ops t (find_sync ops t e).element ≡ find_sync ops t e
  find_sync-again t e = elim (Bool-cases (starts_at t (split_back t e.interpolated).1)) [
    | inl h ↦ find_sync-kept t e (rw (find_sync-cached t e h))
    | inr h ↦ elim (Option-cases (neighbours t none e.syncs).0) [
      | inl p ↦ find_sync-kept t e (find_sync-first t e h p)
      | inr (q, p) ↦ elim (Bool-cases (q.time == t)) [
        | inl k ↦ find_sync-kept t e (find_sync-there t e q h p k)
        | inr k ↦ rw (find_sync-new t e q h p k) (find_sync-worked_out t e q)
      ]
    ]
  ]
