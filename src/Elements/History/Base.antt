-- ===== src/Elements/History/Base.antt =====
-- The state that a difference is put on.
use gta_psp_multiplayer.Prelude.{
  ℕ, suc, ◌^◌, ◌≤◌, ◌<◌, Bool, true, false, Option, none, some, List, [], ◌∷◌, ltb, leb, ◌==◌, ◌≡◌,
  ◌≢◌, refl, sym, ap, ◌∙◌, arith, Bool-cases, if_case, ◌⊎◌, inl, inr, ℕ_discrete, dec_lt,
  if◌then◌else◌,
}
use gta_psp_multiplayer.Elements.History.{
  Entry, Element, SyncOps, minus_16, before, forget, drop_older, dispose_attached,
  dispose_attached_delta, is_empty, get_sync_with_time, base_entry, insert_entry, base_sync,
  receive_sync,
}

module _ {S : Type 0} where
  -- The times of a history, the oldest first.
  abbrev pub Ascending : List (Entry S) → Type 0
  Ascending [] = Unit {0}
  Ascending (x ∷ []) = Unit {0}
  Ascending (x ∷ y ∷ xs) = (x.time < y.time) × Ascending (y ∷ xs)

  some-inj : {a b : S} → some a ≡ some b → a ≡ b
  some-inj e = cc

  none≢some : {a : S} → none ≢ some a
  none≢some e = cc

  get-skip :
      (t : ℕ) (x : Entry S) (xs : List (Entry S))
      → x.time ≢ t
      → get_sync_with_time t (x ∷ xs) ≡ get_sync_with_time t xs
  unfolding get_sync_with_time
  get-skip t x xs h = let q : (x.time == t) ≡ false = ground arith in rw q

  get-here :
      (t : ℕ) (x : Entry S) (xs : List (Entry S))
      → x.time ≡ t
      → get_sync_with_time t (x ∷ xs) ≡ some x.sync
  unfolding get_sync_with_time
  get-here t x xs h = let q : (x.time == t) ≡ true = ground arith in rw q

  -- In an ascending history no state is older than the first.
  get-earlier :
      (t : ℕ) (x : Entry S) (xs : List (Entry S))
      → Ascending (x ∷ xs)
      → t < x.time
      → get_sync_with_time t (x ∷ xs) ≡ none
  unfolding get_sync_with_time
  get-earlier t x [] h lt = get-skip t x [] (λ e. absurd (omega arith))
  get-earlier t x (y ∷ xs) h lt =
      get-skip t x (y ∷ xs) (λ e. absurd (omega arith)) ∙ get-earlier t y xs h.1 (omega arith)

  drop_older-keeps :
      (t adjusted : ℕ) (c : Option ℕ) (xs : List (Entry S)) (s : S)
      → before t adjusted ≡ false
      → Ascending xs
      → get_sync_with_time t xs ≡ some s
      → (get_sync_with_time t (drop_older adjusted c xs).1 ≡ some s)
        × Ascending (drop_older adjusted c xs).1
  unfolding drop_older
  drop_older-keeps t adjusted c [] s b a g = (g, a)
  drop_older-keeps t adjusted c (x ∷ []) s b a g = (g, a)
  drop_older-keeps t adjusted c (x ∷ y ∷ xs) s b a g = elim (Bool-cases (before x.time adjusted)) [
    | inl q ↦
        let ne : x.time ≢ t = λ e. true≢false (sym q ∙ ap (λ k. before k adjusted) e ∙ b) in
        rw q (
          drop_older-keeps t adjusted (forget x.address c) (y ∷ xs) s b a.1
            (sym (get-skip t x (y ∷ xs) ne) ∙ g))
    | inr q ↦ rw q (g, a)
  ]
    where
      true≢false : true ≢ false
      true≢false e = cc

  -- The search ends at the state of the basis, if there is one.
  base_entry-found :
      (t : ℕ) (x : Entry S) (xs : List (Entry S)) (s : S)
      → Ascending (x ∷ xs)
      → get_sync_with_time t (x ∷ xs) ≡ some s
      → ((base_entry t x xs).time ≡ t) × ((base_entry t x xs).sync ≡ s)
  unfolding base_entry get_sync_with_time
  base_entry-found t x [] s a g = elim (ℕ_discrete x.time t) [
    | yes e ↦ (e, some-inj (sym (get-here t x [] e) ∙ g))
    | no ne ↦ absurd (none≢some (sym (get-skip t x [] ne) ∙ g))
  ]
  base_entry-found t x (y ∷ ys) s a g = elim (dec_lt t y.time) [
    | yes lt ↦
        let q : ltb t y.time ≡ true = ground arith in
        elim (ℕ_discrete x.time t) [
          | yes e ↦ rw q (e, some-inj (sym (get-here t x (y ∷ ys) e) ∙ g))
          | no ne ↦
              absurd
                (none≢some (sym (get-earlier t y ys a.1 lt) ∙ sym (get-skip t x (y ∷ ys) ne) ∙ g))
        ]
    | no ge ↦
        let q : ltb t y.time ≡ false = ground arith in
        let ne : x.time ≢ t = λ e. absurd (omega arith) in
        rw q (base_entry-found t y ys s a.1 (sym (get-skip t x (y ∷ ys) ne) ∙ g))
  ]

  insert-get_self :
      (n : Entry S) (xs : List (Entry S))
      → get_sync_with_time n.time (insert_entry n xs) ≡ some n.sync
  unfolding insert_entry
  insert-get_self n [] = get-here n.time n [] refl
  insert-get_self n (x ∷ xs) = elim (dec_lt x.time n.time) [
    | yes lt ↦
        let q : ltb x.time n.time ≡ true = ground arith in
        rw q
          (get-skip n.time x (insert_entry n xs) (λ e. absurd (omega arith)) ∙ insert-get_self n xs)
    | no ge ↦
        let q : ltb x.time n.time ≡ false = ground arith in rw q (get-here n.time n (x ∷ xs) refl)
  ]

  insert-get_ne :
      (t : ℕ) (n : Entry S) (xs : List (Entry S))
      → n.time ≢ t
      → get_sync_with_time t (insert_entry n xs) ≡ get_sync_with_time t xs
  unfolding insert_entry
  insert-get_ne t n [] ne = get-skip t n [] ne
  insert-get_ne t n (x ∷ xs) ne = elim (Bool-cases (ltb x.time n.time)) [
    | inl q ↦ rw q (elim (ℕ_discrete x.time t) [
      | yes e ↦ get-here t x (insert_entry n xs) e ∙ sym (get-here t x xs e)
      | no d ↦
          get-skip t x (insert_entry n xs) d ∙ insert-get_ne t n xs ne ∙ sym (get-skip t x xs d)
    ])
    | inr q ↦ rw q (get-skip t n (x ∷ xs) ne)
  ]

  -- What a read does to the states of an element before the new one is put in.
  disposed-syncs :
      (connected : Bool) (state basis : ℕ) (e : Element S)
      → (dispose_attached_delta connected state basis e).syncs
        ≡ (if before state basis then e else dispose_attached basis e).syncs
  unfolding dispose_attached_delta
  disposed-syncs connected state basis e =
      if_case P connected
        (if_case P (is_empty f.syncs) refl (if_case P (before state f.delta_time) refl refl)) refl
    where
      f : Element S
      f = if before state basis then e else dispose_attached basis e

      P : Element S → Type 0
      P y = y.syncs ≡ f.syncs

  -- The state at the basis outlives the disposal.
  disposed-keeps :
      (connected : Bool) (state basis : ℕ) (e : Element S) (s : S)
      → Ascending e.syncs
      → get_sync_with_time basis e.syncs ≡ some s
      → basis < 2 ^ 16
      → e.cur_time < 2 ^ 16
      → minus_16 e.cur_time basis ≢ 2 ^ 15
      → let xs = (dispose_attached_delta connected state basis e).syncs in
        (get_sync_with_time basis xs ≡ some s) × Ascending xs
  unfolding dispose_attached
  disposed-keeps connected state basis e s a g lt cur d =
      rw (disposed-syncs connected state basis e) (
        if_case (λ (y : Element S). (get_sync_with_time basis y.syncs ≡ some s) × Ascending y.syncs)
          (before state basis) (g, a)
          (drop_older-keeps basis (if before e.cur_time basis then e.cur_time else basis) e.current
            e.syncs s (kept (Bool-cases (before e.cur_time basis))) a g))
    where
      kept :
          (before e.cur_time basis ≡ true) ⊎ (before e.cur_time basis ≡ false)
          → before basis (if before e.cur_time basis then e.cur_time else basis) ≡ false
      kept (inl q) = rw q (ground arith)
      kept (inr q) = rw q (ground arith)

module _ {S : Type 0} (ops : SyncOps S) where
  base_sync-found :
      (state basis : ℕ) (xs : List (Entry S)) (s : S)
      → Ascending xs
      → get_sync_with_time basis xs ≡ some s
      → basis < state
      → base_sync ops state basis xs
        ≡ some (ops.update_delta (minus_16 state basis) (ops.create_sync_from_other s))
  unfolding base_sync get_sync_with_time
  base_sync-found state basis [] s a g lt = absurd (none≢some g)
  base_sync-found state basis (x ∷ xs) s a g lt =
      let q : leb state basis ≡ false = ground arith in
      let b = base_entry-found basis x xs s a g in rw (q, b.0, b.1)

  -- The state that is put in stands at its time, and all others stay where they were.
  receive_sync-found :
      (connected : Bool) (state basis : ℕ) (read : S → S) (e : Element S) (b : S)
      → base_sync ops state basis (dispose_attached_delta connected state basis e).syncs ≡ some b
      → (f : Element S) × (receive_sync ops connected state basis read e ≡ some f)
        × (get_sync_with_time state f.syncs ≡ some (read b))
        × ((t : ℕ)
            → state ≢ t
            → get_sync_with_time t f.syncs
              ≡ get_sync_with_time t (dispose_attached_delta connected state basis e).syncs)
  unfolding receive_sync
  receive_sync-found connected state basis read e b q =
      let f = dispose_attached_delta connected state basis e in
      let n : Entry S = record { time = state; address = f.next_address; sync = read b } in
      (
        record f {
          syncs = insert_entry n f.syncs;
          next_address = suc f.next_address;
          sended_collision = false;
        },
        rw (q, receive_sync),
        insert-get_self n f.syncs,
        λ t ne. insert-get_ne t n f.syncs ne,
      )

  -- While the clock has not wrapped, so that the basis is below the new state and the states of the element
  -- ascend, and the basis is not just 32768 from the element's own time: a state that is received as a
  -- difference to a basis that the element has a state for is read into a copy of that state, brought
  -- forward by the time in between. Afterwards it stands in the history at its own time, and the basis is
  -- still there for the next difference.
  pub receive_sync-basis :
      (connected : Bool) (state basis : ℕ) (read : S → S) (e : Element S) (s : S)
      → Ascending e.syncs
      → get_sync_with_time basis e.syncs ≡ some s
      → basis < state
      → state < 2 ^ 16
      → e.cur_time < 2 ^ 16
      → minus_16 e.cur_time basis ≢ 2 ^ 15
      → (f : Element S) × (receive_sync ops connected state basis read e ≡ some f)
        × (get_sync_with_time state f.syncs
            ≡ some (read (ops.update_delta (minus_16 state basis) (ops.create_sync_from_other s))))
        × (get_sync_with_time basis f.syncs ≡ some s)
  receive_sync-basis connected state basis read e s a g lt small cur d =
      let k = disposed-keeps connected state basis e s a g (omega arith) cur d in
      let xs = (dispose_attached_delta connected state basis e).syncs in
      let (f, q, self, others) =
        receive_sync-found connected state basis read e
          (ops.update_delta (minus_16 state basis) (ops.create_sync_from_other s))
          (base_sync-found state basis xs s k.1 k.0 lt) in
      (f, q, self, others basis (λ e. absurd (omega arith)) ∙ k.0)

  -- Once the clock has wrapped, a state received as a difference to one from before that is read into a
  -- blank state, whatever the element has for the basis.
  pub receive_sync-wrapped :
      (connected : Bool) (state basis : ℕ) (read : S → S) (e : Element S)
      → state ≤ basis
      → (f : Element S) × (receive_sync ops connected state basis read e ≡ some f)
        × (get_sync_with_time state f.syncs ≡ some (read ops.create_sync))
  unfolding base_sync
  receive_sync-wrapped connected state basis read e le =
      let (f, q, self, others) =
        receive_sync-found connected state basis read e ops.create_sync
          (blank (dispose_attached_delta connected state basis e).syncs) in
      (f, q, self)
    where
      test : leb state basis ≡ true
      test = ground arith

      blank : (xs : List (Entry S)) → base_sync ops state basis xs ≡ some ops.create_sync
      blank [] = rw test
      blank (x ∷ xs) = rw test
