-- ===== src/Elements/History/Find.antt =====
-- `FindSync` of C Reversed/elements/sElement.cpp: the state of an element at a time, worked out where
-- none was received for it.
pub mod Again
use gta_psp_multiplayer.Prelude.{
  ℕ, suc, ◌^◌, Bool, true, false, ◌&&◌, Option, none, some, List, [], ◌∷◌, ◌++◌, ltb, ◌==◌,
  if◌then◌else◌,
}
use gta_psp_multiplayer.Prelude.Int.{pos, ◌-ℤ◌}
use gta_psp_multiplayer.Sync.Types.{to_signed}
use gta_psp_multiplayer.Elements.History.{Entry, Element, SyncOps, minus_16, before}

-- `static_cast<int16>(a - b) > 0`
abbrev pub after : ℕ → ℕ → Bool
after a b = ltb 0 (minus_16 a b) && ltb (minus_16 a b) (2 ^ 15)

-- What `FindSync` returns, with the flag that it writes and the element afterwards.
pub record Found (S : Type 0) : Type 0 where
  pub found : Option S
  pub is_new_sync : Bool
  pub element : Element S

module _ {S : Type 0} where
  abbrev pub any_before : ℕ → List (Entry S) → Bool
  any_before t [] = false
  any_before t (x ∷ xs) = if before x.time t then true else any_before t xs

  -- The search from the end of `m_vSyncB`: the list up to its last entry before `t`, and the rest.
  unfoldable pub split_back : ℕ → List (Entry S) → List (Entry S) × List (Entry S)
  split_back t [] = ([], [])
  split_back t (x ∷ xs) =
      let (front, back) = split_back t xs in
      if any_before t (x ∷ xs) then (x ∷ front, back) else ([], x ∷ xs)

  -- The search in `m_vSync`: the entry in front of the first one after `t`, and that one.
  unfoldable pub neighbours :
      ℕ → Option (Entry S) → List (Entry S) → Option (Entry S) × Option (Entry S)
  neighbours t p [] = (p, none)
  neighbours t p (x ∷ xs) = if after x.time t then (p, some x) else neighbours t (some x) xs

  abbrev pub front_sync : List (Entry S) → Option S
  front_sync [] = none
  front_sync (x ∷ xs) = some x.sync

  abbrev pub starts_at : ℕ → List (Entry S) → Bool
  starts_at t [] = false
  starts_at t (x ∷ xs) = x.time == t

  module _ (ops : SyncOps S) where
    -- A state for the time `t`, from the last received one before it, `p`, and the next, if there is one.
    unfoldable pub new_sync : ℕ → ℕ → Entry S → Option (Entry S) → S
    new_sync t delta_time p none =
        let s = ops.create_sync_from_other p.sync in
        let lag = minus_16 delta_time p.time in
        let s1 = if lag == 0 then s else ops.update_delta lag s in
        if after t p.time then ops.apply_delta_state (to_signed 16 (minus_16 t p.time)) s1 else s1
    new_sync t delta_time p (some n) =
        ops.interpolate_delta_state (to_signed 16 (minus_16 t p.time)) (pos n.time -ℤ pos p.time)
          (ops.create_sync_from_other p.sync) n.sync

    -- `FindSync`
    unfoldable pub find_sync : ℕ → Element S → Found S
    unfolding split_back neighbours new_sync
    find_sync t e =
        let (front, back) = split_back t e.interpolated in
        let (p, n) = neighbours t none e.syncs in
        if starts_at t back
        then record { found = front_sync back; is_new_sync = true; element = e }
        else elim p [
          | none ↦ record {
            found = front_sync e.syncs;
            is_new_sync = elim e.syncs [ [] ↦ true | _ ∷ _ ↦ false ];
            element = e;
          }
          | some q ↦
              if q.time == t
              then record { found = some q.sync; is_new_sync = false; element = e }
              else (let s = new_sync t e.delta_time q n in
                  record {
                    found = some s;
                    is_new_sync = true;
                    element = record e {
                      interpolated =
                          front ++ record { time = t; address = e.next_address; sync = s } ∷ back;
                      next_address = suc e.next_address;
                    };
                  })
        ]
