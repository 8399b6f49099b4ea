-- ===== src/Elements/History.antt =====
-- The states that an element has had (`sElement` of C Reversed/elements/sElement.cpp): those that were
-- sent or received, by their time, those that were worked out between them, and how they are given up.
--
-- A time is a `uint16` that wraps. A sync is known by its address, which is how `m_pSync` points to it.
pub mod Base
pub mod Find
use gta_psp_multiplayer.Prelude.{
  ℕ, suc, ◌+◌, ◌-◌, ◌%◌, ◌^◌, Bool, true, false, Option, none, some, List, [], ◌∷◌, ◌++◌, ltb, leb,
  ◌==◌, ◌≡◌, arith, if◌then◌else◌,
}
use gta_psp_multiplayer.Prelude.Int.{ℤ}

-- A `tSyncEntry`, with what its pointer points to.
pub record Entry (S : Type 0) : Type 0 where
  pub time : ℕ
  pub address : ℕ
  pub sync : S

-- `m_vSync`, `m_vSyncB` and `m_pSync`; `next_address` stands for the allocator, `sended_collision` is the
-- flag `bSendedCollision`.
pub record Element (S : Type 0) : Type 0 where
  pub cur_time : ℕ
  pub delta_time : ℕ
  pub syncs : List (Entry S)
  pub interpolated : List (Entry S)
  pub current : Option ℕ
  pub next_address : ℕ
  pub sended_collision : Bool

-- The virtual operations of an element on its syncs: `CreateSync`, `CreateSyncFromOther`, `UpdateDelta`,
-- `ApplyDeltaState`, and `InterpolateDeltaState` by the two times whose quotient is its factor.
pub record SyncOps (S : Type 0) : Type 0 where
  pub create_sync : S
  pub create_sync_from_other : S → S
  pub update_delta : ℕ → S → S
  pub apply_delta_state : ℤ → S → S
  pub interpolate_delta_state : ℤ → ℤ → S → S → S
  pub set_unk : S → S

-- `a - b` as a `uint16`, and `static_cast<int16>(a - b) < 0`.
abbrev pub minus_16 : ℕ → ℕ → ℕ
minus_16 a b = (a + 2 ^ 16 - b) % 2 ^ 16

abbrev pub before : ℕ → ℕ → Bool
before a b = leb (2 ^ 15) (minus_16 a b)

pub before_self : (t : ℕ) → before t t ≡ false
before_self t = let e : t + 2 ^ 16 - t ≡ 2 ^ 16 = omega arith in rw e

-- `if (m_pSync == address) m_pSync = nil`
abbrev pub forget : ℕ → Option ℕ → Option ℕ
forget a none = none
forget a (some c) = if c == a then none else some c

module _ {S : Type 0} where
  -- The loop of `DisposeAttached`: the oldest states before `t` go, but never the last state.
  unfoldable pub drop_older : ℕ → Option ℕ → List (Entry S) → Option ℕ × List (Entry S)
  drop_older t c [] = (c, [])
  drop_older t c (x ∷ []) = (c, x ∷ [])
  drop_older t c (x ∷ y ∷ xs) =
      if before x.time t then drop_older t (forget x.address c) (y ∷ xs) else (c, x ∷ y ∷ xs)

  -- `DisposeAttached`
  unfoldable pub dispose_attached : ℕ → Element S → Element S
  unfolding drop_older
  dispose_attached t e =
      let adjusted = if before e.cur_time t then e.cur_time else t in
      let (c, xs) = drop_older adjusted e.current e.syncs in record e { current = c; syncs = xs }

  -- The loop of `DisposeAttachedDelta`.
  unfoldable pub drop_interpolated : ℕ → Option ℕ → List (Entry S) → Option ℕ × List (Entry S)
  drop_interpolated t c [] = (c, [])
  drop_interpolated t c (x ∷ xs) =
      if before t x.time then (c, x ∷ xs) else drop_interpolated t (forget x.address c) xs

  abbrev pub is_empty : List (Entry S) → Bool
  is_empty [] = true
  is_empty (x ∷ xs) = false

  -- `DisposeAttachedDelta`; `connected` is `IsPlayerConnected(GetOwner())`.
  unfoldable pub dispose_attached_delta : Bool → ℕ → ℕ → Element S → Element S
  unfolding dispose_attached drop_interpolated
  dispose_attached_delta connected net_time zone_time e =
      let f = if before net_time zone_time then e else dispose_attached zone_time e in
      let (c, xs) = drop_interpolated net_time f.current f.interpolated in
      if connected
      then if is_empty f.syncs
        then record f { delta_time = net_time; current = c; interpolated = xs }
        else if before net_time f.delta_time
        then f
        else record f { delta_time = net_time; current = c; interpolated = xs }
      else f

  -- `AttachSync`, of a sync that was allocated before.
  unfoldable pub attach_sync : Bool → ℕ → ℕ → S → Element S → Element S
  unfolding dispose_attached_delta
  attach_sync connected t address s e =
      let f = dispose_attached_delta connected t ((t + 1) % 2 ^ 16) e in
      let g = record f {
        syncs = f.syncs ++ record { time = t; address = address; sync = s } ∷ [];
      } in
      if is_empty e.syncs then g else if before e.delta_time t then g else e

  -- `GetSyncWithTime`. Where the assertion fails that there is one, it is none.
  unfoldable pub get_sync_with_time : ℕ → List (Entry S) → Option S
  get_sync_with_time t [] = none
  get_sync_with_time t (x ∷ xs) = if x.time == t then some x.sync else get_sync_with_time t xs

  abbrev last_of : List (Entry S) → List (Entry S)
  last_of [] = []
  last_of (x ∷ []) = x ∷ []
  last_of (x ∷ y ∷ xs) = last_of (y ∷ xs)

  -- `ClearSyncs`: only the newest state is kept.
  unfoldable pub clear_syncs : Element S → Element S
  clear_syncs e = record e { syncs = last_of e.syncs }

  -- The loop of `GetSyncWithTime2`, from an entry `x` on: the last before one whose time is after the basis.
  unfoldable pub base_entry : ℕ → Entry S → List (Entry S) → Entry S
  base_entry basis x [] = x
  base_entry basis x (y ∷ ys) = if ltb basis y.time then x else base_entry basis y ys

  -- `insert` at `lower_bound`.
  unfoldable pub insert_entry : Entry S → List (Entry S) → List (Entry S)
  insert_entry n [] = n ∷ []
  insert_entry n (x ∷ xs) = if ltb x.time n.time then x ∷ insert_entry n xs else n ∷ x ∷ xs

  -- Whether a state of the list has that time.
  abbrev pub has_time : ℕ → List (Entry S) → Bool
  has_time t [] = false
  has_time t (x ∷ xs) = if x.time == t then true else has_time t xs

module _ {S : Type 0} (ops : SyncOps S) where
  -- The state that a new one is read into.
  unfoldable pub base_sync : ℕ → ℕ → List (Entry S) → Option S
  unfolding base_entry
  base_sync state basis [] = if leb state basis then some ops.create_sync else none
  base_sync state basis (x ∷ xs) =
      let b = base_entry basis x xs in
      if leb state basis
      then some ops.create_sync
      else some (ops.update_delta (minus_16 state b.time) (ops.create_sync_from_other b.sync))

  -- `GetSyncWithTime2` and the read into the state that it returns, `read`: the element afterwards, or none
  -- where the assertion stops the program because there is nothing that a difference could be put on.
  unfoldable pub receive_sync : Bool → ℕ → ℕ → (S → S) → Element S → Option (Element S)
  receive_sync connected state basis read e =
      let f = dispose_attached_delta connected state basis e in
      elim (base_sync state basis f.syncs) [
        | none ↦ none
        | some s ↦ some (record f {
          syncs =
              insert_entry (record { time = state; address = f.next_address; sync = read s })
                f.syncs;
          next_address = suc f.next_address;
          sended_collision = false;
        })
      ]

  -- `DisposeFrame`: in a list that is not its first state, the newest state of that time has the state
  -- before it marked.
  unfoldable pub mark_before : ℕ → List (Entry S) → List (Entry S)
  mark_before t [] = []
  mark_before t (x ∷ []) = x ∷ []
  mark_before t (x ∷ y ∷ xs) =
      let rest = mark_before t (y ∷ xs) in
      if y.time == t
      then if has_time t xs then x ∷ rest else record x { sync = ops.set_unk x.sync } ∷ rest
      else x ∷ rest

  unfoldable pub dispose_frame : ℕ → Element S → Element S
  unfolding mark_before
  dispose_frame t e = record e { syncs = mark_before t e.syncs }
