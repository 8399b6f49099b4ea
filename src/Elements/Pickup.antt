-- ===== src/Elements/Pickup.antt =====
-- A pickup (`sPickup` of C Reversed/elements/sPickup.cpp): its state, what of it is sent, and how the
-- other side reads it.
pub mod Delta
use gta_psp_multiplayer.Prelude.{ℕ, Bool, true, false, not, ◌==◌, if◌then◌else◌}
use gta_psp_multiplayer.Prelude.Int.{ℤ}
use gta_psp_multiplayer.Sync.Types.{Vector}
use gta_psp_multiplayer.Sync.Reader.{Reader, ◌>>=◌, return}
use gta_psp_multiplayer.Sync.Writer.{
  Writer, WriteStream, ◌>>◌, write_u8, write_i8, write_i16, write_bool, write_vector,
}
use gta_psp_multiplayer.NetSession.Groups.{same}
use gta_psp_multiplayer.Elements.Mask.{has_bit, set_bit}
use gta_psp_multiplayer.Elements.Section.{when, patch}
use gta_psp_multiplayer.Elements.Unset.{get_u8, get_i8, get_i16, get_bool, get_vector}

-- The fields of an `sPickup` that stay, and those of one of its `sPickupSync`s.
pub record State : Type 0 where
  pub model_index : ℤ
  pub quantity : ℕ
  pub pickup_type : ℕ
  pub position : Vector
  pub removed : Bool
  pub pickup_by : ℤ

-- The bits of `ePickupSync`.
abbrev pub base_bit : ℕ
base_bit = 0

abbrev pub position_bit : ℕ
position_bit = 1

abbrev pub removed_bit : ℕ
removed_bit = 2

abbrev pub pickup_by_bit : ℕ
pickup_by_bit = 3

abbrev pub full_mask : ℕ
full_mask = 0xff

abbrev pub write_base : State → Writer
write_base s = write_i16 s.model_index >> write_u8 s.quantity >> write_u8 s.pickup_type

-- `PerformWriteSync`
unfoldable pub perform_write_sync : ℕ → State → Writer
perform_write_sync mask s =
    write_u8 mask
    >> when (has_bit base_bit mask) (write_base s)
    >> when (has_bit position_bit mask) (write_vector s.position)
    >> when (has_bit removed_bit mask) (write_bool s.removed)
    >> when (has_bit pickup_by_bit mask) (write_i8 s.pickup_by)

abbrev pub read_base : (ℕ → ℕ) → State → Reader State
read_base unset s = do
  i ← get_i16 unset 0
  n ← get_u8 unset 1
  k ← get_u8 unset 2
  return (record s { model_index = i; quantity = n; pickup_type = k })

-- `ReadSyncFromStream`
unfoldable pub read_sync_from_stream : (ℕ → ℕ) → State → Reader State
read_sync_from_stream unset s = do
  mask ← get_u8 unset 3
  s1 ← patch (has_bit base_bit mask) (read_base unset) s
  s2 ←
      patch (has_bit position_bit mask)
        (λ t. get_vector unset 4 >>= λ v. return (record t { position = v })) s1
  s3 ←
      patch (has_bit removed_bit mask)
        (λ t. get_bool unset 7 >>= λ v. return (record t { removed = v })) s2
  patch (has_bit pickup_by_bit mask)
      (λ t. get_i8 unset 8 >>= λ v. return (record t { pickup_by = v })) s3

-- `!=` of two `bool`s
abbrev pub bool_ne : Bool → Bool → Bool
bool_ne a b = if a then not b else b

module _ (vector_ne : Vector → Vector → Bool) where
  -- `CompareSyncState`
  unfoldable pub compare_sync_state : State → State → ℕ
  compare_sync_state s last =
      let m1 = set_bit (vector_ne s.position last.position) position_bit 0 in
      let m2 = set_bit (bool_ne s.removed last.removed) removed_bit m1 in
      set_bit (not (same s.pickup_by last.pickup_by)) pickup_by_bit m2

  -- `WriteSyncDelta`
  unfoldable pub write_sync_delta : State → State → WriteStream → Bool × WriteStream
  unfolding compare_sync_state perform_write_sync
  write_sync_delta s last w =
      let mask = compare_sync_state s last in
      if mask == 0 then (false, w) else (true, perform_write_sync mask s w)
