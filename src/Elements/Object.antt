-- ===== src/Elements/Object.antt =====
-- An object of the world (`sObject` of C Reversed/elements/sObject.cpp): a moving element with a health.
pub mod Delta
use gta_psp_multiplayer.Prelude.{
  ℕ, ◌-◌, ◌%◌, ◌^◌, Bool, true, false, not, Option, none, some, ◌==◌, if◌then◌else◌,
}
use gta_psp_multiplayer.Prelude.Int.{ℤ}
use gta_psp_multiplayer.Sync.Types.{Vector}
use gta_psp_multiplayer.Sync.Reader.{Reader, ◌>>=◌, return}
use gta_psp_multiplayer.Sync.Writer.{Writer, WriteStream, ◌>>◌, write_u32, write_i8}
use gta_psp_multiplayer.NetSession.Groups.{same}
use gta_psp_multiplayer.Elements.Mask.{has_bit, set_bit}
use gta_psp_multiplayer.Elements.Section.{when, patch}
use gta_psp_multiplayer.Elements.Unset.{get_u32, get_i8}
use gta_psp_multiplayer.Elements.Physical.{
  PhysicalSync, Body, Target, Bound, read_sync_from_stream_physical,
}
use gta_psp_multiplayer.Elements.Physical

-- An `sObjectSync`.
pub record ObjectSync : Type 0 where
  pub physical : PhysicalSync
  pub health : ℤ

-- A `tObjectSyncsDeltas`.
pub record Differences : Type 0 where
  pub object_diff : ℕ
  pub physical_diff : ℕ

-- `SetEqual` and `SetDifference`.
abbrev pub set_equal : Differences
set_equal = record { object_diff = 0; physical_diff = 0 }

abbrev pub set_difference : Differences
set_difference = record { object_diff = 2 ^ 32 - 1; physical_diff = 2 ^ 32 - 1 }

-- The bits of `eObjectSyncDelta`.
abbrev pub physical_bit : ℕ
physical_bit = 0

abbrev pub health_bit : ℕ
health_bit = 1

-- What a read writes to: the target of the physical part, and the health.
pub record ObjectTarget : Type 0 where
  pub part : Target
  pub target_health : ℤ

-- `PerformWriteSync`; `vanilla` is `bCurrDestPeerVanilaDevice`, and the mask of the physical part is cut
-- to a `uint8` by the call.
unfoldable pub perform_write_sync : Bool → Differences → Option Body → ObjectSync → Writer
perform_write_sync vanilla d body s w =
    if vanilla
    then w
    else (write_u32 d.object_diff
          >> when (has_bit physical_bit d.object_diff)
              (Physical.perform_write_sync (d.physical_diff % 2 ^ 8) body s.physical)
          >> when (has_bit health_bit d.object_diff) (write_i8 s.health))
        w

abbrev pub read_physical : (ℕ → ℕ) → Bool → ObjectTarget → Reader ObjectTarget
read_physical unset is_local t =
    read_sync_from_stream_physical unset is_local t.part >>= λ p. return (record t { part = p })

-- `ReadSyncFromStream`
unfoldable pub read_sync_from_stream : (ℕ → ℕ) → Bool → Bool → ObjectTarget → Reader ObjectTarget
read_sync_from_stream unset vanilla is_local t = if vanilla then return t else (do
  mask ← get_u32 unset 64
  t1 ← patch (has_bit physical_bit mask) (read_physical unset is_local) t
  patch (has_bit health_bit mask)
      (λ r. get_i8 unset 65 >>= λ v. return (record r { target_health = v })) t1)

module _ (beyond : Bound → Vector → Vector → Bool) (vector_ne : Vector → Vector → Bool) where
  -- `CompareSyncState`, which leaves the state to be sent changed as its physical part does.
  unfoldable pub compare_sync_state :
      Bool → Bool → ObjectSync → ObjectSync → Differences → Differences × ObjectSync
  compare_sync_state vanilla has_body s last d =
      let (mask, snapped) =
        Physical.compare_sync_state beyond vector_ne has_body s.physical last.physical in
      let diff = set_bit (not (mask == 0)) physical_bit d.object_diff in
      if vanilla then (d, s) else (
        record {
          object_diff = set_bit (not (same last.health s.health)) health_bit diff;
          physical_diff = mask;
        },
        record { physical = snapped; health = s.health },
      )

  -- `WriteSyncDelta`: whether anything was written, the state afterwards, and the stream.
  unfoldable pub write_sync_delta :
      Bool → Option Body → ObjectSync → ObjectSync → WriteStream → Bool × ObjectSync × WriteStream
  write_sync_delta vanilla body s last w =
      let has_body : Bool = elim body [ none ↦ false | some _ ↦ true ] in
      let (d, t) = compare_sync_state vanilla has_body s last set_equal in
      if d.object_diff == 0 then (false, t, w) else (true, t, perform_write_sync vanilla d body t w)
