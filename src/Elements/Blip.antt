-- ===== src/Elements/Blip.antt =====
-- A blip of the radar (`sRadarBlip` of C Reversed/elements/sRadarBlip.cpp): its state, what of it is
-- sent, and what the other side makes of that.
pub mod Delta
use gta_psp_multiplayer.Prelude.{
  ℕ, ◌-◌, ◌%◌, ◌^◌, ◌<◌, Bool, true, false, not, ◌||◌, List, [], ◌∷◌, ◌==◌, if◌then◌else◌,
}
use gta_psp_multiplayer.Prelude.Int.{ℤ}
use gta_psp_multiplayer.Sync.Types.{Float, Vector}
use gta_psp_multiplayer.Sync.Reader.{Reader, ◌>>=◌, return}
use gta_psp_multiplayer.Sync.Writer.{
  Writer, WriteStream, ◌>>◌, write_u8, write_u32, write_i8, write_i32, write_float, write_vector,
}
use gta_psp_multiplayer.Elements.Mask.{has_bit, set_bit}
use gta_psp_multiplayer.Elements.Section.{when, patch}
use gta_psp_multiplayer.Elements.Unset.{get_u8, get_u32, get_i8, get_i32, get_float, get_vector}
use gta_psp_multiplayer.Elements.Types.{float_ne}

-- `m_nTrace`, less the index of the blip, which is not sent. `flags` is the byte of all the flags.
pub record Trace : Type 0 where
  pub colour : ℕ
  pub blip_type : ℕ
  pub entity_handle : ℤ
  pub position : Vector
  pub flags : ℕ
  pub radius : Float
  pub scale : ℤ
  pub sprite : ℕ
  pub player_mask : ℕ

-- The bits of `eRadarBlipSyncDelta`.
abbrev pub position_bit : ℕ
position_bit = 0

abbrev pub radius_bit : ℕ
radius_bit = 1

abbrev pub player_mask_bit : ℕ
player_mask_bit = 2

abbrev pub full_mask : ℕ
full_mask = 0xff

-- What goes out for the bit of the position.
abbrev pub write_position : Trace → Writer
write_position t =
    write_u32 t.colour
    >> write_u8 (t.blip_type % 2 ^ 8)
    >> write_i32 t.entity_handle
    >> write_vector t.position
    >> write_i8 t.scale
    >> write_u8 (t.sprite % 2 ^ 8)

-- `PerformWriteSync`
unfoldable pub perform_write_sync : ℕ → Trace → Writer
perform_write_sync mask t =
    write_u8 mask
    >> write_u8 t.flags
    >> when (has_bit position_bit mask) (write_position t)
    >> when (has_bit radius_bit mask) (write_float t.radius)
    >> when (has_bit player_mask_bit mask) (write_u8 t.player_mask)

abbrev pub read_position : (ℕ → ℕ) → Trace → Reader Trace
read_position unset t = do
  c ← get_u32 unset 0
  k ← get_u8 unset 1
  h ← get_i32 unset 2
  p ← get_vector unset 3
  s ← get_i8 unset 6
  r ← get_u8 unset 7
  return (record t {
    colour = c;
    blip_type = k;
    entity_handle = h;
    position = p;
    scale = s;
    sprite = r;
  })

abbrev pub read_radius : (ℕ → ℕ) → Trace → Reader Trace
read_radius unset t = do r ← get_float unset 8; return (record t { radius = r })

abbrev pub read_player_mask : (ℕ → ℕ) → Trace → Reader Trace
read_player_mask unset t = do m ← get_u8 unset 9; return (record t { player_mask = m })

-- `ReadSyncFromStream`, into a state that is there already.
unfoldable pub read_sync_from_stream : (ℕ → ℕ) → Trace → Reader Trace
read_sync_from_stream unset t = do
  mask ← get_u8 unset 10
  flags ← get_u8 unset 11
  t1 ← patch (has_bit position_bit mask) (read_position unset) (record t { flags = flags })
  t2 ← patch (has_bit radius_bit mask) (read_radius unset) t1
  patch (has_bit player_mask_bit mask) (read_player_mask unset) t2

-- `vector_ne` is `!=` of two `CVector`, which the elements use and do not implement.
module _ (vector_ne : Vector → Vector → Bool) where
  -- `CompareSyncState`
  unfoldable pub compare_sync_state : Trace → Trace → ℕ
  compare_sync_state t last =
      let m0 = set_bit (vector_ne t.position last.position) position_bit 0 in
      let m1 = set_bit (float_ne t.radius last.radius) radius_bit m0 in
      set_bit (not (t.player_mask == last.player_mask)) player_mask_bit m1

  -- `WriteSyncDelta`: whether anything was written, and the stream.
  unfoldable pub write_sync_delta : Trace → Trace → WriteStream → Bool × WriteStream
  unfolding compare_sync_state perform_write_sync
  write_sync_delta t last w =
      let mask = compare_sync_state t last in
      if mask == 0 then (false, w) else (true, perform_write_sync mask t w)
