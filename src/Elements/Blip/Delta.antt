-- ===== src/Elements/Blip/Delta.antt =====
-- What the other side makes of a blip that is sent.
use native.Mathlib.Nat.{mod-eq_of_lt}
use gta_psp_multiplayer.Prelude.{
  ℕ, ◌%◌, ◌^◌, ◌<◌, Bool, true, false, not, List, [], ◌∷◌, get_or, ◌≡◌, ◌≢◌, refl, arith, ◌==◌,
  if◌then◌else◌,
}
use gta_psp_multiplayer.Sync.Types.{Vector}
use gta_psp_multiplayer.Sync.Writer.{WriteStream}
use gta_psp_multiplayer.Sync.Codec.Words.{u8-Carries, u32-Carries}
use gta_psp_multiplayer.Sync.Codec.Fields.{InRange, i8-Carries, i32-Carries, float-Carries}
use gta_psp_multiplayer.Sync.Codec.Composite.{IsFloat, vector-Carries}
use gta_psp_multiplayer.Elements.Mask.{has_bit, has_bit-set_bits}
use gta_psp_multiplayer.Elements.Section.{Sends, Sends-subst, Sends->>, Sends-map, Sends-when}
use gta_psp_multiplayer.Elements.Unset.{got}
use gta_psp_multiplayer.Elements.Types.{float_ne}
use gta_psp_multiplayer.Elements.Blip.{
  Trace, position_bit, radius_bit, player_mask_bit, full_mask, write_position, read_position,
  read_radius, read_player_mask, perform_write_sync, read_sync_from_stream, compare_sync_state,
  write_sync_delta,
}

-- The fields hold what goes through the stream.
pub record IsTyped (t : Trace) : Type 0 where
  pub colour : t.colour < 2 ^ 32
  pub blip_type : t.blip_type < 2 ^ 8
  pub entity_handle : InRange 32 t.entity_handle
  pub position : IsFloat t.position.x × IsFloat t.position.y × IsFloat t.position.z
  pub radius : IsFloat t.radius
  pub scale : InRange 8 t.scale
  pub sprite : t.sprite < 2 ^ 8

-- A state brought up to date where the three conditions say so; the flags always are.
abbrev pub merge : Bool → Bool → Bool → Trace → Trace → Trace
merge p r m t last = record {
  colour = if p then t.colour else last.colour;
  blip_type = if p then t.blip_type else last.blip_type;
  entity_handle = if p then t.entity_handle else last.entity_handle;
  position = if p then t.position else last.position;
  flags = t.flags;
  radius = if r then t.radius else last.radius;
  scale = if p then t.scale else last.scale;
  sprite = if p then t.sprite else last.sprite;
  player_mask = if m then t.player_mask else last.player_mask;
}

position-Sends :
    (unset : ℕ → ℕ) (t last : Trace)
    → IsTyped t
    → Sends
        (write_position t)
        (read_position unset last)
        (record t { flags = last.flags; radius = last.radius; player_mask = last.player_mask })
position-Sends unset t last h =
    let k : t.blip_type % 2 ^ 8 ≡ t.blip_type = mod-eq_of_lt h.blip_type in
    let s : t.sprite % 2 ^ 8 ≡ t.sprite = mod-eq_of_lt h.sprite in
    rw (k, s)
      (Sends->> _ (got _ (u32-Carries t.colour h.colour)) (
        Sends->> _ (got _ (u8-Carries t.blip_type)) (
          Sends->> _ (got _ (i32-Carries t.entity_handle h.entity_handle)) (
            Sends->> _ (got _ (vector-Carries t.position h.position.0 h.position.1 h.position.2)) (
              Sends->> _ (got _ (i8-Carries t.scale h.scale))
                (Sends-map _ (got _ (u8-Carries t.sprite))))))))

-- A blip with any mask: what the mask says is taken over.
sync-Sends :
    (unset : ℕ → ℕ) (mask : ℕ) (t last : Trace)
    → IsTyped t
    → Sends (perform_write_sync mask t) (read_sync_from_stream unset last) (
        merge
          (has_bit position_bit mask)
          (has_bit radius_bit mask)
          (has_bit player_mask_bit mask)
          t
          last)
unfolding perform_write_sync read_sync_from_stream
sync-Sends unset mask t last h =
    Sends-subst
      (merged (has_bit position_bit mask) (has_bit radius_bit mask) (has_bit player_mask_bit mask))
      (Sends->> _ (got _ (u8-Carries mask)) (
        Sends->> _ (got _ (u8-Carries t.flags)) (
          Sends->> _
            (Sends-when (read_position unset) (has_bit position_bit mask)
              (position-Sends unset t (record last { flags = t.flags }) h))
            (Sends->> _
              (Sends-when (read_radius unset) (has_bit radius_bit mask)
                (Sends-map _ (got _ (float-Carries t.radius h.radius))))
              (Sends-when (read_player_mask unset) (has_bit player_mask_bit mask)
                (Sends-map _ (got _ (u8-Carries t.player_mask))))))))
  where
    moved : Bool → Trace
    moved p =
        if p
        then record t { radius = last.radius; player_mask = last.player_mask }
        else record last { flags = t.flags }

    sized : Bool → Bool → Trace
    sized p r = if r then record (moved p) { radius = t.radius } else moved p

    merged :
        (p r m : Bool)
        → (if m then record (sized p r) { player_mask = t.player_mask } else sized p r)
          ≡ merge p r m t last
    merged true true true = refl
    merged true true false = refl
    merged true false true = refl
    merged true false false = refl
    merged false true true = refl
    merged false true false = refl
    merged false false true = refl
    merged false false false = refl

module _ (vector_ne : Vector → Vector → Bool) where
  -- What of a state the other side ends up with: each part that is compared, by its own comparison; the
  -- looks of the blip with its position; the flags in any case.
  abbrev pub delta_of : Trace → Trace → Trace
  delta_of t last =
      merge (vector_ne t.position last.position) (float_ne t.radius last.radius)
        (not (t.player_mask == last.player_mask)) t last

  changes : Trace → Trace → List Bool
  changes t last =
      vector_ne t.position last.position
      ∷ float_ne t.radius last.radius
      ∷ not (t.player_mask == last.player_mask)
      ∷ []

  bits-compare :
      (n : ℕ) (t last : Trace)
      → has_bit n (compare_sync_state vector_ne t last) ≡ get_or (changes t last) n false
  unfolding compare_sync_state changes
  bits-compare n t last = has_bit-set_bits n (changes t last)

  -- The difference of a blip to a state that the other side has, where it is not empty, turns that state
  -- into one with the sent position, radius and player mask, each as far as its comparison tells it
  -- apart, with the looks of the sent blip if its position differs, and with its flags.
  pub write_sync_delta-Sends_blip :
      (unset : ℕ → ℕ) (t last : Trace)
      → IsTyped t
      → compare_sync_state vector_ne t last ≢ 0
      → Sends
          (λ w. (write_sync_delta vector_ne t last w).1)
          (read_sync_from_stream unset last)
          (delta_of t last)
  unfolding write_sync_delta changes
  write_sync_delta-Sends_blip unset t last h ne =
      let q : (compare_sync_state vector_ne t last == 0) ≡ false = ground arith in
      rw q (
        Sends-subst (rw (bits-compare 0 t last, bits-compare 1 t last, bits-compare 2 t last))
          (sync-Sends unset (compare_sync_state vector_ne t last) t last h))

  -- A blip whose position, radius and player mask are told from the last ones in nothing is not sent,
  -- however its colour, its type, its sprite, its scale, the entity it marks or its flags have changed.
  pub write_sync_delta-blip_lost :
      (t last : Trace) (w : WriteStream)
      → vector_ne t.position last.position ≡ false
      → float_ne t.radius last.radius ≡ false
      → t.player_mask ≡ last.player_mask
      → write_sync_delta vector_ne t last w ≡ (false, w)
  unfolding write_sync_delta compare_sync_state
  write_sync_delta-blip_lost t last w p r m =
      let e : (t.player_mask == last.player_mask) ≡ true = ground arith in rw (p, r, e)

-- A blip sent in full arrives as it is, whatever was there before.
pub perform_write_sync-Sends_blip :
    (unset : ℕ → ℕ) (t last : Trace)
    → IsTyped t
    → Sends (perform_write_sync full_mask t) (read_sync_from_stream unset last) t
perform_write_sync-Sends_blip unset t last h = sync-Sends unset full_mask t last h
