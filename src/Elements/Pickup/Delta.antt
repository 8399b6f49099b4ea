-- ===== src/Elements/Pickup/Delta.antt =====
-- What the other side makes of a pickup that is sent.
use gta_psp_multiplayer.Prelude.{
  ℕ, Bool, true, false, not, List, [], ◌∷◌, get_or, ◌≡◌, refl, sym, ◌∙◌, ◌⊎◌, ℕ_discrete, arith,
  inl, inr, ◌==◌, if◌then◌else◌,
}
use gta_psp_multiplayer.Prelude.Int.{ℤ}
use gta_psp_multiplayer.Sync.Types.{Vector}
use gta_psp_multiplayer.Sync.Writer.{WriteStream}
use gta_psp_multiplayer.Sync.Codec.Words.{u8-Carries}
use gta_psp_multiplayer.Sync.Codec.Fields.{InRange, i8-Carries, i16-Carries, bool-Carries}
use gta_psp_multiplayer.Sync.Codec.Composite.{IsFloat, vector-Carries}
use gta_psp_multiplayer.NetSession.Groups.{same}
use gta_psp_multiplayer.Elements.Mask.{has_bit, has_bit-set_bits}
use gta_psp_multiplayer.Elements.Section.{
  Sends, Sends-subst, Sends->>, Sends-map, Sends-when, Sends-part,
}
use gta_psp_multiplayer.Elements.Unset.{got}
use gta_psp_multiplayer.Elements.Pickup.{
  State, base_bit, position_bit, removed_bit, pickup_by_bit, full_mask, write_base, read_base,
  perform_write_sync, read_sync_from_stream, bool_ne, compare_sync_state, write_sync_delta,
}

-- The fields hold what goes through the stream.
pub record IsTyped (s : State) : Type 0 where
  pub model_index : InRange 16 s.model_index
  pub position : IsFloat s.position.x × IsFloat s.position.y × IsFloat s.position.z
  pub pickup_by : InRange 8 s.pickup_by

-- A state brought up to date where the conditions say so.
abbrev merge : Bool → Bool → Bool → Bool → State → State → State
merge b p r k s last = record {
  model_index = if b then s.model_index else last.model_index;
  quantity = if b then s.quantity else last.quantity;
  pickup_type = if b then s.pickup_type else last.pickup_type;
  position = if p then s.position else last.position;
  removed = if r then s.removed else last.removed;
  pickup_by = if k then s.pickup_by else last.pickup_by;
}

base-Sends :
    (unset : ℕ → ℕ) (s last : State)
    → IsTyped s
    → Sends (write_base s) (read_base unset last) (merge true false false false s last)
base-Sends unset s last h =
    Sends->> _ (got _ (i16-Carries s.model_index h.model_index))
      (Sends->> _ (got _ (u8-Carries s.quantity)) (Sends-map _ (got _ (u8-Carries s.pickup_type))))

base_part :
    (b : Bool) (s last : State)
    → (if b then merge true false false false s last else last) ≡ merge b false false false s last
base_part true s last = refl
base_part false s last = refl

sync-Sends :
    (unset : ℕ → ℕ) (mask : ℕ) (s last : State)
    → IsTyped s
    → Sends (perform_write_sync mask s) (read_sync_from_stream unset last) (
        merge
          (has_bit base_bit mask)
          (has_bit position_bit mask)
          (has_bit removed_bit mask)
          (has_bit pickup_by_bit mask)
          s
          last)
unfolding perform_write_sync read_sync_from_stream
sync-Sends unset mask s last h = Sends->> _ (got _ (u8-Carries mask)) (
    Sends->> _
      (Sends-subst (base_part (has_bit base_bit mask) s last)
        (Sends-when (read_base unset) (has_bit base_bit mask) (base-Sends unset s last h)))
      (Sends->> _
        (Sends-part (λ v t. record t { position = v }) last.position (has_bit position_bit mask)
          refl (got _ (vector-Carries s.position h.position.0 h.position.1 h.position.2)))
        (Sends->> _
          (Sends-part (λ v t. record t { removed = v }) last.removed (has_bit removed_bit mask) refl
            (got _ (bool-Carries s.removed)))
          (Sends-part (λ v t. record t { pickup_by = v }) last.pickup_by
            (has_bit pickup_by_bit mask) refl (got _ (i8-Carries s.pickup_by h.pickup_by))))))

-- A pickup sent in full arrives as it is, whatever was there before.
pub perform_write_sync-Sends_pickup :
    (unset : ℕ → ℕ) (s last : State)
    → IsTyped s
    → Sends (perform_write_sync full_mask s) (read_sync_from_stream unset last) s
perform_write_sync-Sends_pickup unset s last h = sync-Sends unset full_mask s last h

bool_kept : (a b : Bool) → (if bool_ne a b then a else b) ≡ a
bool_kept true true = refl
bool_kept true false = refl
bool_kept false true = refl
bool_kept false false = refl

int_kept : (a b : ℤ) → (if not (same a b) then a else b) ≡ a
unfolding same
int_kept a b = ground arith

module _ (vector_ne : Vector → Vector → Bool) where
  changes : State → State → List Bool
  changes s last =
      false
      ∷ vector_ne s.position last.position
      ∷ bool_ne s.removed last.removed
      ∷ not (same s.pickup_by last.pickup_by)
      ∷ []

  bits-compare :
      (n : ℕ) (s last : State)
      → has_bit n (compare_sync_state vector_ne s last) ≡ get_or (changes s last) n false
  unfolding compare_sync_state changes
  bits-compare n s last = has_bit-set_bits n (changes s last)

  -- The state that both sides have in common afterwards.
  abbrev pub agreed : State → State → State
  agreed s last = record last {
    position = if vector_ne s.position last.position then s.position else last.position;
    removed = s.removed;
    pickup_by = s.pickup_by;
  }

  merge-agreed :
      (s last : State)
      → let mask = compare_sync_state vector_ne s last in
        merge
          (has_bit base_bit mask)
          (has_bit position_bit mask)
          (has_bit removed_bit mask)
          (has_bit pickup_by_bit mask)
          s
          last
        ≡ agreed s last
  unfolding changes
  merge-agreed s last = rw (
    bits-compare 0 s last,
    bits-compare 1 s last,
    bits-compare 2 s last,
    bits-compare 3 s last,
    bool_kept s.removed last.removed,
    int_kept s.pickup_by last.pickup_by,
  )

  -- The difference of a pickup to a state that the other side has brings it to the removal, the collector
  -- and, as far as the comparison tells them apart, the position of the pickup that is sent; where nothing
  -- is written, the other side has all that already.
  pub write_sync_delta-Sends_pickup :
      (unset : ℕ → ℕ) (s last : State)
      → IsTyped s
      → (((w : WriteStream) → write_sync_delta vector_ne s last w ≡ (false, w))
          × (agreed s last ≡ last))
        ⊎ Sends
            (λ w. (write_sync_delta vector_ne s last w).1)
            (read_sync_from_stream unset last)
            (agreed s last)
  unfolding write_sync_delta
  write_sync_delta-Sends_pickup unset s last h =
      let mask = compare_sync_state vector_ne s last in
      elim (ℕ_discrete mask 0) [
        | yes e ↦ inl ((λ w. rw e), sym (merge-agreed s last) ∙ rw e)
        | no ne ↦
            let q : (mask == 0) ≡ false = ground arith in
            inr (rw q (Sends-subst (merge-agreed s last) (sync-Sends unset mask s last h)))
      ]
