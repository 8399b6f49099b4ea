-- ===== src/Elements/Object/Delta.antt =====
-- What both sides have of an object after it is sent as a difference.
use native.Mathlib.Nat.{mod-eq_of_lt}
use gta_psp_multiplayer.Prelude.{
  ℕ, ◌%◌, ◌^◌, ◌<◌, Bool, true, false, not, Option, some, List, [], ◌∷◌, ◌≡◌, refl, ◌∙◌, ◌⊎◌, inl,
  inr, ℕ_discrete, arith, ◌==◌, if◌then◌else◌,
}
use gta_psp_multiplayer.Prelude.Int.{ℤ}
use gta_psp_multiplayer.Sync.Types.{Vector}
use gta_psp_multiplayer.Sync.Writer.{WriteStream}
use gta_psp_multiplayer.Sync.Codec.Words.{u32-Carries}
use gta_psp_multiplayer.Sync.Codec.Fields.{InRange, i8-Carries}
use gta_psp_multiplayer.NetSession.Groups.{same}
use gta_psp_multiplayer.Elements.Mask.{has_bit, set_bits, has_bit-set_bits, set_bits-lt}
use gta_psp_multiplayer.Elements.Section.{when, patch, Sends, Sends-subst, Sends->>, Sends-part}
use gta_psp_multiplayer.Elements.Unset.{got}
use gta_psp_multiplayer.Elements.Physical.{Body, Target, Bound, flag_entity}
use gta_psp_multiplayer.Elements.Physical.Delta.{IsTyped, IsTypedBody}
use gta_psp_multiplayer.Elements.Physical.Agreed.{
  mask_of, snapped, received, mask_of-lt, received_already, compare_sync_state-Sends_physical,
}
use gta_psp_multiplayer.Elements.Physical
use gta_psp_multiplayer.Elements.Object.{
  ObjectSync, ObjectTarget, Differences, set_equal, physical_bit, health_bit, perform_write_sync,
  read_physical, read_sync_from_stream, compare_sync_state, write_sync_delta,
}

int_kept : (a b : ℤ) → (if not (same b a) then a else b) ≡ a
unfolding same
int_kept a b = ground arith

module _ (beyond : Bound → Vector → Vector → Bool) (vector_ne : Vector → Vector → Bool) where
  abbrev changes : ObjectSync → ObjectSync → List Bool
  changes s last =
      not (mask_of beyond vector_ne s.physical last.physical == 0)
      ∷ not (same last.health s.health)
      ∷ []

  object_diff : ObjectSync → ObjectSync → ℕ
  object_diff s last = set_bits 0 (changes s last) 0

  -- The receiver's state before and after.
  abbrev pub before_delta : ObjectSync → Body → Option ℕ → ObjectTarget
  before_delta last c before = record {
    part = record {
      sync = last.physical;
      element = record { body = some c; entity_flags = before };
    };
    target_health = last.health;
  }

  abbrev pub after_delta : ObjectSync → ObjectSync → Body → Option ℕ → Option ℕ → ObjectTarget
  after_delta s last c before e = record {
    part = received beyond vector_ne s.physical last.physical c before e;
    target_health = s.health;
  }

  -- The state that the sender goes on with.
  abbrev pub kept : ObjectSync → ObjectSync → ObjectSync
  kept s last = record {
    physical = snapped beyond vector_ne s.physical last.physical;
    health = s.health;
  }

  differences : ObjectSync → ObjectSync → Differences
  differences s last = record {
    object_diff = object_diff s last;
    physical_diff = mask_of beyond vector_ne s.physical last.physical;
  }

  compare-differences :
      (s last : ObjectSync)
      → compare_sync_state beyond vector_ne false true s last set_equal
        ≡ (differences s last, kept s last)
  unfolding compare_sync_state differences object_diff
  compare-differences s last = refl

  physical-has_bit :
      (s last : ObjectSync)
      → has_bit physical_bit (object_diff s last)
        ≡ not (mask_of beyond vector_ne s.physical last.physical == 0)
  unfolding object_diff
  physical-has_bit s last = has_bit-set_bits 0 (changes s last)

  health-has_bit :
      (s last : ObjectSync)
      → has_bit health_bit (object_diff s last) ≡ not (same last.health s.health)
  unfolding object_diff
  health-has_bit s last = has_bit-set_bits 1 (changes s last)

  object_diff-lt : (s last : ObjectSync) → object_diff s last < 2 ^ 32
  unfolding object_diff
  object_diff-lt s last = omega (arith, set_bits-lt 0 (changes s last) 0 (omega arith))

  -- The part of the motion, sent or not.
  part_sent :
      (s last : ObjectSync) (c : Body) (before e : Option ℕ)
      → (if not (mask_of beyond vector_ne s.physical last.physical == 0)
          then received beyond vector_ne s.physical last.physical c before e
          else (before_delta last c before).part)
        ≡ received beyond vector_ne s.physical last.physical c before e
  part_sent s last c before e =
      elim (ℕ_discrete (mask_of beyond vector_ne s.physical last.physical) 0) [
        | yes z ↦ rw z (received_already beyond vector_ne s.physical last.physical c before e z)
        | no z ↦
            let t : (mask_of beyond vector_ne s.physical last.physical == 0) ≡ false =
              ground arith in
            rw t
      ]

  -- The receiver's state, by the bits of the mask.
  abbrev arriving : ℕ → ObjectSync → ObjectSync → Body → Option ℕ → Option ℕ → ObjectTarget
  arriving diff s last c before e = record {
    part =
        if has_bit physical_bit diff
        then received beyond vector_ne s.physical last.physical c before e
        else (before_delta last c before).part;
    target_health = if has_bit health_bit diff then s.health else last.health;
  }

  arrived :
      (s last : ObjectSync) (c : Body) (before e : Option ℕ)
      → arriving (object_diff s last) s last c before e ≡ after_delta s last c before e
  arrived s last c before e = rw (
    physical-has_bit s last,
    health-has_bit s last,
    part_sent s last c before e,
    int_kept s.health last.health,
  )

  part-Sends :
      (unset : ℕ → ℕ) (s last : ObjectSync) (b c : Body) (is_local : Bool) (before e : Option ℕ)
      (t : Bool)
      → IsTyped s.physical
      → IsTyped last.physical
      → IsTypedBody b
      → flag_entity is_local s.physical.flags before ≡ some e
      → Sends
          (when t (
            Physical.perform_write_sync
              (mask_of beyond vector_ne s.physical last.physical % 2 ^ 8)
              (some b)
              (snapped beyond vector_ne s.physical last.physical)))
          (patch t (read_physical unset is_local) (before_delta last c before))
          (record (before_delta last c before) {
            part =
                if t
                then received beyond vector_ne s.physical last.physical c before e
                else (before_delta last c before).part;
          })
  part-Sends unset s last b c is_local before e t h k l q =
      let m : mask_of beyond vector_ne s.physical last.physical % 2 ^ 8
          ≡ mask_of beyond vector_ne s.physical last.physical =
        mod-eq_of_lt (mask_of-lt beyond vector_ne s.physical last.physical) in
      Sends-part (λ v r. record r { part = v }) (before_delta last c before).part t refl
        (rw m (
          compare_sync_state-Sends_physical beyond vector_ne unset s.physical last.physical b c
            is_local before e h k l q))

  object-Sends :
      (unset : ℕ → ℕ) (s last : ObjectSync) (b c : Body) (is_local : Bool) (before e : Option ℕ)
      → IsTyped s.physical
      → IsTyped last.physical
      → InRange 8 s.health
      → IsTypedBody b
      → flag_entity is_local s.physical.flags before ≡ some e
      → Sends
          (perform_write_sync false (differences s last) (some b) (kept s last))
          (read_sync_from_stream unset false is_local (before_delta last c before))
          (after_delta s last c before e)
  unfolding perform_write_sync read_sync_from_stream differences
  object-Sends unset s last b c is_local before e h k j l q =
      Sends-subst (arrived s last c before e) (
        Sends->> _ (got _ (u32-Carries (object_diff s last) (object_diff-lt s last))) (
          Sends->> _
            (part-Sends unset s last b c is_local before e
              (has_bit physical_bit (object_diff s last)) h k l q)
            (Sends-part (λ v r. record r { target_health = v }) last.health
              (has_bit health_bit (object_diff s last)) refl (got _ (i8-Carries s.health j)))))

  -- The difference of an object to a state that the other side has turns that state into the one that the
  -- sender goes on with, its health and, as far as a comparison tells it apart, each part of its motion;
  -- where nothing is written, the other side has that state already.
  pub write_sync_delta-Sends_object :
      (unset : ℕ → ℕ) (s last : ObjectSync) (b c : Body) (is_local : Bool) (before e : Option ℕ)
      → IsTyped s.physical
      → IsTyped last.physical
      → InRange 8 s.health
      → IsTypedBody b
      → flag_entity is_local s.physical.flags before ≡ some e
      → (((w : WriteStream)
            → write_sync_delta beyond vector_ne false (some b) s last w ≡ (false, kept s last, w))
          × (before_delta last c before ≡ after_delta s last c before e))
        ⊎ Sends
            (λ w. (write_sync_delta beyond vector_ne false (some b) s last w).2)
            (read_sync_from_stream unset false is_local (before_delta last c before))
            (after_delta s last c before e)
  unfolding write_sync_delta differences
  write_sync_delta-Sends_object unset s last b c is_local before e h k j l q =
      elim (ℕ_discrete (object_diff s last) 0) [
        | yes z ↦
            inl ((λ w. rw (compare-differences s last, z)), unchanged z ∙ arrived s last c before e)
        | no z ↦
            let t : (object_diff s last == 0) ≡ false = ground arith in
            inr (
              rw (compare-differences s last, t)
                (object-Sends unset s last b c is_local before e h k j l q))
      ]
    where
      unchanged :
          object_diff s last ≡ 0
          → before_delta last c before ≡ arriving (object_diff s last) s last c before e
      unchanged z = rw z
