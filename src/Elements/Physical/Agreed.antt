-- ===== src/Elements/Physical/Agreed.antt =====
-- The state that both sides have in common after a moving element is sent, in full or as a difference.
use gta_psp_multiplayer.Prelude.{
  ℕ, ◌^◌, ◌<◌, Bool, true, false, not, ◌&&◌, Option, some, List, [], ◌∷◌, get_or, ◌≡◌, refl, sym,
  ◌∙◌, arith, if_case, ==_iff, Bool-cases, inl, inr, ◌==◌, if◌then◌else◌,
}
use gta_psp_multiplayer.Sync.Types.{Vector}
use gta_psp_multiplayer.Elements.Mask.{has_bit, has_bit-set_bits, set_bits-lt}
use gta_psp_multiplayer.Elements.Section.{Sends, Sends-subst}
use gta_psp_multiplayer.Elements.Physical.{
  PhysicalSync, Body, Target, Pointers, full_mask, flags_bit, flag_entity, perform_write_sync,
  read_sync_from_stream_physical, Bound, matrix_threshold, position_threshold, speed_threshold,
  compare_sync_state,
}
use gta_psp_multiplayer.Elements.Physical.Delta.{
  IsVector, IsTyped, IsTypedBody, merge, merged, embodied, landed, sync-Sends,
}

-- A moving element sent in full arrives as it is, and so do the masses of its body: whatever was there
-- before, if each side has a body, and the owner's console an entity.
pub perform_write_sync-Sends_physical :
    (unset : ℕ → ℕ) (s last : PhysicalSync) (b c : Body) (is_local : Bool) (before e : Option ℕ)
    → IsTyped s
    → IsTypedBody b
    → flag_entity is_local s.flags before ≡ some e
    → Sends
        (perform_write_sync full_mask (some b) s)
        (read_sync_from_stream_physical unset is_local
          (record { sync = last; element = record { body = some c; entity_flags = before } }))
        (record {
          sync = s;
          element = record {
            body = some (record b { body_flags = s.flags; b4e_8 = false });
            entity_flags = e;
          };
        })
unfolding landed
perform_write_sync-Sends_physical unset s last b c is_local before e h k q =
    sync-Sends unset full_mask s last b c is_local before e h k q

again :
    {A : Type 0} (t : Bool) (x y : A)
    → (if t then (if t then x else y) else y) ≡ (if t then x else y)
again true x y = refl
again false x y = refl

-- The pointers after flags `b`, where they differ from the last ones `a`.
abbrev flagged : ℕ → ℕ → Option ℕ → Option ℕ → Body → Pointers
flagged a b before e c =
    if not (a == b)
    then record { body = some (record c { body_flags = b; b4e_8 = false }); entity_flags = e }
    else record { body = some c; entity_flags = before }

-- Whether the flags are sent or not, they are those of `y`.
landed-flags :
    (a b : ℕ) (y : PhysicalSync) (before e : Option ℕ) (c : Body)
    → y.flags ≡ b
    → landed (not (a == b)) b before e (record y { flags = a }) c
      ≡ record { sync = y; element = flagged a b before e c }
unfolding landed
landed-flags a b y before e c p = elim (Bool-cases (a == b)) [
  | inl q ↦ let r : a ≡ y.flags = (==_iff a b).0 q ∙ sym p in rw (q, r)
  | inr q ↦ rw (q, ← p)
]

module _ (beyond : Bound → Vector → Vector → Bool) (vector_ne : Vector → Vector → Bool) where
  turned : PhysicalSync → PhysicalSync → Bool
  turned s last =
      if beyond matrix_threshold last.up s.up
      then true
      else beyond matrix_threshold last.forward s.forward

  changes : PhysicalSync → PhysicalSync → List Bool
  changes s last =
      turned s last
      ∷ beyond position_threshold last.position s.position
      ∷ beyond speed_threshold last.move_speed s.move_speed
      ∷ beyond speed_threshold last.turn_speed s.turn_speed
      ∷ vector_ne last.move_friction s.move_friction
      ∷ vector_ne last.turn_friction s.turn_friction
      ∷ false
      ∷ (true && not (last.flags == s.flags))
      ∷ []

  -- The mask, and the state that the sender goes on with.
  abbrev pub mask_of : PhysicalSync → PhysicalSync → ℕ
  mask_of s last = (compare_sync_state beyond vector_ne true s last).0

  abbrev pub snapped : PhysicalSync → PhysicalSync → PhysicalSync
  snapped s last = (compare_sync_state beyond vector_ne true s last).1

  bits-compare :
      (n : ℕ) (s last : PhysicalSync) → has_bit n (mask_of s last) ≡ get_or (changes s last) n false
  unfolding compare_sync_state changes turned
  bits-compare n s last = has_bit-set_bits n (changes s last)

  -- The sender's state, with the last frictions where the comparison does not tell them apart.
  abbrev pub agreed : PhysicalSync → PhysicalSync → PhysicalSync
  agreed s last = record (snapped s last) {
    move_friction =
        if vector_ne last.move_friction s.move_friction
        then s.move_friction
        else last.move_friction;
    turn_friction =
        if vector_ne last.turn_friction s.turn_friction
        then s.turn_friction
        else last.turn_friction;
  }

  -- The parts that are not told apart are the same on both sides, so it does not matter whose they are.
  merge-snapped :
      (s last : PhysicalSync)
      → merge
          (turned s last)
          (beyond position_threshold last.position s.position)
          (beyond speed_threshold last.move_speed s.move_speed)
          (beyond speed_threshold last.turn_speed s.turn_speed)
          (vector_ne last.move_friction s.move_friction)
          (vector_ne last.turn_friction s.turn_friction)
          (snapped s last)
          last
        ≡ record (agreed s last) { flags = last.flags }
  unfolding compare_sync_state turned
  merge-snapped s last = rw (
    again (turned s last) s.right last.right,
    again (turned s last) s.forward last.forward,
    again (turned s last) s.up last.up,
    again (beyond position_threshold last.position s.position) s.position last.position,
    again (beyond speed_threshold last.move_speed s.move_speed) s.move_speed last.move_speed,
    again (beyond speed_threshold last.turn_speed s.turn_speed) s.turn_speed last.turn_speed,
  )

  merged-agreed :
      (s last : PhysicalSync)
      → merged (mask_of s last) (snapped s last) last
        ≡ record (agreed s last) { flags = last.flags }
  unfolding changes
  merged-agreed s last =
      rw
        (
          bits-compare 0 s last,
          bits-compare 1 s last,
          bits-compare 2 s last,
          bits-compare 3 s last,
          bits-compare 4 s last,
          bits-compare 5 s last,
        )
        (merge-snapped s last)

  snapped-IsTyped : (s last : PhysicalSync) → IsTyped s → IsTyped last → IsTyped (snapped s last)
  unfolding compare_sync_state
  snapped-IsTyped s last h k = record {
    right = if_case IsVector _ h.right k.right;
    forward = if_case IsVector _ h.forward k.forward;
    up = if_case IsVector _ h.up k.up;
    position = if_case IsVector _ h.position k.position;
    move_speed = if_case IsVector _ h.move_speed k.move_speed;
    turn_speed = if_case IsVector _ h.turn_speed k.turn_speed;
    move_friction = h.move_friction;
    turn_friction = h.turn_friction;
  }

  snapped_flags : (s last : PhysicalSync) → (snapped s last).flags ≡ s.flags
  unfolding compare_sync_state
  snapped_flags s last = refl

  -- What the receiver has: the agreed state, and new flags on its body if they differ from the last ones.
  abbrev pub received : PhysicalSync → PhysicalSync → Body → Option ℕ → Option ℕ → Target
  received s last c before e = record {
    sync = agreed s last;
    element = flagged last.flags s.flags before e c;
  }

  landed-received :
      (s last : PhysicalSync) (b c : Body) (before e : Option ℕ)
      → landed
          (has_bit flags_bit (mask_of s last))
          (snapped s last).flags
          before
          e
          (merged (mask_of s last) (snapped s last) last)
          (embodied (mask_of s last) b c)
        ≡ received s last c before e
  unfolding changes compare_sync_state
  landed-received s last b c before e =
      rw (merged-agreed s last, bits-compare 6 s last, bits-compare 7 s last, snapped_flags s last)
        (landed-flags last.flags s.flags (agreed s last) before e c (snapped_flags s last))

  -- The difference of a moving element to a state that the other side has turns that state into the very
  -- state that the sender goes on with, which is the sent one with the parts left alone that are close to
  -- the last ones; only a friction that is not told apart may still be the last one.
  pub compare_sync_state-Sends_physical :
      (unset : ℕ → ℕ) (s last : PhysicalSync) (b c : Body) (is_local : Bool) (before e : Option ℕ)
      → IsTyped s
      → IsTyped last
      → IsTypedBody b
      → flag_entity is_local s.flags before ≡ some e
      → Sends
          (perform_write_sync (mask_of s last) (some b) (snapped s last))
          (read_sync_from_stream_physical unset is_local
            (record { sync = last; element = record { body = some c; entity_flags = before } }))
          (received s last c before e)
  compare_sync_state-Sends_physical unset s last b c is_local before e h k j q =
      Sends-subst (landed-received s last b c before e) (
        sync-Sends unset (mask_of s last) (snapped s last) last b c is_local before e
          (snapped-IsTyped s last h k) j (rw (snapped_flags s last) q))

  pub mask_of-lt : (s last : PhysicalSync) → mask_of s last < 2 ^ 8
  unfolding compare_sync_state changes turned
  mask_of-lt s last = set_bits-lt 0 (changes s last) 0 (omega arith)

  -- An empty mask says that the receiver has the agreed state already.
  pub received_already :
      (s last : PhysicalSync) (c : Body) (before e : Option ℕ)
      → mask_of s last ≡ 0
      → record { sync = last; element = record { body = some c; entity_flags = before } }
        ≡ received s last c before e
  unfolding landed
  received_already s last c before e q = (rw q) ∙ landed-received s last c c before e
