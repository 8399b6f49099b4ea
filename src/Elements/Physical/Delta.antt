-- ===== src/Elements/Physical/Delta.antt =====
-- What the other side makes of a moving element that is sent.
use gta_psp_multiplayer.Prelude.{ℕ, Bool, true, false, Option, some, ◌≡◌, refl, if◌then◌else◌}
use gta_psp_multiplayer.Sync.Types.{Vector}
use gta_psp_multiplayer.Sync.Reader.{◌>>=◌}
use gta_psp_multiplayer.Sync.Writer.{write_u8, write_vector}
use gta_psp_multiplayer.Sync.Codec.Words.{u8-Carries}
use gta_psp_multiplayer.Sync.Codec.Fields.{float-Carries}
use gta_psp_multiplayer.Sync.Codec.Composite.{IsFloat, vector-Carries}
use gta_psp_multiplayer.Elements.Mask.{has_bit}
use gta_psp_multiplayer.Elements.Section.{
  when, patch, Sends, Sends-nothing, Sends-subst, Sends->>, Sends-map, Sends-when, Sends-part,
}
use gta_psp_multiplayer.Elements.Unset.{get_u8, get_vector, got}
use gta_psp_multiplayer.Elements.Physical.{
  PhysicalSync, Body, Target, matrix_bit, position_bit, move_speed_bit, turn_speed_bit,
  move_friction_bit, turn_friction_bit, body_bit, flags_bit, write_matrix, write_body,
  write_pointed, read_matrix, read_body, read_pointed, flag_entity, set_flags, stopped_at,
  perform_write_sync, read_sync_from_stream_physical,
}

abbrev pub IsVector : Vector → Type 0
IsVector v = IsFloat v.x × IsFloat v.y × IsFloat v.z

-- The fields hold what goes through the stream.
pub record IsTyped (s : PhysicalSync) : Type 0 where
  pub right : IsVector s.right
  pub forward : IsVector s.forward
  pub up : IsVector s.up
  pub position : IsVector s.position
  pub move_speed : IsVector s.move_speed
  pub turn_speed : IsVector s.turn_speed
  pub move_friction : IsVector s.move_friction
  pub turn_friction : IsVector s.turn_friction

pub record IsTypedBody (b : Body) : Type 0 where
  pub mass : IsFloat b.mass
  pub turn_mass : IsFloat b.turn_mass
  pub force_multiplier : IsFloat b.force_multiplier
  pub air_resistance : IsFloat b.air_resistance
  pub elasticity : IsFloat b.elasticity
  pub buoyancy : IsFloat b.buoyancy
  pub centre_of_mass : IsVector b.centre_of_mass

vector-Sends :
    (unset : ℕ → ℕ) (k : ℕ) (v : Vector)
    → IsVector v
    → Sends (write_vector v) (get_vector unset k) v
vector-Sends unset k v h = got _ (vector-Carries v h.0 h.1 h.2)

-- The masses of `b` in the body `c`.
abbrev pub with_masses : Body → Body → Body
with_masses b c = record b { body_flags = c.body_flags; b4e_8 = c.b4e_8 }

body-Sends :
    (unset : ℕ → ℕ) (b c : Body)
    → IsTypedBody b
    → Sends (write_body b) (read_body unset c) (with_masses b c)
body-Sends unset b c h = Sends->> _ (got _ (float-Carries b.mass h.mass)) (
    Sends->> _ (got _ (float-Carries b.turn_mass h.turn_mass)) (
      Sends->> _ (got _ (float-Carries b.force_multiplier h.force_multiplier)) (
        Sends->> _ (got _ (float-Carries b.air_resistance h.air_resistance)) (
          Sends->> _ (got _ (float-Carries b.elasticity h.elasticity)) (
            Sends->> _ (got _ (float-Carries b.buoyancy h.buoyancy))
              (Sends-map _ (vector-Sends unset _ b.centre_of_mass h.centre_of_mass)))))))

-- A state brought up to date where the conditions say so, its flags aside.
abbrev pub merge :
    Bool → Bool → Bool → Bool → Bool → Bool → PhysicalSync → PhysicalSync → PhysicalSync
merge m p v t f g s last = record last {
  right = if m then s.right else last.right;
  forward = if m then s.forward else last.forward;
  up = if m then s.up else last.up;
  position = if p then s.position else last.position;
  move_speed = if v then s.move_speed else last.move_speed;
  turn_speed = if t then s.turn_speed else last.turn_speed;
  move_friction = if f then s.move_friction else last.move_friction;
  turn_friction = if g then s.turn_friction else last.turn_friction;
}

matrix-Sends :
    (unset : ℕ → ℕ) (m : Bool) (s last : PhysicalSync)
    → IsTyped s
    → Sends
        (when m (write_matrix s))
        (patch m (read_matrix unset) last)
        (merge m false false false false false s last)
matrix-Sends unset m s last h = Sends-subst (both m) (
    Sends-when (read_matrix unset) m (
      Sends->> _ (vector-Sends unset _ s.right h.right) (
        Sends->> _ (vector-Sends unset _ s.forward h.forward)
          (Sends-map _ (vector-Sends unset _ s.up h.up)))))
  where
    both :
        (m : Bool)
        → (if m then merge true false false false false false s last else last)
          ≡ merge m false false false false false s last
    both true = refl
    both false = refl

pointed-Sends :
    (unset : ℕ → ℕ) (t : Bool) (b c : Body)
    → IsTypedBody b
    → Sends
        (when t (write_pointed (some b)))
        (patch t (read_pointed unset) (some c))
        (some (if t then with_masses b c else c))
pointed-Sends unset t b c h =
    Sends-subst (both t)
      (Sends-when (read_pointed unset) t (Sends-map some (body-Sends unset b c h)))
  where
    both :
        (t : Bool)
        → (if t then some (with_masses b c) else some c) ≡ some (if t then with_masses b c else c)
    both true = refl
    both false = refl

flags-Sends :
    (unset : ℕ → ℕ) (f : Bool) (is_local : Bool) (flags : ℕ) (r q : Target)
    → set_flags is_local flags r ≡ some q
    → Sends
        (when f (write_u8 flags))
        (patch f (λ t. get_u8 unset 34 >>= λ n. stopped_at (set_flags is_local n t)) r)
        (if f then q else r)
flags-Sends unset f is_local flags r q e =
    Sends-when (λ t. get_u8 unset 34 >>= λ n. stopped_at (set_flags is_local n t)) f
      (Sends->> {w = λ w. w} (λ n. stopped_at (set_flags is_local n r)) (got _ (u8-Carries flags))
        (rw e (Sends-nothing q)))

-- What a mask has of a state and of a body.
abbrev pub merged : ℕ → PhysicalSync → PhysicalSync → PhysicalSync
merged mask s last =
    merge (has_bit matrix_bit mask) (has_bit position_bit mask) (has_bit move_speed_bit mask)
      (has_bit turn_speed_bit mask) (has_bit move_friction_bit mask)
      (has_bit turn_friction_bit mask) s last

abbrev pub embodied : ℕ → Body → Body → Body
embodied mask b c = if has_bit body_bit mask then with_masses b c else c

-- A state and a body as read so far, and the flags if they follow.
unfoldable pub landed : Bool → ℕ → Option ℕ → Option ℕ → PhysicalSync → Body → Target
landed sent_flags flags before e s c =
    if sent_flags
    then record {
      sync = record s { flags = flags };
      element = record {
        body = some (record c { body_flags = flags; b4e_8 = false });
        entity_flags = e;
      };
    }
    else record { sync = s; element = record { body = some c; entity_flags = before } }

pub sync-Sends :
    (unset : ℕ → ℕ) (mask : ℕ) (s last : PhysicalSync) (b c : Body) (is_local : Bool)
    (before e : Option ℕ)
    → IsTyped s
    → IsTypedBody b
    → flag_entity is_local s.flags before ≡ some e
    → Sends
        (perform_write_sync mask (some b) s)
        (read_sync_from_stream_physical unset is_local
          (record { sync = last; element = record { body = some c; entity_flags = before } }))
        (landed (has_bit flags_bit mask) s.flags before e (merged mask s last) (embodied mask b c))
unfolding landed perform_write_sync read_sync_from_stream_physical
sync-Sends unset mask s last b c is_local before e h k q = Sends->> _ (got _ (u8-Carries mask)) (
    Sends->> _ (matrix-Sends unset (has_bit matrix_bit mask) s last h) (
      Sends->> _
        (Sends-part (λ v t. record t { position = v }) last.position (has_bit position_bit mask)
          refl (vector-Sends unset _ s.position h.position))
        (Sends->> _
          (Sends-part (λ v t. record t { move_speed = v }) last.move_speed
            (has_bit move_speed_bit mask) refl (vector-Sends unset _ s.move_speed h.move_speed))
          (Sends->> _
            (Sends-part (λ v t. record t { turn_speed = v }) last.turn_speed
              (has_bit turn_speed_bit mask) refl (vector-Sends unset _ s.turn_speed h.turn_speed))
            (Sends->> _
              (Sends-part (λ v t. record t { move_friction = v }) last.move_friction
                (has_bit move_friction_bit mask) refl
                (vector-Sends unset _ s.move_friction h.move_friction))
              (Sends->> _
                (Sends-part (λ v t. record t { turn_friction = v }) last.turn_friction
                  (has_bit turn_friction_bit mask) refl
                  (vector-Sends unset _ s.turn_friction h.turn_friction))
                (Sends->> _ (pointed-Sends unset (has_bit body_bit mask) b c k) (
                  flags-Sends unset (has_bit flags_bit mask) is_local s.flags _ _
                    (flagged (merged mask s last) (embodied mask b c))))))))))
  where
    flagged :
        (y : PhysicalSync) (d : Body)
        → set_flags is_local s.flags
            (record { sync = y; element = record { body = some d; entity_flags = before } })
          ≡ some (record {
            sync = record y { flags = s.flags };
            element = record {
              body = some (record d { body_flags = s.flags; b4e_8 = false });
              entity_flags = e;
            };
          })
    flagged y d = rw (set_flags, q)
