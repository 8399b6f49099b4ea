-- ===== src/Elements/Physical.antt =====
-- What all moving elements share (`sElementPhysical` of C Reversed/elements/sElementPhysical.cpp): the
-- state of a body, what of it is sent, and how the other side reads it.
pub mod Delta
pub mod Agreed
use gta_psp_multiplayer.Prelude.{
  ℕ, Bool, true, false, not, ◌&&◌, Option, none, some, ◌==◌, if◌then◌else◌,
}
use gta_psp_multiplayer.Sync.Types.{Float, Vector}
use gta_psp_multiplayer.Sync.Reader.{Reader, ◌>>=◌, return}
use gta_psp_multiplayer.Sync.Writer.{Writer, ◌>>◌, write_u8, write_float, write_vector}
use gta_psp_multiplayer.Elements.Mask.{has_bit, set_bit}
use gta_psp_multiplayer.Elements.Section.{when, patch}
use gta_psp_multiplayer.Elements.Unset.{get_u8, get_float, get_vector}

-- An `sElementPhysicalSync`.
pub record PhysicalSync : Type 0 where
  pub right : Vector
  pub forward : Vector
  pub up : Vector
  pub position : Vector
  pub move_speed : Vector
  pub turn_speed : Vector
  pub move_friction : Vector
  pub turn_friction : Vector
  pub flags : ℕ

-- What of a `cPhysicalMG` is sent or written; `b4e_8` is its flag of that name.
pub record Body : Type 0 where
  pub mass : Float
  pub turn_mass : Float
  pub force_multiplier : Float
  pub air_resistance : Float
  pub elasticity : Float
  pub buoyancy : Float
  pub centre_of_mass : Vector
  pub body_flags : ℕ
  pub b4e_8 : Bool

-- The pointers of an element: the body (`m_pPhyElem`) and the flags of the game's entity (`m_pEntity`).
pub record Pointers : Type 0 where
  pub body : Option Body
  pub entity_flags : Option ℕ

-- What a read writes to.
pub record Target : Type 0 where
  pub sync : PhysicalSync
  pub element : Pointers

-- The bits of `ePhysicalSync`.
abbrev pub matrix_bit : ℕ
matrix_bit = 0

abbrev pub position_bit : ℕ
position_bit = 1

abbrev pub move_speed_bit : ℕ
move_speed_bit = 2

abbrev pub turn_speed_bit : ℕ
turn_speed_bit = 3

abbrev pub move_friction_bit : ℕ
move_friction_bit = 4

abbrev pub turn_friction_bit : ℕ
turn_friction_bit = 5

abbrev pub body_bit : ℕ
body_bit = 6

abbrev pub flags_bit : ℕ
flags_bit = 7

abbrev pub full_mask : ℕ
full_mask = 0xff

abbrev pub write_matrix : PhysicalSync → Writer
write_matrix s = write_vector s.right >> write_vector s.forward >> write_vector s.up

abbrev pub write_body : Body → Writer
write_body b =
    write_float b.mass
    >> write_float b.turn_mass
    >> write_float b.force_multiplier
    >> write_float b.air_resistance
    >> write_float b.elasticity
    >> write_float b.buoyancy
    >> write_vector b.centre_of_mass

-- `if (... && GetPhysical())`
abbrev pub write_pointed : Option Body → Writer
write_pointed none w = w
write_pointed (some b) w = write_body b w

-- `PerformWriteSync`
unfoldable pub perform_write_sync : ℕ → Option Body → PhysicalSync → Writer
perform_write_sync mask body s =
    write_u8 mask
    >> when (has_bit matrix_bit mask) (write_matrix s)
    >> when (has_bit position_bit mask) (write_vector s.position)
    >> when (has_bit move_speed_bit mask) (write_vector s.move_speed)
    >> when (has_bit turn_speed_bit mask) (write_vector s.turn_speed)
    >> when (has_bit move_friction_bit mask) (write_vector s.move_friction)
    >> when (has_bit turn_friction_bit mask) (write_vector s.turn_friction)
    >> when (has_bit body_bit mask) (write_pointed body)
    >> when (has_bit flags_bit mask) (write_u8 s.flags)

abbrev pub read_matrix : (ℕ → ℕ) → PhysicalSync → Reader PhysicalSync
read_matrix unset s = do
  a ← get_vector unset 0
  b ← get_vector unset 3
  c ← get_vector unset 6
  return (record s { right = a; forward = b; up = c })

abbrev pub read_body : (ℕ → ℕ) → Body → Reader Body
read_body unset b = do
  m ← get_float unset 9
  t ← get_float unset 10
  f ← get_float unset 11
  a ← get_float unset 12
  e ← get_float unset 13
  o ← get_float unset 14
  c ← get_vector unset 15
  return (record b {
    mass = m;
    turn_mass = t;
    force_multiplier = f;
    air_resistance = a;
    elasticity = e;
    buoyancy = o;
    centre_of_mass = c;
  })

abbrev pub read_pointed : (ℕ → ℕ) → Option Body → Reader (Option Body)
read_pointed unset none = return none
read_pointed unset (some b) = read_body unset b >>= λ c. return (some c)

-- The flags of the entity, which is asserted to be there on the owner's console: none if it is not.
unfoldable pub flag_entity : Bool → ℕ → Option ℕ → Option (Option ℕ)
flag_entity false f e = some e
flag_entity true f none = none
flag_entity true f (some _) = some (some f)

-- Where the flags go. An assertion that fails, here that there is a body, stops the program: none.
unfoldable pub set_flags : Bool → ℕ → Target → Option Target
unfolding flag_entity
set_flags is_local f t = elim t.element.body [
  | none ↦ none
  | some b ↦ elim (flag_entity is_local f t.element.entity_flags) [
    | none ↦ none
    | some e ↦ some (record {
      sync = record t.sync { flags = f };
      element = record {
        body = some (record b { body_flags = f; b4e_8 = false });
        entity_flags = e;
      };
    })
  ]
]

abbrev pub stopped_at : {A : Type 0} → Option A → Reader A
stopped_at o s = (o, s)

-- `ReadSyncFromStreamPhysical`; `is_local` is `GetOwner() == LocalPlayerID()`.
unfoldable pub read_sync_from_stream_physical : (ℕ → ℕ) → Bool → Target → Reader Target
unfolding set_flags
read_sync_from_stream_physical unset is_local t = do
  mask ← get_u8 unset 18
  s1 ← patch (has_bit matrix_bit mask) (read_matrix unset) t.sync
  s2 ←
      patch (has_bit position_bit mask)
        (λ s. get_vector unset 19 >>= λ v. return (record s { position = v })) s1
  s3 ←
      patch (has_bit move_speed_bit mask)
        (λ s. get_vector unset 22 >>= λ v. return (record s { move_speed = v })) s2
  s4 ←
      patch (has_bit turn_speed_bit mask)
        (λ s. get_vector unset 25 >>= λ v. return (record s { turn_speed = v })) s3
  s5 ←
      patch (has_bit move_friction_bit mask)
        (λ s. get_vector unset 28 >>= λ v. return (record s { move_friction = v })) s4
  s6 ←
      patch (has_bit turn_friction_bit mask)
        (λ s. get_vector unset 31 >>= λ v. return (record s { turn_friction = v })) s5
  b ← patch (has_bit body_bit mask) (read_pointed unset) t.element.body
  patch (has_bit flags_bit mask) (λ r. get_u8 unset 34 >>= λ f. stopped_at (set_flags is_local f r))
      (record { sync = s6; element = record t.element { body = b } })

-- The bounds of `CompareSyncState` on the square of a distance.
pub data Bound : Type 0 where
  matrix_threshold : Bound
  position_threshold : Bound
  speed_threshold : Bound

-- `(a - b).MagnitudeSqr() > bound` and `a != b`, of `CVector`, which the elements use and do not
-- implement.
module _ (beyond : Bound → Vector → Vector → Bool) (vector_ne : Vector → Vector → Bool) where
  -- `CompareSyncState`: the mask, and the state to be sent, in which the parts that are close to those of
  -- the last one are made equal to them.
  unfoldable pub compare_sync_state : Bool → PhysicalSync → PhysicalSync → ℕ × PhysicalSync
  compare_sync_state has_body s last =
      let turned =
        if beyond matrix_threshold last.up s.up
        then true
        else beyond matrix_threshold last.forward s.forward in
      let moved = beyond position_threshold last.position s.position in
      let sped = beyond speed_threshold last.move_speed s.move_speed in
      let spun = beyond speed_threshold last.turn_speed s.turn_speed in
      let m1 = set_bit turned matrix_bit 0 in
      let m2 = set_bit moved position_bit m1 in
      let m3 = set_bit sped move_speed_bit m2 in
      let m4 = set_bit spun turn_speed_bit m3 in
      let m5 = set_bit (vector_ne last.move_friction s.move_friction) move_friction_bit m4 in
      let m6 = set_bit (vector_ne last.turn_friction s.turn_friction) turn_friction_bit m5 in
      (
        set_bit (has_body && not (last.flags == s.flags)) flags_bit m6,
        record s {
          right = if turned then s.right else last.right;
          forward = if turned then s.forward else last.forward;
          up = if turned then s.up else last.up;
          position = if moved then s.position else last.position;
          move_speed = if sped then s.move_speed else last.move_speed;
          turn_speed = if spun then s.turn_speed else last.turn_speed;
        },
      )
