-- ===== src/Elements/Tests.antt =====
-- Elements on concrete states: what is sent of them, and what arrives.
use gta_psp_multiplayer.Prelude.{
  ℕ, ◌+◌, Bool, true, false, none, some, [], ◌∷◌, ◌≡◌, refl, ◌⊎◌, ◌||◌, arith,
}
use gta_psp_multiplayer.Prelude.Int.{pos, negsuc}
use gta_psp_multiplayer.Sync.Types.{Float, Vector}
use gta_psp_multiplayer.Sync.Writer.{WriteStream}
use gta_psp_multiplayer.Elements.Types.{float_ne}
use gta_psp_multiplayer.Elements.Section.{Sends}
use gta_psp_multiplayer.Elements.Pickup.{State}
use gta_psp_multiplayer.Elements.Pickup
use gta_psp_multiplayer.Elements.Pickup.Delta.{agreed, write_sync_delta-Sends_pickup}
use gta_psp_multiplayer.Elements.Physical.{PhysicalSync, Body, Bound, flag_entity}
use gta_psp_multiplayer.Elements.Physical.Delta
use gta_psp_multiplayer.Elements.Object.{ObjectSync, write_sync_delta, read_sync_from_stream}
use gta_psp_multiplayer.Elements.Object.Delta.{
  before_delta, after_delta, kept, write_sync_delta-Sends_object,
}
use gta_psp_multiplayer.Elements.History.{
  Element, SyncOps, minus_16, get_sync_with_time, receive_sync,
}
use gta_psp_multiplayer.Elements.History.Find.{find_sync}
use gta_psp_multiplayer.Elements.History.Find.Again.{find_sync-again}
use gta_psp_multiplayer.Elements.History.Base.{receive_sync-basis, receive_sync-wrapped}

-- What the variables hold before they are read into.
abbrev no_memory : ℕ → ℕ
no_memory k = 0

abbrev zero_float : Float
zero_float = record { bits = 0 }

-- The floats 1 and 2.
abbrev one : Float
one = record { bits = 0x3f800000 }

abbrev two : Float
two = record { bits = 0x40000000 }

abbrev origin : Vector
origin = record { x = zero_float; y = zero_float; z = zero_float }

abbrev aside : Vector
aside = record { x = one; y = zero_float; z = two }

-- A comparison that tells every difference of a coordinate, and one with no tolerance.
abbrev vector_ne : Vector → Vector → Bool
vector_ne a b = float_ne a.x b.x || float_ne a.y b.y || float_ne a.z b.z

abbrev beyond : Bound → Vector → Vector → Bool
beyond k a b = vector_ne a b

abbrev pickup : State
pickup = record {
  model_index = pos 300;
  quantity = 1;
  pickup_type = 2;
  position = aside;
  removed = false;
  pickup_by = negsuc 0;
}

abbrev taken : State
taken = record pickup { removed = true; pickup_by = pos 3 }

write_sync_delta-Sends_pickup_example :
    (((w : WriteStream) → Pickup.write_sync_delta vector_ne taken pickup w ≡ (false, w))
      × (agreed vector_ne taken pickup ≡ pickup))
    ⊎ Sends
        (λ w. (Pickup.write_sync_delta vector_ne taken pickup w).1)
        (Pickup.read_sync_from_stream no_memory pickup)
        (agreed vector_ne taken pickup)
write_sync_delta-Sends_pickup_example =
    write_sync_delta-Sends_pickup vector_ne no_memory taken pickup (record {
      model_index = omega arith;
      position = (omega arith, omega arith, omega arith);
      pickup_by = omega arith;
    })

abbrev body : Body
body = record {
  mass = one;
  turn_mass = two;
  force_multiplier = one;
  air_resistance = one;
  elasticity = zero_float;
  buoyancy = two;
  centre_of_mass = origin;
  body_flags = 0;
  b4e_8 = true;
}

abbrev resting : PhysicalSync
resting = record {
  right = origin;
  forward = origin;
  up = origin;
  position = origin;
  move_speed = origin;
  turn_speed = origin;
  move_friction = origin;
  turn_friction = origin;
  flags = 1;
}

abbrev moving : PhysicalSync
moving = record resting { position = aside; move_speed = aside; flags = 3 }

body-IsTyped : Delta.IsTypedBody body
body-IsTyped = record {
  mass = omega arith;
  turn_mass = omega arith;
  force_multiplier = omega arith;
  air_resistance = omega arith;
  elasticity = omega arith;
  buoyancy = omega arith;
  centre_of_mass = (omega arith, omega arith, omega arith);
}

resting-IsTyped : Delta.IsTyped resting
resting-IsTyped = record {
  right = (omega arith, omega arith, omega arith);
  forward = (omega arith, omega arith, omega arith);
  up = (omega arith, omega arith, omega arith);
  position = (omega arith, omega arith, omega arith);
  move_speed = (omega arith, omega arith, omega arith);
  turn_speed = (omega arith, omega arith, omega arith);
  move_friction = (omega arith, omega arith, omega arith);
  turn_friction = (omega arith, omega arith, omega arith);
}

moving-IsTyped : Delta.IsTyped moving
moving-IsTyped = record {
  right = (omega arith, omega arith, omega arith);
  forward = (omega arith, omega arith, omega arith);
  up = (omega arith, omega arith, omega arith);
  position = (omega arith, omega arith, omega arith);
  move_speed = (omega arith, omega arith, omega arith);
  turn_speed = (omega arith, omega arith, omega arith);
  move_friction = (omega arith, omega arith, omega arith);
  turn_friction = (omega arith, omega arith, omega arith);
}

abbrev crate : ObjectSync
crate = record { physical = resting; health = pos 100 }

abbrev pushed : ObjectSync
pushed = record { physical = moving; health = pos 90 }

write_sync_delta-Sends_object_example :
    (((w : WriteStream)
        → write_sync_delta beyond vector_ne false (some body) pushed crate w
          ≡ (false, kept beyond vector_ne pushed crate, w))
      × (before_delta beyond vector_ne crate body none
          ≡ after_delta beyond vector_ne pushed crate body none none))
    ⊎ Sends
        (λ w. (write_sync_delta beyond vector_ne false (some body) pushed crate w).2)
        (read_sync_from_stream no_memory false false
          (before_delta beyond vector_ne crate body none))
        (after_delta beyond vector_ne pushed crate body none none)
unfolding flag_entity
write_sync_delta-Sends_object_example =
    write_sync_delta-Sends_object beyond vector_ne no_memory pushed crate body body false none none
      moving-IsTyped resting-IsTyped (omega arith) body-IsTyped refl

-- Syncs that are numbers, which go up by the time that passes.
abbrev counting : SyncOps ℕ
counting = record {
  create_sync = 1000;
  create_sync_from_other = λ s. s;
  update_delta = λ t s. s + t;
  apply_delta_state = λ t s. s;
  interpolate_delta_state = λ t u s r. s;
  set_unk = λ s. s;
}

abbrev element : Element ℕ
element = record {
  cur_time = 20;
  delta_time = 20;
  syncs =
      record { time = 10; address = 0; sync = 5 }
      ∷ record { time = 20; address = 1; sync = 6 }
      ∷ [];
  interpolated = [];
  current = none;
  next_address = 2;
  sended_collision = true;
}

abbrev doubled : ℕ → ℕ
doubled s = s + s

receive_sync-basis_example :
    (f : Element ℕ) × (receive_sync counting true 30 20 doubled element ≡ some f)
    × (get_sync_with_time 30 f.syncs ≡ some (doubled (6 + minus_16 30 20)))
    × (get_sync_with_time 20 f.syncs ≡ some 6)
unfolding get_sync_with_time
receive_sync-basis_example =
    receive_sync-basis counting true 30 20 doubled element 6 (omega arith, tt) refl (omega arith)
      (omega arith) (omega arith) (omega arith)

-- The clock has wrapped from 65530 on to 5.
receive_sync-wrapped_example :
    (f : Element ℕ) × (receive_sync counting true 5 65530 doubled element ≡ some f)
    × (get_sync_with_time 5 f.syncs ≡ some (doubled 1000))
receive_sync-wrapped_example =
    receive_sync-wrapped counting true 5 65530 doubled element (omega arith)

-- The time 15 lies between two states.
find_sync-again_example :
    find_sync counting 15 (find_sync counting 15 element).element ≡ find_sync counting 15 element
find_sync-again_example = find_sync-again counting 15 element
