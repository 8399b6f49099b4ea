-- ===== src/Packets/Combat.antt =====
-- The packets of C Reversed/net/packet.h, ids 28 to 40: the members of each struct, in order.
use gta_psp_multiplayer.Prelude.{List, [], ◌∷◌, ◌++◌}
use gta_psp_multiplayer.Packets.Layout.{
  Member, one, array, bits, uint8, uint16, uint32, int32, float, boolean, vector2d, vector, header,
}

-- victim_id, shooter_id, ped_piece, damage_mult, weapon, local_dir, pos_offset, point
abbrev pub shot_ped : List Member
shot_ped =
    header
    ++ one uint16
      ∷ one uint16
      ∷ one uint16
      ∷ one uint8
      ∷ one uint8
      ∷ one uint8
      ∷ one vector2d
      ∷ one vector
      ∷ []

-- weapon_type, fire_source, target, move_speed, shooter_id, firing_rate, changed_heading,
-- shooter_moving
abbrev pub fire_instant_hit : List Member
fire_instant_hit =
    header
    ++ one uint8
      ∷ one vector
      ∷ one vector
      ∷ one vector2d
      ∷ one uint16
      ∷ one uint16
      ∷ bits uint8 1
      ∷ bits uint8 1
      ∷ []

-- weapon_type, fire_source, target, shooter_id
abbrev pub fire_sniper : List Member
fire_sniper = header ++ one uint8 ∷ one vector ∷ one vector ∷ one uint16 ∷ []

-- weapon_type, fire_source, angle, shooter_id, pos, has_attacker
abbrev pub fire_shotgun : List Member
fire_shotgun =
    header ++ one uint8 ∷ one vector ∷ one float ∷ one uint16 ∷ one vector ∷ one boolean ∷ []

-- weapon_type, matr_forward, matr_right, matr_up, matr_pos, velocity, gravity, time,
-- elasticity, special_collision_response, shooter_id
abbrev pub fire_projectile : List Member
fire_projectile =
    header
    ++ one uint8
      ∷ one vector
      ∷ one vector
      ∷ one vector
      ∷ one vector
      ∷ one vector
      ∷ one boolean
      ∷ one int32
      ∷ one float
      ∷ one uint8
      ∷ one uint16
      ∷ []

-- shooter_id
abbrev pub use_detonator : List Member
use_detonator = header ++ one uint16 ∷ []

-- weapon_type, fire_source, target, direction, shooter_id
abbrev pub fire_area_effect : List Member
fire_area_effect = header ++ one uint8 ∷ one vector ∷ one vector ∷ one vector ∷ one uint16 ∷ []

-- victim_id, shooter_id, ped_piece, damage, direction, pos
abbrev pub shot_ped_from_car : List Member
shot_ped_from_car =
    header ++ one uint16 ∷ one uint16 ∷ one uint16 ∷ one uint16 ∷ one uint8 ∷ one vector ∷ []

-- fire_source, target, move_speed, shooter_id
abbrev pub fire_instant_hit_car : List Member
fire_instant_hit_car = header ++ one vector ∷ one vector ∷ one vector ∷ one uint16 ∷ []

-- player_id
abbrev pub kill_player_ped : List Member
kill_player_ped = header ++ one uint32 ∷ []

-- shooter_id, vehicle_id, damage, type
abbrev pub shot_vehicle : List Member
shot_vehicle = header ++ one uint16 ∷ one uint16 ∷ one uint16 ∷ one uint8 ∷ []

-- blood_pos, collision_dist, localDir, bIsHeavy, bAnim2Playing, b1B_40, b1B_80, damage,
-- field_1D, weapon, victim_id, shooter_id, pieceB, field_25
abbrev pub melee : List Member
melee =
    header
    ++ one vector
      ∷ one vector
      ∷ bits uint8 4
      ∷ bits uint8 1
      ∷ bits uint8 1
      ∷ bits uint8 1
      ∷ bits uint8 1
      ∷ one uint8
      ∷ array 2 uint8
      ∷ one uint8
      ∷ one uint16
      ∷ one uint16
      ∷ one uint8
      ∷ one uint8
      ∷ []

-- player, impact
abbrev pub player_been_hit : List Member
player_been_hit = header ++ one uint8 ∷ one uint8 ∷ []
