-- ===== src/Packets/Session.antt =====
-- The packets of C Reversed/net/packet.h, ids 0 to 27: the members of each struct, in order.
use gta_psp_multiplayer.Prelude.{List, [], ◌∷◌, ◌++◌}
use gta_psp_multiplayer.Packets.Layout.{
  Member, one, array, bits, uint8, int8, uint16, int16, uint32, int32, float, boolean, vector,
  peer_info, header, element_header,
}

-- pos, strength, propagation, source, entity
abbrev pub start_fire : List Member
start_fire = header ++ one vector ∷ one float ∷ one boolean ∷ one int16 ∷ one int16 ∷ []

-- nFlags
abbrev pub ack : List Member
ack = header ++ one uint16 ∷ []

-- _pad3, nMagic, nPeerA, nPeerB, aPeers
abbrev pub info : List Member
info = header ++ array 1 uint8 ∷ one uint32 ∷ one uint16 ∷ one uint16 ∷ array 16 peer_info ∷ []

-- assassin
abbrev pub player_kill : List Member
player_kill = header ++ one uint8 ∷ []

-- peer_id
abbrev pub kick_player : List Member
kick_player = header ++ one uint8 ∷ []

-- peer_id
abbrev pub request_kick_player : List Member
request_kick_player = header ++ one uint8 ∷ []

-- team_id, score
abbrev pub set_team_score : List Member
set_team_score = header ++ one uint8 ∷ one int32 ∷ []

-- event
abbrev pub send_game_event : List Member
send_game_event = header ++ one int32 ∷ []

-- nothing but the element's two words
abbrev pub force_ped_from_vehicle : List Member
force_ped_from_vehicle = element_header

-- enabled
abbrev pub set_vehicle_emergency_break_state : List Member
set_vehicle_emergency_break_state = element_header ++ one boolean ∷ []

-- state
abbrev pub set_carlocked_state : List Member
set_carlocked_state = element_header ++ one int32 ∷ []

-- nothing but the element's two words
abbrev pub repair_car : List Member
repair_car = element_header

-- enabled
abbrev pub set_tyres_no_burst : List Member
set_tyres_no_burst = element_header ++ one boolean ∷ []

-- nothing but the element's two words
abbrev pub delete_vehicle : List Member
delete_vehicle = element_header

-- zone, sequence
abbrev pub game_state : List Member
game_state = header ++ one int16 ∷ one uint8 ∷ []

-- sample, bank, counter, priority, frequency, volume, frames
abbrev pub play_remote_sound : List Member
play_remote_sound =
    header
    ++ one uint32 ∷ one uint8 ∷ one uint32 ∷ one uint32 ∷ one uint32 ∷ one uint8 ∷ one uint8 ∷ []

-- nothing but the header
abbrev pub heart_beat : List Member
heart_beat = header

-- src, dest, elem
abbrev pub transfer_entity : List Member
transfer_entity = header ++ one int8 ∷ one int8 ∷ one int16 ∷ []

-- nothing but the header
abbrev pub clock : List Member
clock = header

-- min, sec, elapsedMs, nTeamATime, nTeamBTime
abbrev pub game_time : List Member
game_time = header ++ one uint8 ∷ one uint8 ∷ one uint32 ∷ one int32 ∷ one int32 ∷ []

-- player
abbrev pub target_player : List Member
target_player = header ++ one uint8 ∷ []

-- pos, target
abbrev pub set_fixed_camera : List Member
set_fixed_camera = header ++ one vector ∷ one vector ∷ []

-- jumpcut
abbrev pub restore_camera : List Member
restore_camera = header ++ bits uint8 1 ∷ []

-- elem, remove, modelIndex
abbrev pub pickup_collected : List Member
pickup_collected = header ++ one uint16 ∷ one boolean ∷ one int16 ∷ []

-- elem
abbrev pub pickup_request : List Member
pickup_request = header ++ one uint16 ∷ []

-- powerup_type, amount, player
abbrev pub powerup_collected : List Member
powerup_collected = header ++ one uint8 ∷ one uint8 ∷ one uint8 ∷ []

-- mass
abbrev pub set_vehicle_infinite_mass : List Member
set_vehicle_infinite_mass = element_header ++ bits uint8 1 ∷ []

-- move_pos, move_end_pos, move_force, radius, victim_id, attacker_id, ped_piece, damage_mult,
-- local_dir, weapon, cur_fight_move, victim_cur_fight_move
abbrev pub fight_hit_ped : List Member
fight_hit_ped =
    header
    ++ one vector
      ∷ one vector
      ∷ one vector
      ∷ one float
      ∷ one uint16
      ∷ one uint16
      ∷ one uint16
      ∷ one uint8
      ∷ one uint8
      ∷ one uint8
      ∷ one uint8
      ∷ one uint8
      ∷ []
