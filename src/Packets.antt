-- ===== src/Packets.antt =====
-- C Reversed/net/packet.h: every packet of a session, its struct, and `packet_id_list_t`, which
-- gives each its number on the wire and its size (the build for Vice City Stories).
pub mod Layout
mod Session
mod Combat
mod World
pub mod Registry
mod Numbers
pub mod Catalogue
mod Tests
use gta_psp_multiplayer.Prelude.{List}
use gta_psp_multiplayer.Packets.Layout.{Member}

-- The members of `packet_id_list_t`.
pub data Packet : Type 0 where
  start_fire ack info player_kill kick_player request_kick_player set_team_score send_game_event
        force_ped_from_vehicle set_vehicle_emergency_break_state set_carlocked_state repair_car
        set_tyres_no_burst delete_vehicle game_state play_remote_sound heart_beat transfer_entity
        clock game_time target_player set_fixed_camera restore_camera pickup_collected
        pickup_request powerup_collected set_vehicle_infinite_mass fight_hit_ped shot_ped
        fire_instant_hit fire_sniper fire_shotgun fire_projectile use_detonator fire_area_effect
        shot_ped_from_car fire_instant_hit_car kill_player_ped shot_vehicle melee player_been_hit
        player_control set_position set_heading add_3d_marker remove_3d_marker enable_roads
        clear_area set_player_blip_visible_state player_respawn add_explosion print_now set_waypoint
        clear_waypoint hit_waypoint spawn_car_debris set_vehicle_health set_vehicle_position
        vehicle_impact msg_ready_for_cutscene ack_entity_create sync_peer_group debug_break
        msg_blowup_vehicle msg_create_lua_object msg_server_ready_to_go :
      Packet

-- The struct that `REG_PCKT` is given for a packet.
abbrev pub layout : Packet → List Member
layout start_fire = Session.start_fire
layout ack = Session.ack
layout info = Session.info
layout player_kill = Session.player_kill
layout kick_player = Session.kick_player
layout request_kick_player = Session.request_kick_player
layout set_team_score = Session.set_team_score
layout send_game_event = Session.send_game_event
layout force_ped_from_vehicle = Session.force_ped_from_vehicle
layout set_vehicle_emergency_break_state = Session.set_vehicle_emergency_break_state
layout set_carlocked_state = Session.set_carlocked_state
layout repair_car = Session.repair_car
layout set_tyres_no_burst = Session.set_tyres_no_burst
layout delete_vehicle = Session.delete_vehicle
layout game_state = Session.game_state
layout play_remote_sound = Session.play_remote_sound
layout heart_beat = Session.heart_beat
layout transfer_entity = Session.transfer_entity
layout clock = Session.clock
layout game_time = Session.game_time
layout target_player = Session.target_player
layout set_fixed_camera = Session.set_fixed_camera
layout restore_camera = Session.restore_camera
layout pickup_collected = Session.pickup_collected
layout pickup_request = Session.pickup_request
layout powerup_collected = Session.powerup_collected
layout set_vehicle_infinite_mass = Session.set_vehicle_infinite_mass
layout fight_hit_ped = Session.fight_hit_ped
layout shot_ped = Combat.shot_ped
layout fire_instant_hit = Combat.fire_instant_hit
layout fire_sniper = Combat.fire_sniper
layout fire_shotgun = Combat.fire_shotgun
layout fire_projectile = Combat.fire_projectile
layout use_detonator = Combat.use_detonator
layout fire_area_effect = Combat.fire_area_effect
layout shot_ped_from_car = Combat.shot_ped_from_car
layout fire_instant_hit_car = Combat.fire_instant_hit_car
layout kill_player_ped = Combat.kill_player_ped
layout shot_vehicle = Combat.shot_vehicle
layout melee = Combat.melee
layout player_been_hit = Combat.player_been_hit
layout player_control = World.player_control
layout set_position = World.set_position
layout set_heading = World.set_heading
layout add_3d_marker = World.add_3d_marker
layout remove_3d_marker = World.remove_3d_marker
layout enable_roads = World.enable_roads
layout clear_area = World.clear_area
layout set_player_blip_visible_state = World.set_player_blip_visible_state
layout player_respawn = World.player_respawn
layout add_explosion = World.add_explosion
layout print_now = World.print_now
layout set_waypoint = World.set_waypoint
layout clear_waypoint = World.clear_waypoint
layout hit_waypoint = World.hit_waypoint
layout spawn_car_debris = World.spawn_car_debris
layout set_vehicle_health = World.set_vehicle_health
layout set_vehicle_position = World.set_vehicle_position
layout vehicle_impact = World.vehicle_impact
layout msg_ready_for_cutscene = World.msg_ready_for_cutscene
layout ack_entity_create = World.ack_entity_create
layout sync_peer_group = World.sync_peer_group
layout debug_break = World.debug_break
layout msg_blowup_vehicle = World.msg_blowup_vehicle
layout msg_create_lua_object = World.msg_create_lua_object
layout msg_server_ready_to_go = World.msg_server_ready_to_go
