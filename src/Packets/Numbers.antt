-- ===== src/Packets/Numbers.antt =====
-- Every packet is registered, at the index that is its number.
use gta_psp_multiplayer.Prelude.{◌≡◌, refl, get_elem?, some}
use gta_psp_multiplayer.Packets.{Packet}
use gta_psp_multiplayer.Packets.Registry.{registered, id_of}

pub get_elem?-id_of : (p : Packet) → get_elem? registered (id_of p) ≡ some p
get_elem?-id_of Packet.start_fire = refl
get_elem?-id_of Packet.ack = refl
get_elem?-id_of Packet.info = refl
get_elem?-id_of Packet.player_kill = refl
get_elem?-id_of Packet.kick_player = refl
get_elem?-id_of Packet.request_kick_player = refl
get_elem?-id_of Packet.set_team_score = refl
get_elem?-id_of Packet.send_game_event = refl
get_elem?-id_of Packet.force_ped_from_vehicle = refl
get_elem?-id_of Packet.set_vehicle_emergency_break_state = refl
get_elem?-id_of Packet.set_carlocked_state = refl
get_elem?-id_of Packet.repair_car = refl
get_elem?-id_of Packet.set_tyres_no_burst = refl
get_elem?-id_of Packet.delete_vehicle = refl
get_elem?-id_of Packet.game_state = refl
get_elem?-id_of Packet.play_remote_sound = refl
get_elem?-id_of Packet.heart_beat = refl
get_elem?-id_of Packet.transfer_entity = refl
get_elem?-id_of Packet.clock = refl
get_elem?-id_of Packet.game_time = refl
get_elem?-id_of Packet.target_player = refl
get_elem?-id_of Packet.set_fixed_camera = refl
get_elem?-id_of Packet.restore_camera = refl
get_elem?-id_of Packet.pickup_collected = refl
get_elem?-id_of Packet.pickup_request = refl
get_elem?-id_of Packet.powerup_collected = refl
get_elem?-id_of Packet.set_vehicle_infinite_mass = refl
get_elem?-id_of Packet.fight_hit_ped = refl
get_elem?-id_of Packet.shot_ped = refl
get_elem?-id_of Packet.fire_instant_hit = refl
get_elem?-id_of Packet.fire_sniper = refl
get_elem?-id_of Packet.fire_shotgun = refl
get_elem?-id_of Packet.fire_projectile = refl
get_elem?-id_of Packet.use_detonator = refl
get_elem?-id_of Packet.fire_area_effect = refl
get_elem?-id_of Packet.shot_ped_from_car = refl
get_elem?-id_of Packet.fire_instant_hit_car = refl
get_elem?-id_of Packet.kill_player_ped = refl
get_elem?-id_of Packet.shot_vehicle = refl
get_elem?-id_of Packet.melee = refl
get_elem?-id_of Packet.player_been_hit = refl
get_elem?-id_of Packet.player_control = refl
get_elem?-id_of Packet.set_position = refl
get_elem?-id_of Packet.set_heading = refl
get_elem?-id_of Packet.add_3d_marker = refl
get_elem?-id_of Packet.remove_3d_marker = refl
get_elem?-id_of Packet.enable_roads = refl
get_elem?-id_of Packet.clear_area = refl
get_elem?-id_of Packet.set_player_blip_visible_state = refl
get_elem?-id_of Packet.player_respawn = refl
get_elem?-id_of Packet.add_explosion = refl
get_elem?-id_of Packet.print_now = refl
get_elem?-id_of Packet.set_waypoint = refl
get_elem?-id_of Packet.clear_waypoint = refl
get_elem?-id_of Packet.hit_waypoint = refl
get_elem?-id_of Packet.spawn_car_debris = refl
get_elem?-id_of Packet.set_vehicle_health = refl
get_elem?-id_of Packet.set_vehicle_position = refl
get_elem?-id_of Packet.vehicle_impact = refl
get_elem?-id_of Packet.msg_ready_for_cutscene = refl
get_elem?-id_of Packet.ack_entity_create = refl
get_elem?-id_of Packet.sync_peer_group = refl
get_elem?-id_of Packet.debug_break = refl
get_elem?-id_of Packet.msg_blowup_vehicle = refl
get_elem?-id_of Packet.msg_create_lua_object = refl
get_elem?-id_of Packet.msg_server_ready_to_go = refl
