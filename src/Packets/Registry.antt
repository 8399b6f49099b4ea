-- ===== src/Packets/Registry.antt =====
-- The constructor of `packet_id_list_t` and `TestSizes`.
use gta_psp_multiplayer.Prelude.{ℕ, ◌%◌, Bool, List, [], ◌∷◌, ◌++◌, length, ◌==◌}
use gta_psp_multiplayer.Packets.{Packet, layout}
use gta_psp_multiplayer.Packets.Layout.{size_of}

-- `pckt_def`: both numbers are a `uint8`.
pub record Def : Type 0 where
  pub packet : Packet
  pub pckt_id : ℕ
  pub pckt_size : ℕ

-- One `REG_PCKT`, on the table so far and its length `snPacketCount`.
abbrev pub register : Packet → List Def → List Def
register p defs =
    defs
    ++ record { packet = p; pckt_id = length defs % 256; pckt_size = size_of (layout p) % 256 } ∷ []

abbrev pub register_all : List Packet → List Def → List Def
register_all [] defs = defs
register_all (p ∷ ps) defs = register_all ps (register p defs)

-- The calls of `REG_PCKT`, in their order.
abbrev pub registered : List Packet
registered =
    Packet.start_fire ∷ Packet.ack ∷ Packet.info ∷ Packet.player_kill ∷ Packet.kick_player
    ∷ Packet.request_kick_player ∷ Packet.set_team_score ∷ Packet.send_game_event
    ∷ Packet.force_ped_from_vehicle ∷ Packet.set_vehicle_emergency_break_state
    ∷ Packet.set_carlocked_state ∷ Packet.repair_car ∷ Packet.set_tyres_no_burst
    ∷ Packet.delete_vehicle ∷ Packet.game_state ∷ Packet.play_remote_sound ∷ Packet.heart_beat
    ∷ Packet.transfer_entity ∷ Packet.clock ∷ Packet.game_time ∷ Packet.target_player
    ∷ Packet.set_fixed_camera ∷ Packet.restore_camera ∷ Packet.pickup_collected
    ∷ Packet.pickup_request ∷ Packet.powerup_collected ∷ Packet.set_vehicle_infinite_mass
    ∷ Packet.fight_hit_ped ∷ Packet.shot_ped ∷ Packet.fire_instant_hit ∷ Packet.fire_sniper
    ∷ Packet.fire_shotgun ∷ Packet.fire_projectile ∷ Packet.use_detonator ∷ Packet.fire_area_effect
    ∷ Packet.shot_ped_from_car ∷ Packet.fire_instant_hit_car ∷ Packet.kill_player_ped
    ∷ Packet.shot_vehicle ∷ Packet.melee ∷ Packet.player_been_hit ∷ Packet.player_control
    ∷ Packet.set_position ∷ Packet.set_heading ∷ Packet.add_3d_marker ∷ Packet.remove_3d_marker
    ∷ Packet.enable_roads ∷ Packet.clear_area ∷ Packet.set_player_blip_visible_state
    ∷ Packet.player_respawn ∷ Packet.add_explosion ∷ Packet.print_now ∷ Packet.set_waypoint
    ∷ Packet.clear_waypoint ∷ Packet.hit_waypoint ∷ Packet.spawn_car_debris
    ∷ Packet.set_vehicle_health ∷ Packet.set_vehicle_position ∷ Packet.vehicle_impact
    ∷ Packet.msg_ready_for_cutscene ∷ Packet.ack_entity_create ∷ Packet.sync_peer_group
    ∷ Packet.debug_break ∷ Packet.msg_blowup_vehicle ∷ Packet.msg_create_lua_object
    ∷ Packet.msg_server_ready_to_go ∷ []

-- The size that each call expects of its struct.
abbrev pub psp_size : Packet → ℕ
psp_size Packet.start_fire = 24
psp_size Packet.ack = 5
psp_size Packet.info = 204
psp_size Packet.player_kill = 4
psp_size Packet.kick_player = 4
psp_size Packet.request_kick_player = 4
psp_size Packet.set_team_score = 8
psp_size Packet.send_game_event = 7
psp_size Packet.force_ped_from_vehicle = 11
psp_size Packet.set_vehicle_emergency_break_state = 12
psp_size Packet.set_carlocked_state = 15
psp_size Packet.repair_car = 11
psp_size Packet.set_tyres_no_burst = 12
psp_size Packet.delete_vehicle = 11
psp_size Packet.game_state = 6
psp_size Packet.play_remote_sound = 22
psp_size Packet.heart_beat = 3
psp_size Packet.transfer_entity = 7
psp_size Packet.clock = 3
psp_size Packet.game_time = 17
psp_size Packet.target_player = 4
psp_size Packet.set_fixed_camera = 27
psp_size Packet.restore_camera = 4
psp_size Packet.pickup_collected = 8
psp_size Packet.pickup_request = 5
psp_size Packet.powerup_collected = 6
psp_size Packet.set_vehicle_infinite_mass = 12
psp_size Packet.fight_hit_ped = 54
psp_size Packet.shot_ped = 32
psp_size Packet.fire_instant_hit = 41
psp_size Packet.fire_sniper = 30
psp_size Packet.fire_shotgun = 35
psp_size Packet.fire_projectile = 76
psp_size Packet.use_detonator = 5
psp_size Packet.fire_area_effect = 42
psp_size Packet.shot_ped_from_car = 24
psp_size Packet.fire_instant_hit_car = 41
psp_size Packet.kill_player_ped = 7
psp_size Packet.shot_vehicle = 10
psp_size Packet.melee = 38
psp_size Packet.player_been_hit = 5
psp_size Packet.player_control = 4
psp_size Packet.set_position = 15
psp_size Packet.set_heading = 7
psp_size Packet.add_3d_marker = 11
psp_size Packet.remove_3d_marker = 11
psp_size Packet.enable_roads = 28
psp_size Packet.clear_area = 19
psp_size Packet.set_player_blip_visible_state = 5
psp_size Packet.player_respawn = 3
psp_size Packet.add_explosion = 25
psp_size Packet.print_now = 268
psp_size Packet.set_waypoint = 58
psp_size Packet.clear_waypoint = 5
psp_size Packet.hit_waypoint = 5
psp_size Packet.spawn_car_debris = 51
psp_size Packet.set_vehicle_health = 15
psp_size Packet.set_vehicle_position = 23
psp_size Packet.vehicle_impact = 36
psp_size Packet.msg_ready_for_cutscene = 3
psp_size Packet.ack_entity_create = 5
psp_size Packet.sync_peer_group = 5
psp_size Packet.debug_break = 3
psp_size Packet.msg_blowup_vehicle = 15
psp_size Packet.msg_create_lua_object = 21
psp_size Packet.msg_server_ready_to_go = 4

-- The number in the comment of each call.
abbrev pub id_of : Packet → ℕ
id_of Packet.start_fire = 0
id_of Packet.ack = 1
id_of Packet.info = 2
id_of Packet.player_kill = 3
id_of Packet.kick_player = 4
id_of Packet.request_kick_player = 5
id_of Packet.set_team_score = 6
id_of Packet.send_game_event = 7
id_of Packet.force_ped_from_vehicle = 8
id_of Packet.set_vehicle_emergency_break_state = 9
id_of Packet.set_carlocked_state = 10
id_of Packet.repair_car = 11
id_of Packet.set_tyres_no_burst = 12
id_of Packet.delete_vehicle = 13
id_of Packet.game_state = 14
id_of Packet.play_remote_sound = 15
id_of Packet.heart_beat = 16
id_of Packet.transfer_entity = 17
id_of Packet.clock = 18
id_of Packet.game_time = 19
id_of Packet.target_player = 20
id_of Packet.set_fixed_camera = 21
id_of Packet.restore_camera = 22
id_of Packet.pickup_collected = 23
id_of Packet.pickup_request = 24
id_of Packet.powerup_collected = 25
id_of Packet.set_vehicle_infinite_mass = 26
id_of Packet.fight_hit_ped = 27
id_of Packet.shot_ped = 28
id_of Packet.fire_instant_hit = 29
id_of Packet.fire_sniper = 30
id_of Packet.fire_shotgun = 31
id_of Packet.fire_projectile = 32
id_of Packet.use_detonator = 33
id_of Packet.fire_area_effect = 34
id_of Packet.shot_ped_from_car = 35
id_of Packet.fire_instant_hit_car = 36
id_of Packet.kill_player_ped = 37
id_of Packet.shot_vehicle = 38
id_of Packet.melee = 39
id_of Packet.player_been_hit = 40
id_of Packet.player_control = 41
id_of Packet.set_position = 42
id_of Packet.set_heading = 43
id_of Packet.add_3d_marker = 44
id_of Packet.remove_3d_marker = 45
id_of Packet.enable_roads = 46
id_of Packet.clear_area = 47
id_of Packet.set_player_blip_visible_state = 48
id_of Packet.player_respawn = 49
id_of Packet.add_explosion = 50
id_of Packet.print_now = 51
id_of Packet.set_waypoint = 52
id_of Packet.clear_waypoint = 53
id_of Packet.hit_waypoint = 54
id_of Packet.spawn_car_debris = 55
id_of Packet.set_vehicle_health = 56
id_of Packet.set_vehicle_position = 57
id_of Packet.vehicle_impact = 58
id_of Packet.msg_ready_for_cutscene = 59
id_of Packet.ack_entity_create = 60
id_of Packet.sync_peer_group = 61
id_of Packet.debug_break = 62
id_of Packet.msg_blowup_vehicle = 63
id_of Packet.msg_create_lua_object = 64
id_of Packet.msg_server_ready_to_go = 65

-- `MP_TEST_SIZE`, which prints PASS or FAIL.
abbrev pub test_size : Packet → Bool
test_size p = size_of (layout p) == psp_size p
