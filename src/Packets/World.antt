-- ===== src/Packets/World.antt =====
-- The packets of C Reversed/net/packet.h, ids 41 to 65: the members of each struct, in order.
use gta_psp_multiplayer.Prelude.{List, [], ◌∷◌, ◌++◌}
use gta_psp_multiplayer.Packets.Layout.{
  Member, one, array, bits, uint8, int8, uint16, int16, uint32, int32, float, boolean, vector, rgba,
  header, element_header,
}

-- player_control_toggle_value, player_control_toggle_type
abbrev pub player_control : List Member
player_control = header ++ bits uint8 1 ∷ bits uint8 1 ∷ []

-- pos
abbrev pub set_position : List Member
set_position = header ++ one vector ∷ []

-- heading
abbrev pub set_heading : List Member
set_heading = header ++ one float ∷ []

-- nothing but the element's two words
abbrev pub add_3d_marker : List Member
add_3d_marker = element_header

-- nothing but the element's two words
abbrev pub remove_3d_marker : List Member
remove_3d_marker = element_header

-- posMin, posMax, toggle
abbrev pub enable_roads : List Member
enable_roads = header ++ one vector ∷ one vector ∷ bits uint8 1 ∷ []

-- pos, radius
abbrev pub clear_area : List Member
clear_area = header ++ one vector ∷ one float ∷ []

-- player_id, visible
abbrev pub set_player_blip_visible_state : List Member
set_player_blip_visible_state = header ++ one uint8 ∷ one boolean ∷ []

-- nothing but the header
abbrev pub player_respawn : List Member
player_respawn = header

-- pos, lifetime, type, hasSound, cause, culprit
abbrev pub add_explosion : List Member
add_explosion =
    header ++ one vector ∷ one uint32 ∷ one uint8 ∷ one boolean ∷ one int16 ∷ one int16 ∷ []

-- time, flag, key
abbrev pub print_now : List Member
print_now = header ++ one int32 ∷ one int32 ∷ array 257 int8 ∷ []

-- nWaypointID, vecPos, vecLookAt, vecHitSize, fMarkerSize, colour, fArrowHeight, bShowArrow,
-- nType
abbrev pub set_waypoint : List Member
set_waypoint =
    header
    ++ one uint16
      ∷ one vector
      ∷ one vector
      ∷ one vector
      ∷ one float
      ∷ one rgba
      ∷ one float
      ∷ one boolean
      ∷ one int32
      ∷ []

-- nWaypointID
abbrev pub clear_waypoint : List Member
clear_waypoint = header ++ one uint16 ∷ []

-- nWaypointID
abbrev pub hit_waypoint : List Member
hit_waypoint = header ++ one uint16 ∷ []

-- car_component, car_component_type, unk1, move_speed, turn_speed, render_scorched
abbrev pub spawn_car_debris : List Member
spawn_car_debris =
    element_header
    ++ one int32 ∷ one uint32 ∷ one int32 ∷ one vector ∷ one vector ∷ bits uint32 1 ∷ []

-- health
abbrev pub set_vehicle_health : List Member
set_vehicle_health = element_header ++ one float ∷ []

-- pos
abbrev pub set_vehicle_position : List Member
set_vehicle_position = element_header ++ one vector ∷ []

-- dest, src, vPoint, vNormal, pieceB
abbrev pub vehicle_impact : List Member
vehicle_impact = header ++ one int32 ∷ one int32 ∷ one vector ∷ one vector ∷ one uint8 ∷ []

-- nothing but the header
abbrev pub msg_ready_for_cutscene : List Member
msg_ready_for_cutscene = header

-- entityId
abbrev pub ack_entity_create : List Member
ack_entity_create = header ++ one uint16 ∷ []

-- group, peer_mask
abbrev pub sync_peer_group : List Member
sync_peer_group = header ++ one uint8 ∷ one uint8 ∷ []

-- nothing but the header
abbrev pub debug_break : List Member
debug_break = header

-- player_id
abbrev pub msg_blowup_vehicle : List Member
msg_blowup_vehicle = element_header ++ one int32 ∷ []

-- isDestroy, isCreate, pos, object_id
abbrev pub msg_create_lua_object : List Member
msg_create_lua_object = header ++ one boolean ∷ one boolean ∷ one vector ∷ one int32 ∷ []

-- bIsServerReadyToGo
abbrev pub msg_server_ready_to_go : List Member
msg_server_ready_to_go = header ++ one boolean ∷ []
