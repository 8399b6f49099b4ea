-- ===== src/Packets/Tests.antt =====
-- The theorems of the packets' table at single packets.
use gta_psp_multiplayer.Prelude.{◌≡◌, [], get_elem?, some}
use gta_psp_multiplayer.Packets.{Packet}
use gta_psp_multiplayer.Packets.Registry.{register_all, registered}
use gta_psp_multiplayer.Packets.Catalogue.{register_all_lem}

register_all_example :
    get_elem? (register_all registered []) 51
    ≡ some (record { packet = Packet.print_now; pckt_id = 51; pckt_size = 12 })
register_all_example = register_all_lem Packet.print_now
