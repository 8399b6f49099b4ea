-- ===== src/Zone/Tests.antt =====
-- A zone on concrete states.
use mathlib.Core.List.{Memᴰ}
use gta_psp_multiplayer.Prelude.{
  ℕ, Bool, ◌+◌, ◌<◌, ◌≤◌, true, false, List, [], ◌∷◌, ◌++◌, length, ◌≡◌, ◌↔◌, refl, ◌⊎◌, arith,
  if◌then◌else◌,
}
use gta_psp_multiplayer.Prelude.Int.{pos}
use gta_psp_multiplayer.Sync.Reader.{ReadStream, from_range}
use gta_psp_multiplayer.Zone.{ZonePeer, ElementEntry, Zone, new_zone, new_peer, add_peer, last_or}
use gta_psp_multiplayer.Zone.Basis.{
  final_flag, choose_basis, basis_of, combined_frames, combine_frames, is_stale,
}
use gta_psp_multiplayer.Zone.Common.{set_intersection}
use gta_psp_multiplayer.Elements.History.{before}
use gta_psp_multiplayer.Zone.Basis.Acked.{
  AllAcked, IsRecent, choose_basis-AllAcked, choose_basis_lem,
}
use gta_psp_multiplayer.Zone.Receive.{begin_state, seq_flag, receive_game_state}
use gta_psp_multiplayer.Zone.Receive.Fragments.{receive_all, AllCame, receive_all_complete}
use gta_psp_multiplayer.Zone.Order.{IsZone, after_send}
use gta_psp_multiplayer.Zone.Order.Reached.{on_new, on_add, on_send, on_receive, Reached-IsZone}
use gta_psp_multiplayer.Zone.Split.{split_chunks, settle_removals}
use gta_psp_multiplayer.Zone.Split.Removals.{said, settle_removals-AllAcked}
use gta_psp_multiplayer.Zone.Split.Whole.{payloads, join, IsNumbered, split_chunks-whole}

abbrev first_peer : ZonePeer
first_peer = record (new_peer 1) { acks = 90 ∷ 95 ∷ 97 ∷ []; state = 40 }

abbrev second_peer : ZonePeer
second_peer = record (new_peer 2) { acks = 91 ∷ 95 ∷ [] }

abbrev zone : Zone
zone = record {
  zone_id = pos 0;
  basis = 90;
  peers = first_peer ∷ second_peer ∷ [];
  elements = [];
  entities = [];
  to_ack = [];
}

choose_basis-AllAcked_example :
    ((choose_basis 100 zone).basis ≡ 100)
    ⊎ (AllAcked (choose_basis 100 zone).basis zone.peers
        × IsRecent 100 (choose_basis 100 zone).basis)
choose_basis-AllAcked_example = choose_basis-AllAcked 100 zone

choose_basis_lem_example :
    AllAcked (last_or 0 (combined_frames zone.peers)) zone.peers
    × (95 ≤ last_or 0 (combined_frames zone.peers))
    × ((choose_basis 100 zone).basis ≡ (
        if is_stale 100 (last_or 0 (combined_frames zone.peers))
        then 100
        else last_or 0 (combined_frames zone.peers)))
choose_basis_lem_example =
    choose_basis_lem 100 95 zone first_peer (second_peer ∷ []) refl
      ((omega arith, (omega arith, tt)), ((omega arith, tt), tt))
      (Memᴰ.tail (Memᴰ.head refl), (Memᴰ.tail (Memᴰ.head refl), tt))

-- What a shift too far gives is not looked at here.
abbrev no_shift : ℕ → ℕ
no_shift k = 0

-- The second fragment of three comes twice, and last.
receive_all_complete_example :
    ((receive_all no_shift 41 3 (1 ∷ 2 ∷ 0 ∷ 1 ∷ []) (begin_state 41 first_peer)).seq_bitmask
      ≡ (receive_all no_shift 41 3
          (1 ∷ 2 ∷ 0 ∷ 1 ∷ [])
          (begin_state 41 first_peer)).expected_seq_mask)
    ↔ AllCame 3 (1 ∷ 2 ∷ 0 ∷ 1 ∷ [])
receive_all_complete_example =
    receive_all_complete no_shift 41 3 (1 ∷ 2 ∷ 0 ∷ 1 ∷ []) first_peer (omega arith) (omega arith)
      (omega arith) (omega arith, (omega arith, (omega arith, (omega arith, tt))))

-- The first packet of the first peer says that two acknowledgments follow, and ends within the second.
abbrev cut_short : ReadStream
cut_short = from_range (90 ∷ 0 ∷ 2 ∷ 3 ∷ 95 ∷ 0 ∷ 3 ∷ [])

abbrev no_elements : ReadStream → Bool × ReadStream
no_elements s = (true, s)

Reached-IsZone_example :
    IsZone
      (receive_game_state
        (λ k. k)
        no_shift
        3
        true
        no_elements
        1
        7
        seq_flag
        (after_send 100 (add_peer 2 (add_peer 1 (new_zone (pos 0)))))
        cut_short).0
Reached-IsZone_example = Reached-IsZone {wide = no_shift} {own = 3} (
    on_receive (λ k. k) true no_elements 1 7 seq_flag cut_short
      (on_send 100 (on_add 2 (on_add 1 (on_new (pos 0))))))

abbrev two_elements : List (List ℕ)
two_elements = (1 ∷ 2 ∷ []) ∷ (3 ∷ []) ∷ []

-- Heads so large that every element begins a packet.
split_chunks-whole_example :
    (payloads (split_chunks 1022 0 (0 ∷ []) two_elements (4 ∷ []))
      ≡ (0 ∷ []) ++ (join two_elements ++ 4 ∷ []))
    × IsNumbered
        (length (split_chunks 1022 0 (0 ∷ []) two_elements (4 ∷ [])))
        0
        (split_chunks 1022 0 (0 ∷ []) two_elements (4 ∷ []))
    × (0 < length (split_chunks 1022 0 (0 ∷ []) two_elements (4 ∷ [])))
    × (length (split_chunks 1022 0 (0 ∷ []) two_elements (4 ∷ [])) ≤ length two_elements + 1)
split_chunks-whole_example = split_chunks-whole 1022 (0 ∷ []) two_elements (4 ∷ []) (omega arith)

-- An element whose removal was said for the first time in frame 93: all peers have acknowledged 95.
abbrev removed : ElementEntry
removed = record { entry_basis = 93; entity_id = 7 + final_flag }

abbrev with_removed : Zone
with_removed = record zone { entities = removed ∷ [] }

settle_removals-AllAcked_example :
    Memᴰ (said 100 removed) (settle_removals 100 false (choose_basis 100 with_removed)).entities
    ⊎ ((final_flag ≤ removed.entity_id)
        × AllAcked (choose_basis 100 with_removed).basis with_removed.peers
        × (before removed.entry_basis (choose_basis 100 with_removed).basis ≡ true))
unfolding choose_basis basis_of combined_frames combine_frames set_intersection
settle_removals-AllAcked_example =
    settle_removals-AllAcked 100 with_removed removed first_peer (second_peer ∷ []) refl
      (Memᴰ.head refl)
