-- ===== src/Zone.antt =====
-- An interest zone (`cInterestZone` of C Reversed/InterestZone.cpp): the consoles that are told of its
-- elements, what each has acknowledged, and what is still to be acknowledged to them.
--
-- A frame is a `uint16` of the session's clock. An element is its address.
pub mod Common
pub mod Basis
pub mod Receive
pub mod Order
mod Tests
pub mod Split
use gta_psp_multiplayer.Prelude.{
  ℕ, Bool, true, false, Option, none, some, List, [], ◌∷◌, ◌++◌, ◌==◌, if◌then◌else◌,
}
use gta_psp_multiplayer.Prelude.Int.{ℤ}

-- A `tZonePeer`. The fields that nothing reads are left out.
pub record ZonePeer : Type 0 where
  pub peer_id : ℕ
  pub acks : List ℕ
  pub peer_basis : ℕ
  pub state : ℕ
  pub seq_bitmask : ℕ
  pub expected_seq_mask : ℕ

-- A `tElementEntry`: an element that was removed.
pub record ElementEntry : Type 0 where
  pub entry_basis : ℕ
  pub entity_id : ℕ

-- A `tAck`
pub record Ack : Type 0 where
  pub ack_peer : ℕ
  pub frame : ℕ

-- The zone; `cur_time` is its budget of sending, which is kept apart.
pub record Zone : Type 0 where
  pub zone_id : ℤ
  pub basis : ℕ
  pub peers : List ZonePeer
  pub elements : List ℕ
  pub entities : List ElementEntry
  pub to_ack : List Ack

-- `cInterestZone(nID)`
unfoldable pub new_zone : ℤ → Zone
new_zone id = record {
  zone_id = id;
  basis = 0;
  peers = [];
  elements = [];
  entities = [];
  to_ack = [];
}

-- `tZonePeer newPeer{}`, with its number.
abbrev pub new_peer : ℕ → ZonePeer
new_peer id = record {
  peer_id = id;
  acks = [];
  peer_basis = 0;
  state = 0;
  seq_bitmask = 0;
  expected_seq_mask = 0;
}

-- The search of `GetZonePeer`.
unfoldable pub find_peer : ℕ → List ZonePeer → Option ZonePeer
find_peer id [] = none
find_peer id (p ∷ ps) = if p.peer_id == id then some p else find_peer id ps

-- `HasPeer`
unfoldable pub has_peer : ℕ → List ZonePeer → Bool
has_peer id [] = false
has_peer id (p ∷ ps) = if p.peer_id == id then true else has_peer id ps

-- `AddPeer`
unfoldable pub add_peer : ℕ → Zone → Zone
unfolding has_peer
add_peer id z = if has_peer id z.peers then z else record z { peers = z.peers ++ new_peer id ∷ [] }

-- The first peer of that number is erased.
unfoldable pub erase_peer : ℕ → List ZonePeer → List ZonePeer
erase_peer id [] = []
erase_peer id (p ∷ ps) = if p.peer_id == id then ps else p ∷ erase_peer id ps

-- `DisconnectPeer`
unfoldable pub disconnect_peer : ℕ → Zone → Zone
unfolding erase_peer
disconnect_peer id z = record z { peers = erase_peer id z.peers }

abbrev pub last_or : ℕ → List ℕ → ℕ
last_or d [] = d
last_or d (x ∷ xs) = last_or x xs

abbrev pub is_empty : {A : Type 0} → List A → Bool
is_empty [] = true
is_empty (x ∷ xs) = false

-- `PeerLastAck`; `now` is the session's clock.
unfoldable pub peer_last_ack : ℕ → ℕ → Zone → ℕ
unfolding find_peer
peer_last_ack now id z = elim (find_peer id z.peers) [ none ↦ now | some p ↦ last_or now p.acks ]

-- `PeerLastAckEmpty`
unfoldable pub peer_last_ack_empty : ℕ → Zone → Bool
unfolding find_peer
peer_last_ack_empty id z = elim (find_peer id z.peers) [ none ↦ true | some p ↦ is_empty p.acks ]

-- `RegisterElement`; `RegisterZone` of the element is left to the element.
unfoldable pub register_element : ℕ → Zone → Zone
register_element a z = record z { elements = z.elements ++ a ∷ [] }

-- `std::remove` and `erase`
unfoldable pub without : ℕ → List ℕ → List ℕ
without a [] = []
without a (b ∷ bs) = if b == a then without a bs else b ∷ without a bs

-- `RemoveElement` of the element with that number.
unfoldable pub remove_element : ℕ → ℕ → ℕ → Zone → Zone
unfolding without
remove_element now a id z = record z {
  elements = without a z.elements;
  entities = z.entities ++ record { entry_basis = now; entity_id = id } ∷ [];
}
