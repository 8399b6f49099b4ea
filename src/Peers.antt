-- ===== src/Peers.antt =====
-- The peer manager (`cPeerManager` and `sPeerState` of net/Peers.cpp): who is in the game, itself
-- included, and the groups of the session it keeps in step with that.
pub mod Membership
pub mod Team
pub mod Latency
mod Tests
use gta_psp_multiplayer.Prelude.{
  ℕ, zero, suc, ◌+◌, ◌%◌, ◌^◌, Bool, true, false, not, Option, none, some, List, [], ◌∷◌, ◌++◌,
  length, get_elem?, ◌==◌, if◌then◌else◌,
}
use gta_psp_multiplayer.Prelude.Int.{ℤ, pos}
use gta_psp_multiplayer.Sync.Types.{to_signed}
use gta_psp_multiplayer.NetSession.Groups.{
  Queues, broadcast, same, create_peer_group, register_group_peer, is_same_group, delete_peer,
}

-- An `sPeerState`: `id` is the byte of `m_nID`, which is an `int8`.
pub record PeerState : Type 0 where
  pub id : ℕ
  pub cur_time : ℕ
  pub check_sender : Bool
  pub send_overflow : Bool
  pub is_spawned : Bool

-- `m_vPlayers`, without nil pointers, and the groups of the session.
pub record Manager : Type 0 where
  pub players : List PeerState
  pub queues : Queues

-- `sPeerState()`.
abbrev pub new_peer : ℕ → PeerState
new_peer id = record {
  id = id % 2 ^ 8;
  cur_time = 0;
  check_sender = false;
  send_overflow = false;
  is_spawned = false;
}

-- `m_nID == id` for a `uint8`: both are promoted to `int`.
unfoldable pub is_id : ℕ → PeerState → Bool
is_id id p = same (to_signed 8 p.id) (pos id)

abbrev pub peer_id : PeerState → ℤ
peer_id p = to_signed 8 p.id

infixl 5 ◌>>=◌
abbrev pub ◌>>=◌ : {A B : Type 0} → Option A → (A → Option B) → Option B
none >>= f = none
some a >>= f = f a

-- `ConnectPeer`, for a `uint8`. `none` is the nil pointer of a group that is unknown.
unfoldable pub connect_peer : ℕ → Manager → Option Manager
connect_peer id m = do
  everyone ← register_group_peer broadcast id (create_peer_group (pos id) m.queues)
  queues ← register_group_peer (pos id) id everyone
  some (record { players = m.players ++ new_peer id ∷ []; queues = queues })

-- The first peer of that number is erased.
unfoldable pub erase_player : ℕ → List PeerState → List PeerState
unfolding is_id
erase_player id [] = []
erase_player id (p ∷ ps) = if is_id id p then ps else p ∷ erase_player id ps

-- `DeletePeer`.
unfoldable pub remove_peer : ℕ → Manager → Option Manager
unfolding erase_player
remove_peer id m = do
  queues ← delete_peer id m.queues
  some (record { players = erase_player id m.players; queues = queues })

-- `GetPeerById`.
unfoldable pub get_peer_by_id : ℕ → List PeerState → Option PeerState
unfolding is_id
get_peer_by_id id [] = none
get_peer_by_id id (p ∷ ps) = if is_id id p then some p else get_peer_by_id id ps

-- `GetPeerAt`, for a `uint8`.
abbrev pub get_peer_at : ℕ → List PeerState → Option PeerState
get_peer_at index ps = get_elem? ps index

-- The loop of `GetLastPeer`: `state` is what the last turn left, or none where it was never written.
unfoldable pub last_loop : ℕ → ℕ → List PeerState → Option PeerState → Option PeerState
last_loop zero i ps state = state
last_loop (suc n) i ps state = last_loop n (suc i) ps (get_peer_at (i % 2 ^ 8) ps)

-- `GetLastPeer`.
unfoldable pub get_last_peer : List PeerState → Option PeerState
unfolding last_loop
get_last_peer ps = last_loop (length ps) 0 ps none

-- `sPeerState::IsConnected`, on the console whose number is `local`.
unfoldable pub is_connected : ℤ → PeerState → Bool
is_connected local p =
    if same (peer_id p) local then true else if p.check_sender then not p.send_overflow else false

-- `IsPeerConnected`.
unfoldable pub is_peer_connected : ℤ → ℕ → List PeerState → Bool
unfolding get_peer_by_id is_connected
is_peer_connected local id ps = elim (get_peer_by_id id ps) [
  | none ↦ false
  | some p ↦ is_connected local p
]

-- A turn of the loop of `UpdateTeamPeerGroup`: the index of a player is taken for a number, which is
-- then the number of the player that is found.
unfoldable pub team_turn : (ℤ → ℕ) → ℕ → ℤ → ℕ → List PeerState → Queues → Option Queues
unfolding get_peer_by_id
team_turn team_of team group i ps qs = elim (get_peer_by_id (i % 2 ^ 8) ps) [
  | none ↦ none
  | some p ↦
      if team_of (peer_id p) == team
      then if is_same_group group (i % 2 ^ 8) qs
        then some qs
        else register_group_peer group (i % 2 ^ 8) qs
      else some qs
]

-- The loop, for `n` players from index `i` on. The assertion that the player is there is taken as it is
-- with debugging: it stops the program, which is none.
unfoldable pub team_loop : (ℤ → ℕ) → ℕ → ℤ → ℕ → ℕ → List PeerState → Queues → Option Queues
unfolding team_turn
team_loop team_of team group zero i ps qs = some qs
team_loop team_of team group (suc n) i ps qs = do
  rs ← team_turn team_of team group i ps qs
  team_loop team_of team group n (suc i) ps rs

-- `UpdateTeamPeerGroup`; `team_of` is `GetPlayerTeamID`. The update of the team's zone is left out.
unfoldable pub update_team_peer_group : (ℤ → ℕ) → ℕ → ℤ → Manager → Option Manager
unfolding team_loop
update_team_peer_group team_of team group m = do
  queues ← team_loop team_of team group (length m.players) 0 m.players m.queues
  some (record m { queues = queues })
