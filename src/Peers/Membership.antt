-- ===== src/Peers/Membership.antt =====
-- `ConnectPeer`, `DeletePeer` and `GetPeerById`: the peer manager and the groups of the session together.
use gta_psp_multiplayer.Prelude.{
  ℕ, ◌^◌, ◌≤◌, ◌<◌, ◌≡◌, refl, ap, sym, subst, ◌∙◌, true, false, ◌&&◌, ◌||◌, none, some, List, [],
  ◌∷◌, ◌++◌, ◌==◌, if◌then◌else◌, arith,
}
use gta_psp_multiplayer.Prelude.Int.{ℤ, pos}
use gta_psp_multiplayer.NetSession.Groups.{
  broadcast, same, has_peer_queue, create_peer_group, listed,
}
use gta_psp_multiplayer.NetSession.Groups.Order.{InOrder}
use gta_psp_multiplayer.NetSession.Groups.Members.{has_peer_queue-ids, has_id}
use gta_psp_multiplayer.NetSession.Groups.Create.{
  create_peer_group_lem, has_peer_queue-create_peer_group,
}
use gta_psp_multiplayer.NetSession.Groups.Effects.{register_group_peer_lem, delete_peer_lem}
use gta_psp_multiplayer.Peers.{
  PeerState, Manager, new_peer, is_id, connect_peer, remove_peer, erase_player, get_peer_by_id,
  ◌>>=◌,
}

-- What `ConnectPeer` leaves.
pub record Connected (id : ℕ) (m t : Manager) : Type 0 where
  pub returns : connect_peer id m ≡ some t
  pub players : t.players ≡ m.players ++ new_peer id ∷ []
  pub ordered : InOrder t.queues
  pub members :
      (h : ℤ) (r : ℕ)
      → listed h r t.queues
        ≡ (if (same broadcast h || same (pos id) h) && (id == r) then true else listed h r m.queues)

-- `ConnectPeer` on groups whose peers are in order and that have the broadcast group.
pub connect_peer-Connected :
    (id : ℕ) (m : Manager)
    → InOrder m.queues
    → has_peer_queue broadcast m.queues ≡ true
    → (t : Manager) × Connected id m t
connect_peer-Connected id m o known =
    let c = create_peer_group (pos id) m.queues in
    let made = create_peer_group_lem (pos id) m.queues o in
    let all =
      register_group_peer_lem broadcast id c made.1
        (has_peer_queue-create_peer_group (pos id) broadcast m.queues known) in
    let own = register_group_peer_lem (pos id) id all.0 all.2 (
      has_peer_queue-ids (pos id) all.0
      ∙ ap (has_id (pos id)) all.3
      ∙ sym (has_peer_queue-ids (pos id) c)
      ∙ made.0) in
    (
      record { players = m.players ++ new_peer id ∷ []; queues = own.0 },
      record {
        returns = unfold connect_peer in rw (all.1, own.1) refl;
        players = refl;
        ordered = own.2;
        members = λ h r. own.4 h r ∙ ground (arith, all.4 h r, made.2 h r);
      },
    )

-- What `DeletePeer` leaves.
pub record Removed (id : ℕ) (m t : Manager) : Type 0 where
  pub returns : remove_peer id m ≡ some t
  pub players : t.players ≡ erase_player id m.players
  pub ordered : InOrder t.queues
  pub members :
      (h : ℤ) (r : ℕ) → listed h r t.queues ≡ (if id == r then false else listed h r m.queues)

pub remove_peer-Removed : (id : ℕ) (m : Manager) → InOrder m.queues → (t : Manager) × Removed id m t
remove_peer-Removed id m o =
    let d = delete_peer_lem id m.queues o in
    (
      record { players = erase_player id m.players; queues = d.0 },
      record {
        returns = unfold remove_peer in rw (d.1) refl;
        players = refl;
        ordered = d.2;
        members = d.4;
      },
    )

-- The number of a new peer is read back when it fits the seven bits that an `int8` has for it.
is_id-new : (id : ℕ) → id < 2 ^ 7 → is_id id (new_peer id) ≡ true
unfolding is_id same
is_id-new id h = ground (arith, h)

-- No peer has a number of 128 or more.
is_id-high : (id : ℕ) (p : PeerState) → 2 ^ 7 ≤ id → p.id < 2 ^ 8 → is_id id p ≡ false
unfolding is_id same
is_id-high id p h k = ground (arith, h, k)

erase_player-append :
    (id : ℕ) (ps : List PeerState) (p : PeerState)
    → get_peer_by_id id ps ≡ none
    → is_id id p ≡ true
    → erase_player id (ps ++ p ∷ []) ≡ ps
unfolding erase_player get_peer_by_id
erase_player-append id [] p h e = rw e refl
erase_player-append id (x ∷ ps) p h e = ground (arith, erase_player-append id ps p)

get_peer_by_id-append :
    (id : ℕ) (ps : List PeerState) (p : PeerState)
    → get_peer_by_id id ps ≡ none
    → is_id id p ≡ true
    → get_peer_by_id id (ps ++ p ∷ []) ≡ some p
unfolding get_peer_by_id
get_peer_by_id-append id [] p h e = rw e refl
get_peer_by_id-append id (x ∷ ps) p h e = ground (arith, get_peer_by_id-append id ps p)

-- On groups whose peers are in order and that have the broadcast group, a number below 128 that no peer
-- has can be connected: the peer is then found under it, stands in the broadcast group and in the group
-- of its own number, and every other membership is as before.
pub connect_peer_lem :
    (id : ℕ) (m : Manager)
    → InOrder m.queues
    → has_peer_queue broadcast m.queues ≡ true
    → id < 2 ^ 7
    → get_peer_by_id id m.players ≡ none
    → (t : Manager) × (connect_peer id m ≡ some t)
      × (get_peer_by_id id t.players ≡ some (new_peer id))
      × ((h : ℤ) (r : ℕ)
          → listed h r t.queues ≡ (
              if (same broadcast h || same (pos id) h) && (id == r)
              then true
              else listed h r m.queues))
connect_peer_lem id m o known small free =
    let (t, c) = connect_peer-Connected id m o known in
    (
      t,
      c.returns,
      ap (get_peer_by_id id) c.players
          ∙ get_peer_by_id-append id m.players (new_peer id) free (is_id-new id small),
      c.members,
    )

-- Under the same conditions, a peer that connects and is deleted again leaves the players as they were,
-- its number in no group, and the memberships of the others as they were.
pub connect_peer-remove_peer :
    (id : ℕ) (m : Manager)
    → InOrder m.queues
    → has_peer_queue broadcast m.queues ≡ true
    → id < 2 ^ 7
    → get_peer_by_id id m.players ≡ none
    → (t : Manager) × ((connect_peer id m >>= remove_peer id) ≡ some t)
      × (t.players ≡ m.players)
      × ((h : ℤ) (r : ℕ) → listed h r t.queues ≡ (if id == r then false else listed h r m.queues))
connect_peer-remove_peer id m o known small free =
    let (c, cv) = connect_peer-Connected id m o known in
    let (t, tv) = remove_peer-Removed id c cv.ordered in
    (
      t,
      rw (cv.returns) (tv.returns),
      tv.players
          ∙ ap (erase_player id) cv.players
          ∙ erase_player-append id m.players (new_peer id) free (is_id-new id small),
      λ h r. tv.members h r ∙ ground (arith, cv.members h r),
    )

-- `m_nID` of every player is a byte.
abbrev pub AllBytes : List PeerState → Type 0
AllBytes [] = Unit {0}
AllBytes (p ∷ ps) = (p.id < 2 ^ 8) × AllBytes ps

AllBytes-append : (ps : List PeerState) (id : ℕ) → AllBytes ps → AllBytes (ps ++ new_peer id ∷ [])
AllBytes-append [] id h = (omega arith, tt)
AllBytes-append (p ∷ ps) id h = (h.0, AllBytes-append ps id h.1)

erase_player-high :
    (id : ℕ) (ps : List PeerState) → 2 ^ 7 ≤ id → AllBytes ps → erase_player id ps ≡ ps
unfolding erase_player
erase_player-high id [] h k = refl
erase_player-high id (p ∷ ps) h k =
    rw (is_id-high id p h k.0) (ap (λ qs. p ∷ qs) (erase_player-high id ps h k.1))

get_peer_by_id-high :
    (id : ℕ) (ps : List PeerState) → 2 ^ 7 ≤ id → AllBytes ps → get_peer_by_id id ps ≡ none
unfolding get_peer_by_id
get_peer_by_id-high id [] h k = refl
get_peer_by_id-high id (p ∷ ps) h k = rw (is_id-high id p h k.0) (get_peer_by_id-high id ps h k.1)

-- A number of 128 or more can be connected, on groups in order with the broadcast group, but the peer is
-- not found under it, and its deletion leaves it among the players: `m_nID` is an `int8`, and is
-- compared with a `uint8`.
pub connect_peer-high :
    (id : ℕ) (m : Manager)
    → InOrder m.queues
    → has_peer_queue broadcast m.queues ≡ true
    → 2 ^ 7 ≤ id
    → AllBytes m.players
    → (c t : Manager) × (connect_peer id m ≡ some c)
      × (get_peer_by_id id c.players ≡ none)
      × (remove_peer id c ≡ some t)
      × (t.players ≡ m.players ++ new_peer id ∷ [])
connect_peer-high id m o known high bytes =
    let (c, cv) = connect_peer-Connected id m o known in
    let (t, tv) = remove_peer-Removed id c cv.ordered in
    let all : AllBytes c.players =
      subst AllBytes (sym cv.players) (AllBytes-append m.players id bytes) in
    (
      c,
      t,
      cv.returns,
      get_peer_by_id-high id c.players high all,
      tv.returns,
      tv.players ∙ erase_player-high id c.players high all ∙ cv.players,
    )
