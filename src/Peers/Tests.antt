-- ===== src/Peers/Tests.antt =====
-- The theorems on the peer manager at concrete peers, and runs of it.
use gta_psp_multiplayer.Prelude.{
  ℕ, zero, suc, ◌+◌, ◌-◌, ◌<◌, ◌≡◌, refl, true, false, ◌&&◌, some, List, [], ◌∷◌, replicate, ltb,
  ◌==◌, if◌then◌else◌, inr, arith,
}
use gta_psp_multiplayer.Prelude.Int.{ℤ}
use gta_psp_multiplayer.NetSession.Groups.{
  fresh_queue, broadcast, team_a, same, has_peer_queue, listed,
}
use gta_psp_multiplayer.NetSession.Groups.Order.{InOrder}
use gta_psp_multiplayer.Peers.{
  PeerState, Manager, new_peer, is_id, connect_peer, remove_peer, get_peer_by_id,
  update_team_peer_group, ◌>>=◌,
}
use gta_psp_multiplayer.Peers.Membership.{connect_peer-remove_peer}
use gta_psp_multiplayer.Peers.Team.{update_team_peer_group_lem}
use gta_psp_multiplayer.Peers.Latency.{
  Latency, IsLatency, new_latency, update_all, update_all-IsLatency,
}

-- The host is in the game; there are the broadcast group and the group of team A.
abbrev manager : Manager
manager = record {
  players = new_peer 0 ∷ [];
  queues = record (fresh_queue broadcast) { peer_list = 0 ∷ [] } ∷ fresh_queue team_a ∷ [];
}

manager-InOrder : InOrder manager.queues
manager-InOrder = ((omega arith, tt), (tt, tt))

connect_peer-remove_peer_example :
    (t : Manager) × ((connect_peer 3 manager >>= remove_peer 3) ≡ some t)
    × (t.players ≡ manager.players)
    × ((h : ℤ) (r : ℕ)
        → listed h r t.queues ≡ (if 3 == r then false else listed h r manager.queues))
unfolding has_peer_queue same get_peer_by_id is_id
connect_peer-remove_peer_example =
    connect_peer-remove_peer 3 manager manager-InOrder refl (omega arith) refl

found : (k : ℕ) → k < 1 → (p : PeerState) × (get_peer_by_id k manager.players ≡ some p)
unfolding get_peer_by_id is_id same
found zero h = (new_peer 0, refl)
found (suc k) h = absurd (omega arith)

-- Everybody is in team 4.
update_team_peer_group_example :
    (t : Manager) × (update_team_peer_group (λ p. 4) 4 team_a manager ≡ some t)
    × (t.players ≡ manager.players)
    × ((h : ℤ) (r : ℕ)
        → listed h r t.queues
          ≡ (if same team_a h && (ltb r 1 && (4 == 4)) then true else listed h r manager.queues))
unfolding has_peer_queue same
update_team_peer_group_example =
    update_team_peer_group_lem (λ p. 4) 4 0 manager manager-InOrder refl (omega arith) found

-- Latencies as whole numbers, and a memory of sevens.
abbrev memory : List ℕ
memory = replicate 15 7

new_memory-IsLatency :
    IsLatency 0 (λ a b. a + b) (λ a b. a - b) (new_latency 0 (λ a b. a + b) (λ a b. a - b) memory)
new_memory-IsLatency = record {
  filling = omega arith;
  counts = omega arith;
  starts = omega arith;
  down = inr refl;
}

update_all-IsLatency_example :
    (m : Latency ℕ) × (update_all 0
        (λ a b. a + b)
        (λ a b. a - b)
        (5 ∷ 6 ∷ [])
        (new_latency 0 (λ a b. a + b) (λ a b. a - b) memory)
      ≡ some m)
    × IsLatency 0 (λ a b. a + b) (λ a b. a - b) m
update_all-IsLatency_example =
    update_all-IsLatency 0 (λ a b. a + b) (λ a b. a - b) (5 ∷ 6 ∷ [])
      (new_latency 0 (λ a b. a + b) (λ a b. a - b) memory) new_memory-IsLatency
