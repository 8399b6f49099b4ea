-- ===== src/Peers/Team.antt =====
-- `UpdateTeamPeerGroup` and `GetLastPeer`.
use gta_psp_multiplayer.Prelude.{
  ℕ, zero, suc, ◌+◌, ◌%◌, ◌^◌, ◌≤◌, ◌<◌, ◌≡◌, refl, ap, sym, ◌∙◌, Bool, true, not, ◌&&◌, Option,
  none, some, List, [], ◌∷◌, ◌++◌, length, length-append, get_elem?, ltb, ◌==◌, if◌then◌else◌,
  arith, Bool-cases, inl, inr, ℕ_discrete, ◌⊎◌,
}
use gta_psp_multiplayer.Prelude.Int.{ℤ, pos, negsuc}
use gta_psp_multiplayer.NetSession.Groups.{Queues, same, has_peer_queue, is_same_group, listed}
use gta_psp_multiplayer.NetSession.Groups.Order.{InOrder}
use gta_psp_multiplayer.NetSession.Groups.Members.{same-eq, has_peer_queue-ids, has_id}
use gta_psp_multiplayer.NetSession.Groups.Effects.{register_group_peer_lem}
use gta_psp_multiplayer.Peers.{
  PeerState, Manager, peer_id, is_id, get_peer_by_id, get_peer_at, last_loop, get_last_peer,
  team_turn, team_loop, update_team_peer_group,
}

team_turn-missing :
    (team_of : ℤ → ℕ) (team : ℕ) (group : ℤ) (i : ℕ) (ps : List PeerState) (qs : Queues)
    → get_peer_by_id (i % 2 ^ 8) ps ≡ none
    → team_turn team_of team group i ps qs ≡ none
unfolding team_turn
team_turn-missing team_of team group i ps qs h = rw (h, team_turn) refl

option_cases {ℓ} : {A : Type ℓ} (m : Option A) → (m ≡ none) ⊎ ((a : A) × (m ≡ some a))
option_cases none = inl refl
option_cases (some a) = inr (a, refl)

team_loop-missing :
    (team_of : ℤ → ℕ) (team : ℕ) (group : ℤ) (n i k : ℕ) (ps : List PeerState) (qs : Queues)
    → k < n
    → get_peer_by_id ((i + k) % 2 ^ 8) ps ≡ none
    → team_loop team_of team group n i ps qs ≡ none
unfolding team_loop
team_loop-missing team_of team group zero i k ps qs few h = elim few [ ]
team_loop-missing team_of team group (suc n) i zero ps qs few h =
    rw
      (team_turn-missing team_of team group i ps qs
        (ap (λ j. get_peer_by_id (j % 2 ^ 8) ps) (omega arith) ∙ h))
      refl
team_loop-missing team_of team group (suc n) i (suc k) ps qs few h =
    elim (option_cases (team_turn team_of team group i ps qs)) [
      | inl stop ↦ rw stop refl
      | inr (rs, went) ↦ rw went (
          team_loop-missing team_of team group n (suc i) k ps rs (omega arith)
            (ap (λ j. get_peer_by_id (j % 2 ^ 8) ps) (omega arith) ∙ h))
    ]

-- With a number below the count of players that no player has, `UpdateTeamPeerGroup` meets the nil
-- pointer that it asserts not to be there: it takes the index of a player for its number.
pub update_team_peer_group-missing :
    (team_of : ℤ → ℕ) (team : ℕ) (group : ℤ) (k : ℕ) (m : Manager)
    → k < length m.players
    → get_peer_by_id (k % 2 ^ 8) m.players ≡ none
    → update_team_peer_group team_of team group m ≡ none
unfolding update_team_peer_group
update_team_peer_group-missing team_of team group k m few h =
    rw
      (team_loop-missing team_of team group (length m.players) 0 k m.players m.queues few
        (ap (λ j. get_peer_by_id (j % 2 ^ 8) m.players) (omega arith) ∙ h))
      refl

last_loop-last :
    (n i : ℕ) (ps : List PeerState) (state : Option PeerState)
    → last_loop (suc n) i ps state ≡ get_peer_at ((i + n) % 2 ^ 8) ps
unfolding last_loop
last_loop-last zero i ps state = ap (λ j. get_peer_at (j % 2 ^ 8) ps) (omega arith)
last_loop-last (suc n) i ps state =
    last_loop-last n (suc i) ps (get_peer_at (i % 2 ^ 8) ps)
    ∙ ap (λ j. get_peer_at (j % 2 ^ 8) ps) (omega arith)

get_elem?-last :
    (ps : List PeerState) (p : PeerState) → get_elem? (ps ++ p ∷ []) (length ps) ≡ some p
get_elem?-last [] p = refl
get_elem?-last (x ∷ ps) p = get_elem?-last ps p

-- With at most 256 players, `GetLastPeer` returns the last.
pub get_last_peer_lem :
    (ps : List PeerState) (p : PeerState)
    → length ps < 2 ^ 8
    → get_last_peer (ps ++ p ∷ []) ≡ some p
unfolding get_last_peer
get_last_peer_lem ps p few =
    ap (λ n. last_loop n 0 (ps ++ p ∷ []) none) {x = length (ps ++ p ∷ [])} {y = suc (length ps)}
      (omega (arith, length-append ps (p ∷ [])))
    ∙ last_loop-last (length ps) 0 (ps ++ p ∷ []) none
    ∙ ap (get_elem? (ps ++ p ∷ [])) {y = length ps} (omega (arith, few))
    ∙ get_elem?-last ps p

-- The peer that is found has the number.
get_peer_by_id-id :
    (id : ℕ) (ps : List PeerState) (p : PeerState)
    → get_peer_by_id id ps ≡ some p
    → peer_id p ≡ pos id
unfolding get_peer_by_id is_id
get_peer_by_id-id id [] p h = cc
get_peer_by_id-id id (x ∷ ps) p h = elim (Bool-cases (same (peer_id x) (pos id))) [
  | inl e ↦
      let k : some x ≡ some p = rw e at h in
      ap peer_id (sym (some-inj k)) ∙ same-eq (peer_id x) (pos id) e
  | inr e ↦ get_peer_by_id-id id ps p (rw e at h)
]
  where
    some-inj : {a b : PeerState} → some a ≡ some b → a ≡ b
    some-inj e = cc

-- The groups after a player, or the first `n` of them, were looked at.
record Looked (team_of : ℤ → ℕ) (team : ℕ) (group : ℤ) (member : ℕ → Bool) (qs rs : Queues)
    : Type 0 where
  ordered : InOrder rs
  known : has_peer_queue group rs ≡ true
  members :
      (h : ℤ) (r : ℕ)
      → listed h r rs
        ≡ (if same group h && (member r && (team_of (pos r) == team)) then true else listed h r qs)

-- For a team's group, which is known.
is_same_group-team :
    (g i : ℕ) (qs : Queues)
    → has_peer_queue (negsuc (suc g)) qs ≡ true
    → is_same_group (negsuc (suc g)) i qs ≡ listed (negsuc (suc g)) i qs
unfolding is_same_group same
is_same_group-team g i qs known = rw known (ground arith)

team_turn-Looked :
    (team_of : ℤ → ℕ) (team g i : ℕ) (ps : List PeerState) (qs : Queues) (p : PeerState)
    → InOrder qs
    → has_peer_queue (negsuc (suc g)) qs ≡ true
    → i < 2 ^ 8
    → get_peer_by_id i ps ≡ some p
    → (rs : Queues) × (team_turn team_of team (negsuc (suc g)) i ps qs ≡ some rs)
      × Looked team_of team (negsuc (suc g)) (λ r. i == r) qs rs
unfolding team_turn
team_turn-Looked team_of team g i ps qs p o known small found =
    let group = negsuc (suc g) in
    let is_p = get_peer_by_id-id i ps p found in
    let mine : (team_of (peer_id p) == team) ≡ (team_of (pos i) == team) =
      ap (λ z. team_of z == team) is_p in
    let found' : get_peer_by_id (i % 2 ^ 8) ps ≡ some p =
      ap (λ j. get_peer_by_id j ps) {x = i % 2 ^ 8} {y = i} (omega (arith, small)) ∙ found in
    let index : i % 2 ^ 8 ≡ i = omega (arith, small) in
    elim (Bool-cases (team_of (pos i) == team)) [
      | inr other ↦ (
        qs,
        rw (found', mine, other, team_turn) refl,
        record {
          ordered = o;
          known = known;
          members = λ h r. elim (ℕ_discrete i r) [
            | yes e ↦ ground (arith, ap (λ j. team_of (pos j) == team) e, other)
            | no ne ↦ ground arith
          ];
        },
      )
      | inl ours ↦ elim (Bool-cases (listed group i qs)) [
        | inl there ↦ (
          qs,
          rw (found', mine, ours, index, is_same_group-team g i qs known, there, team_turn) refl,
          record {
            ordered = o;
            known = known;
            members = λ h r. elim (ℕ_discrete i r) [
              | yes e ↦ elim (Bool-cases (same group h)) [
                | inl s ↦ ground (
                  arith,
                  ap (λ k. listed k r qs) (same-eq group h s),
                  ap (λ j. listed group j qs) e,
                  there,
                )
                | inr s ↦ ground arith
              ]
              | no ne ↦ ground arith
            ];
          },
        )
        | inr absent ↦
            let k = register_group_peer_lem group i qs o known in
            (
              k.0,
              rw (found', mine, ours, index, is_same_group-team g i qs known, absent, team_turn)
                  (k.1),
              record {
                ordered = k.2;
                known =
                    has_peer_queue-ids group k.0
                    ∙ ap (has_id group) k.3
                    ∙ sym (has_peer_queue-ids group qs)
                    ∙ known;
                members = λ h r. elim (ℕ_discrete i r) [
                  | yes e ↦ ground (arith, k.4 h r, ap (λ j. team_of (pos j) == team) e, ours)
                  | no ne ↦ ground (arith, k.4 h r)
                ];
              },
            )
      ]
    ]

team_loop-Looked :
    (team_of : ℤ → ℕ) (team g n i : ℕ) (ps : List PeerState) (qs : Queues)
    → InOrder qs
    → has_peer_queue (negsuc (suc g)) qs ≡ true
    → i + n ≤ 2 ^ 8
    → ((k : ℕ) → k < i + n → (p : PeerState) × (get_peer_by_id k ps ≡ some p))
    → (rs : Queues) × (team_loop team_of team (negsuc (suc g)) n i ps qs ≡ some rs)
      × Looked team_of team (negsuc (suc g)) (λ r. not (ltb r i) && ltb r (i + n)) qs rs
unfolding team_loop
team_loop-Looked team_of team g zero i ps qs o known small found =
    (qs, refl, record { ordered = o; known = known; members = λ h r. ground arith })
team_loop-Looked team_of team g (suc n) i ps qs o known small found =
    let (p, here) = found i (omega arith) in
    let (qs', went, l) = team_turn-Looked team_of team g i ps qs p o known (omega arith) here in
    let (rs, ends, k) =
      team_loop-Looked team_of team g n (suc i) ps qs' l.ordered l.known (omega arith)
        (λ j h. found j (omega arith)) in
    (
      rs,
      rw went ends,
      record {
        ordered = k.ordered;
        known = k.known;
        members = λ h r. k.members h r ∙ ground (arith, l.members h r);
      },
    )

-- When the players have the numbers from 0 on, in any order and at most 256 of them, and the team's group is known
-- and the peers of the groups in order, `UpdateTeamPeerGroup` returns, leaves the players, adds to the
-- team's group exactly the numbers of the players of the team, and changes no other membership.
pub update_team_peer_group_lem :
    (team_of : ℤ → ℕ) (team g : ℕ) (m : Manager)
    → InOrder m.queues
    → has_peer_queue (negsuc (suc g)) m.queues ≡ true
    → length m.players ≤ 2 ^ 8
    → ((k : ℕ) → k < length m.players → (p : PeerState) × (get_peer_by_id k m.players ≡ some p))
    → (t : Manager) × (update_team_peer_group team_of team (negsuc (suc g)) m ≡ some t)
      × (t.players ≡ m.players)
      × ((h : ℤ) (r : ℕ)
          → listed h r t.queues ≡ (
              if same (negsuc (suc g)) h && (ltb r (length m.players) && (team_of (pos r) == team))
              then true
              else listed h r m.queues))
unfolding update_team_peer_group
update_team_peer_group_lem team_of team g m o known few found =
    let (rs, ends, k) =
      team_loop-Looked team_of team g (length m.players) 0 m.players m.queues o known (omega arith)
        (λ j h. found j (omega arith)) in
    (record m { queues = rs }, rw ends refl, refl, λ h r. k.members h r ∙ ground arith)
