-- ===== src/NetSession/Requests/Trim.antt =====
-- The oldest requests leave the queue when nobody waits for them, in `UpdatePendingSent` and
-- `ClearPeerArray`.
use gta_psp_multiplayer.Prelude.{
  ℕ, zero, suc, ◌+◌, ◌-◌, ◌%◌, ◌≤◌, ◌≡◌, ◌≢◌, refl, ap, ◌==◌, if◌then◌else◌, arith, Bool-cases, inl,
  inr, ◌⊎◌, ℕ_discrete,
}
use gta_psp_multiplayer.NetSession.Reliable.{num_requests, Request, request_at}
use gta_psp_multiplayer.NetSession.Requests.{Session, trim_loop, trim_queue}
use gta_psp_multiplayer.NetSession.Requests.Owed.{owed_all}
use gta_psp_multiplayer.NetSession.Requests.Link.{IsSession}

-- One request less, the oldest.
abbrev pub trimmed : ℕ → ℕ → Session → Session
trimmed wrap n q = record q {
  queue_count = n;
  queue_unk_a = if q.queue_unk_a == 0 then wrap else q.queue_unk_a - 1;
}

-- Only the queue's length, and what `m_nSendQueueUnkA` holds, change.
pub record Trimmed (q t : Session) : Type 0 where
  pub valid : IsSession t
  pub peers : t.peers ≡ q.peers
  pub requests : t.requests ≡ q.requests
  pub index : t.queue_index ≡ q.queue_index
  pub shorter : t.queue_count ≤ q.queue_count
  pub peer_count : t.peer_count ≡ q.peer_count

abbrev pub oldest : Session → Request
oldest q = request_at q.requests ((q.queue_count - 1 + q.queue_index) % num_requests)

trimmed-IsSession :
    (wrap n : ℕ) (q : Session)
    → IsSession q
    → q.queue_count ≡ suc n
    → (request_at q.requests ((n + q.queue_index) % num_requests)).count_a ≡ 0
    → IsSession (trimmed wrap n q)
trimmed-IsSession wrap n q v size empty = record {
  stale = v.stale;
  counted = v.counted;
  bounded = v.bounded;
  slots = v.slots;
  index = v.index;
  few = omega (arith, v.few);
  sound = v.sound;
  inside = λ r hr near. v.inside r hr (omega arith);
  outside = λ r hr far. elim (ℕ_discrete r ((n + q.queue_index) % num_requests)) [
    | yes e ↦ rw e (omega (arith, v.counted ((n + q.queue_index) % num_requests)))
    | no ne ↦ v.outside r hr (omega (arith, v.index, v.few))
  ];
  many = v.many;
  here = v.here;
  peer_counted = v.peer_counted;
}

trim_loop-Trimmed :
    (wrap n : ℕ) (q : Session)
    → IsSession q
    → q.queue_count ≡ n
    → Trimmed q (trim_loop wrap n q)
      × (((trim_loop wrap n q).queue_count ≡ 0) ⊎ ((oldest (trim_loop wrap n q)).count_a ≢ 0))
unfolding trim_loop
trim_loop-Trimmed wrap zero q v size = (
  record {
    valid = v;
    peers = refl;
    requests = refl;
    index = refl;
    shorter = omega arith;
    peer_count = refl;
  },
  inl size,
)
trim_loop-Trimmed wrap (suc n) q v size =
    elim (Bool-cases ((request_at q.requests ((n + q.queue_index) % num_requests)).count_a == 0)) [
      | inl empty ↦
          let rest =
            trim_loop-Trimmed wrap n (trimmed wrap n q)
              (trimmed-IsSession wrap n q v size (ground arith)) refl in
          let t = rest.0 in
          rw empty (
            record {
              valid = t.valid;
              peers = t.peers;
              requests = t.requests;
              index = t.index;
              shorter = omega (arith, t.shorter);
              peer_count = t.peer_count;
            },
            rest.1,
          )
      | inr waits ↦ rw waits (
        record {
          valid = v;
          peers = refl;
          requests = refl;
          index = refl;
          shorter = omega arith;
          peer_count = refl;
        },
        inr (rw size (ground arith)),
      )
    ]

-- The invariant is kept, and the search stops at an empty queue or an oldest request that somebody waits for.
pub trim_queue-Trimmed :
    (wrap : ℕ) (q : Session)
    → IsSession q
    → Trimmed q (trim_queue wrap q)
      × (((trim_queue wrap q).queue_count ≡ 0) ⊎ ((oldest (trim_queue wrap q)).count_a ≢ 0))
unfolding trim_queue
trim_queue-Trimmed wrap q v = trim_loop-Trimmed wrap q.queue_count q v refl

-- When no peer waits for anything, the queue empties.
pub trim_queue-empty :
    (wrap : ℕ) (q : Session)
    → IsSession q
    → ((r : ℕ) → owed_all r q.peers ≡ 0)
    → (trim_queue wrap q).queue_count ≡ 0
trim_queue-empty wrap q v idle =
    let (t, ended) = trim_queue-Trimmed wrap q v in
    elim ended [
      | inl h ↦ h
      | inr waits ↦
          let u = trim_queue wrap q in
          let i = (u.queue_count - 1 + u.queue_index) % num_requests in
          elim (ℕ_discrete u.queue_count 0) [
            | yes h ↦ h
            | no more ↦ absurd (
                waits (
                  omega (
                    arith,
                    t.valid.counted i,
                    t.valid.inside i (omega arith) (omega (arith, t.valid.index, t.valid.few)),
                    idle i,
                    ap (owed_all i) t.peers,
                  )))
          ]
    ]
