-- ===== src/NetSession/Reliable/Clear.antt =====
-- `ClearPeerArray`: the entries of a peer leave its ring.
use gta_psp_multiplayer.Prelude.{
  ℕ, zero, suc, ◌+◌, ◌%◌, ◌≤◌, ◌<◌, ◌≡◌, ◌≢◌, refl, List, [], ◌∷◌, ◌==◌, if◌then◌else◌, arith,
  Bool-cases, if_case, inl, inr,
}
use gta_psp_multiplayer.NetSession.Reliable.{
  Entry, Sender, Request, num_sent, behind, entry_at, count_down, clear_loop, clear_sender,
}
use gta_psp_multiplayer.NetSession.Reliable.Ring.{entries_from, waiting}
use gta_psp_multiplayer.NetSession.Reliable.Accounts.{Accounted, Accounted-settled}
use gta_psp_multiplayer.NetSession.Reliable.Keeps.{
  IsSender, SameParts, SameParts-refl, SameParts-trans, changed-SameParts,
}

clear_loop-end :
    (fuel i : ℕ) (s : Sender) (rs : List Request) → i ≡ s.sent_end → clear_loop fuel i s rs ≡ rs
unfolding clear_loop
clear_loop-end zero i s rs h = refl
clear_loop-end (suc fuel) i s rs h = ground arith

clear_loop-turn :
    (fuel i : ℕ) (s : Sender) (rs : List Request)
    → i ≢ s.sent_end
    → clear_loop (suc fuel) i s rs
      ≡ clear_loop fuel
          (behind i)
          s
          (if (entry_at s i).processed then rs else count_down (entry_at s i).request rs)
unfolding clear_loop
clear_loop-turn fuel i s rs h = ground arith

-- An entry leaves the list, and its request counts it no more.
Accounted-cleared :
    (extra : ℕ → ℕ) (e : Entry) (es : List Entry) (rs : List Request)
    → Accounted extra (e ∷ es) rs
    → Accounted extra es (if e.processed then rs else count_down e.request rs)
Accounted-cleared extra e es rs a = elim (Bool-cases e.processed) [
  | inl done ↦
      rw done (record { counted = λ r. ground (arith, a.counted r, done); bounded = a.bounded })
  | inr waits ↦
      let b = Accounted-settled extra e es rs waits a in
      rw waits (record { counted = λ r. ground (arith, b.counted r); bounded = b.bounded })
]

clear_loop-Accounted :
    (fuel n i : ℕ) (extra : ℕ → ℕ) (s : Sender) (rs : List Request)
    → n ≤ fuel
    → n < num_sent
    → i < num_sent
    → s.sent_end ≡ (i + n) % num_sent
    → Accounted extra (entries_from n i s.entries) rs
    → Accounted extra [] (clear_loop fuel i s rs)
clear_loop-Accounted fuel zero i extra s rs hf hn hi closed a =
    rw (clear_loop-end fuel i s rs (omega arith)) a
clear_loop-Accounted zero (suc n) i extra s rs hf hn hi closed a = elim hf [ ]
clear_loop-Accounted (suc fuel) (suc n) i extra s rs hf hn hi closed a =
    rw (clear_loop-turn fuel i s rs (omega (arith, closed))) (
      clear_loop-Accounted fuel n (behind i) extra s _ (omega arith) (omega arith) (omega arith)
        (omega arith)
        (Accounted-cleared extra (entry_at s i) (entries_from n (behind i) s.entries) rs a))

clear_loop-SameParts :
    (fuel i : ℕ) (s : Sender) (rs : List Request) → SameParts rs (clear_loop fuel i s rs)
unfolding clear_loop
clear_loop-SameParts zero i s rs = SameParts-refl rs
clear_loop-SameParts (suc fuel) i s rs =
    let e = entry_at s i in
    let rs' = if e.processed then rs else count_down e.request rs in
    let first : SameParts rs rs' =
      if_case (λ qs. SameParts rs qs) e.processed (SameParts-refl rs)
        (changed-SameParts rs e.request _) in
    if_case (λ qs. SameParts rs qs) (i == s.sent_end) (SameParts-refl rs)
      (SameParts-trans first (clear_loop-SameParts fuel (behind i) s rs'))

-- The ring of a peer that is cleared is empty, and the requests count what the other peers wait for.
pub clear_sender-IsSender :
    (extra : ℕ → ℕ) (s : Sender) (rs : List Request)
    → IsSender extra s rs
    → let c = clear_sender s rs in IsSender extra c.0 c.1 × (waiting c.0 ≡ []) × SameParts rs c.1
unfolding clear_sender
clear_sender-IsSender extra s rs v =
    let a =
      clear_loop-Accounted num_sent s.sent_count s.sent_begin extra s rs (omega (arith, v.ring.few))
        v.ring.few v.ring.begun v.ring.closed v.accounts in
    (
      record {
        ring = record {
          slots = v.ring.slots;
          begun = v.ring.begun;
          few = omega arith;
          closed = omega (arith, v.ring.begun);
        };
        accounts = a;
        reliable = tt;
      },
      refl,
      clear_loop-SameParts num_sent s.sent_begin s rs,
    )
