-- ===== src/NetSession/Reliable/Keeps.antt =====
-- What every operation on the ring of one peer keeps.
use gta_psp_multiplayer.Prelude.{
  ℕ, zero, suc, ◌+◌, ◌≡◌, refl, ap, sym, subst, ◌∙◌, false, Option, List, [], ◌∷◌, ◌++◌, length,
  take, drop, take-append-drop, set, length-set, ◌==◌, if◌then◌else◌, not, ◌&&◌, arith, if_case,
}
use gta_psp_multiplayer.Prelude.Int.{ℤ}
use gta_psp_multiplayer.NetSession.Reliable.{
  Entry, Sender, Request, Shared, num_sent, behind, entry_at, request_at, count_down, matches,
  is_resent, mark_processed, ack_loop, handle_ack_recv, update_sender,
}
use gta_psp_multiplayer.NetSession.Reliable.Ring.{IsRing, waiting}
use gta_psp_multiplayer.NetSession.Reliable.Ack.{settle, handle_ack_recv-settle}
use gta_psp_multiplayer.NetSession.Reliable.Accounts.{owed, Accounted, handle_ack_recv-Accounted}
use gta_psp_multiplayer.NetSession.Reliable.Resend.{AllReliable, resent}
use gta_psp_multiplayer.NetSession.Reliable.Pending.{fresh, update_sender-Resent}

-- The ring of a peer has its form, the requests count its entries and `extra` more, and each request
-- that it waits for has a reliable part.
pub record IsSender (extra : ℕ → ℕ) (s : Sender) (rs : List Request) : Type 0 where
  pub ring : IsRing s
  pub accounts : Accounted extra (waiting s) rs
  pub reliable : AllReliable (waiting s) rs

-- Counting up or down leaves the rest of the requests as it is.
pub record SameParts (rs qs : List Request) : Type 0 where
  pub parts : (r : ℕ) → (request_at qs r).field_2 ≡ (request_at rs r).field_2
  pub many : length qs ≡ length rs

pub changed-SameParts :
    (rs : List Request) (r c : ℕ)
    → SameParts rs (set rs r (record (request_at rs r) { count_a = c }))
changed-SameParts rs r c = record {
  parts = λ q. same rs r q c;
  many = length-set rs r (record (request_at rs r) { count_a = c });
}
  where
    same :
        (rs : List Request) (r q c : ℕ)
        → (request_at (set rs r (record (request_at rs r) { count_a = c })) q).field_2
          ≡ (request_at rs q).field_2
    same [] r q c = refl
    same (x ∷ rs) zero zero c = refl
    same (x ∷ rs) zero (suc q) c = refl
    same (x ∷ rs) (suc r) zero c = refl
    same (x ∷ rs) (suc r) (suc q) c = same rs r q c

pub SameParts-trans :
    {rs qs ps : List Request} → SameParts rs qs → SameParts qs ps → SameParts rs ps
SameParts-trans h k = record { parts = λ r. k.parts r ∙ h.parts r; many = k.many ∙ h.many }

pub SameParts-refl : (rs : List Request) → SameParts rs rs
SameParts-refl rs = record { parts = λ r. refl; many = refl }

pub AllReliable-SameParts :
    (es : List Entry) (rs qs : List Request)
    → SameParts rs qs
    → AllReliable es rs
    → AllReliable es qs
AllReliable-SameParts [] rs qs h a = tt
AllReliable-SameParts (e ∷ es) rs qs h a =
    (ground (arith, a.0, h.parts e.request), AllReliable-SameParts es rs qs h a.1)

AllReliable-settle :
    (flags : ℕ) (es : List Entry) (rs : List Request)
    → AllReliable es rs
    → AllReliable (settle flags es) rs
AllReliable-settle flags [] rs a = tt
AllReliable-settle flags (e ∷ es) rs a = ground (arith, a, AllReliable-settle flags es rs a.1)

ack_loop-SameParts :
    (fuel flags i : ℕ) (s : Sender) (rs : List Request)
    → SameParts rs (ack_loop fuel flags i s rs).1
unfolding ack_loop
ack_loop-SameParts zero flags i s rs = SameParts-refl rs
ack_loop-SameParts (suc fuel) flags i s rs =
    let e = entry_at s i in
    let rs' = if matches flags e then count_down e.request rs else rs in
    let first : SameParts rs rs' =
      if_case (λ qs. SameParts rs qs) (matches flags e) (changed-SameParts rs e.request _)
        (SameParts-refl rs) in
    if_case (λ (t : Sender × List Request × Option ℕ). SameParts rs t.1) (i == s.sent_end)
      (SameParts-refl rs)
      (if_case (λ (t : Sender × List Request × Option ℕ). SameParts rs t.1)
        (matches flags e && not (is_resent flags && not (e.seq == flags))) first
        (SameParts-trans first (
          ack_loop-SameParts fuel flags (behind i)
            (if matches flags e then mark_processed i s else s) rs')))

-- An acknowledgement from the peer.
pub handle_ack_recv-IsSender :
    (flags : ℕ) (extra : ℕ → ℕ) (s : Sender) (rs : List Request)
    → IsSender extra s rs
    → IsSender extra (handle_ack_recv flags s rs).0 (handle_ack_recv flags s rs).1
      × SameParts rs (handle_ack_recv flags s rs).1
handle_ack_recv-IsSender flags extra s rs v =
    let h = handle_ack_recv-settle flags s rs v.ring in
    let same : SameParts rs (handle_ack_recv flags s rs).1 =
      unfold handle_ack_recv in ack_loop-SameParts num_sent flags s.sent_begin s rs in
    (
      record {
        ring = h.0;
        accounts = handle_ack_recv-Accounted flags extra s rs v.ring v.accounts;
        reliable =
            subst (λ es. AllReliable es (handle_ack_recv flags s rs).1) (sym h.1)
              (AllReliable-SameParts (settle flags (waiting s)) rs _ same
                (AllReliable-settle flags (waiting s) rs v.reliable));
      },
      same,
    )

AllReliable-append :
    (xs ys : List Entry) (rs : List Request)
    → AllReliable xs rs
    → AllReliable ys rs
    → AllReliable (xs ++ ys) rs
AllReliable-append [] ys rs h k = k
AllReliable-append (x ∷ xs) ys rs h k = (h.0, AllReliable-append xs ys rs h.1 k)

AllReliable-take :
    (n : ℕ) (xs : List Entry) (rs : List Request) → AllReliable xs rs → AllReliable (take n xs) rs
AllReliable-take zero xs rs h = tt
AllReliable-take (suc n) [] rs h = tt
AllReliable-take (suc n) (x ∷ xs) rs h = (h.0, AllReliable-take n xs rs h.1)

AllReliable-resent :
    (now n : ℕ) (xs : List Entry) (rs : List Request)
    → AllReliable xs rs
    → AllReliable (resent now (drop n xs)) rs
AllReliable-resent now zero [] rs h = tt
AllReliable-resent now zero (x ∷ xs) rs h = ground (arith, h, AllReliable-resent now zero xs rs h.1)
AllReliable-resent now (suc n) [] rs h = tt
AllReliable-resent now (suc n) (x ∷ xs) rs h = AllReliable-resent now n xs rs h.1

owed-append : (r : ℕ) (xs ys : List Entry) → owed r (xs ++ ys) ≡ owed r xs + owed r ys
owed-append r [] ys = omega arith
owed-append r (x ∷ xs) ys = omega (arith, owed-append r xs ys)

owed-resent : (r now : ℕ) (xs : List Entry) → owed r (resent now xs) ≡ owed r xs
owed-resent r now [] = refl
owed-resent r now (x ∷ xs) = ground (arith, owed-resent r now xs)

-- What is sent again is owed as before.
pub owed-Resent :
    (r now k : ℕ) (xs : List Entry) → owed r (resent now (drop k xs) ++ take k xs) ≡ owed r xs
owed-Resent r now k xs = omega (
  arith,
  owed-append r (resent now (drop k xs)) (take k xs),
  owed-resent r now (drop k xs),
  owed-append r (take k xs) (drop k xs),
  ap (owed r) (take-append-drop k xs),
)

-- The search for late datagrams.
pub update_sender-IsSender :
    (threshold : ℤ) (now : ℕ) (extra : ℕ → ℕ) (s : Sender) (sh : Shared)
    → IsSender extra s sh.requests
    → s.send_overflow ≡ false
    → let o = update_sender threshold now s sh in
      IsSender extra o.sender sh.requests × (o.shared.requests ≡ sh.requests)
update_sender-IsSender threshold now extra s sh v calm =
    let h = update_sender-Resent threshold now s sh v.ring calm v.reliable in
    let k = fresh threshold now (waiting s) in
    (
      record {
        ring = h.ring;
        accounts = record {
          counted = λ r.
              v.accounts.counted r
              ∙ ap (λ n. extra r + n) (sym (ap (owed r) h.waits ∙ owed-Resent r now k (waiting s)));
          bounded = v.accounts.bounded;
        };
        reliable =
            subst (λ es. AllReliable es sh.requests) (sym h.waits)
              (AllReliable-append (resent now (drop k (waiting s))) (take k (waiting s)) sh.requests
                (AllReliable-resent now k (waiting s) sh.requests v.reliable)
                (AllReliable-take k (waiting s) sh.requests v.reliable));
      },
      h.requests,
    )
