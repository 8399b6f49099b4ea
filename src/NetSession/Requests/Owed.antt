-- ===== src/NetSession/Requests/Owed.antt =====
-- What the peers of a session wait for, together.
use gta_psp_multiplayer.Prelude.{
  ℕ, zero, suc, ◌+◌, ◌*◌, ◌≤◌, ◌<◌, ◌≡◌, ◌≢◌, refl, ap, Option, none, some, List, [], ◌∷◌, ◌++◌,
  length, set, get_or-set_ne, replicate, arith, Bool-cases, inl, inr, ◌⊎◌,
}
use gta_psp_multiplayer.NetSession.Reliable.{Entry, Sender, num_sent, Request, no_request}
use gta_psp_multiplayer.NetSession.Reliable.Ring.{IsRing, waiting}
use gta_psp_multiplayer.NetSession.Reliable.Ack.{settle}
use gta_psp_multiplayer.NetSession.Reliable.Accounts.{owed}
use gta_psp_multiplayer.NetSession.Reliable.Resend.{AllReliable, length-entries_from}
use gta_psp_multiplayer.NetSession.Requests.{peer_at}

abbrev pub owed_by : ℕ → Option Sender → ℕ
owed_by r none = 0
owed_by r (some s) = owed r (waiting s)

-- The entries of all peers that wait for request `r`.
abbrev pub owed_all : ℕ → List (Option Sender) → ℕ
owed_all r [] = 0
owed_all r (p ∷ ps) = owed_by r p + owed_all r ps

-- The number of peers that are there.
abbrev pub present : Option Sender → ℕ
present none = 0
present (some s) = 1

abbrev pub num_present : List (Option Sender) → ℕ
num_present [] = 0
num_present (p ∷ ps) = present p + num_present ps

pub peer_at-set_self :
    (ps : List (Option Sender)) (i : ℕ) (p : Option Sender)
    → i < length ps
    → peer_at i (set ps i p) ≡ p
unfolding peer_at
peer_at-set_self [] i p h = elim h [ ]
peer_at-set_self (x ∷ ps) zero p h = refl
peer_at-set_self (x ∷ ps) (suc i) p h = peer_at-set_self ps i p (omega arith)

pub peer_at-set_ne :
    (ps : List (Option Sender)) (i j : ℕ) (p : Option Sender)
    → i ≢ j
    → peer_at j (set ps i p) ≡ peer_at j ps
unfolding peer_at
peer_at-set_ne [] i j p ne = refl
peer_at-set_ne (x ∷ ps) zero zero p ne = elim (ne refl) [ ]
peer_at-set_ne (x ∷ ps) zero (suc j) p ne = refl
peer_at-set_ne (x ∷ ps) (suc i) zero p ne = refl
peer_at-set_ne (x ∷ ps) (suc i) (suc j) p ne = peer_at-set_ne ps i j p (λ e. ne (ap suc e))

pub peer_at-bound :
    (ps : List (Option Sender)) (i : ℕ) (s : Sender) → peer_at i ps ≡ some s → i < length ps
unfolding peer_at
peer_at-bound [] i s h = absurd (none≢some h)
  where
    none≢some : none ≢ some s
    none≢some e = cc
peer_at-bound (x ∷ ps) zero s h = omega arith
peer_at-bound (x ∷ ps) (suc i) s h = omega (arith, peer_at-bound ps i s h)

-- What the others wait for, and the peer at `i`.
pub owed_all-split :
    (r i : ℕ) (ps : List (Option Sender))
    → owed_all r ps ≡ owed_all r (set ps i none) + owed_by r (peer_at i ps)
unfolding peer_at
owed_all-split r i [] = refl
owed_all-split r zero (x ∷ ps) = omega arith
owed_all-split r (suc i) (x ∷ ps) = omega (arith, owed_all-split r i ps)

pub owed_all-set :
    (r i : ℕ) (ps : List (Option Sender)) (p : Option Sender)
    → i < length ps
    → owed_all r (set ps i p) ≡ owed_all r (set ps i none) + owed_by r p
owed_all-set r i [] p h = elim h [ ]
owed_all-set r zero (x ∷ ps) p h = omega arith
owed_all-set r (suc i) (x ∷ ps) p h = omega (arith, owed_all-set r i ps p (omega arith))

pub num_present-set :
    (i : ℕ) (ps : List (Option Sender)) (p : Option Sender)
    → i < length ps
    → num_present (set ps i p) + present (peer_at i ps) ≡ num_present ps + present p
unfolding peer_at
num_present-set i [] p h = elim h [ ]
num_present-set zero (x ∷ ps) p h = omega arith
num_present-set (suc i) (x ∷ ps) p h = omega (arith, num_present-set i ps p (omega arith))

-- Places that are added are empty.
pub owed_all-grow :
    (r n : ℕ) (ps : List (Option Sender)) → owed_all r (ps ++ replicate n none) ≡ owed_all r ps
owed_all-grow r zero [] = refl
owed_all-grow r (suc n) [] = omega (arith, owed_all-grow r n [])
owed_all-grow r n (x ∷ ps) = ap (λ k. owed_by r x + k) (owed_all-grow r n ps)

pub num_present-grow :
    (n : ℕ) (ps : List (Option Sender)) → num_present (ps ++ replicate n none) ≡ num_present ps
num_present-grow zero [] = refl
num_present-grow (suc n) [] = omega (arith, num_present-grow n [])
num_present-grow n (x ∷ ps) = ap (λ k. present x + k) (num_present-grow n ps)

pub peer_at-grow :
    (i n : ℕ) (ps : List (Option Sender)) → peer_at i (ps ++ replicate n none) ≡ peer_at i ps
unfolding peer_at
peer_at-grow i zero [] = refl
peer_at-grow zero (suc n) [] = refl
peer_at-grow (suc i) (suc n) [] = peer_at-grow i n []
peer_at-grow zero n (x ∷ ps) = refl
peer_at-grow (suc i) n (x ∷ ps) = peer_at-grow i n ps

-- An acknowledgement takes from what is owed, and adds nothing.
pub owed-settle : (flags r : ℕ) (es : List Entry) → owed r (settle flags es) ≤ owed r es
owed-settle flags r [] = omega arith
owed-settle flags r (e ∷ es) = ground (arith, owed-settle flags r es)

owed-length : (r : ℕ) (es : List Entry) → owed r es ≤ length es
owed-length r [] = omega arith
owed-length r (e ∷ es) = ground (arith, owed-length r es)

pub owed-IsRing : (r : ℕ) (s : Sender) → IsRing s → owed r (waiting s) < num_sent
owed-IsRing r s v = omega (
  arith,
  v.few,
  owed-length r (waiting s),
  length-entries_from s.sent_count s.sent_begin s.entries,
)

-- The rings of all peers have their form, and what waits in them has reliable parts.
abbrev pub IsSound : List (Option Sender) → List Request → Type 0
IsSound ps rs = (i : ℕ) (s : Sender) → peer_at i ps ≡ some s → IsRing s × AllReliable (waiting s) rs

-- All of them together cannot wait for one request more often than they have slots.
pub owed_all-bound :
    (r : ℕ) (ps : List (Option Sender)) (rs : List Request)
    → IsSound ps rs
    → owed_all r ps ≤ num_sent * length ps
unfolding peer_at
owed_all-bound r [] rs h = omega arith
owed_all-bound r (none ∷ ps) rs h = omega (arith, owed_all-bound r ps rs (λ i. h (suc i)))
owed_all-bound r (some s ∷ ps) rs h =
    omega (arith, owed_all-bound r ps rs (λ i. h (suc i)), owed-IsRing r s (h 0 s refl).0)

-- Where nothing waits for a request, it can be overwritten.
AllReliable-overwritten :
    (r : ℕ) (x : Request) (es : List Entry) (rs : List Request)
    → owed r es ≡ 0
    → AllReliable es rs
    → AllReliable es (set rs r x)
AllReliable-overwritten r x [] rs h a = tt
AllReliable-overwritten r x (e ∷ es) rs h a =
    let rest = AllReliable-overwritten r x es rs (omega arith) a.1 in
    elim (Bool-cases e.processed) [
      | inl done ↦ (ground (arith, done), rest)
      | inr waits ↦
          let ne : r ≢ e.request = ground (arith, h, waits) in
          (
            rw (ap (λ (q : Request). q.field_2) (get_or-set_ne rs r e.request x no_request ne))
                (a.0),
            rest,
          )
    ]

owed_all-none :
    (r i : ℕ) (ps : List (Option Sender)) (s : Sender)
    → owed_all r ps ≡ 0
    → peer_at i ps ≡ some s
    → owed r (waiting s) ≡ 0
owed_all-none r i ps s none_owed h =
    omega (arith, none_owed, owed_all-split r i ps, ap (owed_by r) h)

pub IsSound-overwritten :
    (r : ℕ) (x : Request) (ps : List (Option Sender)) (rs : List Request)
    → owed_all r ps ≡ 0
    → IsSound ps rs
    → IsSound ps (set rs r x)
IsSound-overwritten r x ps rs none_owed sound i s h = (
  (sound i s h).0,
  AllReliable-overwritten r x (waiting s) rs (owed_all-none r i ps s none_owed h) (sound i s h).1,
)

pub at_cases : (p : Option Sender) → (p ≡ none) ⊎ ((s : Sender) × (p ≡ some s))
at_cases none = inl refl
at_cases (some s) = inr (s, refl)
