-- ===== src/NetSession/Groups/Order.antt =====
-- A group lists its peers in strictly rising order: what `std::lower_bound` needs to be right.
use gta_psp_multiplayer.Prelude.{
  ℕ, suc, ◌≤◌, ◌<◌, true, false, List, [], ◌∷◌, ◌≡◌, refl, arith, ◌==◌, if◌then◌else◌,
}
use gta_psp_multiplayer.NetSession.Groups.{Queues, contains, insert_peer, skip_run, erase_peer}

-- The peers rise strictly, from `lo` at least.
abbrev pub Rises : ℕ → List ℕ → Type 0
Rises lo [] = Unit {0}
Rises lo (x ∷ xs) = (lo ≤ x) × Rises (suc x) xs

-- The group of every queue is in order.
abbrev pub InOrder : Queues → Type 0
InOrder [] = Unit {0}
InOrder (q ∷ qs) = Rises 0 q.peer_list × InOrder qs

pub insert_peer-Rises :
    (lo p : ℕ) (xs : List ℕ) → lo ≤ p → Rises lo xs → Rises lo (insert_peer p xs)
unfolding insert_peer
insert_peer-Rises lo p [] h r = (h, tt)
insert_peer-Rises lo p (x ∷ xs) h r = ground (arith, insert_peer-Rises (suc x) p xs)

Rises-mono : (lo hi : ℕ) (xs : List ℕ) → lo ≤ hi → Rises hi xs → Rises lo xs
Rises-mono lo hi [] h r = tt
Rises-mono lo hi (x ∷ xs) h r = (omega arith, r.1)

-- Where the peers rise, none of those above a number is that number.
pub contains-above : (p lo : ℕ) (xs : List ℕ) → p < lo → Rises lo xs → contains p xs ≡ false
unfolding contains
contains-above p lo [] h r = refl
contains-above p lo (x ∷ xs) h r = ground (arith, contains-above p (suc x) xs)

skip_run-above : (p lo : ℕ) (xs : List ℕ) → p < lo → Rises lo xs → skip_run p xs ≡ xs
unfolding skip_run
skip_run-above p lo [] h r = refl
skip_run-above p lo (x ∷ xs) h r = ground arith

pub erase_peer-Rises : (lo p : ℕ) (xs : List ℕ) → Rises lo xs → Rises lo (erase_peer p xs)
unfolding erase_peer
erase_peer-Rises lo p [] r = tt
erase_peer-Rises lo p (x ∷ xs) r =
    ground
      (arith, erase_peer-Rises (suc x) p xs, skip_run-above p (suc x) xs, Rises-mono lo (suc x) xs)

pub contains-insert_peer :
    (r p : ℕ) (xs : List ℕ)
    → contains r (insert_peer p xs) ≡ (if p == r then true else contains r xs)
unfolding contains insert_peer
contains-insert_peer r p [] = refl
contains-insert_peer r p (x ∷ xs) = ground (arith, contains-insert_peer r p xs)

pub contains-erase_peer :
    (r p lo : ℕ) (xs : List ℕ)
    → Rises lo xs
    → contains r (erase_peer p xs) ≡ (if p == r then false else contains r xs)
unfolding contains erase_peer
contains-erase_peer r p lo [] h = ground arith
contains-erase_peer r p lo (x ∷ xs) h = ground (
  arith,
  contains-erase_peer r p (suc x) xs,
  skip_run-above p (suc x) xs,
  contains-above p (suc x) xs,
)
