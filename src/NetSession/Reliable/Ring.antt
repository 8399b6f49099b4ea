-- ===== src/NetSession/Reliable/Ring.antt =====
-- The ring of sent datagrams as the list of its entries, the newest first.
use gta_psp_multiplayer.Prelude.{
  ℕ, zero, suc, ◌+◌, ◌-◌, ◌%◌, ◌≤◌, ◌<◌, ◌≡◌, refl, ap, ap₂, sym, ◌∙◌, false, List, [], ◌∷◌, ◌++◌,
  length, get_or, get_or-set_self, get_or-set_ne, set, length-set, arith,
}
use gta_psp_multiplayer.NetSession.Reliable.{
  Entry, Sender, no_entry, num_sent, before, behind, entry_at, push_entry,
}

-- The ring has its 47 slots, one of which stays free, and its end lies `sent_count` behind its begin.
pub record IsRing (s : Sender) : Type 0 where
  pub slots : length s.entries ≡ num_sent
  pub begun : s.sent_begin < num_sent
  pub few : s.sent_count < num_sent
  pub closed : s.sent_end ≡ (s.sent_begin + s.sent_count) % num_sent

abbrev pub entries_from : ℕ → ℕ → List Entry → List Entry
entries_from zero i es = []
entries_from (suc n) i es = get_or es i no_entry ∷ entries_from n (behind i) es

-- The entries between begin and end.
abbrev pub waiting : Sender → List Entry
waiting s = entries_from s.sent_count s.sent_begin s.entries

-- How many places `j` lies behind `i`.
abbrev pub distance : ℕ → ℕ → ℕ
distance i j = (j + num_sent - i) % num_sent

-- A slot outside of a stretch does not show in it.
pub entries_from-set :
    (n i j : ℕ) (es : List Entry) (e : Entry)
    → i < num_sent
    → j < num_sent
    → n ≤ distance i j
    → entries_from n i (set es j e) ≡ entries_from n i es
entries_from-set zero i j es e hi hj far = refl
entries_from-set (suc n) i j es e hi hj far =
    ap₂ (λ (x : Entry) xs. x ∷ xs)
      (get_or-set_ne es j i e no_entry (λ q. omega (arith, ap (λ k. distance i k) q)))
      (entries_from-set n (behind i) j es e (omega arith) hj (omega arith))

-- The oldest entry stands last.
pub entries_from-last :
    (n i : ℕ) (es : List Entry)
    → i < num_sent
    → entries_from (suc n) i es
      ≡ entries_from n i es ++ get_or es ((i + n) % num_sent) no_entry ∷ []
entries_from-last zero i es hi = ap (λ k. get_or es k no_entry ∷ []) (omega arith)
entries_from-last (suc n) i es hi =
    ap (λ xs. get_or es i no_entry ∷ xs)
      (entries_from-last n (behind i) es (omega arith)
        ∙ ap (λ k. entries_from n (behind i) es ++ get_or es k no_entry ∷ []) (omega arith))

pub before-small : (i : ℕ) → i < num_sent → before i < num_sent
before-small i h = ground arith

behind-before : (i : ℕ) → i < num_sent → behind (before i) ≡ i
behind-before i h = ground arith

distance-before : (i : ℕ) → i < num_sent → distance i (before i) ≡ num_sent - 1
distance-before i h = ground arith

before-closed : (i n : ℕ) → i < num_sent → (before i + suc n) % num_sent ≡ (i + n) % num_sent
before-closed i n h = ground arith

pub push_entry-IsRing :
    (r seq now : ℕ) (s : Sender)
    → IsRing s
    → s.sent_count + 1 < num_sent
    → IsRing (push_entry r seq now s)
unfolding push_entry
push_entry-IsRing r seq now s v room = record {
  slots = length-set s.entries _ _ ∙ v.slots;
  begun = before-small s.sent_begin v.begun;
  few = omega arith;
  closed = v.closed ∙ sym (before-closed s.sent_begin s.sent_count v.begun);
}

-- A new entry stands first, and the others stay.
pub waiting-push_entry :
    (r seq now : ℕ) (s : Sender)
    → IsRing s
    → s.sent_count + 1 < num_sent
    → waiting (push_entry r seq now s)
      ≡ record { processed = false; seq = seq % 256; request = r; delta = now } ∷ waiting s
unfolding push_entry
waiting-push_entry r seq now s v room =
    ap₂ (λ (x : Entry) xs. x ∷ xs)
      (get_or-set_self s.entries (before s.sent_begin) _ no_entry
        (omega (arith, before-small s.sent_begin v.begun, v.slots)))
      (ap (λ i. entries_from s.sent_count i (push_entry r seq now s).entries)
          (behind-before s.sent_begin v.begun)
        ∙ entries_from-set s.sent_count s.sent_begin (before s.sent_begin) s.entries
            (record { processed = false; seq = seq % 256; request = r; delta = now }) v.begun
            (before-small s.sent_begin v.begun)
            (omega (arith, distance-before s.sent_begin v.begun)))

-- The entry that is dropped is the oldest.
abbrev pub drop_oldest : Sender → Sender
drop_oldest s = record s { sent_count = s.sent_count - 1; sent_end = before s.sent_end }

pub drop_oldest-IsRing : (s : Sender) → IsRing s → 0 < s.sent_count → IsRing (drop_oldest s)
drop_oldest-IsRing s v some_left = record {
  slots = v.slots;
  begun = v.begun;
  few = omega (arith, v.few);
  closed = ap before v.closed ∙ before-end s.sent_begin s.sent_count v.begun v.few some_left;
}
  where
    before-end :
        (i n : ℕ)
        → i < num_sent
        → n < num_sent
        → 0 < n
        → before ((i + n) % num_sent) ≡ (i + (n - 1)) % num_sent
    before-end i n hi hn h = ground arith

pub waiting-drop_oldest :
    (s : Sender)
    → IsRing s
    → 0 < s.sent_count
    → waiting s ≡ waiting (drop_oldest s) ++ entry_at s (before s.sent_end) ∷ []
waiting-drop_oldest s v some_left =
    let one_more : s.sent_count ≡ suc (s.sent_count - 1) = omega arith in
    ap (λ n. entries_from n s.sent_begin s.entries) one_more
    ∙ entries_from-last (s.sent_count - 1) s.sent_begin s.entries v.begun
    ∙ ap (λ k. waiting (drop_oldest s) ++ entry_at s k ∷ [])
        (sym (drop_oldest-IsRing s v some_left).closed)
