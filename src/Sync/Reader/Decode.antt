-- ===== src/Sync/Reader/Decode.antt =====
-- What each read makes of the bytes that lie before the cursor.
use native.Mathlib.Nat.{add-zero}
use gta_psp_multiplayer.Prelude.{
  ℕ, suc, ◌+◌, ◌^◌, ◌≤◌, ◌<◌, true, some, List, [], ◌∷◌, ◌++◌, length, ◌≡◌, ◌∙◌, refl, ap, subst,
  append-nil, arith, length-append, append_assoc,
}
use gta_psp_multiplayer.Sync.Reader.{
  ReadStream, Reader, resume, ◌>>=◌, ◌>>◌, return, can_read, add_length, peek_byte, need, read_u8,
}

-- The bytes `xs` are the next that a stream gives.
abbrev pub Holds : ReadStream → List ℕ → Type 0
Holds s [] = (s.cursor ≤ s.stop) × (s.stop < 2 ^ 32)
Holds s (x ∷ xs) = (s.cursor < s.stop) × (peek_byte s ≡ x) × Holds (add_length 1 s) xs

pub Holds-bounds :
    (s : ReadStream) (xs : List ℕ)
    → Holds s xs
    → (s.cursor + length xs ≤ s.stop) × (s.stop < 2 ^ 32)
Holds-bounds s [] h = omega arith
Holds-bounds s (x ∷ xs) h = omega (arith, Holds-bounds (add_length 1 s) xs h.2)

-- A guard passes when that many bytes are there.
pub can_read-Holds :
    (s : ReadStream) (n : ℕ) (xs : List ℕ) → Holds s xs → n ≤ length xs → can_read s n ≡ true
unfolding can_read
can_read-Holds s n xs h le = ground (arith, Holds-bounds s xs h)

pub need-Holds :
    (s : ReadStream) (n : ℕ) (xs : List ℕ) → Holds s xs → n ≤ length xs → need n s ≡ (some tt, s)
unfolding need
need-Holds s n xs h le = rw (can_read-Holds s n xs h le)

pub read_u8-Holds :
    (s : ReadStream) (x : ℕ) (xs : List ℕ) → Holds s (x ∷ xs) → read_u8 s ≡ (some x, add_length 1 s)
unfolding read_u8
read_u8-Holds s x xs h = ground (arith, can_read-Holds s 1 (x ∷ xs) h)

-- Behind the bytes that were read stand the rest.
Holds-rest :
    (s : ReadStream) (xs ys : List ℕ) → Holds s (xs ++ ys) → Holds (add_length (length xs) s) ys
Holds-rest s [] ys h = rw (add-zero s.cursor) h
Holds-rest s (x ∷ xs) ys h =
    let e : s.cursor + 1 + length xs ≡ s.cursor + suc (length xs) = omega arith in
    rw (← e) (Holds-rest (add_length 1 s) xs ys h.2)

-- From a stream that gives the bytes `xs` next, `m` reads the value `a` and passes over just those.
pub record Reads {A : Type 0} (m : Reader A) (a : A) (xs : List ℕ) : Type 0 where
  pub run :
      (s : ReadStream) (rest : List ℕ)
      → Holds s (xs ++ rest)
      → m s ≡ (some a, add_length (length xs) s)

bind-some :
    {A B : Type 0} (m : Reader A) (f : A → Reader B) (s : ReadStream) {a : A} {t : ReadStream}
    → m s ≡ (some a, t)
    → (m >>= f) s ≡ f a t
bind-some m f s e = ap (resume f) e

pub Reads->>= :
    {A B : Type 0} {m : Reader A} (f : A → Reader B) {a : A} {b : B} {xs ys : List ℕ}
    → Reads m a xs
    → Reads (f a) b ys
    → Reads (m >>= f) b (xs ++ ys)
Reads->>= {m} f {xs} {ys} p q = record {
  run = λ s rest h.
      let h' : Holds s (xs ++ (ys ++ rest)) = rw (← append_assoc xs ys rest) h in
      let e : s.cursor + length xs + length ys ≡ s.cursor + length (xs ++ ys) =
        omega (arith, length-append xs ys) in
      bind-some m f s (p.run s (ys ++ rest) h')
      ∙ q.run (add_length (length xs) s) rest (Holds-rest s xs (ys ++ rest) h')
      ∙ rw e;
}

pub Reads-return : {A : Type 0} {a b : A} → a ≡ b → Reads (return a) b []
Reads-return e = record { run = λ s rest h. rw (e, add-zero s.cursor) }

pub Reads-need :
    {A : Type 0} (n : ℕ) {k : Reader A} {a : A} {xs : List ℕ}
    → n ≤ length xs
    → Reads k a xs
    → Reads (need n >> k) a xs
Reads-need n {k} {xs} le p = record {
  run = λ s rest h.
      bind-some (need n) (λ _. k) s
        (need-Holds s n (xs ++ rest) h (omega (arith, length-append xs rest)))
      ∙ p.run s rest h;
}

pub read_u8-Reads : (b : ℕ) → Reads read_u8 b (b ∷ [])
read_u8-Reads b = record { run = λ s rest h. read_u8-Holds s b rest h }

-- A read of one byte, then the rest.
pub Reads-byte :
    {A : Type 0} (f : ℕ → Reader A) {b : ℕ} {a : A} {xs : List ℕ}
    → Reads (f b) a xs
    → Reads (read_u8 >>= f) a (b ∷ xs)
Reads-byte f {b} p = Reads->>= f (read_u8-Reads b) p

-- A read whose value is only worked on.
pub Reads-map :
    {A B : Type 0} (g : A → B) {m : Reader A} {a : A} {xs : List ℕ}
    → Reads m a xs
    → Reads (m >>= λ x. return (g x)) (g a) xs
Reads-map g {m} {a} {xs} p =
    subst (Reads (m >>= λ x. return (g x)) (g a)) (append-nil xs)
      (Reads->>= (λ x. return (g x)) p (Reads-return refl))
