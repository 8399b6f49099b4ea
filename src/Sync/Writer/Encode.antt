-- ===== src/Sync/Writer/Encode.antt =====
-- What each write appends to the body.
use gta_psp_multiplayer.Prelude.{
  ℕ, zero, suc, ◌+◌, ◌-◌, ◌≤◌, ◌<◌, List, [], ◌∷◌, ◌++◌, length, take, set, ◌≡◌, refl, sym, ap,
  arith, length-set, length-append, append-nil, append_assoc, dec_lt,
}
use gta_psp_multiplayer.Sync.Writer.{
  WriteStream, buffer_size, header_size, Writer, ◌>>◌, guarded, put_byte, write_u8,
}

-- The length lies in the buffer, and no step of one byte can wrap it.
pub record IsValid (w : WriteStream) : Type 0 where
  pub room : length w.buffer ≡ buffer_size
  pub begun : header_size ≤ w.pckt_size
  pub within : w.pckt_size < buffer_size

-- The body as written so far.
abbrev pub written : WriteStream → List ℕ
written w = take (w.pckt_size - header_size) w.buffer

-- `f` appends the bytes `xs` wherever they fit.
pub record Appends (f : Writer) (xs : List ℕ) : Type 0 where
  pub bytes :
      (w : WriteStream)
      → IsValid w
      → w.pckt_size + length xs < buffer_size
      → written (f w) ≡ written w ++ xs
  pub valid : (w : WriteStream) → IsValid w → IsValid (f w)
  pub size :
      (w : WriteStream)
      → IsValid w
      → w.pckt_size + length xs < buffer_size
      → (f w).pckt_size ≡ w.pckt_size + length xs

take-set {ℓ} :
    {A : Type ℓ} (n : ℕ) (xs : List A) (v : A)
    → n < length xs
    → take (suc n) (set xs n v) ≡ take n xs ++ v ∷ []
take-set zero [] v h = absurd (omega arith)
take-set zero (x ∷ xs) v h = refl
take-set (suc n) [] v h = absurd (omega arith)
take-set (suc n) (x ∷ xs) v h = ap (λ t. x ∷ t) (take-set n xs v (omega arith))

pub Appends->> :
    {f g : Writer} {xs ys : List ℕ} → Appends f xs → Appends g ys → Appends (f >> g) (xs ++ ys)
Appends->> {f} {g} {xs} {ys} p q = record {
  bytes = λ w v h.
      let h' : w.pckt_size + length xs + length ys < buffer_size =
        omega (arith, length-append xs ys) in
      let h1 : w.pckt_size + length xs < buffer_size = omega arith in
      rw (q.bytes (f w) (p.valid w v) (omega (arith, p.size w v h1)), p.bytes w v h1)
        (append_assoc (written w) xs ys);
  valid = λ w v. q.valid (f w) (p.valid w v);
  size = λ w v h.
      let h' : w.pckt_size + length xs + length ys < buffer_size =
        omega (arith, length-append xs ys) in
      let h1 : w.pckt_size + length xs < buffer_size = omega arith in
      omega (
        arith,
        p.size w v h1,
        q.size (f w) (p.valid w v) (omega (arith, p.size w v h1)),
        length-append xs ys,
      );
}

pub guarded-fits :
    (n : ℕ) (f : Writer) (w : WriteStream) → w.pckt_size + n < buffer_size → guarded n f w ≡ f w
unfolding guarded
guarded-fits n f w h = ground arith

-- A write whose guard fails leaves the stream as it was.
pub guarded-full :
    (n : ℕ) (f : Writer) (w : WriteStream) → buffer_size ≤ w.pckt_size + n → guarded n f w ≡ w
unfolding guarded
guarded-full n f w h = ground arith

pub guarded-IsValid :
    (n : ℕ) (f : Writer)
    → ((w : WriteStream) → IsValid w → IsValid (f w))
    → (w : WriteStream) → IsValid w
    → IsValid (guarded n f w)
guarded-IsValid n f keep w v = elim (dec_lt (w.pckt_size + n) buffer_size) [
  | yes h ↦ rw (guarded-fits n f w h) (keep w v)
  | no h ↦ rw (guarded-full n f w (omega arith)) v
]

-- A guard that asks for no more than is written costs nothing.
pub Appends-guarded :
    (n : ℕ) {f : Writer} {xs : List ℕ} → n ≤ length xs → Appends f xs → Appends (guarded n f) xs
Appends-guarded n {f} {xs} le p = record {
  bytes = λ w v h. rw (guarded-fits n f w (omega arith)) (p.bytes w v h);
  valid = guarded-IsValid n f p.valid;
  size = λ w v h. rw (guarded-fits n f w (omega arith)) (p.size w v h);
}

write_u8-IsValid : (b : ℕ) (w : WriteStream) → IsValid w → IsValid (write_u8 b w)
unfolding write_u8 guarded put_byte
write_u8-IsValid b w v = ground (arith, length-set w.buffer (w.pckt_size - header_size) b)

write_u8-fits :
    (b : ℕ) (w : WriteStream)
    → w.pckt_size + 1 < buffer_size
    → write_u8 b w
      ≡ record { pckt_size = w.pckt_size + 1; buffer = set w.buffer (w.pckt_size - header_size) b }
unfolding write_u8 guarded put_byte
write_u8-fits b w h = ground arith

pub write_u8-Appends : (b : ℕ) → Appends (write_u8 b) (b ∷ [])
write_u8-Appends b = record {
  bytes = λ w v h. rw (write_u8-fits b w h) (grown w v h);
  valid = write_u8-IsValid b;
  size = λ w v h. rw (write_u8-fits b w h);
}
  where
    grown :
        (w : WriteStream)
        → IsValid w
        → w.pckt_size + 1 < buffer_size
        → take (w.pckt_size + 1 - header_size) (set w.buffer (w.pckt_size - header_size) b)
          ≡ written w ++ b ∷ []
    grown w v h =
        let e : w.pckt_size + 1 - header_size ≡ suc (w.pckt_size - header_size) = omega arith in
        rw e (take-set (w.pckt_size - header_size) w.buffer b (omega arith))

pub Appends-nothing : Appends (λ w. w) []
Appends-nothing = record {
  bytes = λ w v h. sym (append-nil (written w));
  valid = λ w v. v;
  size = λ w v h. omega arith;
}
