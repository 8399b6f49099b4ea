-- ===== src/Sync/RoundTrip.antt =====
-- What is written on one machine is what is read on the other.
use gta_psp_multiplayer.Prelude.{
  ℕ, suc, ◌+◌, ◌^◌, ◌<◌, true, some, List, [], ◌∷◌, ◌++◌, length, get_or, ◌≡◌, refl, ap, subst, ◌∙◌,
  arith, length-append, append_assoc, append-nil,
}
use gta_psp_multiplayer.Sync.Reader.{Reader, from_range, is_empty, add_length, read_string}
use gta_psp_multiplayer.Sync.Reader.Decode.{Holds, Reads}
use gta_psp_multiplayer.Sync.Writer.{Writer, buffer_size, header_size, init, write_string}
use gta_psp_multiplayer.Sync.Writer.Encode.{IsValid, Appends, written}
use gta_psp_multiplayer.Sync.Types.{StringLib}
use gta_psp_multiplayer.Sync.Codec.Composite.{string-Carries}
use gta_psp_multiplayer.Sync.Message.{
  Field, AllTyped, body_of, write_fields, read_fields, fields-Carries,
}

get_or-skip : (pre xs : List ℕ) (i : ℕ) → get_or (pre ++ xs) (length pre + i) 0 ≡ get_or xs i 0
get_or-skip [] xs i = ap (λ k. get_or xs k 0) (omega arith)
get_or-skip (x ∷ pre) xs i =
    let e : suc (length pre) + i ≡ suc (length pre + i) = omega arith in rw e (get_or-skip pre xs i)

-- From some byte on, a stream over a packet holds the rest of the packet.
Holds-suffix :
    (pre xs : List ℕ) (c e : ℕ)
    → length pre ≡ c
    → c + length xs ≡ e
    → e < 2 ^ 32
    → Holds (record { memory = pre ++ xs; cursor = c; stop = e }) xs
Holds-suffix pre [] c e p q h = omega arith
Holds-suffix pre (x ∷ xs) c e p q h = (
  omega arith,
  here,
  subst (λ m. Holds (record { memory = m; cursor = c + 1; stop = e }) xs)
      (append_assoc pre (x ∷ []) xs)
      (Holds-suffix (pre ++ x ∷ []) xs (c + 1) e (omega (arith, length-append pre (x ∷ [])))
        (omega arith) h),
)
  where
    here : get_or (pre ++ x ∷ xs) c 0 ≡ x
    here = let k : c ≡ length pre + 0 = omega arith in rw k (get_or-skip pre (x ∷ xs) 0)

Holds-from_range : (xs : List ℕ) → length xs < 2 ^ 32 → Holds (from_range xs) xs
unfolding from_range
Holds-from_range xs h = Holds-suffix [] xs 0 (length xs) refl (omega arith) h

init-IsValid : (memory : List ℕ) → length memory ≡ buffer_size → IsValid (init memory)
unfolding init
init-IsValid memory h = omega arith

written-init : (memory : List ℕ) → written (init memory) ≡ []
unfolding init
written-init memory = refl

size-init : (memory : List ℕ) → (init memory).pckt_size ≡ header_size
unfolding init
size-init memory = refl

-- A stream just made for sending takes on the bytes that a write appends.
pub fresh-Appends :
    {f : Writer} {xs : List ℕ} (memory : List ℕ)
    → Appends f xs
    → length memory ≡ buffer_size
    → header_size + length xs < buffer_size
    → (written (f (init memory)) ≡ xs) × ((f (init memory)).pckt_size ≡ header_size + length xs)
fresh-Appends {xs} memory a room fits =
    let valid = init-IsValid memory room in
    let fits' : (init memory).pckt_size + length xs < buffer_size = rw (size-init memory) fits in
    (
      a.bytes (init memory) valid fits' ∙ ap (λ ys. ys ++ xs) (written-init memory),
      a.size (init memory) valid fits' ∙ ap (λ n. n + length xs) (size-init memory),
    )

-- A stream over a whole body reads it to its end.
pub whole-Reads :
    {A : Type 0} {m : Reader A} {a : A} {xs : List ℕ}
    → Reads m a xs
    → length xs < 2 ^ 32
    → m (from_range xs) ≡ (some a, add_length (length xs) (from_range xs))
whole-Reads {xs} r h = r.run (from_range xs) [] (rw (append-nil xs) (Holds-from_range xs h))

pub is_empty-end : (xs : List ℕ) → is_empty (add_length (length xs) (from_range xs)) ≡ true
unfolding is_empty from_range
is_empty-end xs = ground arith

-- Whatever typed fields are written to a fresh stream with room for them, the packet has their size,
-- and reads of the same types over its body give the same values back and end at the body's end.
pub read_fields-write_fields :
    (fs : List Field) (memory : List ℕ)
    → AllTyped fs
    → length memory ≡ buffer_size
    → header_size + length (body_of fs) < buffer_size
    → let w = write_fields fs (init memory) in
      let (r, t) = read_fields fs (from_range (written w)) in
      (w.pckt_size ≡ header_size + length (body_of fs)) × (r ≡ some fs) × (is_empty t ≡ true)
read_fields-write_fields fs memory typed_fs room fits =
    let c = fields-Carries fs typed_fs in
    let sent = fresh-Appends memory c.appends room fits in
    let got = whole-Reads c.reads (omega arith) in
    (
      sent.1,
      rw sent.0 (ap (λ p. p.0) got),
      rw sent.0 (ap (λ p. is_empty p.1) got ∙ is_empty-end (body_of fs)),
    )

module _ (lib : StringLib) where
  open lib use {Str, chars, of_c_string}

  -- A string of at most 255 characters and no NUL comes back with the same characters, if the string's
  -- constructor keeps the characters of a C string up to its NUL.
  pub read_string-write_string :
      (str : Str) (memory : List ℕ)
      → chars (of_c_string (chars str ++ 0 ∷ [])) ≡ chars str
      → length (chars str) < 2 ^ 8
      → length memory ≡ buffer_size
      → (got : Str) × ((read_string lib
            (from_range (written (write_string lib str (init memory))))).0
          ≡ some got)
        × (chars got ≡ chars str)
  read_string-write_string str memory law short room =
      let c = string-Carries lib str short in
      let sent = fresh-Appends memory c.appends room (omega arith) in
      (
        of_c_string (chars str ++ 0 ∷ []),
        rw sent.0 (ap (λ p. p.0) (whole-Reads c.reads (omega arith))),
        law,
      )
