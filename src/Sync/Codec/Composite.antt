-- ===== src/Sync/Codec/Composite.antt =====
-- The fields that hold several words: vectors, colours, buffers and strings.
use gta_psp_multiplayer.Prelude.{
  ℕ, ◌%◌, ◌^◌, ◌<◌, List, [], ◌∷◌, ◌++◌, length, take, ◌≡◌, refl, ap, arith,
}
use native.Mathlib.Nat.{mod-eq_of_lt}
use gta_psp_multiplayer.Prelude.Int.{pos}
use gta_psp_multiplayer.Sync.Types.{Float, Vector, Vector2d, Rgba, StringLib}
use gta_psp_multiplayer.Sync.Reader.{
  read_vector, read_vector2d, read_colour, read_bytes, read_buffer, read_string,
}
use gta_psp_multiplayer.Sync.Reader.Decode.{
  Reads, Reads->>=, Reads-need, Reads-return, Reads-byte, Reads-map,
}
use gta_psp_multiplayer.Sync.Writer.{
  write_vector, write_vector2d, write_colour, write_bytes, write_buffer, write_string,
}
use gta_psp_multiplayer.Sync.Writer.Encode.{
  Appends, Appends->>, Appends-guarded, Appends-nothing, write_u8-Appends,
}
use gta_psp_multiplayer.Sync.Codec.{Carries, le_bytes}
use gta_psp_multiplayer.Sync.Codec.Fields.{float-Carries}

abbrev pub IsFloat : Float → Type 0
IsFloat f = f.bits < 2 ^ 32

abbrev pub vector_bytes : Vector → List ℕ
vector_bytes v = le_bytes 4 v.x.bits ++ (le_bytes 4 v.y.bits ++ le_bytes 4 v.z.bits)

abbrev pub vector2d_bytes : Vector2d → List ℕ
vector2d_bytes v = le_bytes 4 v.x.bits ++ le_bytes 4 v.y.bits

abbrev pub colour_bytes : Rgba → List ℕ
colour_bytes c = c.red ∷ c.green ∷ c.blue ∷ c.alpha ∷ []

pub vector-Carries :
    (v : Vector)
    → IsFloat v.x
    → IsFloat v.y
    → IsFloat v.z
    → Carries (write_vector v) read_vector v (vector_bytes v)
unfolding write_vector read_vector
vector-Carries v hx hy hz =
    let x = float-Carries v.x hx in
    let y = float-Carries v.y hy in
    let z = float-Carries v.z hz in
    record {
      appends =
          Appends-guarded 12 (omega arith) (Appends->> (Appends->> x.appends y.appends) z.appends);
      reads =
          Reads-need 12 (omega arith)
            (Reads->>= _ x.reads (Reads->>= _ y.reads (Reads->>= _ z.reads (Reads-return refl))));
    }

pub vector2d-Carries :
    (v : Vector2d)
    → IsFloat v.x
    → IsFloat v.y
    → Carries (write_vector2d v) read_vector2d v (vector2d_bytes v)
unfolding write_vector2d read_vector2d
vector2d-Carries v hx hy =
    let x = float-Carries v.x hx in
    let y = float-Carries v.y hy in
    record {
      appends = Appends-guarded 8 (omega arith) (Appends->> x.appends y.appends);
      reads =
          Reads-need 8 (omega arith)
            (Reads->>= _ x.reads (Reads->>= _ y.reads (Reads-return refl)));
    }

pub colour-Carries : (c : Rgba) → Carries (write_colour c) read_colour c (colour_bytes c)
unfolding write_colour read_colour
colour-Carries c = record {
  appends = Appends-guarded 4 (omega arith) (
      Appends->>
        (Appends->> (Appends->> (write_u8-Appends _) (write_u8-Appends _)) (write_u8-Appends _))
        (write_u8-Appends _));
  reads =
      Reads-need 4 (omega arith)
        (Reads-byte _ (Reads-byte _ (Reads-byte _ (Reads-byte _ (Reads-return refl)))));
}

write_bytes-Appends : (bs : List ℕ) → Appends (write_bytes bs) bs
unfolding write_bytes
write_bytes-Appends [] = Appends-nothing
write_bytes-Appends (b ∷ bs) = Appends->> (write_u8-Appends b) (write_bytes-Appends bs)

read_bytes-Reads : (bs : List ℕ) → Reads (read_bytes (length bs)) bs bs
unfolding read_bytes
read_bytes-Reads [] = Reads-return refl
read_bytes-Reads (b ∷ bs) = Reads-byte _ (Reads-map (λ ds. b ∷ ds) (read_bytes-Reads bs))

pub buffer-Carries :
    (bs : List ℕ)
    → length bs < 2 ^ 32
    → Carries (write_buffer bs) (read_buffer (pos (length bs))) bs bs
unfolding write_buffer read_buffer
buffer-Carries bs h = record {
  appends = Appends-guarded (length bs) (omega arith) (write_bytes-Appends bs);
  reads = Reads-need _ (omega arith) (read_bytes-Reads bs);
}

pub take-all {ℓ} : {A : Type ℓ} (xs : List A) → take (length xs) xs ≡ xs
take-all [] = refl
take-all (x ∷ xs) = ap (λ t. x ∷ t) (take-all xs)

module _ (lib : StringLib) where
  open lib use {Str, chars, of_c_string}

  -- A string of at most 255 characters goes out whole, behind its length, and comes back as what the
  -- string's constructor makes of the same characters.
  pub string-Carries :
      (str : Str)
      → length (chars str) < 2 ^ 8
      → Carries
          (write_string lib str)
          (read_string lib)
          (of_c_string (chars str ++ 0 ∷ []))
          (length (chars str) ∷ chars str)
  unfolding write_string read_string
  string-Carries str h =
      let n = length (chars str) in
      let e : n % 2 ^ 8 ≡ n = mod-eq_of_lt h in
      record {
        appends =
            rw (e, take-all (chars str))
              (Appends-guarded 1 (omega arith) (
                Appends->> (write_u8-Appends n)
                  (Appends-guarded n (omega arith) (write_bytes-Appends (chars str)))));
        reads = Reads-need 1 (omega arith) (
            Reads-byte _ (
              Reads-need n (omega arith)
                (Reads-map (λ cs. of_c_string (cs ++ 0 ∷ [])) (read_bytes-Reads (chars str)))));
      }
