-- ===== src/Sync/Reader/Values.antt =====
-- The overloads of the reads and peeks that return a value: each fills a local variable by the other
-- overload. `d` is what the variable holds before; a `CVector`, a number or a `bool` has no initial
-- value, so that it is any.
use gta_psp_multiplayer.Prelude.{ℕ, Bool, none, some, ◌≡◌, ap}
use gta_psp_multiplayer.Prelude.Int.{ℤ}
use gta_psp_multiplayer.Sync.Types.{Float, Vector, Vector2d, Rgba, StringLib}
use gta_psp_multiplayer.Sync.Reader.{
  ReadStream, Reader, read_colour24, read_string, read_vector, read_vector2d, read_colour,
  read_bool, read_i8, read_u8, read_i16, read_u16, read_i32, read_u32, read_i64, read_u64,
  read_float,
}
use gta_psp_multiplayer.Sync.Reader.Peek.{
  SeesAhead, peek-read, peek_string, peek_vector, peek_vector2d, peek_colour, peek_bool, peek_i8,
  peek_u8, peek_i16, peek_u16, peek_i32, peek_u32, peek_i64, peek_u64, peek_float,
}

-- The value that the variable has after `m`, and the stream.
abbrev pub valued : {A : Type 0} → A → Reader A → ReadStream → A × ReadStream
valued d m s = let p = m s in (elim p.0 [ none ↦ d | some a ↦ a ], p.1)

abbrev pub read_vector_value : Vector → ReadStream → Vector × ReadStream
read_vector_value d = valued d read_vector

abbrev pub read_vector2d_value : Vector2d → ReadStream → Vector2d × ReadStream
read_vector2d_value d = valued d read_vector2d

abbrev pub read_colour_value : Rgba → ReadStream → Rgba × ReadStream
read_colour_value d = valued d read_colour

abbrev pub read_bool_value : Bool → ReadStream → Bool × ReadStream
read_bool_value d = valued d read_bool

abbrev pub read_i8_value : ℤ → ReadStream → ℤ × ReadStream
read_i8_value d = valued d read_i8

abbrev pub read_u8_value : ℕ → ReadStream → ℕ × ReadStream
read_u8_value d = valued d read_u8

abbrev pub read_i16_value : ℤ → ReadStream → ℤ × ReadStream
read_i16_value d = valued d read_i16

abbrev pub read_u16_value : ℕ → ReadStream → ℕ × ReadStream
read_u16_value d = valued d read_u16

abbrev pub read_i32_value : ℤ → ReadStream → ℤ × ReadStream
read_i32_value d = valued d read_i32

abbrev pub read_u32_value : ℕ → ReadStream → ℕ × ReadStream
read_u32_value d = valued d read_u32

abbrev pub read_i64_value : ℤ → ReadStream → ℤ × ReadStream
read_i64_value d = valued d read_i64

abbrev pub read_u64_value : ℕ → ReadStream → ℕ × ReadStream
read_u64_value d = valued d read_u64

abbrev pub read_float_value : Float → ReadStream → Float × ReadStream
read_float_value d = valued d read_float

abbrev pub read_colour24_value : Rgba → ReadStream → Rgba × ReadStream
read_colour24_value d = valued d (read_colour24 d)

abbrev pub peek_vector_value : Vector → ReadStream → Vector × ReadStream
peek_vector_value d = valued d peek_vector

abbrev pub peek_vector2d_value : Vector2d → ReadStream → Vector2d × ReadStream
peek_vector2d_value d = valued d peek_vector2d

abbrev pub peek_colour_value : Rgba → ReadStream → Rgba × ReadStream
peek_colour_value d = valued d peek_colour

abbrev pub peek_bool_value : Bool → ReadStream → Bool × ReadStream
peek_bool_value d = valued d peek_bool

abbrev pub peek_i8_value : ℤ → ReadStream → ℤ × ReadStream
peek_i8_value d = valued d peek_i8

abbrev pub peek_u8_value : ℕ → ReadStream → ℕ × ReadStream
peek_u8_value d = valued d peek_u8

abbrev pub peek_i16_value : ℤ → ReadStream → ℤ × ReadStream
peek_i16_value d = valued d peek_i16

abbrev pub peek_u16_value : ℕ → ReadStream → ℕ × ReadStream
peek_u16_value d = valued d peek_u16

abbrev pub peek_i32_value : ℤ → ReadStream → ℤ × ReadStream
peek_i32_value d = valued d peek_i32

abbrev pub peek_u32_value : ℕ → ReadStream → ℕ × ReadStream
peek_u32_value d = valued d peek_u32

abbrev pub peek_i64_value : ℤ → ReadStream → ℤ × ReadStream
peek_i64_value d = valued d peek_i64

abbrev pub peek_u64_value : ℕ → ReadStream → ℕ × ReadStream
peek_u64_value d = valued d peek_u64

abbrev pub peek_float_value : Float → ReadStream → Float × ReadStream
peek_float_value d = valued d peek_float

module _ (lib : StringLib) where
  abbrev pub read_string_value : lib.Str → ReadStream → lib.Str × ReadStream
  read_string_value d = valued d (read_string lib)

  abbrev pub peek_string_value : lib.Str → ReadStream → lib.Str × ReadStream
  peek_string_value d = valued d (peek_string lib)

valued-SeesAhead :
    {A : Type 0} {peek : Reader A} (read : Reader A)
    → SeesAhead peek read
    → (d : A) (s : ReadStream) → valued d peek s ≡ ((valued d read s).0, s)
valued-SeesAhead read ahead d s = ap (λ p. (elim p.0 [ none ↦ d | some a ↦ a ], p.1)) (ahead s)

-- At the stream `s`, the peeks' values are the reads' values, type by type; the other arguments are
-- what the variables hold before.
abbrev pub ValuesAgree :
    (lib : StringLib) (s : ReadStream) (n : ℕ) (z : ℤ) (b : Bool) (f : Float) (v : Vector)
    (w : Vector2d) (c : Rgba) (t : lib.Str)
    → Type 0
ValuesAgree lib s n z b f v w c t =
    (peek_vector_value v s ≡ ((read_vector_value v s).0, s))
    × (peek_string_value lib t s ≡ ((read_string_value lib t s).0, s))
    × (peek_vector2d_value w s ≡ ((read_vector2d_value w s).0, s))
    × (peek_colour_value c s ≡ ((read_colour_value c s).0, s))
    × (peek_bool_value b s ≡ ((read_bool_value b s).0, s))
    × (peek_i8_value z s ≡ ((read_i8_value z s).0, s))
    × (peek_u8_value n s ≡ ((read_u8_value n s).0, s))
    × (peek_i16_value z s ≡ ((read_i16_value z s).0, s))
    × (peek_u16_value n s ≡ ((read_u16_value n s).0, s))
    × (peek_i32_value z s ≡ ((read_i32_value z s).0, s))
    × (peek_u32_value n s ≡ ((read_u32_value n s).0, s))
    × (peek_i64_value z s ≡ ((read_i64_value z s).0, s))
    × (peek_u64_value n s ≡ ((read_u64_value n s).0, s))
    × (peek_float_value f s ≡ ((read_float_value f s).0, s))

-- A peek that returns a value returns what the read would, from a variable that holds the same
-- before, and leaves the stream as it is.
pub peek_value-read_value :
    (lib : StringLib) (s : ReadStream) (n : ℕ) (z : ℤ) (b : Bool) (f : Float) (v : Vector)
    (w : Vector2d) (c : Rgba) (t : lib.Str)
    → ValuesAgree lib s n z b f v w c t
peek_value-read_value lib s n z b f v w c t =
    let all = peek-read lib z in
    (
      valued-SeesAhead read_vector all.0 v s,
      valued-SeesAhead (read_string lib) all.1 t s,
      valued-SeesAhead read_vector2d all.3 w s,
      valued-SeesAhead read_colour all.4 c s,
      valued-SeesAhead read_bool all.5 b s,
      valued-SeesAhead read_i8 all.6 z s,
      valued-SeesAhead read_u8 all.7 n s,
      valued-SeesAhead read_i16 all.8 z s,
      valued-SeesAhead read_u16 all.9 n s,
      valued-SeesAhead read_i32 all.10 z s,
      valued-SeesAhead read_u32 all.11 n s,
      valued-SeesAhead read_i64 all.12 z s,
      valued-SeesAhead read_u64 all.13 n s,
      valued-SeesAhead read_float all.14 f s,
    )
