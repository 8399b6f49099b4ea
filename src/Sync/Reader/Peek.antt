-- ===== src/Sync/Reader/Peek.antt =====
-- The peeks: each reads and puts the cursor back.
use gta_psp_multiplayer.Prelude.{
  ℕ, Bool, false, none, List, ◌≡◌, arith, if◌then◌else◌, Bool-cases, inl, inr, ap,
}
use gta_psp_multiplayer.Prelude.Int.{ℤ, pos, negsuc}
use gta_psp_multiplayer.Sync.Types.{Float, Vector, Vector2d, Rgba, StringLib, to_unsigned}
use gta_psp_multiplayer.Sync.Reader.{
  ReadStream, Reader, ◌>>◌, can_read, need, seekg, read_u8, read_u16, read_u32, read_u64, read_i8,
  read_i16, read_i32, read_i64, read_bool, read_float, read_vector, read_vector2d, read_colour,
  read_buffer, read_string,
}
use gta_psp_multiplayer.Sync.Reader.Bounds.{
  Walks, read_u8-Walks, read_u16-Walks, read_u32-Walks, read_u64-Walks, read_i8-Walks,
  read_i16-Walks, read_i32-Walks, read_i64-Walks, read_bool-Walks, read_float-Walks,
  read_vector-Walks, read_vector2d-Walks, read_colour-Walks, read_buffer-Walks, read_string-Walks,
}

-- `saved = Tellg(); Read(...); Seekg(saved);`
abbrev pub restoring : {A : Type 0} → Reader A → Reader A
restoring m s = let p = m s in (p.0, seekg s.cursor p.1)

-- The same under SYNC_STREAM_CAN_READ(n).
abbrev pub peeking : {A : Type 0} → ℕ → Reader A → Reader A
peeking n m s = if can_read s n then restoring m s else (none, s)

-- `PeekVector` alone has no guard of its own.
unfoldable pub peek_vector : Reader Vector
peek_vector = restoring read_vector

unfoldable pub peek_vector2d : Reader Vector2d
peek_vector2d = peeking 8 read_vector2d

unfoldable pub peek_colour : Reader Rgba
peek_colour = peeking 4 read_colour

unfoldable pub peek_bool : Reader Bool
peek_bool = peeking 1 read_bool

unfoldable pub peek_i8 : Reader ℤ
peek_i8 = peeking 1 read_i8

unfoldable pub peek_u8 : Reader ℕ
peek_u8 = peeking 1 read_u8

unfoldable pub peek_i16 : Reader ℤ
peek_i16 = peeking 2 read_i16

unfoldable pub peek_u16 : Reader ℕ
peek_u16 = peeking 2 read_u16

unfoldable pub peek_i32 : Reader ℤ
peek_i32 = peeking 4 read_i32

unfoldable pub peek_u32 : Reader ℕ
peek_u32 = peeking 4 read_u32

unfoldable pub peek_i64 : Reader ℤ
peek_i64 = peeking 8 read_i64

unfoldable pub peek_u64 : Reader ℕ
peek_u64 = peeking 8 read_u64

unfoldable pub peek_float : Reader Float
peek_float = peeking 4 read_float

unfoldable pub peek_buffer : ℤ → Reader (List ℕ)
peek_buffer n = peeking (to_unsigned 32 n) (read_buffer n)

unfoldable pub peek_string : (lib : StringLib) → Reader (lib.Str)
peek_string lib = peeking 1 (read_string lib)

-- A peek gives what the read would give, and leaves the stream as it is.
abbrev pub SeesAhead : {A : Type 0} → Reader A → Reader A → Type 0
SeesAhead peek read = (s : ReadStream) → peek s ≡ ((read s).0, s)

restoring-SeesAhead : {A : Type 0} {m : Reader A} → Walks m → SeesAhead (restoring m) m
restoring-SeesAhead w s = ground (arith, w.ahead s)

-- The read begins with the very guard of the peek.
peeking-SeesAhead :
    {A : Type 0} (n : ℕ) (k : Reader A)
    → Walks (need n >> k)
    → SeesAhead (peeking n (need n >> k)) (need n >> k)
peeking-SeesAhead n k w s = elim (Bool-cases (can_read s n)) [
  | inl e ↦ rw e (restoring-SeesAhead w s)
  | inr e ↦ rw e (ap (λ o. (o, s)) (missed n k s e))
]
  where
    missed :
        {A : Type 0} (n : ℕ) (k : Reader A) (s : ReadStream)
        → can_read s n ≡ false
        → none ≡ ((need n >> k) s).0
    missed n k s e = unfold need in rw e

peek_vector2d-SeesAhead : SeesAhead peek_vector2d read_vector2d
unfolding peek_vector2d read_vector2d
peek_vector2d-SeesAhead = peeking-SeesAhead 8 _ read_vector2d-Walks

peek_colour-SeesAhead : SeesAhead peek_colour read_colour
unfolding peek_colour read_colour
peek_colour-SeesAhead = peeking-SeesAhead 4 _ read_colour-Walks

peek_bool-SeesAhead : SeesAhead peek_bool read_bool
unfolding peek_bool read_bool
peek_bool-SeesAhead = peeking-SeesAhead 1 _ read_bool-Walks

peek_i8-SeesAhead : SeesAhead peek_i8 read_i8
unfolding peek_i8 read_i8
peek_i8-SeesAhead = peeking-SeesAhead 1 _ read_i8-Walks

peek_u8-SeesAhead : SeesAhead peek_u8 read_u8
unfolding peek_u8
peek_u8-SeesAhead s = elim (Bool-cases (can_read s 1)) [
  | inl e ↦ rw e (restoring-SeesAhead read_u8-Walks s)
  | inr e ↦ rw e (unfold read_u8 in rw e)
]

peek_i16-SeesAhead : SeesAhead peek_i16 read_i16
unfolding peek_i16 read_i16
peek_i16-SeesAhead = peeking-SeesAhead 2 _ read_i16-Walks

peek_u16-SeesAhead : SeesAhead peek_u16 read_u16
unfolding peek_u16 read_u16
peek_u16-SeesAhead = peeking-SeesAhead 2 _ read_u16-Walks

peek_i32-SeesAhead : SeesAhead peek_i32 read_i32
unfolding peek_i32 read_i32
peek_i32-SeesAhead = peeking-SeesAhead 4 _ read_i32-Walks

peek_u32-SeesAhead : SeesAhead peek_u32 read_u32
unfolding peek_u32 read_u32
peek_u32-SeesAhead = peeking-SeesAhead 4 _ read_u32-Walks

peek_i64-SeesAhead : SeesAhead peek_i64 read_i64
unfolding peek_i64 read_i64
peek_i64-SeesAhead = peeking-SeesAhead 8 _ read_i64-Walks

peek_u64-SeesAhead : SeesAhead peek_u64 read_u64
unfolding peek_u64 read_u64
peek_u64-SeesAhead = peeking-SeesAhead 8 _ read_u64-Walks

peek_float-SeesAhead : SeesAhead peek_float read_float
unfolding peek_float read_float
peek_float-SeesAhead = peeking-SeesAhead 4 _ read_float-Walks

peek_buffer-SeesAhead : (n : ℤ) → SeesAhead (peek_buffer n) (read_buffer n)
unfolding peek_buffer read_buffer
peek_buffer-SeesAhead (pos n) = peeking-SeesAhead _ _ (read_buffer-Walks (pos n))
peek_buffer-SeesAhead (negsuc n) = peeking-SeesAhead _ _ (read_buffer-Walks (negsuc n))

-- Every peek gives what the read of the same type would give, its early return included, and leaves
-- the stream exactly as it is.
pub peek-read :
    (lib : StringLib) (n : ℤ)
    → SeesAhead peek_vector read_vector
      × SeesAhead (peek_string lib) (read_string lib)
      × SeesAhead (peek_buffer n) (read_buffer n)
      × SeesAhead peek_vector2d read_vector2d
      × SeesAhead peek_colour read_colour
      × SeesAhead peek_bool read_bool
      × SeesAhead peek_i8 read_i8
      × SeesAhead peek_u8 read_u8
      × SeesAhead peek_i16 read_i16
      × SeesAhead peek_u16 read_u16
      × SeesAhead peek_i32 read_i32
      × SeesAhead peek_u32 read_u32
      × SeesAhead peek_i64 read_i64
      × SeesAhead peek_u64 read_u64
      × SeesAhead peek_float read_float
unfolding peek_vector peek_string read_string
peek-read lib n = (
  restoring-SeesAhead read_vector-Walks,
  peeking-SeesAhead 1 _ (read_string-Walks lib),
  peek_buffer-SeesAhead n,
  peek_vector2d-SeesAhead,
  peek_colour-SeesAhead,
  peek_bool-SeesAhead,
  peek_i8-SeesAhead,
  peek_u8-SeesAhead,
  peek_i16-SeesAhead,
  peek_u16-SeesAhead,
  peek_i32-SeesAhead,
  peek_u32-SeesAhead,
  peek_i64-SeesAhead,
  peek_u64-SeesAhead,
  peek_float-SeesAhead,
)
