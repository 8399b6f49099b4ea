-- ===== src/Sync/Reader.antt =====
-- `sReadSyncStream`: a cursor that walks over a received packet, from C Reversed/elements/sSyncStream.cpp.
--
-- A read is a function to an optional value and the stream after it. `none` is the early return of
-- SYNC_STREAM_CAN_READ, which leaves the destination as it was (a debug build stops at the assertion
-- before that return).
pub mod Decode
pub mod Peek
pub mod Values
pub mod Bounds
use gta_psp_multiplayer.Prelude.{
  ℕ, zero, suc, ◌+◌, ◌-◌, ◌*◌, ◌%◌, ◌^◌, bit_or, Bool, not, Option, none, some, List, [], ◌∷◌, ◌++◌,
  length, get_or, leb, ◌==◌, if◌then◌else◌,
}
use gta_psp_multiplayer.Prelude.Int.{ℤ, pos, negsuc}
use gta_psp_multiplayer.Sync.Types.{
  Float, Vector, Vector2d, Rgba, StringLib, to_signed, to_unsigned,
}

-- `m_pBuffer` and `m_pBufferEnd` as offsets into the memory that holds the packet.
pub record ReadStream : Type 0 where
  pub memory : List ℕ
  pub cursor : ℕ
  pub stop : ℕ

-- The constructor from a pair of iterators.
unfoldable pub from_range : List ℕ → ReadStream
from_range bytes = record { memory = bytes; cursor = 0; stop = length bytes }

-- The difference of the two pointers as a 32-bit `uintptr`.
abbrev pub available : ReadStream → ℕ
available s = (s.stop + 2 ^ 32 - s.cursor) % 2 ^ 32

unfoldable pub is_empty : ReadStream → Bool
is_empty s = s.cursor == s.stop

unfoldable pub can_read : ReadStream → ℕ → Bool
can_read s n = leb n (available s)

abbrev pub add_length : ℕ → ReadStream → ReadStream
add_length n s = record s { cursor = s.cursor + n }

abbrev pub seekg : ℕ → ReadStream → ReadStream
seekg p s = record s { cursor = p }

abbrev pub Reader : Type 0 → Type 0
Reader A = ReadStream → Option A × ReadStream

-- What follows a read: nothing after an early return.
abbrev pub resume : {A B : Type 0} → (A → Reader B) → Option A × ReadStream → Option B × ReadStream
resume f (none, t) = (none, t)
resume f (some a, t) = f a t

infixl 5 ◌>>=◌ ◌>>◌
abbrev pub ◌>>=◌ : {A B : Type 0} → Reader A → (A → Reader B) → Reader B
◌>>=◌ m f s = resume f (m s)

abbrev pub ◌>>◌ : {B : Type 0} → Reader (Unit {0}) → Reader B → Reader B
m >> k = m >>= λ _. k

abbrev pub return : {A : Type 0} → A → Reader A
return a s = (some a, s)

-- SYNC_STREAM_CAN_READ(n)
unfoldable pub need : ℕ → Reader (Unit {0})
unfolding can_read
need n s = if can_read s n then (some tt, s) else (none, s)

-- The byte at the cursor. Outside the packet's memory there is none; a valid stream never looks there.
abbrev pub peek_byte : ReadStream → ℕ
peek_byte s = get_or s.memory s.cursor 0

unfoldable pub read_u8 : Reader ℕ
unfolding can_read
read_u8 s = if can_read s 1 then (some (peek_byte s), add_length 1 s) else (none, s)

unfoldable pub read_u16 : Reader ℕ
read_u16 = do need 2; low ← read_u8; high ← read_u8; return (bit_or low (high * 2 ^ 8) % 2 ^ 16)

-- The word that `|` makes of four bytes.
abbrev pub join_u32 : ℕ → ℕ → ℕ → ℕ → ℕ
join_u32 b0 b1 b2 b3 =
    bit_or (bit_or (bit_or b0 (b1 * 2 ^ 8 % 2 ^ 32)) (b2 * 2 ^ 16 % 2 ^ 32)) (b3 * 2 ^ 24 % 2 ^ 32)

unfoldable pub read_u32 : Reader ℕ
read_u32 = do
  need 4
  b0 ← read_u8
  b1 ← read_u8
  b2 ← read_u8
  b3 ← read_u8
  return (join_u32 b0 b1 b2 b3)

-- The word that `|` makes of eight bytes.
abbrev pub join_u64 : ℕ → ℕ → ℕ → ℕ → ℕ → ℕ → ℕ → ℕ → ℕ
join_u64 b0 b1 b2 b3 b4 b5 b6 b7 =
    bit_or
      (bit_or
        (bit_or
          (bit_or
            (bit_or (bit_or (bit_or b0 (b1 * 2 ^ 8 % 2 ^ 64)) (b2 * 2 ^ 16 % 2 ^ 64))
              (b3 * 2 ^ 24 % 2 ^ 64))
            (b4 * 2 ^ 32 % 2 ^ 64))
          (b5 * 2 ^ 40 % 2 ^ 64))
        (b6 * 2 ^ 48 % 2 ^ 64))
      (b7 * 2 ^ 56 % 2 ^ 64)

unfoldable pub read_u64 : Reader ℕ
read_u64 = do
  need 8
  b0 ← read_u8
  b1 ← read_u8
  b2 ← read_u8
  b3 ← read_u8
  b4 ← read_u8
  b5 ← read_u8
  b6 ← read_u8
  b7 ← read_u8
  return (join_u64 b0 b1 b2 b3 b4 b5 b6 b7)

unfoldable pub read_i8 : Reader ℤ
read_i8 = do need 1; u ← read_u8; return (to_signed 8 u)

unfoldable pub read_i16 : Reader ℤ
read_i16 = do need 2; u ← read_u16; return (to_signed 16 u)

unfoldable pub read_i32 : Reader ℤ
read_i32 = do need 4; u ← read_u32; return (to_signed 32 u)

unfoldable pub read_i64 : Reader ℤ
read_i64 = do need 8; u ← read_u64; return (to_signed 64 u)

unfoldable pub read_bool : Reader Bool
read_bool = do need 1; u ← read_u8; return (not (u == 0))

unfoldable pub read_float : Reader Float
read_float = do need 4; u ← read_u32; return (record { bits = u })

unfoldable pub read_vector : Reader Vector
read_vector = do
  need 12
  a ← read_float
  b ← read_float
  c ← read_float
  return (record { x = a; y = b; z = c })

unfoldable pub read_vector2d : Reader Vector2d
read_vector2d = do need 8; a ← read_float; b ← read_float; return (record { x = a; y = b })

unfoldable pub read_colour : Reader Rgba
read_colour = do
  need 4
  r ← read_u8
  g ← read_u8
  b ← read_u8
  a ← read_u8
  return (record { red = r; green = g; blue = b; alpha = a })

-- The guard asks for `sizeof(3)`, the size of an `int`, though three bytes are read. The alpha of the
-- destination is kept.
unfoldable pub read_colour24 : Rgba → Reader Rgba
read_colour24 c = do
  need 4
  r ← read_u8
  g ← read_u8
  b ← read_u8
  return (record c { red = r; green = g; blue = b })

-- The loop of `ReadBuffer` and `ReadString`: `n` calls of `ReadU8`.
unfoldable pub read_bytes : ℕ → Reader (List ℕ)
read_bytes zero = return []
read_bytes (suc n) = do b ← read_u8; bs ← read_bytes n; return (b ∷ bs)

-- A negative size is a huge one in the guard, and makes no round of the loop.
unfoldable pub read_buffer : ℤ → Reader (List ℕ)
read_buffer (pos n) = do need (to_unsigned 32 (pos n)); read_bytes n
read_buffer (negsuc n) = do need (to_unsigned 32 (negsuc n)); return []

module _ (lib : StringLib) where
  open lib use {Str, of_c_string}

  -- A length byte, then that many characters, closed by a NUL for the string's constructor.
  unfoldable pub read_string : Reader Str
  read_string = do
    need 1
    len ← read_u8
    need len
    cs ← read_bytes len
    return (of_c_string (cs ++ 0 ∷ []))
