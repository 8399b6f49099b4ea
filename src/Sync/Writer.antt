-- ===== src/Sync/Writer.antt =====
-- `sWriteSyncStream`: a packet whose body is appended to, from C Reversed/elements/sSyncStream.cpp.
--
-- A write is a function from stream to stream. SYNC_STREAM_CAN_WRITE is an early return that leaves the
-- stream as it was (a debug build stops at the assertion before that return).
pub mod Encode
use gta_psp_multiplayer.Prelude.{
  ℕ, ◌+◌, ◌-◌, ◌*◌, ◌/◌, ◌%◌, ◌^◌, bit_and, Bool, List, [], ◌∷◌, length, set, take, leb,
  if◌then◌else◌,
}
use gta_psp_multiplayer.Prelude.Int.{ℤ}
use gta_psp_multiplayer.Sync.Types.{Float, Vector, Vector2d, Rgba, StringLib, to_unsigned}

-- SYNC_WRITER_BUFFER_SIZE
abbrev pub buffer_size : ℕ
buffer_size = 1024 * 32

-- `sizeof(net::pckt)`: the 16-bit size that stands in front of the body.
abbrev pub header_size : ℕ
header_size = 2

-- `pckt_size` counts the header too, and is the offset of the next byte from the header's start.
pub record WriteStream : Type 0 where
  pub pckt_size : ℕ
  pub buffer : List ℕ

abbrev pub seekg : ℕ → WriteStream → WriteStream
seekg n w = record w { pckt_size = n }

-- The constructor, over whatever the memory held.
unfoldable pub init : List ℕ → WriteStream
init memory = seekg header_size (record { pckt_size = 0; buffer = memory })

abbrev pub Writer : Type 0
Writer = WriteStream → WriteStream

-- One write after another; a `do` block is a row of them.
infixl 5 ◌>>◌
abbrev pub ◌>>◌ : Writer → Writer → Writer
◌>>◌ f g w = g (f w)

-- SYNC_STREAM_CAN_WRITE(n)
unfoldable pub guarded : ℕ → Writer → Writer
guarded n f w = if leb buffer_size (w.pckt_size + n) then w else f w

-- `*Tellg() = nVal; AddLength(1)`. A `uint16` holds the length.
unfoldable pub put_byte : ℕ → Writer
put_byte v w = record {
  pckt_size = (w.pckt_size + 1) % 2 ^ 16;
  buffer = set w.buffer (w.pckt_size - header_size) v;
}

unfoldable pub write_u8 : ℕ → Writer
write_u8 v = guarded 1 (put_byte v)

-- `(nVal >> k) & 0xFF`
abbrev pub byte_at : ℕ → ℕ → ℕ
byte_at k v = bit_and (v / 2 ^ k) 0xff

unfoldable pub write_u16 : ℕ → Writer
write_u16 v = guarded 2 (write_u8 (byte_at 0 v) >> write_u8 (byte_at 8 v))

unfoldable pub write_u32 : ℕ → Writer
write_u32 v = guarded 4 (
    write_u8 (byte_at 0 v)
    >> write_u8 (byte_at 8 v)
    >> write_u8 (byte_at 16 v)
    >> write_u8 (byte_at 24 v))

unfoldable pub write_u64 : ℕ → Writer
write_u64 v = guarded 8 (
    write_u8 (byte_at 0 v)
    >> write_u8 (byte_at 8 v)
    >> write_u8 (byte_at 16 v)
    >> write_u8 (byte_at 24 v)
    >> write_u8 (byte_at 32 v)
    >> write_u8 (byte_at 40 v)
    >> write_u8 (byte_at 48 v)
    >> write_u8 (byte_at 56 v))

unfoldable pub write_i8 : ℤ → Writer
write_i8 v = guarded 1 (write_u8 (to_unsigned 8 v))

unfoldable pub write_i16 : ℤ → Writer
write_i16 v = guarded 2 (write_u16 (to_unsigned 16 v))

unfoldable pub write_i32 : ℤ → Writer
write_i32 v = guarded 4 (write_u32 (to_unsigned 32 v))

unfoldable pub write_i64 : ℤ → Writer
write_i64 v = guarded 8 (write_u64 (to_unsigned 64 v))

unfoldable pub write_bool : Bool → Writer
write_bool b = guarded 1 (write_u8 (if b then 1 else 0))

unfoldable pub write_float : Float → Writer
write_float f = guarded 4 (write_u32 f.bits)

unfoldable pub write_vector : Vector → Writer
write_vector v = guarded 12 (write_float v.x >> write_float v.y >> write_float v.z)

unfoldable pub write_vector2d : Vector2d → Writer
write_vector2d v = guarded 8 (write_float v.x >> write_float v.y)

unfoldable pub write_colour : Rgba → Writer
write_colour c =
    guarded 4 (write_u8 c.red >> write_u8 c.green >> write_u8 c.blue >> write_u8 c.alpha)

unfoldable pub write_colour24 : Rgba → Writer
write_colour24 c = guarded 3 (write_u8 c.red >> write_u8 c.green >> write_u8 c.blue)

-- The loop of `WriteBuffer` and `WriteString`.
unfoldable pub write_bytes : List ℕ → Writer
write_bytes [] w = w
write_bytes (b ∷ bs) w = write_bytes bs (write_u8 b w)

-- `WriteBuffer` of all the bytes of a buffer.
unfoldable pub write_buffer : List ℕ → Writer
write_buffer bs = guarded (length bs) (write_bytes bs)

module _ (lib : StringLib) where
  open lib use {Str, chars}

  -- The length goes out as one byte, and only that many characters follow. If they do not fit, the
  -- length byte stays behind.
  unfoldable pub write_string : Str → Writer
  write_string str = guarded 1 (
      write_u8 (length (chars str) % 2 ^ 8)
      >> guarded (length (chars str) % 2 ^ 8)
          (write_bytes (take (length (chars str) % 2 ^ 8) (chars str))))
