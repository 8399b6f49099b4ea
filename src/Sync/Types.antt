-- ===== src/Sync/Types.antt =====
-- The values that a sync stream carries (C Reversed/elements/sSyncStream.h). Bytes and unsigned
-- integers are numbers, signed integers are the library's way of writing ℤ over them.
use gta_psp_multiplayer.Prelude.{ℕ, ◌-◌, ◌%◌, ◌^◌, ltb, if◌then◌else◌, List}
use gta_psp_multiplayer.Prelude.Int.{ℤ, pos, negsuc}

-- A `float` as its 32-bit pattern: the streams move it through a union and never compute with it.
pub record Float : Type 0 where
  pub bits : ℕ

-- `rw::V3d`, the three coordinates of a `CVector` that are sent.
pub record Vector : Type 0 where
  pub x : Float
  pub y : Float
  pub z : Float

pub record Vector2d : Type 0 where
  pub x : Float
  pub y : Float

pub record Rgba : Type 0 where
  pub red : ℕ
  pub green : ℕ
  pub blue : ℕ
  pub alpha : ℕ

-- `static_cast` of an unsigned word of `w` bits to the signed type of that width.
abbrev pub to_signed : ℕ → ℕ → ℤ
to_signed w n = if ltb n (2 ^ (w - 1)) then pos n else negsuc (2 ^ w - n - 1)

-- `static_cast` of a signed integer to the unsigned type of `w` bits.
abbrev pub to_unsigned : ℕ → ℤ → ℕ
to_unsigned w (pos n) = n % 2 ^ w
to_unsigned w (negsuc n) = 2 ^ w - 1 - n % 2 ^ w

-- `base::string`, which the streams use and do not implement: its characters, and the constructor
-- from a C string.
pub record StringLib : Type 1 where
  pub Str : Type 0
  pub chars : Str → List ℕ
  pub of_c_string : List ℕ → Str
