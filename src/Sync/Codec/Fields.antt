-- ===== src/Sync/Codec/Fields.antt =====
-- The fields that are made of words: signed integers, booleans, floats, vectors, colours, buffers and
-- strings.
use native.Mathlib.Nat.{mod-eq_of_lt}
use gta_psp_multiplayer.Prelude.{
  ℕ, ◌-◌, ◌%◌, ◌^◌, ◌<◌, Bool, [], ◌∷◌, ◌≡◌, refl, arith, if◌then◌else◌,
}
use gta_psp_multiplayer.Prelude.Int.{ℤ, pos, negsuc}
use gta_psp_multiplayer.Sync.Types.{Float, to_signed, to_unsigned}
use gta_psp_multiplayer.Sync.Reader.{read_bool, read_float, read_i8, read_i16, read_i32, read_i64}
use gta_psp_multiplayer.Sync.Reader.Decode.{Reads->>=, Reads-need, Reads-return, Reads-byte}
use gta_psp_multiplayer.Sync.Writer.{
  write_bool, write_float, write_i8, write_i16, write_i32, write_i64,
}
use gta_psp_multiplayer.Sync.Writer.Encode.{Appends-guarded, write_u8-Appends}
use gta_psp_multiplayer.Sync.Codec.{Carries, le_bytes}
use gta_psp_multiplayer.Sync.Codec.Words.{u8-Carries, u16-Carries, u32-Carries, u64-Carries}

-- The integers that `w` bits hold.
abbrev pub InRange : ℕ → ℤ → Type 0
InRange w (pos n) = n < 2 ^ (w - 1)
InRange w (negsuc n) = n < 2 ^ (w - 1)

signed-unsigned_8 : (z : ℤ) → InRange 8 z → to_signed 8 (to_unsigned 8 z) ≡ z
signed-unsigned_8 (pos n) h = ground arith
signed-unsigned_8 (negsuc n) h = ground arith

signed-unsigned_16 : (z : ℤ) → InRange 16 z → to_signed 16 (to_unsigned 16 z) ≡ z
signed-unsigned_16 (pos n) h = ground arith
signed-unsigned_16 (negsuc n) h = ground arith

signed-unsigned_32 : (z : ℤ) → InRange 32 z → to_signed 32 (to_unsigned 32 z) ≡ z
signed-unsigned_32 (pos n) h = ground arith
signed-unsigned_32 (negsuc n) h = ground arith

signed-unsigned_64 : (z : ℤ) → InRange 64 z → to_signed 64 (to_unsigned 64 z) ≡ z
signed-unsigned_64 (pos n) h = ground arith
signed-unsigned_64 (negsuc n) h = ground arith

unsigned-lt : (w : ℕ) (z : ℤ) → 0 < 2 ^ w → to_unsigned w z < 2 ^ w
unsigned-lt w (pos n) h = omega arith
unsigned-lt w (negsuc n) h = omega arith

pub i8-Carries :
    (z : ℤ) → InRange 8 z → Carries (write_i8 z) read_i8 z (le_bytes 1 (to_unsigned 8 z))
unfolding write_i8 read_i8
i8-Carries z h =
    let c = u8-Carries (to_unsigned 8 z) in
    let e : to_unsigned 8 z % 256 ≡ to_unsigned 8 z =
      mod-eq_of_lt (unsigned-lt 8 z (omega arith)) in
    rw e (record {
      appends = Appends-guarded 1 (omega arith) c.appends;
      reads =
          Reads-need 1 (omega arith) (Reads->>= _ c.reads (Reads-return (signed-unsigned_8 z h)));
    })

pub i16-Carries :
    (z : ℤ) → InRange 16 z → Carries (write_i16 z) read_i16 z (le_bytes 2 (to_unsigned 16 z))
unfolding write_i16 read_i16
i16-Carries z h =
    let c = u16-Carries (to_unsigned 16 z) (unsigned-lt 16 z (omega arith)) in
    record {
      appends = Appends-guarded 2 (omega arith) c.appends;
      reads =
          Reads-need 2 (omega arith) (Reads->>= _ c.reads (Reads-return (signed-unsigned_16 z h)));
    }

pub i32-Carries :
    (z : ℤ) → InRange 32 z → Carries (write_i32 z) read_i32 z (le_bytes 4 (to_unsigned 32 z))
unfolding write_i32 read_i32
i32-Carries z h =
    let c = u32-Carries (to_unsigned 32 z) (unsigned-lt 32 z (omega arith)) in
    record {
      appends = Appends-guarded 4 (omega arith) c.appends;
      reads =
          Reads-need 4 (omega arith) (Reads->>= _ c.reads (Reads-return (signed-unsigned_32 z h)));
    }

pub i64-Carries :
    (z : ℤ) → InRange 64 z → Carries (write_i64 z) read_i64 z (le_bytes 8 (to_unsigned 64 z))
unfolding write_i64 read_i64
i64-Carries z h =
    let c = u64-Carries (to_unsigned 64 z) (unsigned-lt 64 z (omega arith)) in
    record {
      appends = Appends-guarded 8 (omega arith) c.appends;
      reads =
          Reads-need 8 (omega arith) (Reads->>= _ c.reads (Reads-return (signed-unsigned_64 z h)));
    }

pub bool-Carries : (b : Bool) → Carries (write_bool b) read_bool b ((if b then 1 else 0) ∷ [])
unfolding write_bool read_bool
bool-Carries b = record {
  appends = Appends-guarded 1 (omega arith) (write_u8-Appends _);
  reads = Reads-need 1 (omega arith) (Reads-byte _ (Reads-return (ground arith)));
}

pub float-Carries :
    (f : Float) → f.bits < 2 ^ 32 → Carries (write_float f) read_float f (le_bytes 4 f.bits)
unfolding write_float read_float
float-Carries f h =
    let c = u32-Carries f.bits h in
    record {
      appends = Appends-guarded 4 (omega arith) c.appends;
      reads = Reads-need 4 (omega arith) (Reads->>= _ c.reads (Reads-return refl));
    }
