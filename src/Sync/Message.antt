-- ===== src/Sync/Message.antt =====
-- A packet's body as a row of fields, written by one machine and read by another in the same order.
use gta_psp_multiplayer.Prelude.{
  ℕ, ◌^◌, ◌<◌, Bool, List, [], ◌∷◌, ◌++◌, length, refl, arith, if◌then◌else◌,
}
use gta_psp_multiplayer.Prelude.Int.{ℤ, pos}
use gta_psp_multiplayer.Sync.Types.{Float, Vector, Vector2d, Rgba, to_unsigned}
use gta_psp_multiplayer.Sync.Reader.{
  Reader, return, ◌>>=◌, read_u8, read_u16, read_u32, read_u64, read_i8, read_i16, read_i32,
  read_i64, read_bool, read_float, read_vector, read_vector2d, read_colour, read_buffer,
}
use gta_psp_multiplayer.Sync.Reader.Decode.{Reads->>=, Reads-return, Reads-map}
use gta_psp_multiplayer.Sync.Writer.{
  Writer, write_u8, write_u16, write_u32, write_u64, write_i8, write_i16, write_i32, write_i64,
  write_bool, write_float, write_vector, write_vector2d, write_colour, write_buffer,
}
use gta_psp_multiplayer.Sync.Writer.Encode.{Appends->>, Appends-nothing}
use gta_psp_multiplayer.Sync.Codec.{Carries, le_bytes}
use gta_psp_multiplayer.Sync.Codec.Words.{u8-Carries, u16-Carries, u32-Carries, u64-Carries}
use gta_psp_multiplayer.Sync.Codec.Fields.{
  InRange, i8-Carries, i16-Carries, i32-Carries, i64-Carries, bool-Carries, float-Carries,
}
use gta_psp_multiplayer.Sync.Codec.Composite.{
  IsFloat, vector_bytes, vector2d_bytes, colour_bytes, vector-Carries, vector2d-Carries,
  colour-Carries, buffer-Carries,
}

-- One call of a typed write, with its argument.
pub data Field : Type 0 where
  u8 u16 u32 u64 : ℕ → Field
  i8 i16 i32 i64 : ℤ → Field
  bool : Bool → Field
  float : Float → Field
  vector : Vector → Field
  vector2d : Vector2d → Field
  colour : Rgba → Field
  buffer : List ℕ → Field

-- The argument is a value of the call's type.
abbrev pub IsTyped : Field → Type 0
IsTyped (u8 n) = n < 2 ^ 8
IsTyped (u16 n) = n < 2 ^ 16
IsTyped (u32 n) = n < 2 ^ 32
IsTyped (u64 n) = n < 2 ^ 64
IsTyped (i8 z) = InRange 8 z
IsTyped (i16 z) = InRange 16 z
IsTyped (i32 z) = InRange 32 z
IsTyped (i64 z) = InRange 64 z
IsTyped (bool b) = Unit {0}
IsTyped (float f) = IsFloat f
IsTyped (vector v) = IsFloat v.x × IsFloat v.y × IsFloat v.z
IsTyped (vector2d v) = IsFloat v.x × IsFloat v.y
IsTyped (colour c) = Unit {0}
IsTyped (buffer bs) = length bs < 2 ^ 31

abbrev pub AllTyped : List Field → Type 0
AllTyped [] = Unit {0}
AllTyped (f ∷ fs) = IsTyped f × AllTyped fs

abbrev pub bytes_of : Field → List ℕ
bytes_of (u8 n) = n ∷ []
bytes_of (u16 n) = le_bytes 2 n
bytes_of (u32 n) = le_bytes 4 n
bytes_of (u64 n) = le_bytes 8 n
bytes_of (i8 z) = le_bytes 1 (to_unsigned 8 z)
bytes_of (i16 z) = le_bytes 2 (to_unsigned 16 z)
bytes_of (i32 z) = le_bytes 4 (to_unsigned 32 z)
bytes_of (i64 z) = le_bytes 8 (to_unsigned 64 z)
bytes_of (bool b) = (if b then 1 else 0) ∷ []
bytes_of (float f) = le_bytes 4 f.bits
bytes_of (vector v) = vector_bytes v
bytes_of (vector2d v) = vector2d_bytes v
bytes_of (colour c) = colour_bytes c
bytes_of (buffer bs) = bs

unfoldable pub write_field : Field → Writer
write_field (u8 n) = write_u8 n
write_field (u16 n) = write_u16 n
write_field (u32 n) = write_u32 n
write_field (u64 n) = write_u64 n
write_field (i8 z) = write_i8 z
write_field (i16 z) = write_i16 z
write_field (i32 z) = write_i32 z
write_field (i64 z) = write_i64 z
write_field (bool b) = write_bool b
write_field (float f) = write_float f
write_field (vector v) = write_vector v
write_field (vector2d v) = write_vector2d v
write_field (colour c) = write_colour c
write_field (buffer bs) = write_buffer bs

-- A read of the same type as a field, whatever the field's value; a buffer's size is agreed on.
unfoldable pub read_like : Field → Reader Field
read_like (u8 _) = read_u8 >>= λ n. return (u8 n)
read_like (u16 _) = read_u16 >>= λ n. return (u16 n)
read_like (u32 _) = read_u32 >>= λ n. return (u32 n)
read_like (u64 _) = read_u64 >>= λ n. return (u64 n)
read_like (i8 _) = read_i8 >>= λ z. return (i8 z)
read_like (i16 _) = read_i16 >>= λ z. return (i16 z)
read_like (i32 _) = read_i32 >>= λ z. return (i32 z)
read_like (i64 _) = read_i64 >>= λ z. return (i64 z)
read_like (bool _) = read_bool >>= λ b. return (bool b)
read_like (float _) = read_float >>= λ f. return (float f)
read_like (vector _) = read_vector >>= λ v. return (vector v)
read_like (vector2d _) = read_vector2d >>= λ v. return (vector2d v)
read_like (colour _) = read_colour >>= λ c. return (colour c)
read_like (buffer bs) = read_buffer (pos (length bs)) >>= λ cs. return (buffer cs)

unfoldable pub write_fields : List Field → Writer
write_fields [] w = w
write_fields (f ∷ fs) w = write_fields fs (write_field f w)

unfoldable pub read_fields : List Field → Reader (List Field)
read_fields [] = return []
read_fields (f ∷ fs) = do g ← read_like f; gs ← read_fields fs; return (g ∷ gs)

abbrev pub body_of : List Field → List ℕ
body_of [] = []
body_of (f ∷ fs) = bytes_of f ++ body_of fs

typed :
    {A : Type 0} {w : Writer} {m : Reader A} {a : A} {xs : List ℕ} (g : A → Field)
    → Carries w m a xs
    → Carries w (m >>= λ x. return (g x)) (g a) xs
typed g c = record { appends = c.appends; reads = Reads-map g c.reads }

field-Carries : (f : Field) → IsTyped f → Carries (write_field f) (read_like f) f (bytes_of f)
unfolding write_field read_like
field-Carries (u8 n) h = typed u8 (u8-Carries n)
field-Carries (u16 n) h = typed u16 (u16-Carries n h)
field-Carries (u32 n) h = typed u32 (u32-Carries n h)
field-Carries (u64 n) h = typed u64 (u64-Carries n h)
field-Carries (i8 z) h = typed i8 (i8-Carries z h)
field-Carries (i16 z) h = typed i16 (i16-Carries z h)
field-Carries (i32 z) h = typed i32 (i32-Carries z h)
field-Carries (i64 z) h = typed i64 (i64-Carries z h)
field-Carries (bool b) h = typed bool (bool-Carries b)
field-Carries (float f) h = typed float (float-Carries f h)
field-Carries (vector v) h = typed vector (vector-Carries v h.0 h.1 h.2)
field-Carries (vector2d v) h = typed vector2d (vector2d-Carries v h.0 h.1)
field-Carries (colour c) h = typed colour (colour-Carries c)
field-Carries (buffer bs) h = typed buffer (buffer-Carries bs (omega arith))

pub fields-Carries :
    (fs : List Field) → AllTyped fs → Carries (write_fields fs) (read_fields fs) fs (body_of fs)
unfolding write_fields read_fields
fields-Carries [] h = record { appends = Appends-nothing; reads = Reads-return refl }
fields-Carries (f ∷ fs) h =
    let c = field-Carries f h.0 in
    let d = fields-Carries fs h.1 in
    record {
      appends = Appends->> c.appends d.appends;
      reads = Reads->>= _ c.reads (Reads-map (λ gs. f ∷ gs) d.reads);
    }
