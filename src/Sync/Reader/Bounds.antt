-- ===== src/Sync/Reader/Bounds.antt =====
-- No read leaves the packet: the cursor only moves forward, and never past the end.
use gta_psp_multiplayer.Prelude.{
  ℕ, zero, suc, ◌^◌, ◌≤◌, ◌<◌, Option, none, some, List, [], ◌∷◌, ◌≡◌, refl, ◌∙◌, arith,
}
use gta_psp_multiplayer.Prelude.Int.{ℤ, pos, negsuc}
use gta_psp_multiplayer.Sync.Types.{Rgba, StringLib}
use gta_psp_multiplayer.Sync.Reader.{
  ReadStream, Reader, resume, ◌>>=◌, return, can_read, need, read_u8, read_u16, read_u32, read_u64,
  read_i8, read_i16, read_i32, read_i64, read_bool, read_float, read_vector, read_vector2d,
  read_colour, read_colour24, read_bytes, read_buffer, read_string,
}

-- The cursor lies before the end, and both in the address space.
abbrev pub IsInside : ReadStream → Type 0
IsInside s = (s.cursor ≤ s.stop) × (s.stop < 2 ^ 32)

-- The outcome `p` of a read at `s` is over the same packet, further on.
abbrev pub Ahead : {A : Type 0} → ReadStream → Option A × ReadStream → Type 0
Ahead s p =
    (p.1.memory ≡ s.memory)
    × (p.1.stop ≡ s.stop)
    × (IsInside s → (s.cursor ≤ p.1.cursor) × (p.1.cursor ≤ s.stop))

pub record Walks {A : Type 0} (m : Reader A) : Type 0 where
  pub ahead : (s : ReadStream) → Ahead s (m s)

Ahead-resume :
    {A B : Type 0} (f : A → Reader B) (s : ReadStream) (p : Option A × ReadStream)
    → ((a : A) → Walks (f a))
    → Ahead s p
    → Ahead s (resume f p)
Ahead-resume f s (none, t) w h = h
Ahead-resume f s (some a, t) w h =
    let k = (w a).ahead t in (k.0 ∙ h.0, k.1 ∙ h.1, λ i. omega (arith, h.2 i, k.2, h.1))

pub Walks->>= :
    {A B : Type 0} {m : Reader A} (f : A → Reader B)
    → Walks m
    → ((a : A) → Walks (f a))
    → Walks (m >>= f)
Walks->>= {m} f p w = record { ahead = λ s. Ahead-resume f s (m s) w (p.ahead s) }

pub Walks-return : {A : Type 0} (a : A) → Walks (return a)
Walks-return a = record { ahead = λ s. (refl, refl, λ i. omega arith) }

pub Walks-need : (n : ℕ) → Walks (need n)
unfolding need
Walks-need n = record { ahead = λ s. ground arith }

pub read_u8-Walks : Walks read_u8
unfolding read_u8 can_read
read_u8-Walks = record { ahead = λ s. ground arith }

ruleset walks = (Walks->>=, Walks-return, Walks-need, read_u8-Walks)

pub read_u16-Walks : Walks read_u16
unfolding read_u16
read_u16-Walks = search walks

pub read_u32-Walks : Walks read_u32
unfolding read_u32
read_u32-Walks = search walks depth 12

pub read_u64-Walks : Walks read_u64
unfolding read_u64
read_u64-Walks = search walks depth 20

ruleset word_walks = (walks, read_u16-Walks, read_u32-Walks, read_u64-Walks)

pub read_i8-Walks : Walks read_i8
unfolding read_i8
read_i8-Walks = search word_walks

pub read_i16-Walks : Walks read_i16
unfolding read_i16
read_i16-Walks = search word_walks

pub read_i32-Walks : Walks read_i32
unfolding read_i32
read_i32-Walks = search word_walks

pub read_i64-Walks : Walks read_i64
unfolding read_i64
read_i64-Walks = search word_walks

pub read_bool-Walks : Walks read_bool
unfolding read_bool
read_bool-Walks = search word_walks

pub read_float-Walks : Walks read_float
unfolding read_float
read_float-Walks = search word_walks

pub read_vector-Walks : Walks read_vector
unfolding read_vector
read_vector-Walks = search (walks, read_float-Walks) depth 8

pub read_vector2d-Walks : Walks read_vector2d
unfolding read_vector2d
read_vector2d-Walks = search (walks, read_float-Walks) depth 8

pub read_colour-Walks : Walks read_colour
unfolding read_colour
read_colour-Walks = search walks depth 12

pub read_colour24-Walks : (c : Rgba) → Walks (read_colour24 c)
unfolding read_colour24
read_colour24-Walks c = search walks depth 12

read_bytes-Walks : (n : ℕ) → Walks (read_bytes n)
unfolding read_bytes
read_bytes-Walks zero = Walks-return []
read_bytes-Walks (suc n) =
    Walks->>= _ read_u8-Walks (λ b. Walks->>= _ (read_bytes-Walks n) (λ bs. Walks-return (b ∷ bs)))

pub read_buffer-Walks : (n : ℤ) → Walks (read_buffer n)
unfolding read_buffer
read_buffer-Walks (pos n) = search (walks, read_bytes-Walks)
read_buffer-Walks (negsuc n) = search walks

pub read_string-Walks : (lib : StringLib) → Walks (read_string lib)
unfolding read_string
read_string-Walks lib = search (walks, read_bytes-Walks) depth 12

-- Any one of the typed reads, whose value is not looked at.
pub data Call : Type 0 where
  u8 u16 u32 u64 i8 i16 i32 i64 bool float vector vector2d colour string : Call
  colour24 : Rgba → Call
  buffer : ℤ → Call

-- The value, or nothing after an early return; the stream either way.
abbrev pub after : {A : Type 0} → Reader A → ReadStream → ReadStream
after m s = (m s).1

module _ (lib : StringLib) where
  unfoldable pub perform : Call → ReadStream → ReadStream
  perform u8 = after read_u8
  perform u16 = after read_u16
  perform u32 = after read_u32
  perform u64 = after read_u64
  perform i8 = after read_i8
  perform i16 = after read_i16
  perform i32 = after read_i32
  perform i64 = after read_i64
  perform bool = after read_bool
  perform float = after read_float
  perform vector = after read_vector
  perform vector2d = after read_vector2d
  perform colour = after read_colour
  perform string = after (read_string lib)
  perform (colour24 c) = after (read_colour24 c)
  perform (buffer n) = after (read_buffer n)

  unfoldable pub perform_all : List Call → ReadStream → ReadStream
  perform_all [] s = s
  perform_all (c ∷ cs) s = perform_all cs (perform c s)

  -- The stream `t` is over the same packet as `s`, and its cursor lies between that of `s` and the end.
  abbrev pub Within : ReadStream → ReadStream → Type 0
  Within s t =
      (t.memory ≡ s.memory) × (t.stop ≡ s.stop) × (s.cursor ≤ t.cursor) × (t.cursor ≤ s.stop)

  within :
      {A : Type 0} {m : Reader A} → Walks m → (s : ReadStream) → IsInside s → Within s (after m s)
  within w s i = let a = w.ahead s in (a.0, a.1, omega (arith, a.2 i), omega (arith, a.2 i))

  perform-Within : (c : Call) (s : ReadStream) → IsInside s → Within s (perform c s)
  unfolding perform
  perform-Within u8 = within read_u8-Walks
  perform-Within u16 = within read_u16-Walks
  perform-Within u32 = within read_u32-Walks
  perform-Within u64 = within read_u64-Walks
  perform-Within i8 = within read_i8-Walks
  perform-Within i16 = within read_i16-Walks
  perform-Within i32 = within read_i32-Walks
  perform-Within i64 = within read_i64-Walks
  perform-Within bool = within read_bool-Walks
  perform-Within float = within read_float-Walks
  perform-Within vector = within read_vector-Walks
  perform-Within vector2d = within read_vector2d-Walks
  perform-Within colour = within read_colour-Walks
  perform-Within string = within (read_string-Walks lib)
  perform-Within (colour24 c) = within (read_colour24-Walks c)
  perform-Within (buffer n) = within (read_buffer-Walks n)

  -- Whatever bytes a packet holds, and whatever row of typed reads is made of it, failed ones too, the
  -- packet is not changed and the cursor stays between where it was and the packet's end.
  pub perform_all-Within :
      (cs : List Call) (s : ReadStream) → IsInside s → Within s (perform_all cs s)
  unfolding perform_all
  perform_all-Within [] s i = (refl, refl, omega arith, omega arith)
  perform_all-Within (c ∷ cs) s i =
      let h = perform-Within c s i in
      let k = perform_all-Within cs (perform c s) (omega (arith, h.1, h.3)) in
      (k.0 ∙ h.0, k.1 ∙ h.1, omega (arith, h.2, k.2), omega (arith, k.3, h.1))
