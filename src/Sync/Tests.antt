-- ===== src/Sync/Tests.antt =====
-- The theorems of the sync streams at concrete packets, and runs of the streams.
use gta_psp_multiplayer.Prelude.{
  ℕ, ◌+◌, true, none, some, List, [], ◌∷◌, ◌++◌, length, replicate, length-replicate, ◌≡◌, refl,
  arith, if◌then◌else◌, ◌==◌,
}
use gta_psp_multiplayer.Prelude.Int.{pos, negsuc}
use gta_psp_multiplayer.Sync.Types.{Rgba, StringLib}
use gta_psp_multiplayer.Sync.Reader.{
  ReadStream, from_range, seekg, is_empty, need, read_bytes, read_u8, read_u16, read_u32, read_u64,
  read_i8, read_i16, read_i32, read_i64, read_bool, read_float, read_vector, read_vector2d,
  read_colour, read_colour24, read_buffer, read_string,
}
use gta_psp_multiplayer.Sync.Reader.Bounds.{Call, perform_all, Within, perform_all-Within}
use gta_psp_multiplayer.Sync.Reader.Peek.{
  SeesAhead, peek_vector, peek_string, peek_buffer, peek_vector2d, peek_colour, peek_bool, peek_i8,
  peek_u8, peek_i16, peek_u16, peek_i32, peek_u32, peek_i64, peek_u64, peek_float, peek-read,
}
use gta_psp_multiplayer.Sync.Writer.{
  WriteStream, buffer_size, header_size, init, write_colour24, write_string,
}
use gta_psp_multiplayer.Sync.Writer.Encode.{written}
use gta_psp_multiplayer.Sync.Message.{Field, body_of, write_fields, read_fields}
use gta_psp_multiplayer.Sync.RoundTrip.{read_fields-write_fields, read_string-write_string}
use gta_psp_multiplayer.Sync.Faults.{read_colour24-write_colour24}

-- The text of a C string.
abbrev until_nul : List ℕ → List ℕ
until_nul [] = []
until_nul (c ∷ cs) = if c == 0 then [] else c ∷ until_nul cs

-- Strings as lists of their characters.
abbrev text : StringLib
text = record { Str = List ℕ; chars = λ cs. cs; of_c_string = until_nul }

abbrev memory : List ℕ
memory = replicate buffer_size 0

memory-room : length memory ≡ buffer_size
memory-room = length-replicate {A = ℕ} buffer_size 0

abbrev colour : Rgba
colour = record { red = 10; green = 20; blue = 30; alpha = 255 }

abbrev fields : List Field
fields =
    Field.u16 513
    ∷ Field.i32 (negsuc 4)
    ∷ Field.bool true
    ∷ Field.colour colour
    ∷ Field.buffer (7 ∷ 8 ∷ [])
    ∷ []

read_fields-write_fields_example :
    let w = write_fields fields (init memory) in
    let (r, t) = read_fields fields (from_range (written w)) in
    (w.pckt_size ≡ header_size + length (body_of fields)) × (r ≡ some fields) × (is_empty t ≡ true)
read_fields-write_fields_example =
    read_fields-write_fields fields memory
      (omega arith, (omega arith, (tt, (tt, (omega arith, tt))))) memory-room (omega arith)

abbrev hello : List ℕ
hello = 104 ∷ 101 ∷ 108 ∷ 108 ∷ 111 ∷ []

read_string-write_string_example :
    (got : List ℕ) × ((read_string text
        (from_range (written (write_string text hello (init memory))))).0
      ≡ some got)
    × (got ≡ hello)
read_string-write_string_example =
    read_string-write_string text hello memory refl (omega arith) memory-room

-- A packet of four bytes: the string's length is 3, and the last reads find too little.
abbrev short_packet : ReadStream
short_packet = record { memory = 3 ∷ 65 ∷ 66 ∷ 67 ∷ []; cursor = 0; stop = 4 }

abbrev calls : List Call
calls = Call.u16 ∷ Call.u32 ∷ Call.string ∷ Call.buffer (pos 9) ∷ Call.u8 ∷ Call.u8 ∷ []

perform_all-Within_example : Within text short_packet (perform_all text calls short_packet)
perform_all-Within_example = perform_all-Within text calls short_packet (omega arith, omega arith)

peek-read_example :
    SeesAhead peek_vector read_vector
    × SeesAhead (peek_string text) (read_string text)
    × SeesAhead (peek_buffer (pos 2)) (read_buffer (pos 2))
    × SeesAhead peek_vector2d read_vector2d
    × SeesAhead peek_colour read_colour
    × SeesAhead peek_bool read_bool
    × SeesAhead peek_i8 read_i8
    × SeesAhead peek_u8 read_u8
    × SeesAhead peek_i16 read_i16
    × SeesAhead peek_u16 read_u16
    × SeesAhead peek_i32 read_i32
    × SeesAhead peek_u32 read_u32
    × SeesAhead peek_i64 read_i64
    × SeesAhead peek_u64 read_u64
    × SeesAhead peek_float read_float
peek-read_example = peek-read text (pos 2)

-- A packet in which two bytes stand already.
abbrev half_written : WriteStream
half_written = record { buffer = memory; pckt_size = header_size + 2 }

read_colour24-write_colour24_example :
    (written (write_colour24 colour half_written)
      ≡ written half_written ++ colour.red ∷ colour.green ∷ colour.blue ∷ [])
    × (read_colour24 colour (
          seekg
            (length (written half_written))
            (from_range (written (write_colour24 colour half_written))))
        ≡ (
          none,
          seekg
              (length (written half_written))
              (from_range (written (write_colour24 colour half_written))),
        ))
read_colour24-write_colour24_example =
    read_colour24-write_colour24 colour colour half_written
      (record { room = memory-room; begun = omega arith; within = omega arith }) (omega arith)

read_u16_test : (read_u16 short_packet).0 ≡ some 16643
unfolding read_u16 need read_u8
read_u16_test = refl

read_string_test : (read_string text short_packet).0 ≡ some (65 ∷ 66 ∷ 67 ∷ [])
unfolding read_string need read_u8 read_bytes
read_string_test = refl
