-- ===== src/Sync/Faults.antt =====
-- Where a write and the read beside it do not agree, and what a write leaves behind that does not fit.
use gta_psp_multiplayer.Prelude.{
  ℕ, ◌+◌, ◌-◌, ◌%◌, false, leb, ◌^◌, ◌≤◌, ◌<◌, none, List, [], ◌∷◌, ◌++◌, length, length-append,
  take, ◌≡◌, arith,
}
use native.Mathlib.Nat.{mod-eq_of_lt}
use gta_psp_multiplayer.Sync.Types.{Rgba, StringLib}
use gta_psp_multiplayer.Sync.Reader.{from_range, seekg, can_read, need, read_colour24}
use gta_psp_multiplayer.Sync.Writer.{
  WriteStream, buffer_size, write_u8, write_bytes, write_colour24, write_string,
}
use gta_psp_multiplayer.Sync.Writer.Encode.{
  IsValid, Appends, Appends->>, Appends-guarded, guarded-fits, guarded-full, write_u8-Appends,
  written,
}

write_colour24-Appends : (c : Rgba) → Appends (write_colour24 c) (c.red ∷ c.green ∷ c.blue ∷ [])
unfolding write_colour24
write_colour24-Appends c =
    Appends-guarded 3 (omega arith)
      (Appends->> (Appends->> (write_u8-Appends _) (write_u8-Appends _)) (write_u8-Appends _))

-- Three bytes before the end, the guard asks for one more.
read_colour24-three :
    (d : Rgba) (bytes : List ℕ) (at : ℕ)
    → length bytes ≡ at + 3
    → read_colour24 d (seekg at (from_range bytes)) ≡ (none, seekg at (from_range bytes))
unfolding read_colour24 from_range need can_read
read_colour24-three d bytes at h =
    let q : leb 4 ((length bytes + 2 ^ 32 - at) % 2 ^ 32) ≡ false = ground (arith, h) in rw q

-- A colour of 24 bits that is written last into a packet with room for it, whatever was written before it,
-- stands at the end with its three bytes, and is not read back there: the read returns at once and stays
-- before the colour.
pub read_colour24-write_colour24 :
    (c d : Rgba) (w : WriteStream)
    → IsValid w
    → w.pckt_size + 3 < buffer_size
    → let packet = written (write_colour24 c w) in
      let before_colour = seekg (length (written w)) (from_range packet) in
      (packet ≡ written w ++ c.red ∷ c.green ∷ c.blue ∷ [])
      × (read_colour24 d before_colour ≡ (none, before_colour))
read_colour24-write_colour24 c d w valid room =
    let sent = (write_colour24-Appends c).bytes w valid room in
    (
      sent,
      read_colour24-three d (written (write_colour24 c w)) (length (written w))
          (rw sent (length-append (written w) (c.red ∷ c.green ∷ c.blue ∷ []))),
    )

-- A string of at most 255 characters that does not fit behind its length byte, for which there is room,
-- leaves that byte alone in the packet.
pub write_string-cut :
    (lib : StringLib) (str : lib.Str) (w : WriteStream)
    → IsValid w
    → length (lib.chars str) < 2 ^ 8
    → w.pckt_size + 1 < buffer_size
    → buffer_size ≤ w.pckt_size + 1 + length (lib.chars str)
    → written (write_string lib str w) ≡ written w ++ length (lib.chars str) ∷ []
unfolding write_string
write_string-cut lib str w valid short one full =
    let n = length (lib.chars str) in
    let byte = write_u8-Appends n in
    rw
      (
        mod-eq_of_lt short,
        guarded-fits 1 _ w one,
        guarded-full n (write_bytes (take n (lib.chars str))) (write_u8 n w)
            (omega (arith, byte.size w valid one)),
      )
      (byte.bytes w valid one)
