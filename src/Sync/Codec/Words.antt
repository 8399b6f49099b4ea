-- ===== src/Sync/Codec/Words.antt =====
-- The unsigned words: `WriteU8` to `WriteU64` against `ReadU8` to `ReadU64`, the lowest byte first.
use gta_psp_multiplayer.Prelude.{ℕ, ◌+◌, ◌*◌, ◌/◌, ◌%◌, ◌^◌, ◌<◌, bit_or, [], ◌∷◌, ◌≡◌, ◌∙◌, arith}
use native.Mathlib.Nat.{mod-eq_of_lt}
use gta_psp_multiplayer.Prelude.Bits.{bit_and_mask, bit_or_shifted}
use gta_psp_multiplayer.Sync.Codec.{le_bytes, Carries}
use gta_psp_multiplayer.Sync.Reader.{join_u32, join_u64, read_u8, read_u16, read_u32, read_u64}
use gta_psp_multiplayer.Sync.Reader.Decode.{
  Reads, Reads-byte, Reads-need, Reads-return, read_u8-Reads,
}
use gta_psp_multiplayer.Sync.Writer.{byte_at, write_u8, write_u16, write_u32, write_u64}
use gta_psp_multiplayer.Sync.Writer.Encode.{Appends, Appends->>, Appends-guarded, write_u8-Appends}

-- The byte that the writer cuts out at a place is the one of `le_bytes`.
byte_at-mod : (k v : ℕ) → byte_at k v ≡ v / 2 ^ k % 256
byte_at-mod k v = bit_and_mask 8 (v / 2 ^ k)

pub write_u16-Appends : (v : ℕ) → Appends (write_u16 v) (le_bytes 2 v)
unfolding write_u16
write_u16-Appends v =
    let e : byte_at 0 v ∷ byte_at 8 v ∷ [] ≡ le_bytes 2 v =
      ground (arith, byte_at-mod 0 v, byte_at-mod 8 v) in
    rw (← e)
      (Appends-guarded 2 (omega arith) (Appends->> (write_u8-Appends _) (write_u8-Appends _)))

pub read_u16-Reads : (v : ℕ) → v < 2 ^ 16 → Reads read_u16 v (le_bytes 2 v)
unfolding read_u16
read_u16-Reads v fits = Reads-need 2 (omega arith) (
    Reads-byte _
      (Reads-byte _ (Reads-return (ground (arith, bit_or_shifted 8 (v / 256 % 256) (v % 256))))))

write_u32-Appends : (v : ℕ) → Appends (write_u32 v) (le_bytes 4 v)
unfolding write_u32
write_u32-Appends v =
    let e : byte_at 0 v ∷ byte_at 8 v ∷ byte_at 16 v ∷ byte_at 24 v ∷ [] ≡ le_bytes 4 v =
      ground (arith, byte_at-mod 0 v, byte_at-mod 8 v, byte_at-mod 16 v, byte_at-mod 24 v) in
    rw (← e) (
      Appends-guarded 4 (omega arith) (
        Appends->>
          (Appends->> (Appends->> (write_u8-Appends _) (write_u8-Appends _)) (write_u8-Appends _))
          (write_u8-Appends _)))

-- `|` of a byte shifted past what is already there, in a word wide enough for it.
or_byte :
    (k w acc b : ℕ)
    → acc < 2 ^ k
    → b * 2 ^ k < 2 ^ w
    → bit_or acc (b * 2 ^ k % 2 ^ w) ≡ acc + b * 2 ^ k
or_byte k w acc b low fits = rw (mod-eq_of_lt fits) (bit_or_shifted k b acc low)

join_u32-bytes :
    (v : ℕ)
    → v < 2 ^ 32
    → join_u32 (v % 256) (v / 256 % 256) (v / 256 / 256 % 256) (v / 256 / 256 / 256 % 256) ≡ v
join_u32-bytes v fits =
    let a1 : ℕ = v % 256 in
    let a2 : ℕ = a1 + v / 256 % 256 * 2 ^ 8 in
    let a3 : ℕ = a2 + v / 256 / 256 % 256 * 2 ^ 16 in
    rw
      (
        or_byte 8 32 a1 (v / 256 % 256) (omega arith) (omega arith),
        or_byte 16 32 a2 (v / 256 / 256 % 256) (omega arith) (omega arith),
        or_byte 24 32 a3 (v / 256 / 256 / 256 % 256) (omega arith) (omega arith),
      )
      (omega arith)

read_u32-Reads : (v : ℕ) → v < 2 ^ 32 → Reads read_u32 v (le_bytes 4 v)
unfolding read_u32
read_u32-Reads v fits = Reads-need 4 (omega arith) (
    Reads-byte _
      (Reads-byte _ (Reads-byte _ (Reads-byte _ (Reads-return (join_u32-bytes v fits))))))

join_u64-bytes :
    (b0 b1 b2 b3 b4 b5 b6 b7 : ℕ)
    → b0 < 256
    → b1 < 256
    → b2 < 256
    → b3 < 256
    → b4 < 256
    → b5 < 256
    → b6 < 256
    → b7 < 256
    → join_u64 b0 b1 b2 b3 b4 b5 b6 b7
      ≡ b0
        + b1 * 2 ^ 8
        + b2 * 2 ^ 16
        + b3 * 2 ^ 24
        + b4 * 2 ^ 32
        + b5 * 2 ^ 40
        + b6 * 2 ^ 48
        + b7 * 2 ^ 56
join_u64-bytes b0 b1 b2 b3 b4 b5 b6 b7 h0 h1 h2 h3 h4 h5 h6 h7 =
    let a2 : ℕ = b0 + b1 * 2 ^ 8 in
    let a3 : ℕ = a2 + b2 * 2 ^ 16 in
    let a4 : ℕ = a3 + b3 * 2 ^ 24 in
    let a5 : ℕ = a4 + b4 * 2 ^ 32 in
    let a6 : ℕ = a5 + b5 * 2 ^ 40 in
    let a7 : ℕ = a6 + b6 * 2 ^ 48 in
    rw (
      or_byte 8 64 b0 b1 (omega arith) (omega arith),
      or_byte 16 64 a2 b2 (omega arith) (omega arith),
      or_byte 24 64 a3 b3 (omega arith) (omega arith),
      or_byte 32 64 a4 b4 (omega arith) (omega arith),
      or_byte 40 64 a5 b5 (omega arith) (omega arith),
      or_byte 48 64 a6 b6 (omega arith) (omega arith),
      or_byte 56 64 a7 b7 (omega arith) (omega arith),
    )

write_u64-Appends : (v : ℕ) → Appends (write_u64 v) (le_bytes 8 v)
unfolding write_u64
write_u64-Appends v =
    let e : byte_at 0 v
          ∷ byte_at 8 v
          ∷ byte_at 16 v
          ∷ byte_at 24 v
          ∷ byte_at 32 v
          ∷ byte_at 40 v
          ∷ byte_at 48 v
          ∷ byte_at 56 v
          ∷ []
        ≡ le_bytes 8 v =
      ground (
        arith,
        byte_at-mod 0 v,
        byte_at-mod 8 v,
        byte_at-mod 16 v,
        byte_at-mod 24 v,
        byte_at-mod 32 v,
        byte_at-mod 40 v,
        byte_at-mod 48 v,
        byte_at-mod 56 v,
      ) in
    rw (← e) (
      Appends-guarded 8 (omega arith) (
        Appends->>
          (Appends->>
            (Appends->>
              (Appends->>
                (Appends->>
                  (Appends->> (Appends->> (write_u8-Appends _) (write_u8-Appends _))
                    (write_u8-Appends _))
                  (write_u8-Appends _))
                (write_u8-Appends _))
              (write_u8-Appends _))
            (write_u8-Appends _))
          (write_u8-Appends _)))

digits_u64 :
    (v : ℕ)
    → v < 2 ^ 64
    → v % 256
        + v / 256 % 256 * 2 ^ 8
        + v / 256 / 256 % 256 * 2 ^ 16
        + v / 256 / 256 / 256 % 256 * 2 ^ 24
        + v / 256 / 256 / 256 / 256 % 256 * 2 ^ 32
        + v / 256 / 256 / 256 / 256 / 256 % 256 * 2 ^ 40
        + v / 256 / 256 / 256 / 256 / 256 / 256 % 256 * 2 ^ 48
        + v / 256 / 256 / 256 / 256 / 256 / 256 / 256 % 256 * 2 ^ 56
      ≡ v
digits_u64 v fits = omega arith

low : (n : ℕ) → n % 256 < 256
low n = omega arith

-- The eight bytes of a word join to it again.
join_u64-le_bytes :
    (v : ℕ)
    → v < 2 ^ 64
    → join_u64
        (v % 256)
        (v / 256 % 256)
        (v / 256 / 256 % 256)
        (v / 256 / 256 / 256 % 256)
        (v / 256 / 256 / 256 / 256 % 256)
        (v / 256 / 256 / 256 / 256 / 256 % 256)
        (v / 256 / 256 / 256 / 256 / 256 / 256 % 256)
        (v / 256 / 256 / 256 / 256 / 256 / 256 / 256 % 256)
      ≡ v
join_u64-le_bytes v fits =
    join_u64-bytes _ _ _ _ _ _ _ _ (low _) (low _) (low _) (low _) (low _) (low _) (low _) (low _)
    ∙ digits_u64 v fits

read_u64-Reads : (v : ℕ) → v < 2 ^ 64 → Reads read_u64 v (le_bytes 8 v)
unfolding read_u64
read_u64-Reads v fits = Reads-need 8 (omega arith) (
    Reads-byte _ (
      Reads-byte _ (
        Reads-byte _ (
          Reads-byte _ (
            Reads-byte _ (
              Reads-byte _
                (Reads-byte _ (Reads-byte _ (Reads-return (join_u64-le_bytes v fits))))))))))

pub u8-Carries : (v : ℕ) → Carries (write_u8 v) read_u8 v (v ∷ [])
u8-Carries v = record { appends = write_u8-Appends v; reads = read_u8-Reads v }

pub u16-Carries : (v : ℕ) → v < 2 ^ 16 → Carries (write_u16 v) read_u16 v (le_bytes 2 v)
u16-Carries v h = record { appends = write_u16-Appends v; reads = read_u16-Reads v h }

pub u32-Carries : (v : ℕ) → v < 2 ^ 32 → Carries (write_u32 v) read_u32 v (le_bytes 4 v)
u32-Carries v h = record { appends = write_u32-Appends v; reads = read_u32-Reads v h }

pub u64-Carries : (v : ℕ) → v < 2 ^ 64 → Carries (write_u64 v) read_u64 v (le_bytes 8 v)
u64-Carries v h = record { appends = write_u64-Appends v; reads = read_u64-Reads v h }
