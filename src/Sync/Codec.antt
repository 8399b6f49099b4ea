-- ===== src/Sync/Codec.antt =====
-- The bytes of each field of a packet's body, and what it is for a write and a read to agree on them.
pub mod Words
pub mod Fields
pub mod Composite
use gta_psp_multiplayer.Prelude.{ℕ, zero, suc, ◌/◌, ◌%◌, List, [], ◌∷◌}
use gta_psp_multiplayer.Sync.Reader.{Reader}
use gta_psp_multiplayer.Sync.Reader.Decode.{Reads}
use gta_psp_multiplayer.Sync.Writer.{Writer}
use gta_psp_multiplayer.Sync.Writer.Encode.{Appends}

-- The `n` low bytes of a word, the lowest first.
abbrev pub le_bytes : ℕ → ℕ → List ℕ
le_bytes zero v = []
le_bytes (suc n) v = v % 256 ∷ le_bytes n (v / 256)

-- `write` puts the bytes `xs`, from which `read` takes `a` back.
pub record Carries {A : Type 0} (write : Writer) (read : Reader A) (a : A) (xs : List ℕ)
    : Type 0 where
  pub appends : Appends write xs
  pub reads : Reads read a xs
