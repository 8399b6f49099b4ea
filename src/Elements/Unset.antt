-- ===== src/Elements/Unset.antt =====
-- The overloads of the reads that return a value, as the elements call them: after an early return the value
-- is what the local variable held before. `unset k` is what the `k`-th of these variables holds.
use gta_psp_multiplayer.Prelude.{ℕ, ◌+◌, ◌%◌, ◌^◌, Bool, not, some, List, ◌==◌}
use gta_psp_multiplayer.Prelude.Int.{ℤ}
use gta_psp_multiplayer.Sync.Types.{Float, Vector, to_signed}
use gta_psp_multiplayer.Sync.Reader.{
  Reader, read_u8, read_u32, read_i8, read_i16, read_i32, read_bool, read_float, read_vector,
}
use gta_psp_multiplayer.Sync.Reader.Values.{valued}
use gta_psp_multiplayer.Sync.Writer.{Writer}
use gta_psp_multiplayer.Sync.Codec.{Carries}
use gta_psp_multiplayer.Elements.Section.{Sends}

-- A read that always goes on.
unfoldable pub or_unset : {A : Type 0} → A → Reader A → Reader A
or_unset d m s = (some (valued d m s).0, (valued d m s).1)

abbrev pub unset_float : (ℕ → ℕ) → ℕ → Float
unset_float unset k = record { bits = unset k % 2 ^ 32 }

abbrev pub get_u8 : (ℕ → ℕ) → ℕ → Reader ℕ
get_u8 unset k = or_unset (unset k % 2 ^ 8) read_u8

abbrev pub get_u32 : (ℕ → ℕ) → ℕ → Reader ℕ
get_u32 unset k = or_unset (unset k % 2 ^ 32) read_u32

abbrev pub get_i8 : (ℕ → ℕ) → ℕ → Reader ℤ
get_i8 unset k = or_unset (to_signed 8 (unset k % 2 ^ 8)) read_i8

abbrev pub get_i16 : (ℕ → ℕ) → ℕ → Reader ℤ
get_i16 unset k = or_unset (to_signed 16 (unset k % 2 ^ 16)) read_i16

abbrev pub get_i32 : (ℕ → ℕ) → ℕ → Reader ℤ
get_i32 unset k = or_unset (to_signed 32 (unset k % 2 ^ 32)) read_i32

abbrev pub get_bool : (ℕ → ℕ) → ℕ → Reader Bool
get_bool unset k = or_unset (not (unset k % 2 ^ 8 == 0)) read_bool

abbrev pub get_float : (ℕ → ℕ) → ℕ → Reader Float
get_float unset k = or_unset (unset_float unset k) read_float

-- A vector's variable takes the numbers from `k` to `k + 2`.
abbrev pub get_vector : (ℕ → ℕ) → ℕ → Reader Vector
get_vector unset k =
    or_unset
      (record {
        x = unset_float unset k;
        y = unset_float unset (k + 1);
        z = unset_float unset (k + 2);
      })
      read_vector

-- What is there to be read is read, whatever the variable held.
pub got :
    {A : Type 0} {w : Writer} {m : Reader A} {a : A} {xs : List ℕ} (d : A)
    → Carries w m a xs
    → Sends w (or_unset d m) a
unfolding or_unset
got {xs} d c = record {
  bytes = xs;
  carries = record {
    appends = c.appends;
    reads = record { run = λ s rest h. rw (c.reads.run s rest h) };
  };
}
