-- ===== src/Elements/Types.antt =====
-- `!=` of two `float`s, on their bits: a number that is none differs from all, and the two zeros are one.
use gta_psp_multiplayer.Prelude.{◌%◌, ◌^◌, Bool, true, not, ltb, ◌==◌, if◌then◌else◌}
use gta_psp_multiplayer.Sync.Types.{Float}

abbrev pub is_nan : Float → Bool
is_nan f = ltb 0x7f800000 (f.bits % 2 ^ 31)

abbrev pub is_zero : Float → Bool
is_zero f = f.bits % 2 ^ 31 == 0

unfoldable pub float_ne : Float → Float → Bool
float_ne a b =
    if is_nan a
    then true
    else if is_nan b
    then true
    else if is_zero a
    then not (is_zero b)
    else not (a.bits == b.bits)
