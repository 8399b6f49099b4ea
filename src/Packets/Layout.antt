-- ===== src/Packets/Layout.antt =====
-- The layout of a struct under `#pragma pack(1)`: the members follow each other with no gap, and a
-- bit field joins the one before it while the unit of its type has room.
use gta_psp_multiplayer.Prelude.{ℕ, ◌+◌, ◌*◌, List, [], ◌∷◌, ◌++◌, leb, if◌then◌else◌, ◌&&◌, ◌==◌}

-- The types of the members: `RwV3d`, `CRGBA`, `pckt_info_peer` and so on, `char` being `int8`.
pub data Scalar : Type 0 where
  uint8 int8 uint16 int16 uint32 int32 float boolean vector vector2d rgba peer_info : Scalar

pub data Member : Type 0 where
  one : Scalar → Member
  array : ℕ → Scalar → Member
  bits : Scalar → ℕ → Member

abbrev pub size_of_scalar : Scalar → ℕ
size_of_scalar uint8 = 1
size_of_scalar int8 = 1
size_of_scalar uint16 = 2
size_of_scalar int16 = 2
size_of_scalar uint32 = 4
size_of_scalar int32 = 4
size_of_scalar float = 4
size_of_scalar boolean = 1
size_of_scalar vector = 12
size_of_scalar vector2d = 8
size_of_scalar rgba = 4
-- a port, the six bytes of a `tMacAddr`, a random number
size_of_scalar peer_info = 2 + 6 + 4

-- The bytes from here on; `unit` and `used` are the size of the open unit of bit fields, if any,
-- and its bits that are taken.
abbrev pub size_from : ℕ → ℕ → List Member → ℕ
size_from unit used [] = 0
size_from unit used (one t ∷ ms) = size_of_scalar t + size_from 0 0 ms
size_from unit used (array n t ∷ ms) = n * size_of_scalar t + size_from 0 0 ms
size_from unit used (bits t n ∷ ms) =
    if (unit == size_of_scalar t) && leb (used + n) (8 * unit)
    then size_from unit (used + n) ms
    else size_of_scalar t + size_from (size_of_scalar t) n ms

-- `sizeof`.
abbrev pub size_of : List Member → ℕ
size_of ms = size_from 0 0 ms

-- `pckt_base`: the packet's size and its number.
abbrev pub header : List Member
header = one uint16 ∷ one uint8 ∷ []

-- `pckt_base` and `pckt_with_element`: the owner and the element of a shared entity.
abbrev pub element_header : List Member
element_header = header ++ one uint32 ∷ one uint32 ∷ []
