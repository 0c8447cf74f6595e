-- ===== src/SectorBlanking.antt =====
-- cpp_17/navigation/sector_blanking.h and .cpp: the class Blanking_sector_list. An angle is the bit
-- pattern of its float. Angle's constructor is a parameter, since it is floating point.
use navtechradar.Base.{
  ℕ, zero, suc, ◌+◌, ◌-◌, ◌*◌, ◌/◌, ◌%◌, ◌^◌, Bool, true, false, not, List, [], ◌∷◌, ◌++◌, Option,
  none, some, ◌>>=◌,
}
use navtechradar.Base.{◌==◌, leb, ltb, length, take, drop, split_at?, if◌then◌else◌}
use navtechradar.NetConversion.{
  to_byte_array_4, float_to_uint32_network, from_byte_array_4, from_uint32_network,
}
pub mod RoundTrip

pub record Sector : Type 0 where
  pub start : ℕ
  pub finish : ℕ

abbrev pub max_sectors : ℕ
max_sectors = 8

-- The constructor from a list.
unfoldable pub of_list : List Sector → List Sector
of_list init = take (if ltb (length init) max_sectors then length init else max_sectors) init

-- add(const Sector&): the list after it, and what it returns.
unfoldable pub add : Sector → List Sector → List Sector × Bool
add sector sectors =
    if leb max_sectors (length sectors) then (sectors, false) else (sectors ++ (sector ∷ []), false)

-- add(Sector&&)
unfoldable pub add_moved : Sector → List Sector → List Sector × Bool
add_moved sector sectors =
    if leb max_sectors (length sectors) then (sectors, false) else (sectors ++ (sector ∷ []), true)

abbrev angle_bytes : ℕ → List ℕ
angle_bytes angle = to_byte_array_4 (float_to_uint32_network angle)

unfoldable pub sectors_bytes : List Sector → List ℕ
sectors_bytes [] = []
sectors_bytes (s ∷ sectors) = angle_bytes s.start ++ (angle_bytes s.finish ++ sectors_bytes sectors)

unfoldable pub to_vector : List Sector → List ℕ
to_vector sectors = (length sectors % 256) ∷ sectors_bytes sectors

-- What from_vector() comes to: new sectors, an exception with its message, or undefined behaviour.
pub data Parsed : Type 0 where
  parsed : List Sector → Parsed
  not_enough_bytes : Parsed
  numbers_differ : Parsed
  undefined : Parsed

module _ (angle : ℕ → ℕ) where
  abbrev angle_of : List ℕ → ℕ
  angle_of bytes = angle (from_uint32_network (from_byte_array_4 bytes))

  -- The loop over the sectors, from the second byte of the buffer on.
  unfoldable pub read_sectors : ℕ → List ℕ → List Sector → Option (List Sector)
  read_sectors zero bytes sectors = some sectors
  read_sectors (suc n) bytes sectors = do
    (start_bytes, after_start) ← split_at? 4 bytes
    (finish_bytes, rest) ← split_at? 4 after_start
    read_sectors n rest
        (sectors ++ (record { start = angle_of start_bytes; finish = angle_of finish_bytes } ∷ []))

  abbrev completed : Option (List Sector) → Parsed
  completed none = undefined
  completed (some sectors) = parsed sectors

  -- size() - 1 wraps around for an empty buffer.
  abbrev num_sectors_of : List ℕ → ℕ
  num_sectors_of buffer = ((length buffer + (2 ^ 64 - 1)) % 2 ^ 64) / 8

  unfoldable pub from_vector : List ℕ → List Sector → Parsed
  from_vector [] sectors = if not (num_sectors_of [] % 4 == 0) then not_enough_bytes else undefined
  from_vector (b ∷ bytes) sectors =
      let num_sectors = num_sectors_of (b ∷ bytes) in
      if not (num_sectors % 4 == 0)
      then not_enough_bytes
      else if not (b == num_sectors)
      then numbers_differ
      else completed (read_sectors num_sectors bytes sectors)
