-- ===== src/NetConversion/RoundTrip.antt =====
-- What the conversions of net_conversion.cpp keep, and what stands in memory after them.
use mathlib.Core.Path.{ap₂}
use navtechradar.Base.{
  length-append, ℕ, zero, suc, ◌+◌, ◌*◌, ◌/◌, ◌%◌, ◌^◌, ◌<◌, ◌≤◌, ◌≡◌, refl, ap, ◌∙◌, List, ◌∷◌,
  ◌++◌, none, some, arith,
}
use navtechradar.Base.{length, take}
use navtechradar.Base.Bytes.{
  byte_swap, le_bytes, of_le, be_bytes, byte_swap-byte_swap, byte_swap-lt, le_bytes-byte_swap,
  of_le-le_bytes, length-le_bytes,
}
use navtechradar.NetConversion.{
  to_uint16_network, to_uint16_host, to_uint32_network, to_uint32_host, float_to_uint32_network,
  from_uint32_network, to_byte_array_4, to_byte_array_2, to_uint64_network, from_uint64_network,
  to_vector, from_vector_to, low_half, high_half,
}

-- A 16-bit word, a 32-bit word and a float below 2^16 and 2^32 are what they were after a conversion
-- to network order and back, and the bytes in memory between are the big-endian ones.
pub network_round_trip :
    (v w : ℕ)
    → v < 2 ^ 16
    → w < 2 ^ 32
    → (to_uint16_host (to_uint16_network v) ≡ v)
      × (to_byte_array_2 (to_uint16_network v) ≡ be_bytes 2 v)
      × (to_uint32_host (to_uint32_network w) ≡ w)
      × (from_uint32_network (float_to_uint32_network w) ≡ w)
      × (to_byte_array_4 (to_uint32_network w) ≡ be_bytes 4 w)
unfolding to_uint16_host to_uint16_network to_byte_array_2 to_uint32_host to_uint32_network
    from_uint32_network float_to_uint32_network to_byte_array_4
network_round_trip v w hv hw = (
  byte_swap-byte_swap 2 v hv,
  le_bytes-byte_swap 2 v,
  byte_swap-byte_swap 4 w hw,
  byte_swap-byte_swap 4 w hw,
  le_bytes-byte_swap 4 w,
)

halves : (a b : ℕ) → a < 2 ^ 32 → (low_half (a + 2 ^ 32 * b) ≡ a) × (high_half (a + 2 ^ 32 * b) ≡ b)
halves a b h = omega arith

le_bytes_halves :
    (a b : ℕ) → a < 2 ^ 32 → le_bytes 8 (a + 2 ^ 32 * b) ≡ le_bytes 4 a ++ le_bytes 4 b
le_bytes_halves a b h =
    let byte_0 : (a + 2 ^ 32 * b) % 256 ≡ a % 256 = omega arith in
    let byte_1 : (a + 2 ^ 32 * b) / 256 % 256 ≡ a / 256 % 256 = omega arith in
    let byte_2 : (a + 2 ^ 32 * b) / 256 / 256 % 256 ≡ a / 256 / 256 % 256 = omega arith in
    let byte_3 : (a + 2 ^ 32 * b) / 256 / 256 / 256 % 256 ≡ a / 256 / 256 / 256 % 256 =
      omega arith in
    let byte_4 : (a + 2 ^ 32 * b) / 256 / 256 / 256 / 256 % 256 ≡ b % 256 = omega arith in
    let byte_5 : (a + 2 ^ 32 * b) / 256 / 256 / 256 / 256 / 256 % 256 ≡ b / 256 % 256 =
      omega arith in
    let byte_6 : (a + 2 ^ 32 * b) / 256 / 256 / 256 / 256 / 256 / 256 % 256 ≡ b / 256 / 256 % 256 =
      omega arith in
    let byte_7 : (a + 2 ^ 32 * b) / 256 / 256 / 256 / 256 / 256 / 256 / 256 % 256
        ≡ b / 256 / 256 / 256 % 256 =
      omega arith in
    cc

-- A 64-bit word is what it was after a conversion to network order and back. Each half is swapped by
-- itself, so that the bytes between are the big-endian low half before the big-endian high half.
pub uint64_network_round_trip :
    (v : ℕ)
    → v < 2 ^ 64
    → (from_uint64_network (to_uint64_network v) ≡ v)
      × (to_vector 8 (to_uint64_network v) ≡ be_bytes 4 (low_half v) ++ be_bytes 4 (high_half v))
unfolding from_uint64_network to_uint64_network to_vector
uint64_network_round_trip v h = (
  rw ((halves lo hi (byte_swap-lt 4 _)).0, (halves lo hi (byte_swap-lt 4 _)).1)
      (rw
        (
          byte_swap-byte_swap 4 (low_half v) (omega arith),
          byte_swap-byte_swap 4 (high_half v) (omega arith),
        )
        (omega arith)),
  le_bytes_halves lo hi (byte_swap-lt 4 _)
      ∙ ap₂ ◌++◌ (le_bytes-byte_swap 4 (low_half v)) (le_bytes-byte_swap 4 (high_half v)),
)
  where
    lo : ℕ
    lo = byte_swap 4 (low_half v)

    hi : ℕ
    hi = byte_swap 4 (high_half v)

vector_long : (size v : ℕ) (more : List ℕ) → size ≤ length (le_bytes size v ++ more)
vector_long size v more =
    omega (arith, length-append (le_bytes size v) more, length-le_bytes size v)

take-le_bytes : (size v : ℕ) (more : List ℕ) → take size (le_bytes size v ++ more) ≡ le_bytes size v
take-le_bytes zero v more = refl
take-le_bytes (suc size) v more = ap (◌∷◌ (v % 256)) (take-le_bytes size (v / 256) more)

-- A word that was copied into a vector is read back from it, whatever bytes follow; a vector that is
-- too short gives nothing.
pub from_vector_to-to_vector :
    (size v : ℕ) (more vec : List ℕ)
    → v < 256 ^ size
    → length vec < size
    → (from_vector_to size (to_vector size v ++ more) ≡ some v) × (from_vector_to size vec ≡ none)
unfolding from_vector_to to_vector
from_vector_to-to_vector size v more vec h short = (
  ground (
    arith,
    vector_long size v more,
    ap of_le (take-le_bytes size v more),
    of_le-le_bytes size v h,
  ),
  ground arith,
)
