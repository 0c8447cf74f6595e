-- ===== src/NetConversion.antt =====
-- cpp_17/utility/net_conversion.cpp and .h: words between host and network order. A float or a
-- double is its bit pattern, which is what the unions of the source reinterpret. The host is
-- little-endian. An array or a vector of bytes is a list.
use navtechradar.Base.{
  ℕ, ◌+◌, ◌*◌, ◌/◌, ◌%◌, ◌^◌, ◌<◌, ◌≡◌, List, Option, none, some, ltb, if◌then◌else◌,
}
use navtechradar.Base.{length, take}
use navtechradar.Base.Bytes.{byte_swap, le_bytes, of_le}
pub mod RoundTrip

-- htons and ntohs are the same swap, and so are htonl and ntohl.
abbrev pub htons : ℕ → ℕ
htons v = byte_swap 2 v

abbrev pub htonl : ℕ → ℕ
htonl v = byte_swap 4 v

unfoldable pub to_uint16_network : ℕ → ℕ
to_uint16_network host_value = htons host_value

unfoldable pub to_uint16_host : ℕ → ℕ
to_uint16_host network_value = htons network_value

-- The overloads on float.
unfoldable pub float_to_uint32_host : ℕ → ℕ
float_to_uint32_host host_value = host_value

unfoldable pub float_to_uint32_network : ℕ → ℕ
float_to_uint32_network host_value = htonl host_value

unfoldable pub from_uint32_host : ℕ → ℕ
from_uint32_host host_value = host_value

unfoldable pub from_uint32_network : ℕ → ℕ
from_uint32_network network_value = htonl network_value

unfoldable pub to_uint32_host : ℕ → ℕ
to_uint32_host network_value = htonl network_value

unfoldable pub to_uint32_network : ℕ → ℕ
to_uint32_network host_value = htonl host_value

-- `std::memcpy` of a word into an array of its size, and back.
unfoldable pub to_byte_array_4 : ℕ → List ℕ
to_byte_array_4 value = le_bytes 4 value

unfoldable pub from_byte_array_4 : List ℕ → ℕ
from_byte_array_4 value = of_le value

unfoldable pub to_byte_array_2 : ℕ → List ℕ
to_byte_array_2 value = le_bytes 2 value

unfoldable pub from_byte_array_2 : List ℕ → ℕ
from_byte_array_2 value = of_le value

-- The two 32-bit halves of a double, the low one first, as the union's `as_array` has them.
abbrev pub low_half : ℕ → ℕ
low_half v = v % 2 ^ 32

abbrev pub high_half : ℕ → ℕ
high_half v = v / 2 ^ 32

unfoldable pub to_uint64_host : ℕ → ℕ
to_uint64_host host_value = host_value

unfoldable pub to_uint64_network : ℕ → ℕ
unfolding to_uint32_network
to_uint64_network v = to_uint32_network (low_half v) + 2 ^ 32 * to_uint32_network (high_half v)

unfoldable pub from_uint64_host : ℕ → ℕ
from_uint64_host host_value = host_value

unfoldable pub from_uint64_network : ℕ → ℕ
unfolding to_uint32_host
from_uint64_network v = to_uint32_host (low_half v) + 2 ^ 32 * to_uint32_host (high_half v)

-- The templates, at an unsigned integer type of `size` bytes.
unfoldable pub to_vector : ℕ → ℕ → List ℕ
to_vector size value = le_bytes size value

unfoldable pub from_vector_to : ℕ → List ℕ → Option ℕ
from_vector_to size vec = if ltb (length vec) size then none else some (of_le (take size vec))
