-- ===== src/IpAddress.antt =====
-- cpp_17/utility/ip_address.h and .cpp: the class IP_address. A text is the list of its characters'
-- codes. The machine is little-endian, so byte 0 of the union is the lowest of the word.
use navtechradar.Base.{
  ℕ, zero, suc, ◌+◌, ◌-◌, ◌*◌, ◌/◌, ◌%◌, ◌^◌, Bool, true, false, not, ◌&&◌, ◌||◌, List, [], ◌∷◌,
  ◌++◌, Option, none, some, ◌>>=◌,
}
use navtechradar.Base.{leb, ltb, ◌==◌, if◌then◌else◌}
use navtechradar.Base.Bytes.{byte_swap}
use Prim.Native.Nat.{bit_and, bit_or}
pub mod Octets
pub mod RoundTrip

pub record IpAddress : Type 0 where
  pub word : ℕ

pub data Endian : Type 0 where
  host network : Endian

-- IP_address(raw_addr, endian)
unfoldable pub of_word : ℕ → Endian → IpAddress
of_word raw_addr host = record { word = raw_addr }
of_word raw_addr network = record { word = byte_swap 4 raw_addr }

unfoldable pub to_host_endian : IpAddress → ℕ
to_host_endian a = a.word

unfoldable pub to_network_endian : IpAddress → ℕ
to_network_endian a = byte_swap 4 a.word

unfoldable pub value_as : Endian → IpAddress → ℕ
unfolding to_host_endian to_network_endian
value_as host a = to_host_endian a
value_as network a = to_network_endian a

-- operator~, operator& and operator|
unfoldable pub complement : IpAddress → IpAddress
complement a = record { word = 2 ^ 32 - 1 - a.word }

unfoldable pub mask : IpAddress → IpAddress → IpAddress
mask a b = record { word = bit_and a.word b.word }

unfoldable pub join : IpAddress → IpAddress → IpAddress
join a b = record { word = bit_or a.word b.word }

unfoldable pub equals : IpAddress → IpAddress → Bool
equals a b = a.word == b.word

unfoldable pub differs : IpAddress → IpAddress → Bool
unfolding equals
differs a b = not (equals a b)

abbrev pub dot : ℕ
dot = b'.'

-- `os << static_cast<int>(b)` for a byte.
unfoldable pub decimal : ℕ → List ℕ
decimal b =
    if ltb b 10
    then (b'0' + b) ∷ []
    else if ltb b 100
    then (b'0' + b / 10) ∷ (b'0' + b % 10) ∷ []
    else (b'0' + b / 100) ∷ (b'0' + b / 10 % 10) ∷ (b'0' + b % 10) ∷ []

abbrev pub byte_of : ℕ → IpAddress → ℕ
byte_of i a = a.word / 256 ^ i % 256

unfoldable pub to_string : IpAddress → List ℕ
to_string a =
    decimal (byte_of 3 a)
    ++ (dot
        ∷ (decimal (byte_of 2 a)
            ++ (dot ∷ (decimal (byte_of 1 a) ++ (dot ∷ decimal (byte_of 0 a))))))

abbrev pub is_between : ℕ → ℕ → ℕ → Bool
is_between low high c = leb low c && leb c high

-- 25[0-5]|2[0-4][0-9]|[01]?[0-9][0-9]?
unfoldable pub is_octet : List ℕ → Bool
is_octet (a ∷ []) = is_between b'0' b'9' a
is_octet (a ∷ b ∷ []) = is_between b'0' b'9' a && is_between b'0' b'9' b
is_octet (a ∷ b ∷ c ∷ []) =
    (a == b'2' && b == b'5' && is_between b'0' b'5' c)
    || (a == b'2' && is_between b'0' b'4' b && is_between b'0' b'9' c)
    || (is_between b'0' b'1' a && is_between b'0' b'9' b && is_between b'0' b'9' c)
is_octet part = false

-- getline(stream, str, '.') on what is left of the stream: the line, and the rest behind the dot.
unfoldable pub line_of : List ℕ → List ℕ × List ℕ
line_of [] = ([], [])
line_of (c ∷ cs) = let (line, rest) = line_of cs in if c == dot then ([], cs) else (c ∷ line, rest)

unfoldable pub getline : List ℕ → Option (List ℕ × List ℕ)
getline [] = none
getline (c ∷ cs) = some (line_of (c ∷ cs))

-- A prefix that the expression matches in full: `n` octets with a dot behind each, and one octet. No
-- octet has a dot in it, so a match cuts the text at its dots.
unfoldable pub has_octets : ℕ → List ℕ → Bool
has_octets zero text = is_octet text
has_octets (suc n) text = let (line, rest) = line_of text in is_octet line && has_octets n rest

-- validate(): whether it returns.
unfoldable pub validate : List ℕ → Bool
validate ip_addr_str = has_octets 3 ip_addr_str

-- The digits up to the first that the base does not have.
unfoldable pub digits_value : ℕ → ℕ → List ℕ → ℕ
digits_value base acc [] = acc
digits_value base acc (c ∷ cs) =
    let rest = digits_value base (acc * base + (c - b'0')) cs in
    if ltb (c - b'0') base then rest else acc

-- stoi(str, nullptr, 0) on digits: a leading 0 makes them octal. No digits are an exception.
unfoldable pub stoi : List ℕ → Option ℕ
stoi [] = none
stoi (c ∷ cs) = some (digits_value (if c == b'0' then 8 else 10) 0 (c ∷ cs))

unfoldable pub set_byte : ℕ → ℕ → ℕ → ℕ
set_byte i value word =
    word % 256 ^ i + 256 ^ i * (value % 256) + 256 ^ suc i * (word / 256 ^ suc i)

-- The loop over the bytes from `n` - 1 down to 0.
unfoldable pub parse_bytes : ℕ → List ℕ → ℕ → Option ℕ
parse_bytes zero stream word = some word
parse_bytes (suc i) stream word = elim (getline stream) [
  | none ↦ parse_bytes i stream word
  | some (str, rest) ↦ stoi str >>= λ value. parse_bytes i rest (set_byte i value word)
]

-- operator=(ip_addr_str); none is an exception, of validate() or of stoi.
unfoldable pub assign : List ℕ → IpAddress → Option IpAddress
assign ip_addr_str a =
    if validate ip_addr_str
    then (parse_bytes 4 ip_addr_str a.word >>= λ word. some (record { word = word }))
    else none

-- IP_address(ip_addr_str)
unfoldable pub of_string : List ℕ → Option IpAddress
unfolding assign
of_string ip_addr_str = assign ip_addr_str (record { word = 0 })
