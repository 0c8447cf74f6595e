-- ===== src/Colossus/Message.antt =====
-- cpp_17/network/colossus_network_message.h and .cpp: the class Message, a buffer of bytes that
-- starts with the TCP message header. `none` is undefined behaviour: an access outside the buffer.
-- Copies and moves of an argument give the same message, so each pair of overloads is one function.
use navtechradar.Base.{ℕ, zero, suc, ◌+◌, ◌-◌, ◌%◌, ◌^◌, ◌≡◌, arith, Bool, true, false, not, ◌&&◌}
use navtechradar.Base.{
  List, [], ◌∷◌, ◌++◌, Option, none, some, ◌>>=◌, ltb, leb, ◌==◌, if◌then◌else◌,
}
use navtechradar.Base.{length, take, replicate, get_elem?}
use navtechradar.Base.Bytes.{le_bytes, of_le, be_bytes, read_bytes, write_bytes}
use navtechradar.NetConversion.{htonl}
use navtechradar.IpAddress.{IpAddress}
use navtechradar.Colossus.Kind.{Kind, code}
pub mod Wire
pub mod Valid
pub mod Build

-- Signature::signature
abbrev pub signature : List ℕ
signature =
    0x00 ∷ 0x01 ∷ 0x03 ∷ 0x03 ∷ 0x07 ∷ 0x07 ∷ 0x0F ∷ 0x0F ∷ 0x1F ∷ 0x1F ∷ 0x3F ∷ 0x3F ∷ 0x7F ∷ 0x7F
    ∷ 0xFE ∷ 0xFE ∷ []

-- `std::equal(first, last, other)`: `other` is read only as far as the two agree.
unfoldable pub equal : List ℕ → List ℕ → Option Bool
equal [] other = some true
equal (b ∷ bs) [] = none
equal (b ∷ bs) (c ∷ cs) = if b == c then equal bs cs else some false

-- operator==(Signature, vector) and operator!=, which walk the vector.
unfoldable pub signature_eq : List ℕ → Option Bool
signature_eq rhs = equal rhs signature

unfoldable pub signature_ne : List ℕ → Option Bool
signature_ne rhs = do same ← signature_eq rhs; some (not same)

abbrev pub largest_valid_message : ℕ
largest_valid_message = 255

abbrev pub largest_payload : ℕ
largest_payload = 1000000

abbrev pub version : ℕ
version = 1

-- sizeof(Header), and where its fields stand.
abbrev pub header_size : ℕ
header_size = 22

abbrev version_at : ℕ
version_at = 16

abbrev id_at : ℕ
id_at = 17

abbrev payload_size_at : ℕ
payload_size_at = 18

pub record Message : Type 0 where
  pub address : IpAddress
  pub identity : ℕ
  pub has_protobuf : Bool
  pub bytes : List ℕ

-- std::vector::resize
abbrev pub resize : ℕ → List ℕ → List ℕ
resize n xs = take n xs ++ replicate (n - length xs) 0

-- A write through the overlaid header or through an iterator into the buffer.
abbrev pub write_at : ℕ → List ℕ → Message → Option Message
write_at off bs m = do buffer ← write_bytes off bs m.bytes; some (record m { bytes = buffer })

unfoldable pub add_signature : Message → Option Message
add_signature m = write_at 0 signature m

unfoldable pub add_version : ℕ → Message → Option Message
add_version v m = write_at version_at (v ∷ []) m

unfoldable pub initialize : Message → Option Message
unfolding add_signature add_version
initialize m = do
  signed ← add_signature (record m { bytes = resize header_size m.bytes })
  add_version version signed

abbrev unset : IpAddress → ℕ → Message
unset ip_addr id = record { address = ip_addr; identity = id; has_protobuf = false; bytes = [] }

-- Message(ip_addr, id). The constructor with no arguments leaves both at zero.
unfoldable pub new : IpAddress → ℕ → Option Message
unfolding initialize
new ip_addr id = initialize (unset ip_addr id)

unfoldable pub replace : List ℕ → Message → Message
replace src m = record m { bytes = src }

-- Message(ip_addr, id, message)
unfoldable pub from_bytes : IpAddress → ℕ → List ℕ → Message
unfolding replace
from_bytes ip_addr id message = replace message (unset ip_addr id)

unfoldable pub set_id : ℕ → Message → Message
set_id new_id m = record m { identity = new_id }

unfoldable pub set_ip_address : IpAddress → Message → Message
set_ip_address ip_addr m = record m { address = ip_addr }

-- type(): the code, since any byte may stand there.
unfoldable pub kind : Message → Option ℕ
kind m = get_elem? m.bytes id_at

unfoldable pub set_kind : Kind → Message → Option Message
set_kind k m = write_at id_at (code k ∷ []) m

abbrev is_empty : List ℕ → Bool
is_empty [] = true
is_empty (b ∷ bs) = false

unfoldable pub payload_size : Message → Option ℕ
payload_size m =
    if is_empty m.bytes
    then some 0
    else do field ← read_bytes payload_size_at 4 m.bytes; some (htonl (of_le field))

unfoldable pub is_signature_valid : Message → Option Bool
unfolding equal
is_signature_valid m = equal signature m.bytes

unfoldable pub is_version_valid : Message → Option Bool
is_version_valid m = do v ← get_elem? m.bytes version_at; some (v == version)

-- `a && b`, where `b` is evaluated only if `a` holds.
abbrev and_then : Option Bool → Option Bool → Option Bool
and_then none b = none
and_then (some false) b = some false
and_then (some true) b = b

unfoldable pub is_valid : Message → Option Bool
unfolding is_signature_valid is_version_valid kind payload_size
is_valid m =
    if is_empty m.bytes
    then some false
    else and_then (is_signature_valid m) (
        and_then (is_version_valid m) (
          and_then (do t ← kind m; some (leb t largest_valid_message))
            (do n ← payload_size m; some (ltb n largest_payload))))

-- htonl takes a uint32_t, so the size is cut to 32 bits. Below 22 bytes the write itself is outside.
unfoldable pub update_payload_size : Message → Option Message
update_payload_size m =
    write_at payload_size_at (le_bytes 4 (htonl ((length m.bytes - header_size) % 2 ^ 32))) m

-- The message after relinquish() has lost its bytes.
unfoldable pub relinquish : Message → Option (List ℕ × Message)
unfolding add_signature
relinquish m = do signed ← add_signature m; some (signed.bytes, record signed { bytes = [] })

-- append(protocol_buffer)
unfoldable pub append : List ℕ → Message → Option Message
append protocol_buffer m = do
  sized ← update_payload_size (record m { bytes = m.bytes ++ protocol_buffer })
  some (record sized { has_protobuf = true })

-- std::copy_backward(payload_begin(), payload_begin() + payload_size(), end(data))
unfoldable pub move_payload_back : Message → Option Message
move_payload_back m = do
  n ← payload_size m
  payload ← read_bytes header_size n m.bytes
  write_at (length m.bytes - n) payload m

-- The template append(header): `header` is what begin() and end() of the Colossus message span.
unfoldable pub append_header : List ℕ → Message → Option Message
append_header header m = do
  let grown = record m { bytes = resize (length m.bytes + length header) m.bytes }
  moved ← if m.has_protobuf then move_payload_back grown else some grown
  filled ← write_at header_size header moved
  update_payload_size filled
