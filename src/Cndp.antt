-- ===== src/Cndp.antt =====
-- cpp/cndpnetworkdatamessage.h: the messages of the older C++ edition. An identifier is its code, and
-- the machine is little-endian.
use navtechradar.Base.{ℕ, zero, suc, Bool, true, false, ◌&&◌, List, [], ◌∷◌, ◌++◌}
use navtechradar.Base.{◌==◌, leb}
use navtechradar.Base.Bytes.{le_bytes}
use navtechradar.NetConversion.{htonl}
pub mod Headers
pub mod Editions
pub mod Navigation
pub mod Client

abbrev pub max_payload_size : ℕ
max_payload_size = 1048576

abbrev pub protocol_min_version : ℕ
protocol_min_version = 1

abbrev pub protocol_version : ℕ
protocol_version = 1

abbrev pub signature_bytes : List ℕ
signature_bytes =
    0x00 ∷ 0x01 ∷ 0x03 ∷ 0x03 ∷ 0x07 ∷ 0x07 ∷ 0x0f ∷ 0x0f ∷ 0x1f ∷ 0x1f ∷ 0x3f ∷ 0x3f ∷ 0x7f ∷ 0x7f
    ∷ 0xfe ∷ 0xfe ∷ []

-- The signature has 16 bytes. The payload size is the word as it stands in memory.
pub record NetworkDataHeader : Type 0 where
  pub signature : List ℕ
  pub version : ℕ
  pub messageid : ℕ
  pub payloadsize : ℕ

unfoldable pub init : NetworkDataHeader → NetworkDataHeader
init h = record {
  signature = signature_bytes;
  version = protocol_version;
  messageid = 0;
  payloadsize = 0;
}

unfoldable pub set_message_id : ℕ → NetworkDataHeader → NetworkDataHeader
set_message_id message_type h = record h { messageid = message_type }

unfoldable pub set_payload_length : ℕ → NetworkDataHeader → NetworkDataHeader
set_payload_length length h = record h { payloadsize = htonl length }

unfoldable pub payload_length : NetworkDataHeader → ℕ
payload_length h = htonl h.payloadsize

-- The loop over the signature.
unfoldable pub matches : List ℕ → List ℕ → Bool
matches [] rest = true
matches (b ∷ bs) [] = false
matches (b ∷ bs) (c ∷ cs) = let rest = matches bs cs in b == c && rest

unfoldable pub header_is_valid : NetworkDataHeader → Bool
unfolding payload_length
header_is_valid h =
    matches signature_bytes h.signature
    && (leb protocol_min_version h.version && leb h.version protocol_version)
    && leb (payload_length h) max_payload_size

unfoldable pub to_data : NetworkDataHeader → List ℕ
to_data h = h.signature ++ (h.version ∷ h.messageid ∷ le_bytes 4 h.payloadsize)

pub record NetworkDataMessage : Type 0 where
  pub header : NetworkDataHeader
  pub payload : List ℕ

unfoldable pub message_id : NetworkDataMessage → ℕ
message_id m = m.header.messageid

unfoldable pub payload_size : NetworkDataMessage → ℕ
unfolding payload_length
payload_size m = payload_length m.header

unfoldable pub message_valid : NetworkDataMessage → Bool
unfolding header_is_valid
message_valid m = header_is_valid m.header

unfoldable pub message_data : NetworkDataMessage → List ℕ
unfolding to_data
message_data m = to_data m.header ++ m.payload
