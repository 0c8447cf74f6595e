-- ===== src/Colossus/Overlay.antt =====
-- cpp_17/network/colossus_message_base.h: a Colossus message is laid over the bytes of a Message.
-- The fields of the message follow the TCP message header, and its protocol buffer follows these.
use navtechradar.Base.{ℕ, ◌+◌, ◌-◌, List, Option, none, some, ◌>>=◌, ltb, if◌then◌else◌}
use navtechradar.Base.Bytes.{of_le, read_bytes}
use navtechradar.NetConversion.{htonl}
use navtechradar.Colossus.Message.{header_size}

-- A field of `size` bytes of the object that begins at the start of the buffer.
abbrev pub word_at : ℕ → ℕ → List ℕ → Option ℕ
word_at off size bytes = do field ← read_bytes off size bytes; some (of_le field)

-- Header_only::payload_size
unfoldable pub overlay_payload_size : List ℕ → Option ℕ
overlay_payload_size bytes = do n ← word_at 18 4 bytes; some (htonl n)

-- Header_only::begin, end and payload_end, as positions in the buffer. `fields` is header_size().
abbrev pub fields_begin : ℕ
fields_begin = header_size

abbrev pub fields_end : ℕ → ℕ
fields_end fields = fields_begin + fields

-- The bytes from protobuf_begin() to protobuf_end(). A range that ends before it begins is
-- undefined, as is one that leaves the buffer.
unfoldable pub protobuf : ℕ → List ℕ → Option (List ℕ)
protobuf fields bytes = do
  n ← overlay_payload_size bytes
  if ltb n fields then none else read_bytes (fields_end fields) (n - fields) bytes
