-- ===== src/Colossus/Messages/NavigationData.antt =====
-- cpp_17/network/colossus_messages.h: the class Navigation_data. A field holds the word in memory, which
-- is in network order; an accessor reads it, and its mutator has the prefix set_.
use navtechradar.Base.{ℕ, ◌+◌, ◌*◌, List, ◌++◌, Option, some, ◌>>=◌}
use navtechradar.Base.Bytes.{le_bytes}
use navtechradar.NetConversion.{
  to_uint16_host, to_uint16_network, to_uint32_host, to_uint32_network,
}
use navtechradar.Colossus.Overlay.{word_at}

pub record NavigationData : Type 0 where
  pub net_azimuth : ℕ
  pub seconds : ℕ
  pub split_seconds : ℕ

-- size(): the bytes of the fields.
abbrev pub size : ℕ
size = 2 + 2 * 4

-- From begin() to end(), as the fields stand in memory.
abbrev pub fields : NavigationData → List ℕ
fields d = le_bytes 2 d.net_azimuth ++ (le_bytes 4 d.seconds ++ le_bytes 4 d.split_seconds)

-- Message::view_as
unfoldable pub view : List ℕ → Option NavigationData
view bytes = do
  at_22 ← word_at 22 2 bytes
  at_24 ← word_at 24 4 bytes
  at_28 ← word_at 28 4 bytes
  some (record { net_azimuth = at_22; seconds = at_24; split_seconds = at_28 })

unfoldable pub azimuth : NavigationData → ℕ
azimuth d = to_uint16_host d.net_azimuth

unfoldable pub set_azimuth : ℕ → NavigationData → NavigationData
set_azimuth val d = record d { net_azimuth = to_uint16_network val }

unfoldable pub ntp_seconds : NavigationData → ℕ
ntp_seconds d = to_uint32_host d.seconds

unfoldable pub set_ntp_seconds : ℕ → NavigationData → NavigationData
set_ntp_seconds val d = record d { seconds = to_uint32_network val }

unfoldable pub ntp_split_seconds : NavigationData → ℕ
ntp_split_seconds d = to_uint32_host d.split_seconds

unfoldable pub set_ntp_split_seconds : ℕ → NavigationData → NavigationData
set_ntp_split_seconds val d = record d { split_seconds = to_uint32_network val }
