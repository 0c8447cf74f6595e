-- ===== src/Colossus/Messages/FftData.antt =====
-- cpp_17/network/colossus_messages.h: the class Fft_data. A field holds the word in memory, which
-- is in network order; an accessor reads it, and its mutator has the prefix set_.
use navtechradar.Base.{ℕ, ◌+◌, ◌*◌, List, ◌++◌, Option, some, ◌>>=◌}
use navtechradar.Base.Bytes.{le_bytes}
use navtechradar.NetConversion.{to_uint16_host, to_uint16_network, to_uint32_network}
use navtechradar.Colossus.Overlay.{word_at}

pub record FftData : Type 0 where
  pub data_offset : ℕ
  pub sweep : ℕ
  pub azi : ℕ
  pub seconds : ℕ
  pub split_seconds : ℕ

-- size(): the bytes of the fields.
abbrev pub size : ℕ
size = 3 * 2 + 2 * 4

-- From begin() to end(), as the fields stand in memory.
abbrev pub fields : FftData → List ℕ
fields d =
    le_bytes 2 d.data_offset
    ++ (le_bytes 2 d.sweep
        ++ (le_bytes 2 d.azi ++ (le_bytes 4 d.seconds ++ le_bytes 4 d.split_seconds)))

-- Message::view_as
unfoldable pub view : List ℕ → Option FftData
view bytes = do
  at_22 ← word_at 22 2 bytes
  at_24 ← word_at 24 2 bytes
  at_26 ← word_at 26 2 bytes
  at_28 ← word_at 28 4 bytes
  at_32 ← word_at 32 4 bytes
  some (record {
    data_offset = at_22;
    sweep = at_24;
    azi = at_26;
    seconds = at_28;
    split_seconds = at_32;
  })

unfoldable pub fft_data_offset : FftData → ℕ
fft_data_offset d = to_uint16_host d.data_offset

unfoldable pub set_fft_data_offset : ℕ → FftData → FftData
set_fft_data_offset val d = record d { data_offset = to_uint16_network val }

unfoldable pub sweep_counter : FftData → ℕ
sweep_counter d = to_uint16_host d.sweep

unfoldable pub set_sweep_counter : ℕ → FftData → FftData
set_sweep_counter val d = record d { sweep = to_uint16_network val }

unfoldable pub azimuth : FftData → ℕ
azimuth d = to_uint16_host d.azi

unfoldable pub set_azimuth : ℕ → FftData → FftData
set_azimuth val d = record d { azi = to_uint16_network val }

-- The word is returned as it stands in memory.
unfoldable pub ntp_seconds : FftData → ℕ
ntp_seconds d = d.seconds

unfoldable pub set_ntp_seconds : ℕ → FftData → FftData
set_ntp_seconds val d = record d { seconds = to_uint32_network val }

-- The word is returned as it stands in memory.
unfoldable pub ntp_split_seconds : FftData → ℕ
ntp_split_seconds d = d.split_seconds

unfoldable pub set_ntp_split_seconds : ℕ → FftData → FftData
set_ntp_split_seconds val d = record d { split_seconds = to_uint32_network val }
