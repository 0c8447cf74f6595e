-- ===== src/Colossus/Messages/Configuration.antt =====
-- cpp_17/network/colossus_messages.h: the class Configuration. A field holds the word in memory, which
-- is in network order; an accessor reads it, and its mutator has the prefix set_.
use navtechradar.Base.{ℕ, ◌+◌, ◌*◌, List, ◌++◌, Option, some, ◌>>=◌}
use navtechradar.Base.Bytes.{le_bytes}
use navtechradar.NetConversion.{
  to_uint16_host, to_uint16_network, from_uint32_network, float_to_uint32_network,
}
use navtechradar.Colossus.Overlay.{word_at}

pub record Configuration : Type 0 where
  pub azi_samples : ℕ
  pub bin_sz : ℕ
  pub range_bins : ℕ
  pub encoder_sz : ℕ
  pub rotation_spd : ℕ
  pub pckt_rate : ℕ
  pub gain : ℕ
  pub offset : ℕ

-- size(): the bytes of the fields.
abbrev pub size : ℕ
size = 6 * 2 + 2 * 4

-- From begin() to end(), as the fields stand in memory.
abbrev pub fields : Configuration → List ℕ
fields d =
    le_bytes 2 d.azi_samples
    ++ (le_bytes 2 d.bin_sz
        ++ (le_bytes 2 d.range_bins
            ++ (le_bytes 2 d.encoder_sz
                ++ (le_bytes 2 d.rotation_spd
                    ++ (le_bytes 2 d.pckt_rate ++ (le_bytes 4 d.gain ++ le_bytes 4 d.offset))))))

-- Message::view_as
unfoldable pub view : List ℕ → Option Configuration
view bytes = do
  at_22 ← word_at 22 2 bytes
  at_24 ← word_at 24 2 bytes
  at_26 ← word_at 26 2 bytes
  at_28 ← word_at 28 2 bytes
  at_30 ← word_at 30 2 bytes
  at_32 ← word_at 32 2 bytes
  at_34 ← word_at 34 4 bytes
  at_38 ← word_at 38 4 bytes
  some (record {
    azi_samples = at_22;
    bin_sz = at_24;
    range_bins = at_26;
    encoder_sz = at_28;
    rotation_spd = at_30;
    pckt_rate = at_32;
    gain = at_34;
    offset = at_38;
  })

unfoldable pub azimuth_samples : Configuration → ℕ
azimuth_samples d = to_uint16_host d.azi_samples

unfoldable pub set_azimuth_samples : ℕ → Configuration → Configuration
set_azimuth_samples val d = record d { azi_samples = to_uint16_network val }

unfoldable pub bin_size : Configuration → ℕ
bin_size d = to_uint16_host d.bin_sz

unfoldable pub set_bin_size : ℕ → Configuration → Configuration
set_bin_size val d = record d { bin_sz = to_uint16_network val }

unfoldable pub range_in_bins : Configuration → ℕ
range_in_bins d = to_uint16_host d.range_bins

unfoldable pub set_range_in_bins : ℕ → Configuration → Configuration
set_range_in_bins val d = record d { range_bins = to_uint16_network val }

unfoldable pub encoder_size : Configuration → ℕ
encoder_size d = to_uint16_host d.encoder_sz

unfoldable pub set_encoder_size : ℕ → Configuration → Configuration
set_encoder_size val d = record d { encoder_sz = to_uint16_network val }

unfoldable pub rotation_speed : Configuration → ℕ
rotation_speed d = to_uint16_host d.rotation_spd

unfoldable pub set_rotation_speed : ℕ → Configuration → Configuration
set_rotation_speed val d = record d { rotation_spd = to_uint16_network val }

unfoldable pub packet_rate : Configuration → ℕ
packet_rate d = to_uint16_host d.pckt_rate

unfoldable pub set_packet_rate : ℕ → Configuration → Configuration
set_packet_rate val d = record d { pckt_rate = to_uint16_network val }

unfoldable pub range_gain : Configuration → ℕ
range_gain d = from_uint32_network d.gain

unfoldable pub set_range_gain : ℕ → Configuration → Configuration
set_range_gain val d = record d { gain = float_to_uint32_network val }

unfoldable pub range_offset : Configuration → ℕ
range_offset d = from_uint32_network d.offset

unfoldable pub set_range_offset : ℕ → Configuration → Configuration
set_range_offset val d = record d { offset = float_to_uint32_network val }
