-- ===== src/Colossus/Messages/NavigationConfig.antt =====
-- cpp_17/network/colossus_messages.h: the class Navigation_config. A field holds the word in memory, which
-- is in network order; an accessor reads it, and its mutator has the prefix set_.
use navtechradar.Base.{ℕ, ◌+◌, List, ◌++◌, Option, some, ◌>>=◌}
use navtechradar.Base.Bytes.{le_bytes}
use navtechradar.NetConversion.{
  to_uint16_host, to_uint16_network, to_uint32_host, to_uint32_network, from_uint32_network,
  float_to_uint32_network,
}
use navtechradar.Colossus.Overlay.{word_at}

pub record NavigationConfig : Type 0 where
  pub operating_bins : ℕ
  pub min_bin : ℕ
  pub threshold : ℕ
  pub max_peaks : ℕ

-- size(): the bytes of the fields.
abbrev pub size : ℕ
size = 2 + 2 + 4 + 4

-- From begin() to end(), as the fields stand in memory.
abbrev pub fields : NavigationConfig → List ℕ
fields d =
    le_bytes 2 d.operating_bins
    ++ (le_bytes 2 d.min_bin ++ (le_bytes 4 d.threshold ++ le_bytes 4 d.max_peaks))

-- Message::view_as
unfoldable pub view : List ℕ → Option NavigationConfig
view bytes = do
  at_22 ← word_at 22 2 bytes
  at_24 ← word_at 24 2 bytes
  at_26 ← word_at 26 4 bytes
  at_30 ← word_at 30 4 bytes
  some (record { operating_bins = at_22; min_bin = at_24; threshold = at_26; max_peaks = at_30 })

-- The product and the quotient of two floats, on their bit patterns. 10.0F is a constant of the
-- source, whose pattern is 0x41200000.
pub record FloatOps : Type 0 where
  pub times : ℕ → ℕ → ℕ
  pub over : ℕ → ℕ → ℕ

abbrev pub ten : ℕ
ten = 0x41200000

unfoldable pub bins_to_operate_on : NavigationConfig → ℕ
bins_to_operate_on d = to_uint16_host d.operating_bins

unfoldable pub set_bins_to_operate_on : ℕ → NavigationConfig → NavigationConfig
set_bins_to_operate_on val d = record d { operating_bins = to_uint16_network val }

unfoldable pub min_bin_to_operate_on : NavigationConfig → ℕ
min_bin_to_operate_on d = to_uint16_host d.min_bin

unfoldable pub set_min_bin_to_operate_on : ℕ → NavigationConfig → NavigationConfig
set_min_bin_to_operate_on val d = record d { min_bin = to_uint16_network val }

unfoldable pub navigation_threshold : FloatOps → NavigationConfig → ℕ
navigation_threshold ops d = ops.over (from_uint32_network d.threshold) ten

unfoldable pub set_navigation_threshold : FloatOps → ℕ → NavigationConfig → NavigationConfig
set_navigation_threshold ops level d = record d {
  threshold = float_to_uint32_network (ops.times level ten);
}

unfoldable pub max_peaks_per_azimuth : NavigationConfig → ℕ
max_peaks_per_azimuth d = to_uint32_host d.max_peaks

unfoldable pub set_max_peaks_per_azimuth : ℕ → NavigationConfig → NavigationConfig
set_max_peaks_per_azimuth val d = record d { max_peaks = to_uint32_network val }
