-- ===== src/Witnesses/Radar.antt =====
-- Runs of the theorems on the radar client and the list of sectors.
use navtechradar.Base.{
  ℕ, ◌*◌, ◌/◌, ◌%◌, ◌^◌, ◌<◌, ◌≡◌, refl, arith, true, false, List, [], ◌∷◌, ◌++◌,
}
use navtechradar.Base.{◌==◌, length, if◌then◌else◌}
use navtechradar.SectorBlanking.{Sector, to_vector, from_vector, parsed, not_enough_bytes}
use navtechradar.SectorBlanking.RoundTrip.{from_vector-to_vector}
use navtechradar.Colossus.Messages.FftData
use navtechradar.Colossus.Messages.NavigationData
use navtechradar.Colossus.Messages.Views.{IsFftData, IsNavigationData}
use navtechradar.RadarClient.{Outside, Radar, NavigationSettings}
use navtechradar.Witnesses.Network.{reader}

abbrev a_sector : Sector
a_sector = record { start = 0x41200000; finish = 0x41A00000 }

abbrev four_sectors : List Sector
four_sectors = a_sector ∷ a_sector ∷ a_sector ∷ a_sector ∷ []

abbrev as_given : ℕ → ℕ
as_given angle = angle

from_vector-to_vector_example :
    from_vector as_given (to_vector four_sectors) []
    ≡ (if length four_sectors % 4 == 0 then parsed ([] ++ four_sectors) else not_enough_bytes)
from_vector-to_vector_example =
    from_vector-to_vector as_given four_sectors [] (omega arith)
      (normal, (normal, (normal, (normal, tt))))
  where
    normal :
        ((0x41200000 < 2 ^ 32) × (as_given 0x41200000 ≡ 0x41200000))
        × ((0x41A00000 < 2 ^ 32) × (as_given 0x41A00000 ≡ 0x41A00000))
    normal = ((omega arith, refl), (omega arith, refl))

-- Numbers in place of floats.
abbrev pub on_numbers : Outside
on_numbers = record {
  ops = record { times = λ a b. a * b; over = λ a b. a / b };
  angle = λ azimuth encoder_size. azimuth * 360 / encoder_size;
  multiplied = λ value. value * 1000000;
  divided = λ word. word / 1000000;
  bins = λ metres size. metres / size;
  resolution = λ body. length body;
}

abbrev pub radar : Radar
radar = record {
  radar_client = reader;
  running = true;
  send_radar_data = false;
  callbacks = record {
    raw_fft_data = true;
    fft_data = true;
    navigation_data = true;
    configuration_data = false;
    raw_configuration_data = false;
    health_data = false;
    navigation_config = false;
  };
  encoder_size = 5600;
  bin_size = 1;
  reports = [];
}

abbrev settings : NavigationSettings
settings = record {
  bins_to_operate_on = 5;
  min_bin = 50;
  navigation_threshold = 2;
  max_peaks_per_azimuth = 10;
}

abbrev pub sweep : NavigationData.NavigationData
sweep = record { net_azimuth = 0x0102; seconds = 7; split_seconds = 9 }

pub sweep-IsNavigationData : IsNavigationData sweep
sweep-IsNavigationData = omega arith

abbrev pub two_peaks : List (ℕ × ℕ)
two_peaks = (5000000, 700) ∷ (9000000, 800) ∷ []

abbrev pub line_of_sight : FftData.FftData
line_of_sight = record { data_offset = 1; sweep = 2; azi = 3; seconds = 4; split_seconds = 5 }

pub line_of_sight-IsFftData : IsFftData line_of_sight
line_of_sight-IsFftData = omega arith
