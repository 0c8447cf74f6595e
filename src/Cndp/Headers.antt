-- ===== src/Cndp/Headers.antt =====
-- cpp/cndpconfigurationmessage.h and cpp/cndpfftdatamessage.h: the headers of two messages of the older
-- edition. A field is the word as it stands in memory; a float is its bit pattern.
use navtechradar.Base.{ℕ, ◌+◌, ◌-◌, ◌%◌, ◌^◌, List, ◌++◌, Option, none, some}
use navtechradar.Base.{ltb, replicate, if◌then◌else◌}
use navtechradar.Base.Bytes.{le_bytes}
use navtechradar.NetConversion.{htons, htonl}
use navtechradar.Cndp.{NetworkDataHeader, init, set_payload_length, payload_length}

abbrev pub configuration_header_length : ℕ
configuration_header_length = 20

pub record ConfigurationHeader : Type 0 where
  pub header : NetworkDataHeader
  pub azimuthsamples : ℕ
  pub binsize : ℕ
  pub rangeinbins : ℕ
  pub encodersize : ℕ
  pub rotationspeed : ℕ
  pub packetrate : ℕ
  pub rangegain : ℕ
  pub rangeoffset : ℕ

-- rangegain is an integer here: the 1 is the number, not the float.
unfoldable pub init_configuration : ConfigurationHeader → ConfigurationHeader
init_configuration h = record {
  header = record (init h.header) { messageid = 10 };
  azimuthsamples = 0;
  binsize = 0;
  rangeinbins = 0;
  encodersize = 0;
  rotationspeed = 0;
  packetrate = 0;
  rangegain = 1;
  rangeoffset = 0;
}

unfoldable pub set_protocol_buffer_length : ℕ → ConfigurationHeader → ConfigurationHeader
set_protocol_buffer_length length h = record h {
  header = set_payload_length ((configuration_header_length + length) % 2 ^ 32) h.header;
}

unfoldable pub set_azimuth_samples : ℕ → ConfigurationHeader → ConfigurationHeader
set_azimuth_samples val h = record h { azimuthsamples = htons val }

unfoldable pub set_bin_size : ℕ → ConfigurationHeader → ConfigurationHeader
set_bin_size val h = record h { binsize = htons val }

unfoldable pub set_range_in_bins : ℕ → ConfigurationHeader → ConfigurationHeader
set_range_in_bins val h = record h { rangeinbins = htons val }

unfoldable pub set_encoder_size : ℕ → ConfigurationHeader → ConfigurationHeader
set_encoder_size val h = record h { encodersize = htons val }

unfoldable pub set_rotation_speed : ℕ → ConfigurationHeader → ConfigurationHeader
set_rotation_speed val h = record h { rotationspeed = htons val }

unfoldable pub set_packet_rate : ℕ → ConfigurationHeader → ConfigurationHeader
set_packet_rate val h = record h { packetrate = htons val }

unfoldable pub set_range_gain : ℕ → ConfigurationHeader → ConfigurationHeader
set_range_gain val h = record h { rangegain = htonl val }

unfoldable pub set_range_offset : ℕ → ConfigurationHeader → ConfigurationHeader
set_range_offset val h = record h { rangeoffset = htonl val }

unfoldable pub configuration_to_data : ConfigurationHeader → List ℕ
configuration_to_data h =
    le_bytes 2 h.azimuthsamples
    ++ (le_bytes 2 h.binsize
        ++ (le_bytes 2 h.rangeinbins
            ++ (le_bytes 2 h.encodersize
                ++ (le_bytes 2 h.rotationspeed
                    ++ (le_bytes 2 h.packetrate
                        ++ (le_bytes 4 h.rangegain ++ le_bytes 4 h.rangeoffset))))))

abbrev pub fft_data_header_length : ℕ
fft_data_header_length = 14

pub record FftDataHeader : Type 0 where
  pub header : NetworkDataHeader
  pub fftdataoffset : ℕ
  pub sweepcounter : ℕ
  pub azimuth : ℕ
  pub seconds : ℕ
  pub splitseconds : ℕ

-- The sweep counter and the azimuth stay as they were in memory.
unfoldable pub init_fft_data : FftDataHeader → FftDataHeader
init_fft_data h = record h {
  header = record (init h.header) { messageid = 30 };
  fftdataoffset = htons fft_data_header_length;
  seconds = 0;
  splitseconds = 0;
}

unfoldable pub set_fft_data_length : ℕ → FftDataHeader → FftDataHeader
set_fft_data_length length h = record h {
  header = set_payload_length ((fft_data_header_length + length) % 2 ^ 32) h.header;
}

unfoldable pub set_sweep_counter : ℕ → FftDataHeader → FftDataHeader
set_sweep_counter counter h = record h { sweepcounter = htons counter }

unfoldable pub set_azimuth : ℕ → FftDataHeader → FftDataHeader
set_azimuth azi h = record h { azimuth = htons azi }

unfoldable pub set_seconds : ℕ → FftDataHeader → FftDataHeader
set_seconds seconds h = record h { seconds = htonl seconds }

unfoldable pub set_split_seconds : ℕ → FftDataHeader → FftDataHeader
set_split_seconds split_seconds h = record h { splitseconds = htonl split_seconds }

-- ToData makes room for the whole payload and writes the fields at its front; `none` if they do not fit.
unfoldable pub fft_data_to_data : FftDataHeader → Option (List ℕ)
fft_data_to_data h =
    if ltb (payload_length h.header) fft_data_header_length
    then none
    else some (
        (le_bytes 2 h.fftdataoffset
          ++ (le_bytes 2 h.sweepcounter
              ++ (le_bytes 2 h.azimuth ++ (le_bytes 4 h.seconds ++ le_bytes 4 h.splitseconds))))
        ++ replicate (payload_length h.header - fft_data_header_length) 0)
