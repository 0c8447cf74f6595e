-- ===== src/RadarClient/Requests.antt =====
-- What the requests of the radar client put on the wire.
use mathlib.Core.Path.{ap₂}
use navtechradar.Base.{
  ℕ, ◌^◌, ◌<◌, ◌≡◌, refl, ap, ◌∙◌, arith, Bool, true, false, not, List, [], ◌++◌, Option, some,
}
use navtechradar.Base.{length, length-append, if◌then◌else◌}
use navtechradar.Base.Bytes.{be_bytes, byte_swap-byte_swap, le_bytes-byte_swap, length-be_bytes}
use navtechradar.NetConversion.{
  to_uint16_network, to_uint16_host, to_uint32_network, to_uint32_host, float_to_uint32_network,
  from_uint32_network,
}
use navtechradar.Colossus.Kind.{Kind, code}
use navtechradar.Colossus.Message.Wire.{
  wire, new-header, set_kind-header, append-header, append_header-fresh, relinquish-header,
}
use navtechradar.Colossus.Messages.NavigationConfig.{FloatOps, ten}
use navtechradar.Colossus.Messages.NavigationConfig
use navtechradar.TcpClient
use navtechradar.TcpClient.Reader.{no_address}
use navtechradar.RadarClient.{
  Outside, Radar, NavigationSettings, is_online, post_with, send_simple_network_message,
  set_navigation_threshold, set_navigation_gain_and_offset, set_navigation_configuration,
  start_fft_data, start_navigation_data, request_navigation_configuration, nav_config,
}
use navtechradar.RadarClient.Handlers.{settings_of}

-- The radar client after the bytes were handed to the TCP client.
abbrev pub posted : Option ℕ → List ℕ → Radar → Radar
posted answer bytes r = record r { radar_client = TcpClient.send answer bytes r.radar_client }

-- A new message of a type with a buffer goes out as the header with its size, and the buffer.
post_with-wire :
    (answer : Option ℕ) (k : Kind) (buffer : List ℕ) (r : Radar)
    → length buffer < 2 ^ 32
    → post_with answer k buffer r ≡ some (posted answer (wire (code k) buffer) r)
post_with-wire answer k buffer r small = rw (
  new-header no_address 0,
  set_kind-header no_address 0 k false 0 0 [],
  append-header no_address 0 false (code k) 0 [] buffer small,
  relinquish-header no_address 0 true (code k) (length buffer) buffer,
)

post_online :
    (answer : Option ℕ) (k : Kind) (b : Bool) (buffer bytes : List ℕ) (r : Radar)
    → buffer ≡ bytes
    → length bytes < 2 ^ 32
    → (if not b then some r else post_with answer k buffer r)
      ≡ some (if b then posted answer (wire (code k) bytes) r else r)
post_online answer k false buffer bytes r e small = refl
post_online answer k true buffer bytes r e small =
    ap (λ (bs : List ℕ). post_with answer k bs r) e ∙ post_with-wire answer k bytes r small

-- A simple request goes out as a header with payload size 0 if the client is connected; else nothing
-- is sent and nothing changes.
pub send_simple_network_message-wire :
    (answer : Option ℕ) (k : Kind) (r : Radar)
    → send_simple_network_message answer k r
      ≡ some (if is_online r then posted answer (wire (code k) []) r else r)
unfolding send_simple_network_message
send_simple_network_message-wire answer k r =
    rw
      (
        new-header no_address 0,
        set_kind-header no_address 0 k false 0 0 [],
        relinquish-header no_address 0 false (code k) 0 [],
      )
      (ground arith)

-- The threshold goes out as a big-endian word of 16 bits if the client is connected; else nothing is
-- sent and nothing changes.
pub set_navigation_threshold-wire :
    (answer : Option ℕ) (threshold : ℕ) (r : Radar)
    → set_navigation_threshold answer threshold r
      ≡ some (
          if is_online r
          then posted answer (wire (code Kind.set_nav_threshold) (be_bytes 2 threshold)) r
          else r)
unfolding set_navigation_threshold
set_navigation_threshold-wire answer threshold r =
    post_online answer Kind.set_nav_threshold (is_online r) _ (be_bytes 2 threshold) r
      (le_bytes-byte_swap 2 threshold) (omega (arith, length-be_bytes 2 threshold))

module _ (os : Outside) where
  -- Gain and offset go out, multiplied, as two big-endian words of 32 bits if the client is
  -- connected; else nothing is sent and nothing changes.
  pub set_navigation_gain_and_offset-wire :
      (answer : Option ℕ) (gain offset : ℕ) (r : Radar)
      → set_navigation_gain_and_offset os answer gain offset r
        ≡ some (
            if is_online r
            then posted answer
                (wire
                  (code Kind.set_nav_range_offset_and_gain)
                  (be_bytes 4 (os.multiplied gain) ++ be_bytes 4 (os.multiplied offset)))
                r
            else r)
  unfolding set_navigation_gain_and_offset
  set_navigation_gain_and_offset-wire answer gain offset r =
      let g : List ℕ = be_bytes 4 (os.multiplied gain) in
      let o : List ℕ = be_bytes 4 (os.multiplied offset) in
      post_online answer Kind.set_nav_range_offset_and_gain (is_online r) _ (g ++ o) r
        (ap₂ ◌++◌ (le_bytes-byte_swap 4 (os.multiplied gain))
          (le_bytes-byte_swap 4 (os.multiplied offset)))
        (omega (
          arith,
          length-append g o,
          length-be_bytes 4 (os.multiplied gain),
          length-be_bytes 4 (os.multiplied offset),
        ))

  -- The settings go out as the fields of a Navigation_config.
  pub set_navigation_configuration-posted :
      (answer : Option ℕ) (cfg : NavigationSettings) (r : Radar)
      → set_navigation_configuration os answer cfg r
        ≡ some (
            posted answer
              (wire
                (code Kind.set_navigation_configuration)
                (NavigationConfig.fields (nav_config os cfg)))
              r)
  unfolding set_navigation_configuration
  set_navigation_configuration-posted answer cfg r = rw (
    new-header no_address 0,
    set_kind-header no_address 0 Kind.set_navigation_configuration false 0 0 [],
    append_header-fresh no_address 0 (code Kind.set_navigation_configuration)
        (NavigationConfig.fields (nav_config os cfg)) (omega arith),
    relinquish-header no_address 0 false (code Kind.set_navigation_configuration)
        (length (NavigationConfig.fields (nav_config os cfg)))
        (NavigationConfig.fields (nav_config os cfg)),
  )

  -- The settings go out as the fields of a Navigation_config, and a handler that views these fields
  -- finds the settings again, if they fit the fields and dividing undoes multiplying by ten.
  pub set_navigation_configuration-wire :
      (answer : Option ℕ) (cfg : NavigationSettings) (r : Radar)
      → cfg.bins_to_operate_on < 2 ^ 16
      → cfg.min_bin < 2 ^ 16
      → cfg.max_peaks_per_azimuth < 2 ^ 32
      → os.ops.times cfg.navigation_threshold ten < 2 ^ 32
      → os.ops.over (os.ops.times cfg.navigation_threshold ten) ten ≡ cfg.navigation_threshold
      → (set_navigation_configuration os answer cfg r
          ≡ some (
              posted answer
                (wire
                  (code Kind.set_navigation_configuration)
                  (NavigationConfig.fields (nav_config os cfg)))
                r))
        × (settings_of os (nav_config os cfg) ≡ cfg)
  unfolding nav_config NavigationConfig.set_bins_to_operate_on
      NavigationConfig.set_min_bin_to_operate_on NavigationConfig.set_navigation_threshold
      NavigationConfig.set_max_peaks_per_azimuth NavigationConfig.bins_to_operate_on
      NavigationConfig.min_bin_to_operate_on NavigationConfig.navigation_threshold
      NavigationConfig.max_peaks_per_azimuth to_uint16_network to_uint16_host to_uint32_network
      to_uint32_host float_to_uint32_network from_uint32_network
  set_navigation_configuration-wire answer cfg r hb hm hp ht he = (
    set_navigation_configuration-posted answer cfg r,
    (λ i. record {
      bins_to_operate_on = byte_swap-byte_swap 2 cfg.bins_to_operate_on hb i;
      min_bin = byte_swap-byte_swap 2 cfg.min_bin hm i;
      navigation_threshold =
          (ap (λ (w : ℕ). os.ops.over w ten)
                (byte_swap-byte_swap 4 (os.ops.times cfg.navigation_threshold ten) ht)
              ∙ he)
            i;
      max_peaks_per_azimuth = byte_swap-byte_swap 4 cfg.max_peaks_per_azimuth hp i;
    }),
  )

-- A start of the FFT data always returns.
pub start_fft_data-wire :
    (answer : Option ℕ) (r : Radar)
    → start_fft_data answer r
      ≡ some
          (record (if is_online r
            then posted answer (wire (code Kind.start_fft_data) []) r
            else r) { send_radar_data = true })
unfolding start_fft_data
start_fft_data-wire answer r =
    rw (send_simple_network_message-wire answer Kind.start_fft_data r) refl

pub start_navigation_data-wire :
    (answer : Option ℕ) (r : Radar)
    → start_navigation_data answer r
      ≡ some (if is_online r then posted answer (wire (code Kind.start_nav_data) []) r else r)
unfolding start_navigation_data
start_navigation_data-wire answer r = send_simple_network_message-wire answer Kind.start_nav_data r

pub request_navigation_configuration-wire :
    (answer : Option ℕ) (r : Radar)
    → request_navigation_configuration answer r
      ≡ some (
          if is_online r
          then posted answer (wire (code Kind.navigation_config_request) []) r
          else r)
unfolding request_navigation_configuration
request_navigation_configuration-wire answer r =
    send_simple_network_message-wire answer Kind.navigation_config_request r
