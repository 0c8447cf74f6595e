-- ===== src/RadarClient/Reports.antt =====
-- What the callbacks are given for a message of the protocol.
use navtechradar.Base.{
  ℕ, ◌*◌, ◌/◌, ◌^◌, ◌<◌, ◌≡◌, refl, ap, ◌∙◌, arith, false, List, [], ◌∷◌, ◌++◌, Option, some, ◌>>=◌,
}
use navtechradar.Base.{length, All, if◌then◌else◌}
use navtechradar.Base.Bytes.{be_bytes, byte_swap-of_le-be_bytes}
use navtechradar.Colossus.Kind.{code}
use navtechradar.Colossus.Kind
use navtechradar.Colossus.Message
use navtechradar.Colossus.Message.Wire.{wire, header, message, kind-header, relinquish-header}
use navtechradar.Colossus.Overlay.{protobuf}
use navtechradar.Colossus.Messages.FftData
use navtechradar.Colossus.Messages.NavigationData
use navtechradar.Colossus.Messages.Views.{
  IsFftData, IsNavigationData, view-fft_data, view-navigation_data,
}
use navtechradar.TcpClient.Reader.{no_address}
use navtechradar.RadarClient.{Outside, Radar, fft_report, raw_fft_report, navigation_report}
use navtechradar.RadarClient.Handlers.{
  report, peaks_of, fft_of, navigation_of, take_fft_data, handle_fft_data_message,
  handle_navigation_data_message, handle_kind, handle_data,
}

-- A peak as the radar sends it: a range and a power, big-endian.
abbrev pub peaks_bytes : List (ℕ × ℕ) → List ℕ
peaks_bytes [] = []
peaks_bytes ((range, power) ∷ ps) = be_bytes 4 range ++ (be_bytes 2 power ++ peaks_bytes ps)

abbrev pub IsPeak : ℕ × ℕ → Type 0
IsPeak (range, power) = (range < 2 ^ 32) × (power < 2 ^ 16)

pub peaks_bytes-length : (ps : List (ℕ × ℕ)) → length (peaks_bytes ps) ≡ 6 * length ps
peaks_bytes-length [] = refl
peaks_bytes-length ((range, power) ∷ ps) = omega (arith, peaks_bytes-length ps)

module _ (os : Outside) where
  -- The peaks with their ranges divided.
  abbrev pub scaled : List (ℕ × ℕ) → List (ℕ × ℕ)
  scaled [] = []
  scaled ((range, power) ∷ ps) = (os.divided range, power) ∷ scaled ps

  peaks_of-peaks_bytes :
      (ps : List (ℕ × ℕ)) → All IsPeak ps → peaks_of os (length ps) (peaks_bytes ps) ≡ scaled ps
  unfolding peaks_of
  peaks_of-peaks_bytes [] h = refl
  peaks_of-peaks_bytes ((range, power) ∷ ps) ((hr, hp), h) = λ i.
      (os.divided (byte_swap-of_le-be_bytes 4 range hr i), byte_swap-of_le-be_bytes 2 power hp i)
      ∷ peaks_of-peaks_bytes ps h i

  handle_data-wire :
      (answer : Option ℕ) (id : ℕ) (p : List ℕ) (r : Radar)
      → handle_data os answer (wire id p) r
        ≡ handle_kind os answer id (message no_address 0 false (wire id p)) r
  unfolding handle_data Message.from_bytes Message.replace
  handle_data-wire answer id p r =
      ap
        (λ (k : Option ℕ).
          k >>= λ kind. handle_kind os answer kind (message no_address 0 false (wire id p)) r)
        (kind-header no_address 0 false id (length p) p)

  handle_navigation_data_message-view :
      (m : Message.Message) (d : NavigationData.NavigationData) (targets : List ℕ) (r : Radar)
      → NavigationData.view m.bytes ≡ some d
      → protobuf NavigationData.size m.bytes ≡ some targets
      → handle_navigation_data_message os m r
        ≡ some (
            if r.callbacks.navigation_data
            then report (navigation_report (navigation_of os d targets r.encoder_size)) r
            else r)
  unfolding handle_navigation_data_message
  handle_navigation_data_message-view m d targets r ev ep = rw (ev, ep) (ground arith)

  handle_kind-navigation :
      (answer : Option ℕ) (m : Message.Message) (r : Radar)
      → handle_kind os answer (code Kind.navigation_data) m r
        ≡ handle_navigation_data_message os m r
  unfolding handle_kind code
  handle_kind-navigation answer m r = refl

  handle_fft_data_message-view :
      (id n : ℕ) (p : List ℕ) (d : FftData.FftData) (body : List ℕ) (r : Radar)
      → FftData.view (header id n ++ p) ≡ some d
      → protobuf FftData.size (header id n ++ p) ≡ some body
      → handle_fft_data_message os (message no_address 0 false (header id n ++ p)) r ≡ (
          let r' : Radar =
            if r.callbacks.fft_data
            then report (fft_report (fft_of os d body r.encoder_size)) r
            else r in
          some (
            if r.callbacks.raw_fft_data then report (raw_fft_report (header id n ++ p)) r' else r'))
  unfolding handle_fft_data_message take_fft_data
  handle_fft_data_message-view id n p d body r ev ep =
      rw (ev, ep, relinquish-header no_address 0 false id n p) (ground arith)

  handle_kind-fft :
      (answer : Option ℕ) (m : Message.Message) (r : Radar)
      → handle_kind os answer (code Kind.fft_data) m r ≡ handle_fft_data_message os m r
  unfolding handle_kind code
  handle_kind-fft answer m r = refl

  -- Of a navigation message on the wire, with fewer than 2^24 peaks, the callback gets the fields as
  -- their accessors give them and each peak, in order, with its range divided and its power; a radar
  -- client without the callback does nothing.
  pub handle_data-navigation :
      (answer : Option ℕ) (d : NavigationData.NavigationData) (ps : List (ℕ × ℕ)) (r : Radar)
      → IsNavigationData d
      → All IsPeak ps
      → length ps < 2 ^ 24
      → handle_data os answer
          (wire (code Kind.navigation_data) (NavigationData.fields d ++ peaks_bytes ps))
          r
        ≡ some (
            if r.callbacks.navigation_data
            then report
                (navigation_report (record {
                  angle = os.angle (NavigationData.azimuth d) r.encoder_size;
                  azimuth = NavigationData.azimuth d;
                  ntp_seconds = NavigationData.ntp_seconds d;
                  ntp_split_seconds = NavigationData.ntp_split_seconds d;
                  peaks = scaled ps;
                }))
                r
            else r)
  handle_data-navigation answer d ps r w h small =
      let bytes : List ℕ = peaks_bytes ps in
      let count : length bytes ≡ 6 * length ps = peaks_bytes-length ps in
      let (ev, ep) = view-navigation_data (code Kind.navigation_data) d bytes w (omega arith) in
      let n : length bytes / 6 ≡ length ps = omega arith in
      let peaks : peaks_of os (length bytes / 6) bytes ≡ scaled ps =
        ap (λ (k : ℕ). peaks_of os k bytes) n ∙ peaks_of-peaks_bytes ps h in
      handle_data-wire answer (code Kind.navigation_data) (NavigationData.fields d ++ bytes) r
      ∙ handle_kind-navigation answer _ r
      ∙ handle_navigation_data_message-view _ d bytes r ev ep
      ∙ ap
          (λ (found : List (ℕ × ℕ)). some (
            if r.callbacks.navigation_data
            then report
                (navigation_report (record {
                  angle = os.angle (NavigationData.azimuth d) r.encoder_size;
                  azimuth = NavigationData.azimuth d;
                  ntp_seconds = NavigationData.ntp_seconds d;
                  ntp_split_seconds = NavigationData.ntp_split_seconds d;
                  peaks = found;
                }))
                r
            else r))
          peaks

  -- Of an FFT message on the wire, with data of less than 2^31 bytes, first the callback gets the
  -- fields as their accessors give them and the data, and then the raw callback gets the bytes of the
  -- message, each if it is set.
  pub handle_data-fft :
      (answer : Option ℕ) (d : FftData.FftData) (p : List ℕ) (r : Radar)
      → IsFftData d
      → length p < 2 ^ 31
      → handle_data os answer (wire (code Kind.fft_data) (FftData.fields d ++ p)) r ≡ (
          let r' : Radar =
            if r.callbacks.fft_data
            then report (fft_report (fft_of os d p r.encoder_size)) r
            else r in
          some (
            if r.callbacks.raw_fft_data
            then report (raw_fft_report (wire (code Kind.fft_data) (FftData.fields d ++ p))) r'
            else r'))
  handle_data-fft answer d p r w small =
      let (ev, ep) = view-fft_data (code Kind.fft_data) d p w small in
      let whole : List ℕ = FftData.fields d ++ p in
      handle_data-wire answer (code Kind.fft_data) whole r
      ∙ handle_kind-fft answer _ r
      ∙ handle_fft_data_message-view (code Kind.fft_data) (length whole) whole d p r ev ep
