-- ===== src/Cndp/Navigation.antt =====
-- RadarClient::HandleNavigationDataMessage of cpp/radarclient.cpp, against the handler of cpp_17.
use navtechradar.Base.{
  ℕ, zero, suc, ◌+◌, ◌-◌, ◌*◌, ◌/◌, ◌%◌, ◌^◌, ◌<◌, ◌≡◌, refl, ap, ◌∙◌, sym, append_assoc, arith,
  true, Bool, List, [], ◌∷◌, ◌++◌, Option, some, ◌>>=◌,
}
use navtechradar.Base.{length, length-append, All, if◌then◌else◌}
use navtechradar.Base.Bytes.{
  le_bytes, of_le, of_le-le_bytes, be_bytes, length-be_bytes, read_bytes, read_bytes-append,
  byte_swap-of_le-be_bytes,
}
use navtechradar.NetConversion.{htons, htonl, to_uint16_host, to_uint32_host}
use navtechradar.Colossus.Kind.{code}
use navtechradar.Colossus.Kind
use navtechradar.Colossus.Messages.NavigationData.{NavigationData}
use navtechradar.Colossus.Messages.NavigationData
use navtechradar.Colossus.Messages.Views.{IsNavigationData}
use navtechradar.RadarClient.Handlers.{report, handle_data}
use navtechradar.RadarClient.{Outside, NavigationReport, Radar, navigation_report}
use navtechradar.RadarClient.Reports.{
  peaks_bytes, IsPeak, scaled, peaks_bytes-length, handle_data-navigation,
}
use navtechradar.Cndp.{NetworkDataHeader, NetworkDataMessage, payload_size, message_data}
use navtechradar.Cndp.Editions.{built, message_data-wire}

abbrev pub nav_data_record_length : ℕ
nav_data_record_length = 6

module _ (os : Outside) where
  -- The loop from offset `i` on, with `n` rounds. A read outside the payload is none.
  unfoldable pub read_peaks : ℕ → ℕ → List ℕ → Option (List (ℕ × ℕ))
  read_peaks zero i payload = some []
  read_peaks (suc n) i payload = do
    range ← read_bytes i 4 payload
    power ← read_bytes (i + 4) 2 payload
    rest ← read_peaks n (i + nav_data_record_length) payload
    some ((os.divided (htonl (of_le range)), htons (of_le power)) ∷ rest)

  -- How often the loop goes round: its bound is a word of 64 bits, as is the count of peaks.
  abbrev pub loop_rounds : ℕ → ℕ
  loop_rounds size =
      let peaks_count : ℕ = (2 ^ 64 + size - 10) % 2 ^ 64 / nav_data_record_length in
      ((10 + peaks_count * nav_data_record_length) % 2 ^ 64 - 10 + 5) / nav_data_record_length

  -- What the callback gets, of a client that knows the encoder size.
  unfoldable pub navigation_data_of : ℕ → NetworkDataMessage → Option NavigationReport
  navigation_data_of encoder_size m = do
    net_azimuth ← read_bytes 0 2 m.payload
    net_seconds ← read_bytes 2 4 m.payload
    net_split_seconds ← read_bytes 6 4 m.payload
    peaks ← read_peaks (loop_rounds (payload_size m)) 10 m.payload
    some (record {
      angle = os.angle (htons (of_le net_azimuth)) encoder_size;
      azimuth = htons (of_le net_azimuth);
      ntp_seconds = htonl (of_le net_seconds);
      ntp_split_seconds = htonl (of_le net_split_seconds);
      peaks = peaks;
    })

  read_peaks-peaks_bytes :
      (front : List ℕ) (ps : List (ℕ × ℕ)) (i : ℕ)
      → length front ≡ i
      → All IsPeak ps
      → read_peaks (length ps) i (front ++ peaks_bytes ps) ≡ some (scaled os ps)
  unfolding read_peaks
  read_peaks-peaks_bytes front [] i e h = refl
  read_peaks-peaks_bytes front ((range, power) ∷ ps) i e ((hr, hp), h) =
      let first : read_bytes i 4
            (front ++ (be_bytes 4 range ++ (be_bytes 2 power ++ peaks_bytes ps)))
          ≡ some (be_bytes 4 range) =
        read_bytes-append i 4 front (be_bytes 4 range) _ e (length-be_bytes 4 range) in
      let longer : length (front ++ be_bytes 4 range) ≡ i + 4 =
        omega (arith, length-append front (be_bytes 4 range), e) in
      let second : read_bytes (i + 4) 2
            (front ++ (be_bytes 4 range ++ (be_bytes 2 power ++ peaks_bytes ps)))
          ≡ some (be_bytes 2 power) =
        ap (read_bytes (i + 4) 2) (sym (append_assoc front (be_bytes 4 range) _))
        ∙ read_bytes-append (i + 4) 2 (front ++ be_bytes 4 range) (be_bytes 2 power) _ longer
            (length-be_bytes 2 power) in
      let all : length (front ++ (be_bytes 4 range ++ be_bytes 2 power)) ≡ i + 6 =
        omega (arith, length-append front (be_bytes 4 range ++ be_bytes 2 power), e) in
      let others : read_peaks (length ps) (i + 6)
            (front ++ (be_bytes 4 range ++ (be_bytes 2 power ++ peaks_bytes ps)))
          ≡ some (scaled os ps) =
        ap (read_peaks (length ps) (i + 6))
          (sym (append_assoc front (be_bytes 4 range ++ be_bytes 2 power) (peaks_bytes ps)))
        ∙ read_peaks-peaks_bytes (front ++ (be_bytes 4 range ++ be_bytes 2 power)) ps (i + 6) all
            h in
      rw (first, second, others)
        (λ j. some (
          (
            os.divided (byte_swap-of_le-be_bytes 4 range hr j),
            byte_swap-of_le-be_bytes 2 power hp j,
          )
          ∷ scaled os ps))

  navigation_data_of-peaks :
      (d : NavigationData) (ps : List (ℕ × ℕ)) (hd : NetworkDataHeader) (encoder_size : ℕ)
      → IsNavigationData d
      → All IsPeak ps
      → length ps < 2 ^ 24
      → payload_size (record { header = hd; payload = NavigationData.fields d ++ peaks_bytes ps })
        ≡ length (NavigationData.fields d ++ peaks_bytes ps)
      → navigation_data_of encoder_size
          (record { header = hd; payload = NavigationData.fields d ++ peaks_bytes ps })
        ≡ some (record {
          angle = os.angle (NavigationData.azimuth d) encoder_size;
          azimuth = NavigationData.azimuth d;
          ntp_seconds = NavigationData.ntp_seconds d;
          ntp_split_seconds = NavigationData.ntp_split_seconds d;
          peaks = scaled os ps;
        })
  unfolding navigation_data_of read_bytes NavigationData.azimuth NavigationData.ntp_seconds
      NavigationData.ntp_split_seconds to_uint16_host to_uint32_host
  navigation_data_of-peaks d ps hd encoder_size w h small size =
      let q : List ℕ = NavigationData.fields d ++ peaks_bytes ps in
      let m : NetworkDataMessage = record { header = hd; payload = q } in
      let rounds : loop_rounds (payload_size m) ≡ length ps =
        omega (arith, size, peaks_bytes-length ps) in
      let peaks : read_peaks (loop_rounds (payload_size m)) 10 q ≡ some (scaled os ps) =
        ap (λ (n : ℕ). read_peaks n 10 q) rounds
        ∙ read_peaks-peaks_bytes (NavigationData.fields d) ps 10 refl h in
      let a : of_le (le_bytes 2 d.net_azimuth) ≡ d.net_azimuth =
        of_le-le_bytes 2 d.net_azimuth w.net_azimuth_word in
      let s : of_le (le_bytes 4 d.seconds) ≡ d.seconds =
        of_le-le_bytes 4 d.seconds w.seconds_word in
      let t : of_le (le_bytes 4 d.split_seconds) ≡ d.split_seconds =
        of_le-le_bytes 4 d.split_seconds w.split_seconds_word in
      rw peaks (λ i. some (record {
        angle = os.angle (htons (a i)) encoder_size;
        azimuth = htons (a i);
        ntp_seconds = htonl (s i);
        ntp_split_seconds = htonl (t i);
        peaks = scaled os ps;
      }))

  -- Of a navigation message with fewer than 2^24 peaks that the older edition builds, its handler and
  -- that of cpp_17 give their callbacks the same azimuth, angle, time and peaks, if the callback is set
  -- and both clients know the same encoder size.
  pub navigation_data_of-handle_data :
      (answer : Option ℕ) (h : NetworkDataHeader) (d : NavigationData) (ps : List (ℕ × ℕ))
      (r : Radar)
      → IsNavigationData d
      → All IsPeak ps
      → length ps < 2 ^ 24
      → r.callbacks.navigation_data ≡ true
      → (let q : List ℕ = NavigationData.fields d ++ peaks_bytes ps in
          let m : NetworkDataMessage = built h (code Kind.navigation_data) (length q) q in
          (given : NavigationReport) × (navigation_data_of r.encoder_size m ≡ some given)
          × (handle_data os answer (message_data m) r ≡ some (report (navigation_report given) r)))
  navigation_data_of-handle_data answer h d ps r w hp small hc =
      let q : List ℕ = NavigationData.fields d ++ peaks_bytes ps in
      let id : ℕ = code Kind.navigation_data in
      let given : NavigationReport = record {
        angle = os.angle (NavigationData.azimuth d) r.encoder_size;
        azimuth = NavigationData.azimuth d;
        ntp_seconds = NavigationData.ntp_seconds d;
        ntp_split_seconds = NavigationData.ntp_split_seconds d;
        peaks = scaled os ps;
      } in
      let (bytes, _, size) = message_data-wire h id q (omega (arith, peaks_bytes-length ps)) in
      (
        given,
        navigation_data_of-peaks d ps (built h id (length q) q).header r.encoder_size w hp small
            size,
        ap (λ bs. handle_data os answer bs r) bytes
            ∙ handle_data-navigation os answer d ps r w hp small
            ∙ ap (λ (b : Bool). some (if b then report (navigation_report given) r else r)) hc,
      )
