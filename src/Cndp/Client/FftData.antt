-- ===== src/Cndp/Client/FftData.antt =====
-- RadarClient::HandleFFTDataMessage of cpp/radarclient.cpp, against the handler of cpp_17.
use navtechradar.Base.{
  ℕ, ◌+◌, ◌-◌, ◌%◌, ◌^◌, ◌<◌, ◌≡◌, refl, ap, ◌∙◌, sym, append-nil, arith, true, false, not, Bool,
  List, [], ◌∷◌, ◌++◌, Option, some,
}
use navtechradar.Base.{length, if_false, >>=-some, if◌then◌else◌}
use navtechradar.Base.Bytes.{le_bytes, of_le-le_bytes, read_bytes, read_bytes-append}
use navtechradar.NetConversion.{htons, to_uint16_host}
use navtechradar.Colossus.Kind.{code}
use navtechradar.Colossus.Kind
use navtechradar.Colossus.Message.Wire.{wire, header}
use navtechradar.Colossus.Messages.FftData.{FftData, fields}
use navtechradar.Colossus.Messages.FftData
use navtechradar.Colossus.Messages.Views.{IsFftData}
use navtechradar.RadarClient.{Outside, Radar, FftReport}
use navtechradar.RadarClient
use navtechradar.RadarClient.Handlers.{fft_of}
use navtechradar.RadarClient.Handlers
use navtechradar.RadarClient.Reports.{handle_data-fft}
use navtechradar.Cndp.{
  NetworkDataHeader, NetworkDataMessage, message_data, payload_size, payload_length,
}
use navtechradar.Cndp.Editions.{built, message_data-wire}
use navtechradar.Cndp.Client.{Client, fft_report, fft_data_of, handle_fft_data_message}

-- The data behind the fields.
body_at :
    (id : ℕ) (d : FftData) (p : List ℕ)
    → read_bytes 36 (length p) (wire id (fields d ++ p)) ≡ some p
body_at id d p =
    let front : List ℕ = header id (length (fields d ++ p)) ++ fields d in
    ap (λ (q : List ℕ). read_bytes 36 (length p) (front ++ q)) (sym (append-nil p))
    ∙ read_bytes-append 36 (length p) front p [] refl refl

fields_at :
    (id : ℕ) (d : FftData) (p : List ℕ)
    → (read_bytes 24 2 (wire id (fields d ++ p)) ≡ some (le_bytes 2 d.sweep))
      × (read_bytes 26 2 (wire id (fields d ++ p)) ≡ some (le_bytes 2 d.azi))
      × (read_bytes 28 4 (wire id (fields d ++ p)) ≡ some (le_bytes 4 d.seconds))
      × (read_bytes 32 4 (wire id (fields d ++ p)) ≡ some (le_bytes 4 d.split_seconds))
unfolding read_bytes
fields_at id d p = (refl, refl, refl, refl)

module _ (os : Outside) where
  fft_data_of-wire :
      (h : NetworkDataHeader) (d : FftData) (p : List ℕ) (encoder_size : ℕ)
      → IsFftData d
      → length p < 2 ^ 31
      → (let q : List ℕ = fields d ++ p in
          fft_data_of os encoder_size (built h (code Kind.fft_data) (length q) q)
          ≡ some (fft_of os d p encoder_size))
  unfolding fft_data_of payload_size FftData.azimuth FftData.sweep_counter FftData.ntp_seconds
      FftData.ntp_split_seconds to_uint16_host
  fft_data_of-wire h d p encoder_size w small =
      let q : List ℕ = fields d ++ p in
      let id : ℕ = code Kind.fft_data in
      let (bytes, _, size) = message_data-wire h id q (omega arith) in
      let n : (2 ^ 32 + payload_length (built h id (length q) q).header - 14) % 2 ^ 32 ≡ length p =
        omega (arith, size) in
      let (sweep_at, azimuth_at, seconds_at, split_at) = fields_at id d p in
      let sweep = of_le-le_bytes 2 d.sweep w.sweep_word in
      let azi = of_le-le_bytes 2 d.azi w.azi_word in
      let seconds = of_le-le_bytes 4 d.seconds w.seconds_word in
      let split_seconds = of_le-le_bytes 4 d.split_seconds w.split_seconds_word in
      rw (bytes, n, body_at id d p, sweep_at, azimuth_at, seconds_at, split_at)
        (λ i. some (record {
          angle = os.angle (htons (azi i)) encoder_size;
          azimuth = htons (azi i);
          sweep_counter = htons (sweep i);
          ntp_seconds = seconds i;
          ntp_split_seconds = split_seconds i;
          fft_bytes = p;
        }))

  -- Of an FFT message with less than 2^31 bytes of data that the older edition builds, its handler and
  -- that of cpp_17 give their callbacks the same angle, azimuth, sweep counter, times and data, if the
  -- callbacks are set, that of cpp_17 for the raw message is not, and both clients know the same encoder
  -- size. The azimuth and the sweep counter are in host order, and the times are the words of the message
  -- as they stand there, in network order.
  pub handle_fft_data_message-handle_data :
      (answer : Option ℕ) (h : NetworkDataHeader) (d : FftData) (p : List ℕ) (c : Client)
      (r : Radar)
      → IsFftData d
      → length p < 2 ^ 31
      → c.fft_data_callback ≡ true
      → r.callbacks.fft_data ≡ true
      → r.callbacks.raw_fft_data ≡ false
      → c.configuration.encoder_size ≡ r.encoder_size
      → (let q : List ℕ = fields d ++ p in
          let m : NetworkDataMessage = built h (code Kind.fft_data) (length q) q in
          (given : FftReport) × (given.azimuth ≡ htons d.azi)
          × (given.sweep_counter ≡ htons d.sweep)
          × (given.ntp_seconds ≡ d.seconds)
          × (given.ntp_split_seconds ≡ d.split_seconds)
          × (given.fft_bytes ≡ p)
          × (handle_fft_data_message os m c
              ≡ some (record c { reports = c.reports ++ (fft_report given ∷ []) }))
          × (Handlers.handle_data os answer (message_data m) r
              ≡ some (Handlers.report (RadarClient.fft_report given) r)))
  unfolding handle_fft_data_message FftData.azimuth FftData.sweep_counter FftData.ntp_seconds
      FftData.ntp_split_seconds to_uint16_host
  handle_fft_data_message-handle_data answer h d p c r w small hc hf hr same =
      let q : List ℕ = fields d ++ p in
      let m : NetworkDataMessage = built h (code Kind.fft_data) (length q) q in
      let older : fft_data_of os c.configuration.encoder_size m
          ≡ some (fft_of os d p r.encoder_size) =
        fft_data_of-wire h d p c.configuration.encoder_size w small
        ∙ ap (λ (n : ℕ). some (fft_of os d p n)) same in
      (
        fft_of os d p r.encoder_size,
        refl,
        refl,
        refl,
        refl,
        refl,
        if_false _ _ (ap not hc) ∙ >>=-some _ older,
        ap (λ bs. Handlers.handle_data os answer bs r)
              (message_data-wire h (code Kind.fft_data) q (omega arith)).0
            ∙ handle_data-fft os answer d p r w small
            ∙ ap
                (λ (b : Bool).
                  let r' : Radar =
                    if b
                    then Handlers.report (RadarClient.fft_report (fft_of os d p r.encoder_size)) r
                    else r in
                  some (
                    if r.callbacks.raw_fft_data
                    then Handlers.report (RadarClient.raw_fft_report (wire (code Kind.fft_data) q))
                        r'
                    else r'))
                hf
            ∙ ap
                (λ (b : Bool).
                  let r' : Radar =
                    Handlers.report (RadarClient.fft_report (fft_of os d p r.encoder_size)) r in
                  some (
                    if b
                    then Handlers.report (RadarClient.raw_fft_report (wire (code Kind.fft_data) q))
                        r'
                    else r'))
                hr,
      )
