-- ===== src/Ros2/Colossus/Logs.antt =====
-- What Colossus_subscriber logs of the messages that Colossus_publisher publishes, and which messages
-- those are.
use navtechradar.Base.{
  ℕ, ◌%◌, ◌^◌, ◌-◌, ◌<◌, ◌≡◌, refl, ap, ◌∙◌, arith, Bool, true, false, inl, inr, List, [], ◌∷◌,
  ◌++◌, map, some, append-nil, append_assoc, sym,
}
use navtechradar.Base.{length, ltb, Bool-cases, if◌then◌else◌}
use navtechradar.Base.Bytes.{byte_swap, byte_swap-byte_swap, of_le-le_bytes, byte_swap-lt}
use navtechradar.NetConversion.{
  to_uint16_network, to_uint16_host, to_uint32_network, to_uint32_host, to_uint64_host,
  from_uint64_host, to_vector, from_vector_to,
}
use navtechradar.RadarClient.{FftReport, ConfigurationReport}
use navtechradar.Ros2.Int.{ℤ, pos, negsuc, to_int}
use navtechradar.Ros2.Rotation.{Rotation, seen, is_config_due}
use navtechradar.Ros2.Configuration.{
  config_message_of, configuration_data_callback, network_vector, logged_uint16, logged_double,
}
use navtechradar.Ros2.Colossus.{
  int, double, logged, logged_short, Publisher, FftMessage, message_of, check_config_publish,
  fft_data_handler, run_fft, logged_uint32, fft_data_callback,
}

logged_uint16-network : (v : ℕ) → v < 2 ^ 16 → logged_uint16 (network_vector v) ≡ some v
unfolding to_uint16_network to_uint16_host to_vector from_vector_to
logged_uint16-network v h = ap some (
    ap (byte_swap 2) (of_le-le_bytes 2 (byte_swap 2 v) (byte_swap-lt 2 v))
    ∙ byte_swap-byte_swap 2 v h)

logged_short-network : (v : ℕ) → v < 2 ^ 16 → logged_short (network_vector v) ≡ some (int (pos v))
logged_short-network v h = ap (logged (λ n. int (pos n))) (logged_uint16-network v h)

-- From 2^31 on, what is logged is 2^32 less.
abbrev pub as_int : ℕ → ℤ
as_int v = if ltb v (2 ^ 31) then pos v else negsuc (2 ^ 32 - 1 - v)

to_int-as_int : (v : ℕ) → v < 2 ^ 32 → to_int (pos v) ≡ as_int v
to_int-as_int v h = ground arith

logged_uint32-network :
    (v : ℕ) → v < 2 ^ 32 → logged_uint32 (to_vector 4 (to_uint32_network v)) ≡ some (int (as_int v))
unfolding to_uint32_network to_uint32_host to_vector from_vector_to
logged_uint32-network v h =
    ap (λ n. some (int (to_int (pos n))))
      (ap (byte_swap 4) (of_le-le_bytes 4 (byte_swap 4 v) (byte_swap-lt 4 v))
        ∙ byte_swap-byte_swap 4 v h)
    ∙ ap (λ z. some (int z)) (to_int-as_int v h)

logged_double-host : (v : ℕ) → v < 2 ^ 64 → logged_double (to_vector 8 (to_uint64_host v)) ≡ some v
unfolding to_uint64_host from_uint64_host to_vector from_vector_to
logged_double-host v h = ap some (of_le-le_bytes 8 v h)

-- The members have the sizes of their types.
pub record IsFftReport (fft : FftReport) : Type 0 where
  pub angle : fft.angle < 2 ^ 64
  pub azimuth : fft.azimuth < 2 ^ 16
  pub sweep_counter : fft.sweep_counter < 2 ^ 16
  pub ntp_seconds : fft.ntp_seconds < 2 ^ 32
  pub ntp_split_seconds : fft.ntp_split_seconds < 2 ^ 32

-- Of a message that the publisher makes of FFT data whose members have the sizes of their types, the
-- subscriber logs, in this order, the angle, the azimuth and the sweep counter that were put in, the
-- seconds and the split seconds, each 2^32 less if it is 2^31 or more, and the number of bytes modulo
-- 2^16.
pub fft_data_callback-message_of :
    (fft : FftReport)
    → IsFftReport fft
    → fft_data_callback (message_of fft)
      ≡ map some (
          double fft.angle
          ∷ int (pos fft.azimuth)
          ∷ int (pos fft.sweep_counter)
          ∷ int (as_int fft.ntp_seconds)
          ∷ int (as_int fft.ntp_split_seconds)
          ∷ int (pos (length fft.fft_bytes % 2 ^ 16))
          ∷ [])
unfolding fft_data_callback message_of
fft_data_callback-message_of fft h = λ i.
    logged (λ v. double v) (logged_double-host fft.angle h.angle i)
    ∷ logged_short-network fft.azimuth h.azimuth i
    ∷ logged_short-network fft.sweep_counter h.sweep_counter i
    ∷ logged_uint32-network fft.ntp_seconds h.ntp_seconds i
    ∷ logged_uint32-network fft.ntp_split_seconds h.ntp_split_seconds i
    ∷ logged_short-network (length fft.fft_bytes % 2 ^ 16) (omega arith) i
    ∷ []

-- The same of the configuration message, which all the publishers fill alike.
pub record IsConfigurationReport (c : ConfigurationReport) : Type 0 where
  pub azimuth_samples : c.azimuth_samples < 2 ^ 16
  pub encoder_size : c.encoder_size < 2 ^ 16
  pub bin_size : c.bin_size < 2 ^ 64
  pub range_in_bins : c.range_in_bins < 2 ^ 16
  pub expected_rotation_rate : c.expected_rotation_rate < 2 ^ 16

-- Of a configuration message that a publisher makes the subscriber logs every value that was put in: the
-- azimuths, the encoder size, the bin size, the bins and the rotation rate.
pub configuration_data_callback-config_message_of :
    (c : ConfigurationReport)
    → IsConfigurationReport c
    → configuration_data_callback (config_message_of c)
      ≡ map some (
          c.azimuth_samples ∷ c.encoder_size ∷ c.bin_size ∷ c.range_in_bins
          ∷ c.expected_rotation_rate ∷ [])
unfolding configuration_data_callback config_message_of
configuration_data_callback-config_message_of c h = λ i.
    logged_uint16-network c.azimuth_samples h.azimuth_samples i
    ∷ logged_uint16-network c.encoder_size h.encoder_size i
    ∷ logged_double-host c.bin_size h.bin_size i
    ∷ logged_uint16-network c.range_in_bins h.range_in_bins i
    ∷ logged_uint16-network c.expected_rotation_rate h.expected_rotation_rate i
    ∷ []

-- The messages from the first one on whose azimuth is below the one before.
abbrev pub from_turn : ℕ → List FftReport → List FftReport
from_turn azimuth [] = []
from_turn azimuth (fft ∷ ffts) =
    let rest = from_turn fft.azimuth ffts in if ltb fft.azimuth azimuth then fft ∷ ffts else rest

check_config_publish-keeps :
    (s : Publisher)
    → ((check_config_publish s).messages ≡ s.messages)
      × ((check_config_publish s).rotation.rotated_once ≡ s.rotation.rotated_once)
      × ((check_config_publish s).rotation.last_azimuth ≡ s.rotation.last_azimuth)
unfolding check_config_publish
check_config_publish-keeps s = elim (Bool-cases (is_config_due s.rotation)) [
  | inl e ↦ rw e (refl, refl, refl)
  | inr e ↦ rw e (refl, refl, refl)
]

-- A message is published if the rotation has been seen to end, with this message or before.
abbrev After : FftReport → Publisher → Publisher → Type 0
After fft s t =
    (t.messages
      ≡ (if t.rotation.rotated_once then s.messages ++ (message_of fft ∷ []) else s.messages))
    × (t.rotation.rotated_once
        ≡ (if ltb fft.azimuth s.rotation.last_azimuth then true else s.rotation.rotated_once))
    × (t.rotation.last_azimuth ≡ fft.azimuth)

picked :
    (b : Bool) (ms : List FftMessage) (t : Publisher)
    → ((if b then record t { messages = ms } else t).messages ≡ (if b then ms else t.messages))
      × ((if b then record t { messages = ms } else t).rotation ≡ t.rotation)
picked true ms t = (refl, refl)
picked false ms t = (refl, refl)

fft_data_handler-After : (fft : FftReport) (s : Publisher) → After fft s (fft_data_handler fft s)
unfolding fft_data_handler seen
fft_data_handler-After fft s =
    let turned : Publisher = record s { rotation = seen fft.azimuth s.rotation } in
    let t = check_config_publish turned in
    let (km, ko, kl) = check_config_publish-keeps turned in
    let (pm, pr) = picked t.rotation.rotated_once (t.messages ++ (message_of fft ∷ [])) t in
    let once = ap (λ (o : Rotation). o.rotated_once) pr in
    (
      pm
          ∙ ap
              (λ (ms : List FftMessage).
                if t.rotation.rotated_once then ms ++ (message_of fft ∷ []) else ms)
              km
          ∙ ap (λ (b : Bool). if b then s.messages ++ (message_of fft ∷ []) else s.messages)
              (sym once),
      once ∙ ko,
      ap (λ (o : Rotation). o.last_azimuth) pr ∙ kl,
    )

run_fft-rotated :
    (ffts : List FftReport) (s : Publisher)
    → s.rotation.rotated_once ≡ true
    → (run_fft ffts s).messages ≡ s.messages ++ map message_of ffts
unfolding run_fft
run_fft-rotated [] s once = sym (append-nil s.messages)
run_fft-rotated (fft ∷ ffts) s once =
    let (m, o, l) = fft_data_handler-After fft s in
    let still : (fft_data_handler fft s).rotation.rotated_once ≡ true =
      rw o (ground (arith, once)) in
    let added : (fft_data_handler fft s).messages ≡ s.messages ++ (message_of fft ∷ []) =
      m ∙ ap (λ (b : Bool). if b then s.messages ++ (message_of fft ∷ []) else s.messages) still in
    run_fft-rotated ffts (fft_data_handler fft s) still
    ∙ ap (λ ms. ms ++ map message_of ffts) added
    ∙ append_assoc s.messages (message_of fft ∷ []) (map message_of ffts)

run_fft-waiting :
    (ffts : List FftReport) (s : Publisher)
    → s.rotation.rotated_once ≡ false
    → (run_fft ffts s).messages
      ≡ s.messages ++ map message_of (from_turn s.rotation.last_azimuth ffts)
unfolding run_fft
run_fft-waiting [] s never = sym (append-nil s.messages)
run_fft-waiting (fft ∷ ffts) s never =
    let (m, o, l) = fft_data_handler-After fft s in
    let next = fft_data_handler fft s in
    elim (Bool-cases (ltb fft.azimuth s.rotation.last_azimuth)) [
      | inl falls ↦
          let now : next.rotation.rotated_once ≡ true = rw (o, falls) refl in
          let added : next.messages ≡ s.messages ++ (message_of fft ∷ []) =
            m
            ∙ ap (λ (b : Bool). if b then s.messages ++ (message_of fft ∷ []) else s.messages)
                now in
          rw falls (
            run_fft-rotated ffts next now
            ∙ ap (λ ms. ms ++ map message_of ffts) added
            ∙ append_assoc s.messages (message_of fft ∷ []) (map message_of ffts))
      | inr rises ↦
          let not_yet : next.rotation.rotated_once ≡ false =
            o ∙ ap (λ (b : Bool). if b then true else s.rotation.rotated_once) rises ∙ never in
          let same : next.messages ≡ s.messages =
            m
            ∙ ap (λ (b : Bool). if b then s.messages ++ (message_of fft ∷ []) else s.messages)
                not_yet in
          rw rises (
            run_fft-waiting ffts next not_yet
            ∙ ap (λ ms. ms ++ map message_of (from_turn next.rotation.last_azimuth ffts)) same
            ∙ ap (λ (k : ℕ). s.messages ++ map message_of (from_turn k ffts)) l)
    ]

-- A publisher that has not yet seen a rotation end publishes none of the messages before the first one
-- whose azimuth is below the one before, and that one and all after it in their order; one that has
-- publishes them all in their order.
pub run_fft-messages :
    (ffts : List FftReport) (s : Publisher)
    → (run_fft ffts s).messages
      ≡ s.messages
        ++ map message_of
            (if s.rotation.rotated_once then ffts else from_turn s.rotation.last_azimuth ffts)
run_fft-messages ffts s = elim (Bool-cases s.rotation.rotated_once) [
  | inl once ↦
      run_fft-rotated ffts s once
      ∙ ap
          (λ (b : Bool).
            s.messages
            ++ map message_of (if b then ffts else from_turn s.rotation.last_azimuth ffts))
          (sym once)
  | inr never ↦
      run_fft-waiting ffts s never
      ∙ ap
          (λ (b : Bool).
            s.messages
            ++ map message_of (if b then ffts else from_turn s.rotation.last_azimuth ffts))
          (sym never)
]
