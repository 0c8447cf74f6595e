-- ===== src/Cndp/Editions.antt =====
-- The older C++ edition against cpp_17: the bytes of its messages, and which of them each accepts.
use navtechradar.Base.{
  ℕ, ◌+◌, ◌-◌, ◌%◌, ◌<◌, ◌^◌, ◌≡◌, refl, ap, ◌∙◌, arith, false, List, ◌∷◌, ◌++◌, some,
}
use navtechradar.Base.{length, ltb, leb, replicate}
use navtechradar.Base.Bytes.{
  be_bytes, le_bytes, of_le, of_le-le_bytes, byte_swap-lt, read_bytes, le_bytes-byte_swap,
  byte_swap-byte_swap,
}
use navtechradar.NetConversion.{
  htonl, to_uint16_network, to_uint32_network, float_to_uint32_network,
}
use navtechradar.Colossus.Kind.{code}
use navtechradar.Colossus.Kind
use navtechradar.Colossus.Overlay.{protobuf}
use navtechradar.Colossus.Messages.Configuration.{Configuration}
use navtechradar.Colossus.Messages.Configuration
use navtechradar.Colossus.Messages.Views.{IsConfiguration, view-configuration}
use navtechradar.Colossus.Messages.Accessors.{filled_configuration, filled_fft_data}
use navtechradar.Colossus.Messages.FftData.{FftData}
use navtechradar.Colossus.Messages.FftData
use navtechradar.Cndp.Headers.{
  ConfigurationHeader, configuration_to_data, FftDataHeader, fft_data_to_data,
}
use navtechradar.Cndp.Headers
use navtechradar.IpAddress.{IpAddress}
use navtechradar.Colossus.Message.{largest_payload, is_valid, equal}
use navtechradar.Colossus.Message
use navtechradar.Colossus.Message.Wire.{wire, message}
use navtechradar.Cndp.{
  NetworkDataHeader, NetworkDataMessage, init, set_message_id, set_payload_length, payload_length,
  matches, header_is_valid, to_data, message_valid, message_data, message_id, payload_size,
  max_payload_size,
}

-- A message as the older edition builds one: Init, SetMessageId and SetPayloadLength on a header, and
-- the payload behind it.
abbrev pub built : NetworkDataHeader → ℕ → ℕ → List ℕ → NetworkDataMessage
built h id n p = record { header = set_payload_length n (set_message_id id (init h)); payload = p }

-- A message that the older edition builds, with the length of its payload as its payload length, has
-- the bytes of a message of cpp_17, and its accessors return the identifier and the length, if that is
-- below 2^32.
pub message_data-wire :
    (h : NetworkDataHeader) (id : ℕ) (p : List ℕ)
    → length p < 2 ^ 32
    → (message_data (built h id (length p) p) ≡ wire id p)
      × (message_id (built h id (length p) p) ≡ id)
      × (payload_size (built h id (length p) p) ≡ length p)
unfolding message_data to_data message_id payload_size payload_length init set_message_id
    set_payload_length
message_data-wire h id p small = (
  ap (λ bs. (Message.signature ++ (Message.version ∷ id ∷ bs)) ++ p)
      (le_bytes-byte_swap 4 (length p)),
  refl,
  byte_swap-byte_swap 4 (length p) small,
)

-- Of a message whose header announces a payload of n bytes, the older edition accepts n up to 1048576,
-- and is_valid() of cpp_17 accepts n below 1000000, whatever the payload is.
pub message_valid-is_valid :
    (h : NetworkDataHeader) (a : IpAddress) (identity id n : ℕ) (p : List ℕ)
    → id < 256
    → n < 2 ^ 32
    → (message_valid (built h id n p) ≡ leb n max_payload_size)
      × (is_valid (message a identity false (message_data (built h id n p)))
          ≡ some (ltb n largest_payload))
unfolding message_valid header_is_valid matches payload_length message_data to_data init
    set_message_id set_payload_length is_valid read_bytes
message_valid-is_valid h a identity id n p hid hn =
    let size : htonl (htonl n) ≡ n = byte_swap-byte_swap 4 n hn in
    let field : htonl (of_le (le_bytes 4 (htonl n))) ≡ n =
      ap htonl (of_le-le_bytes 4 (htonl n) (byte_swap-lt 4 n)) ∙ size in
    (ap (λ (k : ℕ). leb k max_payload_size) size, ground (arith, field))

-- A configuration header on which Init and every setter was called.
abbrev pub set_configuration :
    ℕ → ℕ → ℕ → ℕ → ℕ → ℕ → ℕ → ℕ → ℕ → ConfigurationHeader → ConfigurationHeader
set_configuration a b c d e f g o n x = Headers.set_azimuth_samples a (
    Headers.set_bin_size b (
      Headers.set_range_in_bins c (
        Headers.set_encoder_size d (
          Headers.set_rotation_speed e (
            Headers.set_packet_rate f (
              Headers.set_range_gain g (
                Headers.set_range_offset o
                  (Headers.set_protocol_buffer_length n (Headers.init_configuration x)))))))))

-- A configuration message of the older edition, with a protocol buffer behind its header, is the
-- message of cpp_17 whose payload is the fields of a Configuration with the same values and the
-- protocol buffer, if that is below 2^31 bytes; so view_as of cpp_17 finds these fields, and its overlay
-- the protocol buffer.
pub configuration_to_data-fields :
    (a b c d e f g o : ℕ) (p : List ℕ) (x : ConfigurationHeader) (z : Configuration)
    → length p < 2 ^ 31
    → (let h : ConfigurationHeader = set_configuration a b c d e f g o (length p) x in
        let bytes : List ℕ =
          message_data (record { header = h.header; payload = configuration_to_data h ++ p }) in
        (bytes
          ≡ wire
              (code Kind.configuration)
              (Configuration.fields (filled_configuration a b c d e f g o z) ++ p))
        × (Configuration.view bytes ≡ some (filled_configuration a b c d e f g o z))
        × (protobuf Configuration.size bytes ≡ some p))
unfolding message_data to_data init set_payload_length code configuration_to_data
    Headers.set_azimuth_samples Headers.set_bin_size Headers.set_range_in_bins
    Headers.set_encoder_size Headers.set_rotation_speed Headers.set_packet_rate
    Headers.set_range_gain Headers.set_range_offset Headers.set_protocol_buffer_length
    Headers.init_configuration Configuration.set_azimuth_samples Configuration.set_bin_size
    Configuration.set_range_in_bins Configuration.set_encoder_size Configuration.set_rotation_speed
    Configuration.set_packet_rate Configuration.set_range_gain Configuration.set_range_offset
    to_uint16_network to_uint32_network float_to_uint32_network
configuration_to_data-fields a b c d e f g o p x z small =
    let filled : Configuration = filled_configuration a b c d e f g o z in
    let q : List ℕ = Configuration.fields filled ++ p in
    let size : (20 + length p) % 2 ^ 32 ≡ length q = omega arith in
    let length_bytes : le_bytes 4 (htonl ((20 + length p) % 2 ^ 32)) ≡ be_bytes 4 (length q) =
      ap (λ (k : ℕ). le_bytes 4 (htonl k)) size ∙ le_bytes-byte_swap 4 (length q) in
    let same : message_data (record {
      header = (set_configuration a b c d e f g o (length p) x).header;
      payload = configuration_to_data (set_configuration a b c d e f g o (length p) x) ++ p;
    })
        ≡ wire 10 q =
      λ i. (Message.signature ++ (Message.version ∷ 10 ∷ length_bytes i)) ++ q in
    let words : IsConfiguration filled = record {
      azi_samples_word = byte_swap-lt 2 a;
      bin_sz_word = byte_swap-lt 2 b;
      range_bins_word = byte_swap-lt 2 c;
      encoder_sz_word = byte_swap-lt 2 d;
      rotation_spd_word = byte_swap-lt 2 e;
      pckt_rate_word = byte_swap-lt 2 f;
      gain_word = byte_swap-lt 4 g;
      offset_word = byte_swap-lt 4 o;
    } in
    let (found, behind) = view-configuration 10 filled p words small in
    (
      same,
      ap Configuration.view same ∙ found,
      ap (λ bs. protobuf Configuration.size bs) same ∙ behind,
    )

-- An FFT header on which Init and every setter was called lays out the fields of a Fft_data of cpp_17
-- with the same values and the header's length as its offset, and then as many zeros as there is data,
-- if both together are below 2^32.
pub fft_data_to_data-fields :
    (counter azi s split n : ℕ) (x : FftDataHeader) (z : FftData)
    → 14 + n < 2 ^ 32
    → fft_data_to_data (
        Headers.set_sweep_counter counter (
          Headers.set_azimuth azi (
            Headers.set_seconds s (
              Headers.set_split_seconds split
                (Headers.set_fft_data_length n (Headers.init_fft_data x))))))
      ≡ some (FftData.fields (filled_fft_data 14 counter azi s split z) ++ replicate n 0)
unfolding fft_data_to_data init set_payload_length payload_length Headers.set_sweep_counter
    Headers.set_azimuth Headers.set_seconds Headers.set_split_seconds Headers.set_fft_data_length
    Headers.init_fft_data FftData.set_fft_data_offset FftData.set_sweep_counter FftData.set_azimuth
    FftData.set_ntp_seconds FftData.set_ntp_split_seconds to_uint16_network to_uint32_network
fft_data_to_data-fields counter azi s split n x z small =
    let size : htonl (htonl ((14 + n) % 2 ^ 32)) ≡ 14 + n =
      ap (λ (k : ℕ). htonl (htonl k)) (omega arith) ∙ byte_swap-byte_swap 4 (14 + n) small in
    let room : ltb (14 + n) 14 ≡ false = ground arith in
    let rest : 14 + n - 14 ≡ n = omega arith in rw (size, room, rest) refl
