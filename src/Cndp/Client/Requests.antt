-- ===== src/Cndp/Client/Requests.antt =====
-- The requests of the older edition against those of cpp_17.
use mathlib.Core.Path.{ap₂}
use navtechradar.Base.{
  ℕ, ◌^◌, ◌<◌, ◌≡◌, refl, ap, ◌∙◌, arith, Bool, true, false, not, List, [], ◌∷◌, ◌++◌, Option, some,
}
use navtechradar.Base.{length, >>=-some, if◌then◌else◌}
use navtechradar.Base.Bytes.{le_bytes, be_bytes, le_bytes-byte_swap}
use navtechradar.NetConversion.{htons, htonl}
use navtechradar.Colossus.Kind.{Kind, code}
use navtechradar.Colossus.Message.Wire.{wire}
use navtechradar.RadarClient.{Outside, Radar, is_online}
use navtechradar.RadarClient
use navtechradar.RadarClient.Requests.{
  posted, send_simple_network_message-wire, set_navigation_threshold-wire,
  set_navigation_gain_and_offset-wire,
}
use navtechradar.Cndp.{init, set_message_id, to_data, message_data}
use navtechradar.Cndp.Editions.{message_data-wire}
use navtechradar.Cndp.Client.{
  Client, is_connected, send_simple_network_message, send_with, start_fft_data, stop_fft_data,
  start_navigation_data, stop_navigation_data, set_navigation_threshold,
  set_navigation_gain_and_offset, uninitialised,
}

-- Of two connected clients, one of each edition, each has handed these bytes to its TCP client.
abbrev pub BothSend : Option ℕ → List ℕ → Client → Client → Option Radar → Radar → Type 0
BothSend answer bytes c c' r r' =
    (c'.radar_client.sent ≡ c.radar_client.sent ++ (bytes ∷ []))
    × (r ≡ some (posted answer bytes r'))

simple-sent :
    (id : ℕ) (c : Client)
    → is_connected c ≡ true
    → (send_simple_network_message id c).radar_client.sent
      ≡ c.radar_client.sent ++ (wire id [] ∷ [])
unfolding send_simple_network_message message_data to_data init set_message_id
simple-sent id c up = rw up refl

with-sent :
    (id : ℕ) (p : List ℕ) (c : Client)
    → length p < 2 ^ 32
    → (send_with id p c).radar_client.sent ≡ c.radar_client.sent ++ (wire id p ∷ [])
with-sent id p c small =
    ap (λ (bytes : List ℕ). c.radar_client.sent ++ (bytes ∷ []))
      (message_data-wire uninitialised id p small).0

threshold-sent :
    (threshold : ℕ) (c : Client)
    → is_connected c ≡ true
    → (set_navigation_threshold threshold c).radar_client.sent
      ≡ c.radar_client.sent ++ (wire (code Kind.set_nav_threshold) (be_bytes 2 threshold) ∷ [])
unfolding set_navigation_threshold code
threshold-sent threshold c up =
    ap
      (λ (b : Bool).
        (if not b then c else send_with 122 (le_bytes 2 (htons threshold)) c).radar_client.sent)
      up
    ∙ with-sent 122 (le_bytes 2 (htons threshold)) c (omega arith)
    ∙ ap (λ (p : List ℕ). c.radar_client.sent ++ (wire 122 p ∷ [])) (le_bytes-byte_swap 2 threshold)

module _ (os : Outside) where
  gain-sent :
      (gain offset : ℕ) (c : Client)
      → is_connected c ≡ true
      → (set_navigation_gain_and_offset os gain offset c).radar_client.sent
        ≡ c.radar_client.sent
          ++ (wire
                (code Kind.set_nav_range_offset_and_gain)
                (be_bytes 4 (os.multiplied gain) ++ be_bytes 4 (os.multiplied offset))
              ∷ [])
  unfolding set_navigation_gain_and_offset code
  gain-sent gain offset c up =
      let p =
        le_bytes 4 (htonl (os.multiplied gain)) ++ le_bytes 4 (htonl (os.multiplied offset)) in
      ap (λ (b : Bool). (if not b then c else send_with 124 p c).radar_client.sent) up
      ∙ with-sent 124 p c (omega arith)
      ∙ ap₂ (λ (a b : List ℕ). c.radar_client.sent ++ (wire 124 (a ++ b) ∷ []))
          (le_bytes-byte_swap 4 (os.multiplied gain)) (le_bytes-byte_swap 4 (os.multiplied offset))

  -- Of two clients that are connected, one of each edition, the requests to start and to stop the FFT
  -- data and the navigation data, the threshold, and gain and offset hand the same bytes to the TCP
  -- client, once.
  pub requests-BothSend :
      (answer : Option ℕ) (threshold gain offset : ℕ) (c : Client) (r : Radar)
      → is_connected c ≡ true
      → is_online r ≡ true
      → BothSend answer
          (wire (code Kind.start_nav_data) [])
          c
          (start_navigation_data c)
          (RadarClient.start_navigation_data answer r)
          r
        × BothSend answer
            (wire (code Kind.stop_nav_data) [])
            c
            (stop_navigation_data c)
            (RadarClient.stop_navigation_data answer r)
            r
        × BothSend answer
            (wire (code Kind.set_nav_threshold) (be_bytes 2 threshold))
            c
            (set_navigation_threshold threshold c)
            (RadarClient.set_navigation_threshold answer threshold r)
            r
        × BothSend answer
            (wire
              (code Kind.set_nav_range_offset_and_gain)
              (be_bytes 4 (os.multiplied gain) ++ be_bytes 4 (os.multiplied offset)))
            c
            (set_navigation_gain_and_offset os gain offset c)
            (RadarClient.set_navigation_gain_and_offset os answer gain offset r)
            r
        × ((start_fft_data c).radar_client.sent
            ≡ c.radar_client.sent ++ (wire (code Kind.start_fft_data) [] ∷ []))
        × (RadarClient.start_fft_data answer r
            ≡ some (record (posted answer (wire (code Kind.start_fft_data) []) r) {
              send_radar_data = true;
            }))
        × ((stop_fft_data c).radar_client.sent
            ≡ c.radar_client.sent ++ (wire (code Kind.stop_fft_data) [] ∷ []))
        × (RadarClient.stop_fft_data answer r
            ≡ some (record (posted answer (wire (code Kind.stop_fft_data) []) r) {
              send_radar_data = false;
            }))
  unfolding start_fft_data stop_fft_data start_navigation_data stop_navigation_data
      RadarClient.start_fft_data RadarClient.stop_fft_data RadarClient.start_navigation_data
      RadarClient.stop_navigation_data code
  requests-BothSend answer threshold gain offset c r up online = (
    (simple-sent 120 c up, simple Kind.start_nav_data),
    (simple-sent 121 c up, simple Kind.stop_nav_data),
    (threshold-sent threshold c up, set_navigation_threshold-wire answer threshold r ∙ when _),
    (
      gain-sent gain offset c up,
      set_navigation_gain_and_offset-wire os answer gain offset r ∙ when _,
    ),
    simple-sent 21 c up,
    >>=-some _ (simple Kind.start_fft_data),
    simple-sent 22 c up,
    >>=-some _ (simple Kind.stop_fft_data),
  )
    where
      when : (t : Radar) → some (if is_online r then t else r) ≡ some t
      when t = ap (λ (b : Bool). some (if b then t else r)) online

      simple :
          (k : Kind)
          → RadarClient.send_simple_network_message answer k r
            ≡ some (posted answer (wire (code k) []) r)
      simple k = send_simple_network_message-wire answer k r ∙ when _
