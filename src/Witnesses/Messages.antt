-- ===== src/Witnesses/Messages.antt =====
-- Runs of the theorems on messages.
use navtechradar.Base.{ℕ, ◌≡◌, arith, true, false, List, [], ◌∷◌, ◌++◌, some, ◌>>=◌}
use navtechradar.Base.{All}
use navtechradar.Base.Bytes.{IsByte}
use navtechradar.IpAddress.{IpAddress}
use navtechradar.Colossus.Kind.{code, set_nav_area_rules}
use navtechradar.Colossus.Message.{append, append_header, is_valid}
use navtechradar.Colossus.Message.Wire.{wire, message}
use navtechradar.Colossus.Message.Build.{typed, sent, sent_either_order}
use navtechradar.Colossus.Message.Valid.{Headed, is_valid-header, is_valid_sound}

abbrev local : IpAddress
local = record { word = 0x7F000001 }

abbrev head_bytes : List ℕ
head_bytes = 1 ∷ 2 ∷ 3 ∷ []

abbrev body_bytes : List ℕ
body_bytes = 10 ∷ 20 ∷ []

sent_either_order_example :
    (sent
        (typed local 0 set_nav_area_rules >>= λ m. append_header head_bytes m >>= append body_bytes)
      ≡ some (wire (code set_nav_area_rules) (head_bytes ++ body_bytes)))
    × (sent (
          typed local 0 set_nav_area_rules >>= λ m.
          append body_bytes m >>= append_header head_bytes)
        ≡ some (wire (code set_nav_area_rules) (head_bytes ++ body_bytes)))
sent_either_order_example =
    sent_either_order local 0 set_nav_area_rules head_bytes body_bytes (omega arith)

abbrev received : List ℕ
received =
    0 ∷ 1 ∷ 3 ∷ 3 ∷ 7 ∷ 7 ∷ 15 ∷ 15 ∷ 31 ∷ 31 ∷ 63 ∷ 63 ∷ 127 ∷ 127 ∷ 254 ∷ 254 ∷ 1 ∷ 10 ∷ 0 ∷ 0 ∷ 0
    ∷ 2 ∷ body_bytes

received-IsByte : All IsByte received
received-IsByte = omega arith

is_valid_sound_example : Headed received
is_valid_sound_example =
    is_valid_sound (message local 3 false received) received-IsByte received-is_valid
  where
    received-is_valid : is_valid (message local 3 false received) ≡ some true
    received-is_valid =
        (is_valid-header local 3 false 10 2 body_bytes (omega arith) (omega arith)).0
