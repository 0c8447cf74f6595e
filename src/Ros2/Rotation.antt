-- ===== src/Ros2/Rotation.antt =====
-- How the publishers in ros2/src/nav_ros/src tell that the radar has turned round once: the members
-- last_azimuth, rotated_once and rotation_count.
use navtechradar.Base.{ℕ, suc, Bool, true, false}
use navtechradar.Base.{ltb, leb, if◌then◌else◌}

pub record Rotation : Type 0 where
  pub last_azimuth : ℕ
  pub rotated_once : Bool
  pub rotation_count : ℕ

abbrev pub config_publish_count : ℕ
config_publish_count = 4

abbrev pub at_rest : Rotation
at_rest = record { last_azimuth = 0; rotated_once = false; rotation_count = 0 }

-- data->azimuth < last_azimuth
abbrev pub turns : Rotation → ℕ → Bool
turns o azimuth = ltb azimuth o.last_azimuth

-- The members after the message: the body of that test, and the assignment of last_azimuth.
unfoldable pub seen : ℕ → Rotation → Rotation
seen azimuth o = record {
  last_azimuth = azimuth;
  rotated_once = if turns o azimuth then true else o.rotated_once;
  rotation_count = if turns o azimuth then suc o.rotation_count else o.rotation_count;
}

abbrev pub is_config_due : Rotation → Bool
is_config_due o = leb config_publish_count o.rotation_count
