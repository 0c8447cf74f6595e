-- ===== src/Ros2/Cloud.antt =====
-- The point cloud that Point_cloud_publisher and Navigation_mode_point_cloud_publisher publish:
-- publish_point_cloud and floats_to_uint8_t_vector of ros2/src/nav_ros/src/point_cloud_publisher.cpp,
-- which the other file repeats. A float is its bit pattern. A read outside a vector is none. The
-- constant frame_id of the header is left out. `sec` is the word of an int32_t.
use navtechradar.Base.{
  ℕ, ◌*◌, ◌%◌, ◌^◌, Bool, true, false, List, [], ◌∷◌, ◌++◌, Option, none, some, ◌>>=◌,
}
use navtechradar.Base.{length}
use navtechradar.Base.Bytes.{le_bytes}
pub mod Layout

-- Floating point as the nodes use it.
pub record Floats : Type 0 where
  -- static_cast<int>(angle / (360.0 / azimuth_samples)), of an angle that is not negative
  pub azimuth_index : ℕ → ℕ → ℕ
  -- (float)n
  pub of_number : ℕ → ℕ
  -- (float)value, of a double
  pub narrowed : ℕ → ℕ
  -- (azimuth * 0.9) * (M_PI / 180.0)
  pub radians : ℕ → ℕ
  -- bin * cos(angle) and bin * sin(angle)
  pub times_cos : ℕ → ℕ → ℕ
  pub times_sin : ℕ → ℕ → ℕ

-- The members azimuth_values, bin_values and intensity_values.
pub record Points : Type 0 where
  pub azimuth_values : List ℕ
  pub bin_values : List ℕ
  pub intensity_values : List ℕ

abbrev pub cleared : Points
cleared = record { azimuth_values = []; bin_values = []; intensity_values = [] }

-- The three calls of push_back.
abbrev pub push_back : ℕ → ℕ → ℕ → Points → Points
push_back azimuth bin intensity ps = record {
  azimuth_values = ps.azimuth_values ++ (azimuth ∷ []);
  bin_values = ps.bin_values ++ (bin ∷ []);
  intensity_values = ps.intensity_values ++ (intensity ∷ []);
}

pub data FieldName : Type 0 where
  x_field y_field z_field intensity_field : FieldName

-- sensor_msgs::msg::PointField
pub record PointField : Type 0 where
  pub name : FieldName
  pub offset : ℕ
  pub datatype : ℕ
  pub count : ℕ

-- sensor_msgs::msg::PointCloud2, with the stamp of its header.
pub record PointCloud2 : Type 0 where
  pub sec : ℕ
  pub nanosec : ℕ
  pub height : ℕ
  pub width : ℕ
  pub fields : List PointField
  pub is_bigendian : Bool
  pub point_step : ℕ
  pub row_step : ℕ
  pub data_vector : List ℕ
  pub is_dense : Bool

abbrev pub num_bytes : ℕ
num_bytes = 4

abbrev pub data_type : ℕ
data_type = 7

abbrev pub point_field : FieldName → ℕ → ℕ → PointField
point_field named place size = record {
  name = named;
  offset = place * num_bytes;
  datatype = data_type;
  count = size % 2 ^ 32;
}

-- The host is little-endian.
unfoldable pub floats_to_uint8_t_vector : ℕ → ℕ → ℕ → ℕ → List ℕ
floats_to_uint8_t_vector x y z intensity =
    le_bytes 4 x ++ (le_bytes 4 y ++ (le_bytes 4 z ++ le_bytes 4 intensity))

module _ (fl : Floats) where
  -- The loop over the points: i runs over intensity_values and indexes all three.
  unfoldable pub cloud_data : List ℕ → List ℕ → List ℕ → Option (List ℕ)
  cloud_data azimuths bins [] = some []
  cloud_data (azimuth ∷ azimuths) (bin ∷ bins) (intensity ∷ intensities) =
      let angle = fl.radians azimuth in
      let vec =
        floats_to_uint8_t_vector (fl.times_cos bin angle) (fl.times_sin bin angle) 0 intensity in
      cloud_data azimuths bins intensities >>= λ rest. some (vec ++ rest)
  cloud_data azimuths bins intensities = none

  -- The message that is published. Its width, its row_step and the count of a field are of type uint32_t.
  unfoldable pub cloud_message : ℕ → ℕ → Points → Option PointCloud2
  cloud_message ntp_seconds ntp_split_seconds ps = do
    bytes ← cloud_data ps.azimuth_values ps.bin_values ps.intensity_values
    let size = length ps.intensity_values
    some (record {
      sec = ntp_seconds;
      nanosec = ntp_split_seconds;
      height = 1;
      width = size % 2 ^ 32;
      fields =
          point_field x_field 0 size
          ∷ point_field y_field 1 size
          ∷ point_field z_field 2 size
          ∷ point_field intensity_field 3 size
          ∷ [];
      is_bigendian = false;
      point_step = 4 * num_bytes;
      row_step = ((4 * num_bytes) * (size % 2 ^ 32)) % 2 ^ 32;
      data_vector = bytes;
      is_dense = true;
    })
