-- ===== src/Ros2/Cloud/Layout.antt =====
-- The three vectors of points as one list of points, and the message that is made of it.
use navtechradar.Base.{
  ℕ, suc, ◌+◌, ◌*◌, ◌%◌, ◌^◌, ◌<◌, ◌≡◌, refl, ap, ◌∙◌, arith, Bool, true, false, inl, inr, sym,
  List, [], ◌∷◌, ◌++◌, Option, none, some, ◌>>=◌, append_assoc,
}
use navtechradar.Base.{length, length-append, split_at?, Option-cases, if◌then◌else◌}
use navtechradar.Base.Bytes.{le_bytes, of_le, read_bytes, of_le-le_bytes}
use navtechradar.Ros2.Cloud.{
  Floats, Points, PointCloud2, x_field, y_field, z_field, intensity_field, push_back, point_field,
  PointField, FieldName, floats_to_uint8_t_vector, cloud_data, cloud_message,
}

-- The azimuth, the bin and the intensity of a point.
pub record Point : Type 0 where
  pub azimuth : ℕ
  pub bin : ℕ
  pub intensity : ℕ

abbrev pub azimuths : List Point → List ℕ
azimuths [] = []
azimuths (p ∷ ps) = p.azimuth ∷ azimuths ps

abbrev pub bins : List Point → List ℕ
bins [] = []
bins (p ∷ ps) = p.bin ∷ bins ps

abbrev pub intensities : List Point → List ℕ
intensities [] = []
intensities (p ∷ ps) = p.intensity ∷ intensities ps

-- The vectors that hold the points.
abbrev pub split : List Point → Points
split ps = record {
  azimuth_values = azimuths ps;
  bin_values = bins ps;
  intensity_values = intensities ps;
}

azimuths-append : (ps qs : List Point) → azimuths (ps ++ qs) ≡ azimuths ps ++ azimuths qs
azimuths-append [] qs = refl
azimuths-append (p ∷ ps) qs = ap (◌∷◌ p.azimuth) (azimuths-append ps qs)

bins-append : (ps qs : List Point) → bins (ps ++ qs) ≡ bins ps ++ bins qs
bins-append [] qs = refl
bins-append (p ∷ ps) qs = ap (◌∷◌ p.bin) (bins-append ps qs)

intensities-append :
    (ps qs : List Point) → intensities (ps ++ qs) ≡ intensities ps ++ intensities qs
intensities-append [] qs = refl
intensities-append (p ∷ ps) qs = ap (◌∷◌ p.intensity) (intensities-append ps qs)

pub push_back-split :
    (ps : List Point) (p : Point)
    → push_back p.azimuth p.bin p.intensity (split ps) ≡ split (ps ++ (p ∷ []))
push_back-split ps p =
    rw (azimuths-append ps (p ∷ []), bins-append ps (p ∷ []), intensities-append ps (p ∷ [])) refl

pub length-intensities : (ps : List Point) → length (intensities ps) ≡ length ps
length-intensities [] = refl
length-intensities (p ∷ ps) = omega (arith, length-intensities ps)

-- The three vectors have one length.
abbrev pub IsAligned : Points → Type 0
IsAligned v =
    (length v.azimuth_values ≡ length v.intensity_values)
    × (length v.bin_values ≡ length v.intensity_values)

pub split-IsAligned : (ps : List Point) → IsAligned (split ps)
split-IsAligned [] = (refl, refl)
split-IsAligned (p ∷ ps) = let (ea, eb) = split-IsAligned ps in (omega arith, omega arith)

-- Vectors of one length hold a list of points.
points_in :
    (us bs vs : List ℕ)
    → length us ≡ length vs
    → length bs ≡ length vs
    → (ps : List Point) × (azimuths ps ≡ us) × (bins ps ≡ bs) × (intensities ps ≡ vs)
points_in [] [] [] ha hb = ([], refl, refl, refl)
points_in (a ∷ us) (b ∷ bs) (i ∷ vs) ha hb =
    let (ps, ea, eb, ei) = points_in us bs vs (omega arith) (omega arith) in
    (
      record { azimuth = a; bin = b; intensity = i } ∷ ps,
      ap (◌∷◌ a) ea,
      ap (◌∷◌ b) eb,
      ap (◌∷◌ i) ei,
    )
points_in us bs vs ha hb = absurd (omega arith)

pub IsAligned-split : (v : Points) → IsAligned v → (ps : List Point) × (v ≡ split ps)
IsAligned-split v h =
    let (ps, ea, eb, ei) = points_in v.azimuth_values v.bin_values v.intensity_values h.0 h.1 in
    (
      ps,
      λ i. record { azimuth_values = sym ea i; bin_values = sym eb i; intensity_values = sym ei i },
    )

module _ (fl : Floats) where
  -- What the message has of a point: x, y, z and the intensity.
  abbrev pub point_bytes : Point → List ℕ
  point_bytes p =
      floats_to_uint8_t_vector (fl.times_cos p.bin (fl.radians p.azimuth))
        (fl.times_sin p.bin (fl.radians p.azimuth)) 0 p.intensity

  abbrev pub all_bytes : List Point → List ℕ
  all_bytes [] = []
  all_bytes (p ∷ ps) = point_bytes p ++ all_bytes ps

  -- The message of the points.
  abbrev pub cloud_of : ℕ → ℕ → List Point → PointCloud2
  cloud_of ntp_seconds ntp_split_seconds ps = record {
    sec = ntp_seconds;
    nanosec = ntp_split_seconds;
    height = 1;
    width = length ps % 2 ^ 32;
    fields =
        point_field x_field 0 (length ps)
        ∷ point_field y_field 1 (length ps)
        ∷ point_field z_field 2 (length ps)
        ∷ point_field intensity_field 3 (length ps)
        ∷ [];
    is_bigendian = false;
    point_step = 16;
    row_step = (16 * (length ps % 2 ^ 32)) % 2 ^ 32;
    data_vector = all_bytes ps;
    is_dense = true;
  }

  pub cloud_data-split :
      (ps : List Point)
      → cloud_data fl (azimuths ps) (bins ps) (intensities ps) ≡ some (all_bytes ps)
  unfolding cloud_data
  cloud_data-split [] = refl
  cloud_data-split (p ∷ ps) = rw (cloud_data-split ps) refl

  pub cloud_message-split :
      (sec nanosec : ℕ) (ps : List Point)
      → cloud_message fl sec nanosec (split ps) ≡ some (cloud_of sec nanosec ps)
  unfolding cloud_message
  cloud_message-split sec nanosec ps = rw (cloud_data-split ps, length-intensities ps) refl

  pub length-point_bytes : (p : Point) → length (point_bytes p) ≡ 16
  unfolding floats_to_uint8_t_vector
  length-point_bytes p = refl

  -- The data of a cloud have 16 bytes for each point.
  pub length-all_bytes : (ps : List Point) → length (all_bytes ps) ≡ 16 * length ps
  length-all_bytes [] = refl
  length-all_bytes (p ∷ ps) = omega (
    arith,
    length-append (point_bytes p) (all_bytes ps),
    length-point_bytes p,
    length-all_bytes ps,
  )

abbrev pub is_named : FieldName → FieldName → Bool
is_named x_field x_field = true
is_named y_field y_field = true
is_named z_field z_field = true
is_named intensity_field intensity_field = true
is_named a b = false

module _ (fl : Floats) where
  -- The place of the k-th point, where the bytes of the points are cut.
  all_bytes-append :
      (ps qs : List Point) → all_bytes fl (ps ++ qs) ≡ all_bytes fl ps ++ all_bytes fl qs
  all_bytes-append [] qs = refl
  all_bytes-append (p ∷ ps) qs =
      ap (◌++◌ (point_bytes fl p)) (all_bytes-append ps qs)
      ∙ sym (append_assoc (point_bytes fl p) (all_bytes fl ps) (all_bytes fl qs))

  -- The offset that the message gives to a field.
  abbrev pub offset_in : FieldName → List PointField → Option ℕ
  offset_in named [] = none
  offset_in named (f ∷ fs) = if is_named named f.name then some f.offset else offset_in named fs

  -- A reader that takes 4 bytes at a point's place and at the field's offset in it, and puts them
  -- together as is_bigendian = false says, has the float.
  abbrev pub read_float : PointCloud2 → ℕ → FieldName → Option ℕ
  read_float cloud k named = do
    offset ← offset_in named cloud.fields
    bytes ← read_bytes (cloud.point_step * k + offset) 4 cloud.data_vector
    some (of_le bytes)

  -- What a point has in a field.
  abbrev pub value_of : Point → FieldName → ℕ
  value_of p x_field = fl.times_cos p.bin (fl.radians p.azimuth)
  value_of p y_field = fl.times_sin p.bin (fl.radians p.azimuth)
  value_of p z_field = 0
  value_of p intensity_field = p.intensity

  read_bytes-front :
      (x off n : ℕ) (xs : List ℕ) → read_bytes (suc off) n (x ∷ xs) ≡ read_bytes off n xs
  unfolding read_bytes
  read_bytes-front x off n xs = elim (Option-cases (split_at? off xs)) [
    | inl e ↦ rw e refl
    | inr (r, e) ↦ rw e refl
  ]

  read_bytes-shift :
      (front : List ℕ) (off n : ℕ) (xs : List ℕ)
      → read_bytes (length front + off) n (front ++ xs) ≡ read_bytes off n xs
  read_bytes-shift [] off n xs =
      let e : 0 + off ≡ off = omega arith in ap (λ (k : ℕ). read_bytes k n xs) e
  read_bytes-shift (x ∷ front) off n xs =
      let e : suc (length front) + off ≡ suc (length front + off) = omega arith in
      ap (λ (k : ℕ). read_bytes k n (x ∷ front ++ xs)) e
      ∙ read_bytes-front x (length front + off) n (front ++ xs)
      ∙ read_bytes-shift front off n xs

  abbrev place : FieldName → ℕ
  place x_field = 0
  place y_field = 4
  place z_field = 8
  place intensity_field = 12

  read_bytes-point :
      (p : Point) (f : FieldName) (rest : List ℕ)
      → read_bytes (place f) 4 (point_bytes fl p ++ rest) ≡ some (le_bytes 4 (value_of p f))
  unfolding read_bytes floats_to_uint8_t_vector
  read_bytes-point p x_field rest = refl
  read_bytes-point p y_field rest = refl
  read_bytes-point p z_field rest = refl
  read_bytes-point p intensity_field rest = refl

  offset_in-place :
      (f : FieldName) (sec nanosec : ℕ) (ps : List Point)
      → offset_in f (PointCloud2.fields (cloud_of fl sec nanosec ps)) ≡ some (place f)
  offset_in-place x_field sec nanosec ps = refl
  offset_in-place y_field sec nanosec ps = refl
  offset_in-place z_field sec nanosec ps = refl
  offset_in-place intensity_field sec nanosec ps = refl

  -- The k-th point of a cloud is read back field by field: where the vectors hold `ps`, then `p`, then
  -- `qs`, the message that is made of them has at the place of the point p the x, the y, the zero z and
  -- the intensity that were put in, if they are floats of 32 bits. Its data are point_step bytes for each
  -- point, its width is the number of points modulo 2^32, and its row_step the number of the data's bytes
  -- modulo 2^32.
  pub cloud_message-read :
      (sec nanosec : ℕ) (ps qs : List Point) (p : Point) (f : FieldName)
      → value_of p f < 2 ^ 32
      → (cloud : PointCloud2) × (cloud_message fl sec nanosec (split (ps ++ (p ∷ qs))) ≡ some cloud)
        × (read_float cloud (length ps) f ≡ some (value_of p f))
        × (length cloud.data_vector ≡ length (ps ++ (p ∷ qs)) * cloud.point_step)
        × (cloud.width ≡ length (ps ++ (p ∷ qs)) % 2 ^ 32)
        × (cloud.row_step ≡ length cloud.data_vector % 2 ^ 32)
  cloud_message-read sec nanosec ps qs p f small =
      let all : List Point = ps ++ (p ∷ qs) in
      let e : 16 * length ps + place f ≡ length (all_bytes fl ps) + place f =
        omega (arith, length-all_bytes fl ps) in
      let found : read_bytes (16 * length ps + place f) 4 (all_bytes fl all)
          ≡ some (le_bytes 4 (value_of p f)) =
        ap (λ (k : ℕ). read_bytes k 4 (all_bytes fl all)) e
        ∙ ap (read_bytes (length (all_bytes fl ps) + place f) 4) (all_bytes-append ps (p ∷ qs))
        ∙ read_bytes-shift (all_bytes fl ps) (place f) 4 (all_bytes fl (p ∷ qs))
        ∙ read_bytes-point p f (all_bytes fl qs) in
      let word : of_le (le_bytes 4 (value_of p f)) ≡ value_of p f =
        of_le-le_bytes 4 (value_of p f) (omega arith) in
      (
        cloud_of fl sec nanosec all,
        cloud_message-split fl sec nanosec all,
        rw (offset_in-place f sec nanosec all, found, word) refl,
        omega (arith, length-all_bytes fl all),
        refl,
        omega (arith, length-all_bytes fl all),
      )
