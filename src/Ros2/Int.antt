-- ===== src/Ros2/Int.antt =====
-- The integers of the nodes' parameters, and the conversions to `int` and `uint16_t` that the nodes in
-- ros2/src/nav_ros/src make of them.
use navtechradar.Base.{ℕ, ◌-◌, ◌%◌, ◌^◌, ◌≤◌, ◌<◌, ◌≡◌, refl, arith, Bool, true, false, ◌||◌}
use navtechradar.Base.{ltb, if◌then◌else◌}

-- `negsuc n` is -(n + 1).
pub data ℤ : Type 0 where
  pos : ℕ → ℤ
  negsuc : ℕ → ℤ

-- The low `w` bits, as two's complement has them.
abbrev pub wrap : ℕ → ℤ → ℕ
wrap w (pos n) = n % 2 ^ w
wrap w (negsuc n) = 2 ^ w - 1 - n % 2 ^ w

-- static_cast<int> of an int64_t.
abbrev pub to_int : ℤ → ℤ
to_int z = let low = wrap 32 z in if ltb low (2 ^ 31) then pos low else negsuc (2 ^ 32 - 1 - low)

abbrev pub to_uint16 : ℤ → ℕ
to_uint16 z = wrap 16 z

abbrev pub is_negative : ℤ → Bool
is_negative (pos n) = false
is_negative (negsuc n) = true

-- z > bound
abbrev pub exceeds : ℤ → ℕ → Bool
exceeds (pos n) bound = ltb bound n
exceeds (negsuc n) bound = false

-- temp < 0 || temp > bound
abbrev pub is_outside : ℤ → ℕ → Bool
is_outside z bound = is_negative z || exceeds z bound

-- z != n
abbrev pub differs : ℤ → ℕ → Bool
differs (pos m) n = ltb m n || ltb n m
differs (negsuc m) n = true

pub to_int-pos : (n : ℕ) → n < 2 ^ 31 → to_int (pos n) ≡ pos n
to_int-pos n h = ground arith

pub to_int-negsuc : (n : ℕ) → n < 2 ^ 31 → to_int (negsuc n) ≡ negsuc n
to_int-negsuc n h = ground arith

-- What passes the test is a number that is not negative and not above the bound.
pub is_outside-false :
    (z : ℤ) (bound : ℕ) → is_outside z bound ≡ false → (n : ℕ) × (z ≡ pos n) × (n ≤ bound)
is_outside-false (pos n) bound h = (n, refl, ground arith)
is_outside-false (negsuc n) bound h = absurd (ground arith)

pub is_outside-pos : (n bound : ℕ) → n ≤ bound → is_outside (pos n) bound ≡ false
is_outside-pos n bound h = ground arith
