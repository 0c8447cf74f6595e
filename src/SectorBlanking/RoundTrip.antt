-- ===== src/SectorBlanking/RoundTrip.antt =====
-- The list of sectors through bytes and back.
use navtechradar.Base.{
  ℕ, ◌*◌, ◌%◌, ◌^◌, ◌<◌, ◌≤◌, ◌≡◌, refl, ap, sym, ◌∙◌, arith, true, false, List, [], ◌∷◌, ◌++◌,
  append_assoc, append-nil, some,
}
use navtechradar.Base.{
  ◌==◌, ltb, length, length-append, All, split_at?, split_at?-append, if◌then◌else◌,
}
use navtechradar.Base.Bytes.{
  byte_swap, byte_swap-byte_swap, byte_swap-lt, length-le_bytes, of_le-le_bytes,
}
use navtechradar.NetConversion.{
  to_byte_array_4, float_to_uint32_network, from_byte_array_4, from_uint32_network,
}
use navtechradar.SectorBlanking.{
  Sector, max_sectors, add, add_moved, sectors_bytes, to_vector, parsed, not_enough_bytes,
  read_sectors, from_vector, angle_bytes, angle_of, num_sectors_of,
}

angle_bytes-length : (a : ℕ) → length (angle_bytes a) ≡ 4
unfolding to_byte_array_4
angle_bytes-length a = length-le_bytes 4 (float_to_uint32_network a)

sectors_bytes-length : (ss : List Sector) → length (sectors_bytes ss) ≡ 8 * length ss
unfolding sectors_bytes
sectors_bytes-length [] = refl
sectors_bytes-length (s ∷ ss) = omega (
  arith,
  sectors_bytes-length ss,
  length-append (angle_bytes s.start) (angle_bytes s.finish ++ sectors_bytes ss),
  length-append (angle_bytes s.finish) (sectors_bytes ss),
  angle_bytes-length s.start,
  angle_bytes-length s.finish,
)

split_at?-angle :
    (a : ℕ) (rest : List ℕ) → split_at? 4 (angle_bytes a ++ rest) ≡ some (angle_bytes a, rest)
split_at?-angle a rest = split_at?-append 4 (angle_bytes a) rest (angle_bytes-length a)

module _ (angle : ℕ → ℕ) where
  -- Of an angle, that it is a word and normalised.
  abbrev IsAngle : ℕ → Type 0
  IsAngle a = (a < 2 ^ 32) × (angle a ≡ a)

  abbrev pub IsNormal : Sector → Type 0
  IsNormal s = IsAngle s.start × IsAngle s.finish

  angle_of-angle_bytes : (a : ℕ) → IsAngle a → angle_of angle (angle_bytes a) ≡ a
  unfolding to_byte_array_4 from_byte_array_4 float_to_uint32_network from_uint32_network
  angle_of-angle_bytes a (w, n) =
      ap angle (
        ap (byte_swap 4) (of_le-le_bytes 4 (byte_swap 4 a) (byte_swap-lt 4 a))
        ∙ byte_swap-byte_swap 4 a w)
      ∙ n

  read_sectors-sectors_bytes :
      (ss before : List Sector)
      → All IsNormal ss
      → read_sectors angle (length ss) (sectors_bytes ss) before ≡ some (before ++ ss)
  unfolding read_sectors sectors_bytes
  read_sectors-sectors_bytes [] before h = ap some (sym (append-nil before))
  read_sectors-sectors_bytes (s ∷ ss) before ((hs, hf), h) =
      rw
        (
          split_at?-angle s.start (angle_bytes s.finish ++ sectors_bytes ss),
          split_at?-angle s.finish (sectors_bytes ss),
          angle_of-angle_bytes s.start hs,
          angle_of-angle_bytes s.finish hf,
        )
        (read_sectors-sectors_bytes ss (before ++ (s ∷ [])) h
          ∙ ap some (append_assoc before (s ∷ []) ss))

  num_sectors_of-to_vector :
      (b : ℕ) (ss : List Sector)
      → length ss < 256
      → num_sectors_of angle (b ∷ sectors_bytes ss) ≡ length ss
  num_sectors_of-to_vector b ss h = omega (arith, sectors_bytes-length ss)

  -- A list of fewer than 256 sectors with normalised angles, whose number is a multiple of 4, is read
  -- back from its bytes behind the sectors that were there before. With any other number of sectors
  -- from_vector() throws on what to_vector() made.
  pub from_vector-to_vector :
      (ss before : List Sector)
      → length ss < 256
      → All IsNormal ss
      → from_vector angle (to_vector ss) before
        ≡ (if length ss % 4 == 0 then parsed (before ++ ss) else not_enough_bytes)
  unfolding from_vector to_vector
  from_vector-to_vector ss before h n =
      let same : (length ss % 256 == length ss) ≡ true = ground arith in
      rw
        (
          num_sectors_of-to_vector (length ss % 256) ss h,
          read_sectors-sectors_bytes ss before n,
          same,
        )
        (ground arith)

-- Both overloads of add() put a sector behind a list with room and leave a full list as it is, so
-- that it never exceeds max_sectors. The one that copies returns false even where it has put the
-- sector in; the one that moves tells the two cases apart.
pub add_lem :
    (s : Sector) (ss : List Sector)
    → length ss ≤ max_sectors
    → ((add s ss).0 ≡ (add_moved s ss).0)
      × (length (add s ss).0 ≤ max_sectors)
      × ((add s ss).1 ≡ false)
      × ((add_moved s ss).1 ≡ ltb (length ss) max_sectors)
      × ((add_moved s ss).0 ≡ (if ltb (length ss) max_sectors then ss ++ (s ∷ []) else ss))
unfolding add add_moved
add_lem s ss h = ground (arith, length-append ss (s ∷ []))
