-- ===== src/PeakFinder/Resolve.antt =====
-- cpp_17/navigation/vector_maths.h, and Peak_finder::peak_resolve of peak_finder.cpp: a parabola
-- through the bins around a peak. An array is the list of the elements in use.
use navtechradar.Base.{ℕ, zero, suc, ◌+◌, ◌-◌, ◌/◌, List, [], ◌∷◌, Option, none, some, ◌>>=◌}
use navtechradar.Base.{ltb, get_elem?, if◌then◌else◌}
use navtechradar.PeakFinder.Arithmetic.{Doubles}

-- bins_to_offset
abbrev pub offset_of : ℕ → ℕ
offset_of bins_to_operate_upon = (bins_to_operate_upon - 1) / 2

module _ (d : Doubles) where
  unfoldable pub scalar_sum : List ℕ → ℕ → ℕ
  scalar_sum [] result = result
  scalar_sum (x ∷ xs) result = scalar_sum xs (d.plus result x)

  unfoldable pub scalar_square : List ℕ → ℕ → ℕ
  scalar_square [] result = result
  scalar_square (x ∷ xs) result = scalar_square xs (d.plus result (d.times x x))

  -- The results of the vector functions stand in arrays of 0.0.
  unfoldable pub vector_square : List ℕ → List ℕ
  vector_square [] = []
  vector_square (x ∷ xs) = d.plus (d.of_number 0) (d.times x x) ∷ vector_square xs

  unfoldable pub vector_cube : List ℕ → List ℕ
  vector_cube [] = []
  vector_cube (x ∷ xs) = d.plus (d.of_number 0) (d.times (d.times x x) x) ∷ vector_cube xs

  unfoldable pub vector_multiply : List ℕ → List ℕ → List ℕ
  vector_multiply (x ∷ xs) (y ∷ ys) = d.plus (d.of_number 0) (d.times x y) ∷ vector_multiply xs ys
  vector_multiply xs ys = []

  -- The loop over x: from `index` on, the numbers index - bins_to_offset.
  unfoldable pub x_values : ℕ → ℕ → ℕ → List ℕ
  x_values bins_to_offset index zero = []
  x_values bins_to_offset index (suc n) =
      d.of_difference index bins_to_offset ∷ x_values bins_to_offset (suc index) n

-- The loop over y: `n` bins from peak_bin - bins_to_offset + index on. An index below 0 is undefined,
-- as is one behind the end.
unfoldable pub y_values : List ℕ → ℕ → ℕ → ℕ → ℕ → Option (List ℕ)
y_values bins peak_bin bins_to_offset index zero = some []
y_values bins peak_bin bins_to_offset index (suc n) = do
  y ←
      if ltb (peak_bin + index) bins_to_offset
      then none
      else get_elem? bins (peak_bin + index - bins_to_offset)
  ys ← y_values bins peak_bin bins_to_offset (suc index) n
  some (y ∷ ys)

-- A row of the three equations.
pub record Row : Type 0 where
  pub e0 : ℕ
  pub e1 : ℕ
  pub e2 : ℕ
  pub e3 : ℕ

module _ (d : Doubles) where
  -- row[index] - factor * by[index], for all four and for the last three.
  unfoldable pub less_all : Row → ℕ → Row → Row
  less_all row factor by = record {
    e0 = d.minus row.e0 (d.times factor by.e0);
    e1 = d.minus row.e1 (d.times factor by.e1);
    e2 = d.minus row.e2 (d.times factor by.e2);
    e3 = d.minus row.e3 (d.times factor by.e3);
  }

  unfoldable pub less_last : Row → ℕ → Row → Row
  less_last row factor by = record row {
    e1 = d.minus row.e1 (d.times factor by.e1);
    e2 = d.minus row.e2 (d.times factor by.e2);
    e3 = d.minus row.e3 (d.times factor by.e3);
  }

  -- From the rows to -b1 / (2 * b2).
  unfoldable pub vertex : Row → Row → Row → ℕ
  vertex a b c =
      let c' : Row = less_all c (d.over c.e0 a.e0) a in
      let b' : Row = less_all b (d.over b.e0 a.e0) a in
      let c'' : Row = less_last c' (d.over c'.e1 b'.e1) b' in
      let b2 : ℕ = d.over c''.e3 c''.e2 in
      let b1 : ℕ = d.over (d.minus b'.e3 (d.times b'.e2 b2)) b'.e1 in
      d.over (d.negated b1) (d.times (d.of_number 2) b2)

  unfoldable pub fit : ℕ → List ℕ → List ℕ → ℕ
  fit bins_to_operate_upon x y =
      let zero_d : ℕ = d.of_number 0 in
      let sx : ℕ = scalar_sum d x zero_d in
      let sx2 : ℕ = scalar_square d x zero_d in
      let sx3 : ℕ = scalar_sum d (vector_cube d x) zero_d in
      let x2 : List ℕ = vector_square d x in
      let sx4 : ℕ = scalar_sum d (vector_multiply d x2 x2) zero_d in
      let sy : ℕ = scalar_sum d y zero_d in
      let sxy : ℕ = scalar_sum d (vector_multiply d x y) zero_d in
      let sx2y : ℕ = scalar_sum d (vector_multiply d x2 y) zero_d in
      vertex (record { e0 = sx2; e1 = sx3; e2 = sx4; e3 = sx2y })
        (record { e0 = sx; e1 = sx2; e2 = sx3; e3 = sxy })
        (record { e0 = d.of_number bins_to_operate_upon; e1 = sx; e2 = sx2; e3 = sy })

  unfoldable pub peak_resolve : List ℕ → ℕ → ℕ → Option ℕ
  peak_resolve bins peak_bin bins_to_operate_upon = do
    let bins_to_offset = offset_of bins_to_operate_upon
    let x = x_values d bins_to_offset 0 bins_to_operate_upon
    y ← y_values bins peak_bin bins_to_offset 0 bins_to_operate_upon
    some (
        d.minus (d.plus (fit bins_to_operate_upon x y) (d.of_difference peak_bin bins_to_offset))
          (d.of_difference 0 bins_to_offset))
