-- ===== src/Base/Lists.antt =====
-- Lists measured and cut by native numbers. A cut that would leave the list is `none`.
use Prim.Native.Nat.{ℕ, zero, suc, ◌+◌, ◌-◌, ◌≤◌, ◌<◌, min}
use mathlib.Core.Path.{◌≡◌, refl, sym, ap, ◌∙◌}
use mathlib.Core.List.{List, [], ◌∷◌, ◌++◌, reverse, reverse-cons}
use mathlib.Core.Option.{Option, none, some}
use native.Mathlib.Omega.{arith}
use navtechradar.Base.Tests.{◌>>=◌}

module _ {ℓ} {A : Type ℓ} where
  abbrev pub length : List A → ℕ
  length [] = 0
  length (x ∷ xs) = suc (length xs)

  abbrev pub get_elem? : List A → ℕ → Option A
  get_elem? [] i = none
  get_elem? (x ∷ xs) zero = some x
  get_elem? (x ∷ xs) (suc i) = get_elem? xs i

  abbrev pub take : ℕ → List A → List A
  take zero xs = []
  take (suc n) [] = []
  take (suc n) (x ∷ xs) = x ∷ take n xs

  abbrev pub drop : ℕ → List A → List A
  drop zero xs = xs
  drop (suc n) [] = []
  drop (suc n) (x ∷ xs) = drop n xs

  abbrev pub replicate : ℕ → A → List A
  replicate zero a = []
  replicate (suc n) a = a ∷ replicate n a

  -- The first `n` elements and the rest, if there are as many.
  abbrev pub split_at? : ℕ → List A → Option (List A × List A)
  split_at? zero xs = some ([], xs)
  split_at? (suc n) [] = none
  split_at? (suc n) (x ∷ xs) = split_at? n xs >>= λ r. some (x ∷ r.0, r.1)

  abbrev pub All {κ} : (A → Type κ) → List A → Type κ
  All P [] = Unit {κ}
  All P (x ∷ xs) = P x × All P xs

  pub length-append : (xs ys : List A) → length (xs ++ ys) ≡ length xs + length ys
  length-append [] ys = omega arith
  length-append (x ∷ xs) ys = omega (arith, length-append xs ys)

  pub length-replicate : (n : ℕ) (a : A) → length (replicate n a) ≡ n
  length-replicate zero a = refl
  length-replicate (suc n) a = ap suc (length-replicate n a)

  pub length-reverse : (xs : List A) → length (reverse xs) ≡ length xs
  length-reverse [] = refl
  length-reverse (x ∷ xs) =
      omega (
        arith,
        ap length (reverse-cons x xs),
        length-append (reverse xs) (x ∷ []),
        length-reverse xs,
      )

  pub length-take : (n : ℕ) (xs : List A) → length (take n xs) ≡ min n (length xs)
  length-take zero xs = omega arith
  length-take (suc n) [] = omega arith
  length-take (suc n) (x ∷ xs) = omega (arith, length-take n xs)

  pub length-drop : (n : ℕ) (xs : List A) → length (drop n xs) ≡ length xs - n
  length-drop zero xs = omega arith
  length-drop (suc n) [] = omega arith
  length-drop (suc n) (x ∷ xs) = omega (arith, length-drop n xs)

  pub drop-append_le :
      (n : ℕ) (xs ys : List A) → n ≤ length xs → drop n (xs ++ ys) ≡ drop n xs ++ ys
  drop-append_le zero xs ys h = refl
  drop-append_le (suc n) [] ys h = absurd (omega arith)
  drop-append_le (suc n) (x ∷ xs) ys h = drop-append_le n xs ys (omega arith)

  pub take_all : (n : ℕ) (xs : List A) → length xs ≤ n → take n xs ≡ xs
  take_all zero [] h = refl
  take_all zero (x ∷ xs) h = absurd (omega arith)
  take_all (suc n) [] h = refl
  take_all (suc n) (x ∷ xs) h = ap (◌∷◌ x) (take_all n xs (omega arith))

  pub take-append_exact : (n : ℕ) (xs ys : List A) → length xs ≡ n → take n (xs ++ ys) ≡ xs
  take-append_exact zero [] ys h = refl
  take-append_exact zero (x ∷ xs) ys h = absurd (omega (arith, h))
  take-append_exact (suc n) [] ys h = absurd (omega (arith, h))
  take-append_exact (suc n) (x ∷ xs) ys h =
      ap (◌∷◌ x) (take-append_exact n xs ys (omega (arith, h)))

  pub take-append-drop : (n : ℕ) (xs : List A) → take n xs ++ drop n xs ≡ xs
  take-append-drop zero xs = refl
  take-append-drop (suc n) [] = refl
  take-append-drop (suc n) (x ∷ xs) = ap (◌∷◌ x) (take-append-drop n xs)

  -- A list splits exactly at the end of its first part.
  pub split_at?-append :
      (n : ℕ) (xs ys : List A) → length xs ≡ n → split_at? n (xs ++ ys) ≡ some (xs, ys)
  split_at?-append zero [] ys h = refl
  split_at?-append zero (x ∷ xs) ys h = absurd (omega arith)
  split_at?-append (suc n) [] ys h = absurd (omega arith)
  split_at?-append (suc n) (x ∷ xs) ys h =
      ap (λ o. o >>= λ r. some (x ∷ r.0, r.1)) (split_at?-append n xs ys (omega arith))

  pub split_at?-short : (n : ℕ) (xs : List A) → length xs < n → split_at? n xs ≡ none
  split_at?-short zero xs h = elim h [ ]
  split_at?-short (suc n) [] h = refl
  split_at?-short (suc n) (x ∷ xs) h =
      ap (λ o. o >>= λ r. some (x ∷ r.0, r.1)) (split_at?-short n xs (omega arith))

  -- Any long enough list is a first part of the wanted length and a rest.
  pub split_long :
      (n : ℕ) (xs : List A)
      → n ≤ length xs
      → (ys : List A) × (zs : List A) × (xs ≡ ys ++ zs) × (length ys ≡ n)
  split_long n xs h =
      (take n xs, drop n xs, sym (take-append-drop n xs), omega (arith, length-take n xs))

  -- The list with the element at a place replaced.
  abbrev pub set_elem? : List A → ℕ → A → Option (List A)
  set_elem? [] i a = none
  set_elem? (x ∷ xs) zero a = some (a ∷ xs)
  set_elem? (x ∷ xs) (suc i) a = set_elem? xs i a >>= λ ys. some (x ∷ ys)

  pub get_elem?-drop : (xs : List A) (n k : ℕ) → get_elem? xs (n + k) ≡ get_elem? (drop n xs) k
  get_elem?-drop xs zero k = ap (get_elem? xs) (omega arith)
  get_elem?-drop [] (suc n) k = refl
  get_elem?-drop (x ∷ xs) (suc n) k =
      let e : suc n + k ≡ suc (n + k) = omega arith in
      ap (get_elem? (x ∷ xs)) e ∙ get_elem?-drop xs n k

  pub get_elem?-append : (xs ys : List A) (y : A) → get_elem? (xs ++ (y ∷ ys)) (length xs) ≡ some y
  get_elem?-append [] ys y = refl
  get_elem?-append (x ∷ xs) ys y = get_elem?-append xs ys y

  pub get_elem?-outside : (xs : List A) (i : ℕ) → length xs ≤ i → get_elem? xs i ≡ none
  get_elem?-outside [] i h = refl
  get_elem?-outside (x ∷ xs) zero h = absurd (omega arith)
  get_elem?-outside (x ∷ xs) (suc i) h = get_elem?-outside xs i (omega arith)

  -- The rest from a place on is what stands there and the rest from the next one on.
  pub drop-suc :
      (xs : List A) (n : ℕ) {y : A} {ys : List A} → drop n xs ≡ y ∷ ys → drop (suc n) xs ≡ ys
  drop-suc [] zero h = cc
  drop-suc [] (suc n) h = cc
  drop-suc (x ∷ xs) zero h = cc
  drop-suc (x ∷ xs) (suc n) h = drop-suc xs n h

  -- A place in the list can be set, and the list keeps its length.
  pub set_elem?-inside :
      (xs : List A) (i : ℕ) (a : A)
      → i < length xs
      → (ys : List A) × (set_elem? xs i a ≡ some ys)
        × (length ys ≡ length xs)
        × (get_elem? ys i ≡ some a)
  set_elem?-inside [] i a h = absurd (omega arith)
  set_elem?-inside (x ∷ xs) zero a h = (a ∷ xs, refl, refl, refl)
  set_elem?-inside (x ∷ xs) (suc i) a h =
      let (ys, e, l, g) = set_elem?-inside xs i a (omega arith) in
      (x ∷ ys, ap (λ o. o >>= λ zs. some (x ∷ zs)) e, ap suc l, g)

  pub set_elem?-append :
      (xs : List A) (x : A) (ys : List A) (a : A)
      → set_elem? (xs ++ (x ∷ ys)) (length xs) a ≡ some (xs ++ (a ∷ ys))
  set_elem?-append [] x ys a = refl
  set_elem?-append (z ∷ xs) x ys a =
      ap (λ o. o >>= λ zs. some (z ∷ zs)) (set_elem?-append xs x ys a)
