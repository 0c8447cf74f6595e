-- ===== src/Base/Bytes.antt =====
-- Bytes in memory: little-endian words, the byte swap of htonl, and reads and writes at an offset.
-- A number is a byte if it is below 256. A read or a write that leaves the buffer is `none`.
use Prim.Native.Nat.{ℕ, zero, suc, ◌+◌, ◌*◌, ◌/◌, ◌%◌, ◌^◌, ◌<◌}
use mathlib.Core.Path.{◌≡◌, refl, ap, ◌∙◌}
use mathlib.Core.List.{List, [], ◌∷◌, ◌++◌, reverse, reverse-cons, reverse-reverse}
use mathlib.Core.Option.{Option, some}
use mathlib.Core.Path.{subst}
use native.Mathlib.Nat.{pow-suc}
use native.Mathlib.Omega.{arith}
use navtechradar.Base.Tests.{◌>>=◌}
use navtechradar.Base.Lists.{drop, length, All, split_at?, split_at?-append, length-reverse}

abbrev pub IsByte : ℕ → Type 0
IsByte b = b < 256

-- The `n` bytes of a word as a little-endian host stores it, and the word that they stand for.
abbrev pub le_bytes : ℕ → ℕ → List ℕ
le_bytes zero v = []
le_bytes (suc n) v = (v % 256) ∷ le_bytes n (v / 256)

abbrev pub of_le : List ℕ → ℕ
of_le [] = 0
of_le (b ∷ bs) = b + 256 * of_le bs

abbrev pub be_bytes : ℕ → ℕ → List ℕ
be_bytes n v = reverse (le_bytes n v)

-- htons, htonl and their inverses, on a little-endian host: the bytes of the word in reverse.
unfoldable pub byte_swap : ℕ → ℕ → ℕ
byte_swap n v = of_le (be_bytes n v)

pub length-le_bytes : (n v : ℕ) → length (le_bytes n v) ≡ n
length-le_bytes zero v = refl
length-le_bytes (suc n) v = ap suc (length-le_bytes n (v / 256))

pub le_bytes-IsByte : (n v : ℕ) → All IsByte (le_bytes n v)
le_bytes-IsByte zero v = tt
le_bytes-IsByte (suc n) v = (omega arith, le_bytes-IsByte n (v / 256))

pub le_bytes-of_le : (bs : List ℕ) → All IsByte bs → le_bytes (length bs) (of_le bs) ≡ bs
le_bytes-of_le [] h = refl
le_bytes-of_le (b ∷ bs) h =
    let lo : (b + 256 * of_le bs) % 256 ≡ b = omega arith in
    let hi : (b + 256 * of_le bs) / 256 ≡ of_le bs = omega arith in
    rw (lo, hi) (ap (◌∷◌ b) (le_bytes-of_le bs h.1))

pub of_le-le_bytes : (n v : ℕ) → v < 256 ^ n → of_le (le_bytes n v) ≡ v
of_le-le_bytes zero v h = omega arith
of_le-le_bytes (suc n) v h =
    omega (arith, of_le-le_bytes n (v / 256) (omega (arith, pow-suc 256 n)))

pub of_le-lt : (bs : List ℕ) → All IsByte bs → of_le bs < 256 ^ length bs
of_le-lt [] h = omega arith
of_le-lt (b ∷ bs) h = omega (arith, of_le-lt bs h.1, pow-suc 256 (length bs))

pub All-append {ℓ} :
    {A : Type ℓ} (P : A → Type 0) (xs ys : List A) → All P xs → All P ys → All P (xs ++ ys)
All-append P [] ys h k = k
All-append P (x ∷ xs) ys h k = (h.0, All-append P xs ys h.1 k)

pub All-append_right : (P : ℕ → Type 0) (xs ys : List ℕ) → All P (xs ++ ys) → All P ys
All-append_right P [] ys h = h
All-append_right P (x ∷ xs) ys h = All-append_right P xs ys h.1

pub All-append_left : (P : ℕ → Type 0) (xs ys : List ℕ) → All P (xs ++ ys) → All P xs
All-append_left P [] ys h = tt
All-append_left P (x ∷ xs) ys h = (h.0, All-append_left P xs ys h.1)

pub All-drop : (P : ℕ → Type 0) (n : ℕ) (xs : List ℕ) → All P xs → All P (drop n xs)
All-drop P zero xs h = h
All-drop P (suc n) [] h = h
All-drop P (suc n) (x ∷ xs) h = All-drop P n xs h.1

pub All-reverse : (P : ℕ → Type 0) (xs : List ℕ) → All P xs → All P (reverse xs)
All-reverse P [] h = tt
All-reverse P (x ∷ xs) h =
    rw (reverse-cons x xs) (All-append P (reverse xs) (x ∷ []) (All-reverse P xs h.1) (h.0, tt))

pub length-be_bytes : (n v : ℕ) → length (be_bytes n v) ≡ n
length-be_bytes n v = length-reverse (le_bytes n v) ∙ length-le_bytes n v

pub be_bytes-IsByte : (n v : ℕ) → All IsByte (be_bytes n v)
be_bytes-IsByte n v = All-reverse IsByte (le_bytes n v) (le_bytes-IsByte n v)

pub byte_swap-lt : (n v : ℕ) → byte_swap n v < 256 ^ n
unfolding byte_swap
byte_swap-lt n v =
    subst (λ (k : ℕ). byte_swap n v < 256 ^ k) (length-be_bytes n v)
      (of_le-lt (be_bytes n v) (be_bytes-IsByte n v))

-- In memory a swapped word is the big-endian word.
pub le_bytes-byte_swap : (n v : ℕ) → le_bytes n (byte_swap n v) ≡ be_bytes n v
unfolding byte_swap
le_bytes-byte_swap n v =
    subst (λ (k : ℕ). le_bytes k (byte_swap n v) ≡ be_bytes n v) (length-be_bytes n v)
      (le_bytes-of_le (be_bytes n v) (be_bytes-IsByte n v))

pub byte_swap-byte_swap : (n v : ℕ) → v < 256 ^ n → byte_swap n (byte_swap n v) ≡ v
unfolding byte_swap
byte_swap-byte_swap n v h =
    ap (λ bs. of_le (reverse bs)) (le_bytes-byte_swap n v)
    ∙ ap of_le (reverse-reverse (le_bytes n v))
    ∙ of_le-le_bytes n v h

-- A big-endian word read from memory and swapped is the word that was written.
pub byte_swap-of_le-be_bytes : (n v : ℕ) → v < 256 ^ n → byte_swap n (of_le (be_bytes n v)) ≡ v
byte_swap-of_le-be_bytes n v h =
    rw (← le_bytes-byte_swap n v, of_le-le_bytes n (byte_swap n v) (byte_swap-lt n v))
      (byte_swap-byte_swap n v h)

-- `n` bytes of the buffer from `off` on.
unfoldable pub read_bytes : ℕ → ℕ → List ℕ → Option (List ℕ)
read_bytes off n xs = do (front, rest) ← split_at? off xs; (mid, back) ← split_at? n rest; some mid

-- The buffer with `bs` written over it from `off` on.
unfoldable pub write_bytes : ℕ → List ℕ → List ℕ → Option (List ℕ)
write_bytes off bs xs = do
  (front, rest) ← split_at? off xs
  (mid, back) ← split_at? (length bs) rest
  some (front ++ (bs ++ back))

pub read_bytes-append :
    (off n : ℕ) (front mid back : List ℕ)
    → length front ≡ off
    → length mid ≡ n
    → read_bytes off n (front ++ (mid ++ back)) ≡ some mid
unfolding read_bytes
read_bytes-append off n front mid back h k =
    rw (split_at?-append off front (mid ++ back) h) (rw (split_at?-append n mid back k))

pub write_bytes-append :
    (off : ℕ) (front mid bs back : List ℕ)
    → length front ≡ off
    → length mid ≡ length bs
    → write_bytes off bs (front ++ (mid ++ back)) ≡ some (front ++ (bs ++ back))
unfolding write_bytes
write_bytes-append off front mid bs back h k =
    rw (split_at?-append off front (mid ++ back) h) (rw (split_at?-append (length bs) mid back k))

-- Bytes read as a word and swapped are the big-endian bytes of the result.
pub be_bytes-byte_swap : (n v : ℕ) → be_bytes n (byte_swap n v) ≡ le_bytes n v
be_bytes-byte_swap n v = ap reverse (le_bytes-byte_swap n v) ∙ reverse-reverse (le_bytes n v)
