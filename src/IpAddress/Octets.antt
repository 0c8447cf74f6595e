-- ===== src/IpAddress/Octets.antt =====
-- What one octet of an address in text stands for.
use navtechradar.Base.{
  ℕ, ◌+◌, ◌-◌, ◌*◌, ◌<◌, ◌≡◌, ◌≢◌, refl, arith, true, List, [], ◌∷◌, ◌++◌, some,
}
use navtechradar.Base.{ltb, ◌==◌, if◌then◌else◌, All}
use navtechradar.IpAddress.{dot, decimal, is_octet, line_of, digits_value, stoi}

-- The value of a part: decimal, but octal behind a leading 0, up to the first 8 or 9.
abbrev pub octet_value : List ℕ → ℕ
octet_value (a ∷ []) = a - b'0'
octet_value (a ∷ b ∷ []) =
    if a == b'0' then (if ltb b b'8' then b - b'0' else 0) else 10 * (a - b'0') + (b - b'0')
octet_value (a ∷ b ∷ c ∷ []) =
    if a == b'0'
    then (if ltb b b'8' then (if ltb c b'8' then 8 * (b - b'0') + (c - b'0') else b - b'0') else 0)
    else 100 * (a - b'0') + 10 * (b - b'0') + (c - b'0')
octet_value part = 0

abbrev pub IsPart : ℕ → Type 0
IsPart c = c ≢ dot

pub is_octet-IsPart : (p : List ℕ) → is_octet p ≡ true → All IsPart p
unfolding is_octet
is_octet-IsPart [] h = cc
is_octet-IsPart (a ∷ []) h = (ground arith, tt)
is_octet-IsPart (a ∷ b ∷ []) h = (ground arith, (ground arith, tt))
is_octet-IsPart (a ∷ b ∷ c ∷ []) h = (ground arith, (ground arith, (ground arith, tt)))
is_octet-IsPart (a ∷ b ∷ c ∷ d ∷ p) h = cc

-- An octet that validate() lets through is read as this value, and the value is a byte.
pub stoi-octet :
    (p : List ℕ) → is_octet p ≡ true → (stoi p ≡ some (octet_value p)) × (octet_value p < 256)
unfolding is_octet stoi digits_value
stoi-octet [] h = cc
stoi-octet (a ∷ []) h = (ground arith, ground arith)
stoi-octet (a ∷ b ∷ []) h = (ground arith, ground arith)
stoi-octet (a ∷ b ∷ c ∷ []) h = (ground arith, ground arith)
stoi-octet (a ∷ b ∷ c ∷ d ∷ p) h = cc

-- A byte as to_string() prints it is an octet with its value.
pub decimal-octet :
    (b : ℕ) → b < 256 → (is_octet (decimal b) ≡ true) × (octet_value (decimal b) ≡ b)
unfolding is_octet decimal
decimal-octet b h = (ground arith, ground arith)

pub line_of-part : (p rest : List ℕ) → All IsPart p → line_of (p ++ (dot ∷ rest)) ≡ (p, rest)
unfolding line_of
line_of-part [] rest h = refl
line_of-part (c ∷ p) rest (hc, h) = ground (arith, line_of-part p rest h)

pub line_of-last : (p : List ℕ) → All IsPart p → line_of p ≡ (p, [])
unfolding line_of
line_of-last [] h = refl
line_of-last (c ∷ p) (hc, h) = ground (arith, line_of-last p h)
