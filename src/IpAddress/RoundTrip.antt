-- ===== src/IpAddress/RoundTrip.antt =====
-- Addresses through text, and through the two byte orders.
use navtechradar.Base.{
  ℕ, zero, suc, ◌+◌, ◌*◌, ◌^◌, ◌<◌, ◌≡◌, refl, sym, ap, ◌∙◌, arith, Bool, true, false, ◌&&◌, List,
  [], ◌∷◌, ◌++◌, Option, none, some, ◌>>=◌,
}
use navtechradar.Base.{◌⊎◌, inl, inr}
use navtechradar.Base.Bytes.{byte_swap-byte_swap}
use navtechradar.IpAddress.{
  IpAddress, Endian, host, network, of_word, to_host_endian, to_network_endian, value_as, dot,
  decimal, byte_of, to_string, is_octet, line_of, getline, has_octets, validate, stoi, set_byte,
  parse_bytes, assign, of_string,
}
use navtechradar.IpAddress.Octets.{
  octet_value, is_octet-IsPart, stoi-octet, decimal-octet, line_of-part, line_of-last,
}

-- Four parts with a dot between each two.
abbrev pub dotted : List ℕ → List ℕ → List ℕ → List ℕ → List ℕ
dotted p q r s = p ++ (dot ∷ (q ++ (dot ∷ (r ++ (dot ∷ s)))))

abbrev pub word_of : ℕ → ℕ → ℕ → ℕ → ℕ
word_of b3 b2 b1 b0 = b0 + 256 * (b1 + 256 * (b2 + 256 * b3))

getline-part : (p rest : List ℕ) → is_octet p ≡ true → getline (p ++ (dot ∷ rest)) ≡ some (p, rest)
unfolding getline is_octet
getline-part [] rest h = cc
getline-part (c ∷ p) rest h = ap some (line_of-part (c ∷ p) rest (is_octet-IsPart (c ∷ p) h))

getline-last : (p : List ℕ) → is_octet p ≡ true → getline p ≡ some (p, [])
unfolding getline is_octet
getline-last [] h = cc
getline-last (c ∷ p) h = ap some (line_of-last (c ∷ p) (is_octet-IsPart (c ∷ p) h))

validate-dotted :
    (p q r s : List ℕ)
    → is_octet p ≡ true
    → is_octet q ≡ true
    → is_octet r ≡ true
    → is_octet s ≡ true
    → validate (dotted p q r s) ≡ true
unfolding validate has_octets
validate-dotted p q r s hp hq hr hs = rw (
  line_of-part p (q ++ (dot ∷ (r ++ (dot ∷ s)))) (is_octet-IsPart p hp),
  line_of-part q (r ++ (dot ∷ s)) (is_octet-IsPart q hq),
  line_of-part r s (is_octet-IsPart r hr),
  hp,
  hq,
  hr,
  hs,
)

bytes_in :
    (b3 b2 b1 b0 w : ℕ)
    → b3 < 256
    → b2 < 256
    → b1 < 256
    → b0 < 256
    → w < 2 ^ 32
    → set_byte 0 b0 (set_byte 1 b1 (set_byte 2 b2 (set_byte 3 b3 w))) ≡ word_of b3 b2 b1 b0
unfolding set_byte
bytes_in b3 b2 b1 b0 w h3 h2 h1 h0 h = omega arith

parse_bytes-getline :
    (i : ℕ) (p rest stream : List ℕ) (w : ℕ)
    → getline stream ≡ some (p, rest)
    → is_octet p ≡ true
    → parse_bytes (suc i) stream w ≡ parse_bytes i rest (set_byte i (octet_value p) w)
unfolding parse_bytes
parse_bytes-getline i p rest stream w e h =
    ap
      (λ (o : Option (List ℕ × List ℕ)). elim o as (λ x. Option ℕ) [
        | none ↦ parse_bytes i stream w
        | some (str, later) ↦ stoi str >>= λ value. parse_bytes i later (set_byte i value w)
      ])
      e
    ∙ rw ((stoi-octet p h).0)

parse_bytes-dotted :
    (p q r s : List ℕ) (w : ℕ)
    → is_octet p ≡ true
    → is_octet q ≡ true
    → is_octet r ≡ true
    → is_octet s ≡ true
    → w < 2 ^ 32
    → parse_bytes 4 (dotted p q r s) w
      ≡ some (word_of (octet_value p) (octet_value q) (octet_value r) (octet_value s))
unfolding parse_bytes
parse_bytes-dotted p q r s w hp hq hr hs h =
    parse_bytes-getline 3 p _ _ w (getline-part p (q ++ (dot ∷ (r ++ (dot ∷ s)))) hp) hp
    ∙ parse_bytes-getline 2 q _ _ _ (getline-part q (r ++ (dot ∷ s)) hq) hq
    ∙ parse_bytes-getline 1 r _ _ _ (getline-part r s hr) hr
    ∙ parse_bytes-getline 0 s [] _ _ (getline-last s hs) hs
    ∙ ap some (
        bytes_in (octet_value p) (octet_value q) (octet_value r) (octet_value s) w
          (stoi-octet p hp).1 (stoi-octet q hq).1 (stoi-octet r hr).1 (stoi-octet s hs).1 h)

-- A text of four octets with dots between them is accepted, whatever the address was, and gives the
-- word of their four values, each a byte, the first one highest.
pub assign-dotted :
    (p q r s : List ℕ) (a : IpAddress)
    → is_octet p ≡ true
    → is_octet q ≡ true
    → is_octet r ≡ true
    → is_octet s ≡ true
    → a.word < 2 ^ 32
    → (assign (dotted p q r s) a
        ≡ some (record {
          word = word_of (octet_value p) (octet_value q) (octet_value r) (octet_value s);
        }))
      × (word_of (octet_value p) (octet_value q) (octet_value r) (octet_value s) < 2 ^ 32)
unfolding assign
assign-dotted p q r s a hp hq hr hs h =
    let (ep, bp) = stoi-octet p hp in
    let (eq, bq) = stoi-octet q hq in
    let (er, br) = stoi-octet r hr in
    let (es, bs) = stoi-octet s hs in
    (
      rw (validate-dotted p q r s hp hq hr hs, parse_bytes-dotted p q r s a.word hp hq hr hs h),
      omega arith,
    )

-- Every address is read back from its text.
pub of_string-to_string : (a : IpAddress) → a.word < 2 ^ 32 → of_string (to_string a) ≡ some a
unfolding of_string to_string
of_string-to_string a h =
    let (v3, e3) = decimal-octet (byte_of 3 a) (omega arith) in
    let (v2, e2) = decimal-octet (byte_of 2 a) (omega arith) in
    let (v1, e1) = decimal-octet (byte_of 1 a) (omega arith) in
    let (v0, e0) = decimal-octet (byte_of 0 a) (omega arith) in
    (assign-dotted (decimal (byte_of 3 a)) (decimal (byte_of 2 a)) (decimal (byte_of 1 a))
      (decimal (byte_of 0 a)) (record { word = 0 }) v3 v2 v1 v0 (omega arith)).0
    ∙ rw (e3, e2, e1, e0) (ap (λ (w : ℕ). some (record { word = w })) (omega arith))

-- An address is read back from its word in either byte order.
pub of_word-value_as : (a : IpAddress) (e : Endian) → a.word < 2 ^ 32 → of_word (value_as e a) e ≡ a
unfolding of_word value_as to_host_endian to_network_endian
of_word-value_as a host h = refl
of_word-value_as a network h = ap (λ (w : ℕ). record { word = w }) (byte_swap-byte_swap 4 a.word h)

-- What validate() lets through is four octets with dots between them.
abbrev pub IsDotted : List ℕ → Type 0
IsDotted text =
    (p : List ℕ) × (q : List ℕ) × (r : List ℕ) × (s : List ℕ) × (text ≡ dotted p q r s)
    × (is_octet p ≡ true)
    × (is_octet q ≡ true)
    × (is_octet r ≡ true)
    × (is_octet s ≡ true)

-- A text is a line and, if it has a dot, the rest behind it.
line_of-cut : (t : List ℕ) → ((line_of t).0 ++ (dot ∷ (line_of t).1) ≡ t) ⊎ ((line_of t).1 ≡ [])
unfolding line_of
line_of-cut [] = inr refl
line_of-cut (c ∷ t) = ground (arith, line_of-cut t)

has_octets-nil : (n : ℕ) → has_octets n [] ≡ false
unfolding has_octets line_of is_octet
has_octets-nil zero = refl
has_octets-nil (suc n) = refl

and_both : (b c : Bool) → b && c ≡ true → (b ≡ true) × (c ≡ true)
and_both true c h = (refl, h)
and_both false c h = cc

has_octets_cut :
    (n : ℕ) (t : List ℕ)
    → has_octets (suc n) t ≡ true
    → (is_octet (line_of t).0 ≡ true)
      × (has_octets n (line_of t).1 ≡ true)
      × (t ≡ (line_of t).0 ++ (dot ∷ (line_of t).1))
unfolding has_octets
has_octets_cut n t h =
    let (first, later) = and_both (is_octet (line_of t).0) (has_octets n (line_of t).1) h in
    elim (line_of-cut t) [
      | inl cut ↦ (first, later, sym cut)
      | inr end ↦ absurd (cc (later, ap (has_octets n) end, has_octets-nil n))
    ]

-- A text that validate() lets through is four octets with dots between them.
pub validate_sound : (text : List ℕ) → validate text ≡ true → IsDotted text
unfolding validate has_octets
validate_sound text h =
    let (hp, h2, ep) = has_octets_cut 2 text h in
    let (hq, h1, eq) = has_octets_cut 1 (line_of text).1 h2 in
    let (hr, h0, er) = has_octets_cut 0 (line_of (line_of text).1).1 h1 in
    (
      (line_of text).0,
      (line_of (line_of text).1).0,
      (line_of (line_of (line_of text).1).1).0,
      (line_of (line_of (line_of text).1).1).1,
      ep
          ∙ ap (λ (t : List ℕ). (line_of text).0 ++ (dot ∷ t))
              (eq ∙ ap (λ (t : List ℕ). (line_of (line_of text).1).0 ++ (dot ∷ t)) er),
      hp,
      hq,
      hr,
      h0,
    )
