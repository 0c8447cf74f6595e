-- ===== src/Colossus/Message/Valid.antt =====
-- When is_valid() holds, and which buffers it can be asked about.
use navtechradar.Base.{
  ℕ, ◌<◌, ◌≡◌, refl, sym, ap, ◌∙◌, arith, Bool, true, List, [], ◌∷◌, ◌++◌, Option, none, some,
}
use navtechradar.Base.{inl, inr, All, ◌==◌, eq→≡, eq_refl, Bool-cases}
use navtechradar.Base.Bytes.{
  IsByte, All-append_right, be_bytes, of_le, read_bytes, le_bytes-of_le, be_bytes-byte_swap,
  byte_swap-of_le-be_bytes,
}
use mathlib.Core.Path.{subst}
use navtechradar.IpAddress.{IpAddress}
use navtechradar.NetConversion.{htonl}
use navtechradar.Colossus.Message.{
  Message, signature, version, equal, is_valid, kind, payload_size, largest_payload, and_then,
}
use navtechradar.Colossus.Message.Wire.{header, message}

size_field : (n : ℕ) → n < largest_payload → htonl (of_le (be_bytes 4 n)) ≡ n
size_field n h = byte_swap-of_le-be_bytes 4 n (omega arith)

-- A header of the protocol, whatever follows it, is valid if the type code is a byte and the payload
-- size is below the limit; type() and payload_size() then return its two fields.
pub is_valid-header :
    (a : IpAddress) (i : ℕ) (hp : Bool) (id n : ℕ) (p : List ℕ)
    → id < 256
    → n < largest_payload
    → (is_valid (message a i hp (header id n ++ p)) ≡ some true)
      × (kind (message a i hp (header id n ++ p)) ≡ some id)
      × (payload_size (message a i hp (header id n ++ p)) ≡ some n)
unfolding is_valid kind payload_size read_bytes
is_valid-header a i hp id n p hid hn =
    let size : htonl (of_le (be_bytes 4 n)) ≡ n = size_field n hn in
    (ground (arith, size), refl, ap some size)

pub equal_sound : (xs ys : List ℕ) → equal xs ys ≡ some true → (rest : List ℕ) × (ys ≡ xs ++ rest)
unfolding equal
equal_sound [] ys h = (ys, refl)
equal_sound (x ∷ xs) [] h = cc
equal_sound (x ∷ xs) (y ∷ ys) h = elim (Bool-cases (x == y)) [
  | inl e ↦ let (rest, q) = equal_sound xs ys (rw e at h) in (rest, rw (eq→≡ x y e) (ap (◌∷◌ y) q))
  | inr e ↦ cc (rw e at h)
]

abbrev pub Headed : List ℕ → Type 0
Headed bs =
    (id : ℕ) × (n : ℕ) × (p : List ℕ) × (bs ≡ header id n ++ p) × (id < 256) × (n < largest_payload)

pub big_endian :
    (a b c d : ℕ)
    → a < 256
    → b < 256
    → c < 256
    → d < 256
    → be_bytes 4 (htonl (of_le (a ∷ b ∷ c ∷ d ∷ []))) ≡ a ∷ b ∷ c ∷ d ∷ []
big_endian a b c d ha hb hc hd =
    be_bytes-byte_swap 4 _ ∙ le_bytes-of_le (a ∷ b ∷ c ∷ d ∷ []) (ha, (hb, (hc, (hd, tt))))

pub six_bytes :
    (v id b0 b1 b2 b3 : ℕ) (p : List ℕ)
    → All IsByte (v ∷ id ∷ b0 ∷ b1 ∷ b2 ∷ b3 ∷ p)
    → (v < 256) × (id < 256) × (b0 < 256) × (b1 < 256) × (b2 < 256) × (b3 < 256) × All IsByte p
six_bytes v id b0 b1 b2 b3 p h =
    (h.0, h.1.0, h.1.1.0, h.1.1.1.0, h.1.1.1.1.0, h.1.1.1.1.1.0, h.1.1.1.1.1.1)

and_then-true : (x y : Option Bool) → and_then x y ≡ some true → x ≡ some true
and_then-true x y h = ground arith

module _ (a : IpAddress) (i : ℕ) (hp : Bool) where
  after_signature :
      (rest : List ℕ)
      → All IsByte rest
      → is_valid (message a i hp (signature ++ rest)) ≡ some true
      → Headed (signature ++ rest)
  unfolding is_valid equal read_bytes
  after_signature [] byte h = cc
  after_signature (v ∷ []) byte h = ground arith
  after_signature (v ∷ id ∷ []) byte h = ground arith
  after_signature (v ∷ id ∷ b0 ∷ []) byte h = ground arith
  after_signature (v ∷ id ∷ b0 ∷ b1 ∷ []) byte h = ground arith
  after_signature (v ∷ id ∷ b0 ∷ b1 ∷ b2 ∷ []) byte h = ground arith
  after_signature (v ∷ id ∷ b0 ∷ b1 ∷ b2 ∷ b3 ∷ p) byte h =
      let n : ℕ = htonl (of_le (b0 ∷ b1 ∷ b2 ∷ b3 ∷ [])) in
      let v_is : v ≡ version = ground arith in
      let n_lt : n < largest_payload = ground arith in
      let (_, id_byte, byte0, byte1, byte2, byte3, _) = six_bytes v id b0 b1 b2 b3 p byte in
      let field : be_bytes 4 n ≡ b0 ∷ b1 ∷ b2 ∷ b3 ∷ [] =
        big_endian b0 b1 b2 b3 byte0 byte1 byte2 byte3 in
      (
        id,
        n,
        p,
        rw v_is (ap (λ bs. signature ++ (version ∷ id ∷ (bs ++ p))) (sym field)),
        id_byte,
        n_lt,
      )

  valid_signature :
      (bs : List ℕ) → is_valid (message a i hp bs) ≡ some true → equal signature bs ≡ some true
  unfolding is_valid
  valid_signature [] h = cc
  valid_signature (b ∷ bs) h = and_then-true _ _ h

-- A buffer of bytes that is_valid() accepts starts with a header of the protocol whose type code is a
-- byte and whose payload size is below the limit.
pub is_valid_sound : (m : Message) → All IsByte m.bytes → is_valid m ≡ some true → Headed m.bytes
is_valid_sound m byte h =
    let (rest, e) =
      equal_sound signature m.bytes
        (valid_signature m.address m.identity m.has_protobuf m.bytes h) in
    let found : Headed (signature ++ rest) =
      after_signature m.address m.identity m.has_protobuf rest
        (All-append_right IsByte signature rest (subst (All IsByte) e byte))
        (subst (λ bs. is_valid (message m.address m.identity m.has_protobuf bs) ≡ some true) e h) in
    subst Headed (sym e) found

equal-cut : (front : List ℕ) (c : ℕ) (back : List ℕ) → equal (front ++ (c ∷ back)) front ≡ none
unfolding equal
equal-cut [] c back = refl
equal-cut (x ∷ front) c back = rw (eq_refl x) (equal-cut front c back)

and_then-none : (x y : Option Bool) → x ≡ none → and_then x y ≡ none
and_then-none x y h = ground arith

-- is_valid() reads past the end of a buffer that holds a proper, not empty, front part of the
-- signature.
pub is_valid_cut :
    (a : IpAddress) (i : ℕ) (hp : Bool) (b c : ℕ) (front back : List ℕ)
    → (b ∷ front) ++ (c ∷ back) ≡ signature
    → is_valid (message a i hp (b ∷ front)) ≡ none
unfolding is_valid
is_valid_cut a i hp b c front back e =
    and_then-none _ _ (subst (λ s. equal s (b ∷ front) ≡ none) e (equal-cut (b ∷ front) c back))
