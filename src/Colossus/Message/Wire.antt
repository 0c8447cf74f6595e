-- ===== src/Colossus/Message/Wire.antt =====
-- The format on the wire, apart from any buffer, and what each operation of Message does to a
-- buffer in that format.
use navtechradar.Base.{
  ℕ, zero, suc, ◌+◌, ◌-◌, ◌%◌, ◌^◌, ◌<◌, ◌≡◌, refl, ap, arith, Bool, true, false,
}
use navtechradar.Base.{List, [], ◌∷◌, ◌++◌, append-nil, some}
use navtechradar.Base.{length, take, replicate, length-append, length-replicate, split_long}
use navtechradar.Base.Bytes.{
  be_bytes, read_bytes, write_bytes, read_bytes-append, write_bytes-append, le_bytes-byte_swap,
  byte_swap-of_le-be_bytes,
}
use Prim.Native.Nat.add
use native.Mathlib.Nat.{add-sub_cancel_left}
use navtechradar.IpAddress.{IpAddress}
use navtechradar.Colossus.Kind.{Kind, code}
use navtechradar.Colossus.Message.{
  Message, signature, version, header_size, resize, new, set_kind, kind, payload_size,
  update_payload_size, append, move_payload_back, append_header, relinquish,
}

-- The TCP message header for a type code and a payload size.
abbrev pub header : ℕ → ℕ → List ℕ
header id n = signature ++ (version ∷ id ∷ be_bytes 4 n)

-- A whole message: the header, and the payload whose size the header gives.
abbrev pub wire : ℕ → List ℕ → List ℕ
wire id payload = header id (length payload) ++ payload

module _ (a : IpAddress) (i : ℕ) where
  abbrev pub message : Bool → List ℕ → Message
  message hp bs = record { address = a; identity = i; has_protobuf = hp; bytes = bs }

  pub new-header : new a i ≡ some (message false (header 0 0))
  unfolding new write_bytes
  new-header = refl

  pub set_kind-header :
      (k : Kind) (hp : Bool) (id n : ℕ) (p : List ℕ)
      → set_kind k (message hp (header id n ++ p)) ≡ some (message hp (header (code k) n ++ p))
  unfolding set_kind write_bytes
  set_kind-header k hp id n p = refl

  pub kind-header :
      (hp : Bool) (id n : ℕ) (p : List ℕ) → kind (message hp (header id n ++ p)) ≡ some id
  unfolding kind
  kind-header hp id n p = refl

  pub payload_size-header :
      (hp : Bool) (id n : ℕ) (p : List ℕ)
      → n < 2 ^ 32
      → payload_size (message hp (header id n ++ p)) ≡ some n
  unfolding payload_size read_bytes
  payload_size-header hp id n p h = ap some (byte_swap-of_le-be_bytes 4 n h)

  pub update_payload_size-header :
      (hp : Bool) (id n : ℕ) (p : List ℕ)
      → length p < 2 ^ 32
      → update_payload_size (message hp (header id n ++ p)) ≡ some (message hp (wire id p))
  unfolding update_payload_size write_bytes
  update_payload_size-header hp id n p h =
      let size : (length (header id n ++ p) - header_size) % 2 ^ 32 ≡ length p = omega arith in
      rw size (
        ap (λ bs. some (message hp (signature ++ (version ∷ id ∷ (bs ++ p)))))
          (le_bytes-byte_swap 4 (length p)))

  pub append-header :
      (hp : Bool) (id n : ℕ) (p q : List ℕ)
      → length (p ++ q) < 2 ^ 32
      → append q (message hp (header id n ++ p)) ≡ some (message true (wire id (p ++ q)))
  unfolding append
  append-header hp id n p q h = rw (update_payload_size-header hp id n (p ++ q) h)

  pub relinquish-header :
      (hp : Bool) (id n : ℕ) (p : List ℕ)
      → relinquish (message hp (header id n ++ p)) ≡ some (header id n ++ p, message hp [])
  unfolding relinquish write_bytes
  relinquish-header hp id n p = refl

replicate_zeros : (k : ℕ) → length (replicate {A = ℕ} k 0) ≡ k
replicate_zeros k = length-replicate k 0

-- The bytes of a freshly grown payload, split where the old payload is moved to.
grow_payload :
    (p : List ℕ) (k : ℕ)
    → (q : List ℕ) × (r : List ℕ) × (p ++ replicate k 0 ≡ q ++ r)
      × (length q ≡ k)
      × (length r ≡ length p)
grow_payload p k =
    let all : length (p ++ replicate k 0) ≡ length p + k =
      omega (arith, length-append p (replicate k 0), replicate_zeros k) in
    let (q, r, e, n) = split_long k (p ++ replicate k 0) (omega arith) in
    (q, r, e, n, omega (arith, length-append q r, ap length e))

take-nil : (n : ℕ) → take {A = ℕ} n [] ≡ []
take-nil zero = refl
take-nil (suc n) = refl

take-length : (k : ℕ) (xs : List ℕ) → take (length xs + k) xs ≡ xs
take-length k [] = take-nil (0 + k)
take-length k (x ∷ xs) = simp add.suc (ap (◌∷◌ x) (take-length k xs))

pub resize-grow : (k : ℕ) (xs : List ℕ) → resize (length xs + k) xs ≡ xs ++ replicate k 0
resize-grow k xs = rw (take-length k xs, add-sub_cancel_left (length xs) k)

module _ (a : IpAddress) (i : ℕ) where
  move_payload_back-header :
      (id : ℕ) (p : List ℕ) (k : ℕ)
      → length p < 2 ^ 32
      → (q : List ℕ) × (length q ≡ k)
        × (move_payload_back (message a i true (header id (length p) ++ (p ++ replicate k 0)))
            ≡ some (message a i true (header id (length p) ++ (q ++ p))))
  unfolding move_payload_back
  move_payload_back-header id p k h =
      let h0 : List ℕ = header id (length p) in
      let (q, r, e, n, n') = grow_payload p k in
      let at : length (h0 ++ (p ++ replicate k 0)) - length p ≡ length (h0 ++ q) =
        omega (arith, length-append p (replicate k 0), replicate_zeros k) in
      let moved : write_bytes (length (h0 ++ q)) p (h0 ++ (p ++ replicate k 0))
          ≡ some (h0 ++ (q ++ p)) =
        rw e
          (simp append-nil at (write_bytes-append (length (h0 ++ q)) (h0 ++ q) r p [] refl n')) in
      (
        q,
        n,
        rw (
          payload_size-header a i true id (length p) (p ++ replicate k 0) h,
          read_bytes-append header_size (length p) h0 p (replicate k 0) refl refl,
          at,
          moved,
        ),
      )

  -- Without a protocol buffer the new header is the whole payload.
  pub append_header-fresh :
      (id : ℕ) (h : List ℕ)
      → length h < 2 ^ 32
      → append_header h (message a i false (header id 0)) ≡ some (message a i false (wire id h))
  unfolding append_header
  append_header-fresh id h small =
      let filled : write_bytes header_size h (header id 0 ++ replicate (length h) 0)
          ≡ some (header id 0 ++ h) =
        simp append-nil at (
          write_bytes-append header_size (header id 0) (replicate (length h) 0) h [] refl
            (replicate_zeros (length h))) in
      rw (
        resize-grow (length h) (header id 0),
        filled,
        update_payload_size-header a i false id 0 h small,
      )

  -- The old payload is moved to the end of the grown buffer, and the new header goes before it.
  pub append_header-moves :
      (id : ℕ) (p h : List ℕ)
      → length (h ++ p) < 2 ^ 32
      → append_header h (message a i true (wire id p)) ≡ some (message a i true (wire id (h ++ p)))
  unfolding append_header
  append_header-moves id p h small =
      let (q, n, moved) =
        move_payload_back-header id p (length h) (omega (arith, length-append h p)) in
      rw (
        resize-grow (length h) (wire id p),
        moved,
        write_bytes-append header_size (header id (length p)) q h p refl n,
        update_payload_size-header a i true id (length p) (h ++ p) small,
      )
