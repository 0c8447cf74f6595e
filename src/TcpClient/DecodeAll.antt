-- ===== src/TcpClient/DecodeAll.antt =====
-- Every stream of bytes can be cut into messages up to a part that is not whole.
use navtechradar.Base.{
  ℕ, zero, suc, ◌+◌, ◌<◌, ◌≤◌, ◌^◌, ◌≡◌, ◌≢◌, ◌⊎◌, inl, inr, refl, sym, ap, ◌∙◌, subst, arith, true,
  false, List, [], ◌∷◌, ◌++◌, some,
}
use navtechradar.Base.{
  length, length-append, take, drop, take-append-drop, All, ◌==◌, eq→≡, eq_refl, ltb, Bool-cases,
}
use navtechradar.Base.Bytes.{IsByte, All-append_right, All-drop, byte_swap-lt, be_bytes, of_le}
use navtechradar.NetConversion.{htonl}
use navtechradar.Colossus.Message.{signature, version, largest_payload, header_size, equal}
use navtechradar.Colossus.Message.Wire.{wire}
use navtechradar.Colossus.Message.Valid.{equal_sound, big_endian, six_bytes}
use navtechradar.ThreadedQueue.{Queue, max_queue_depth}
use navtechradar.ThreadedQueue.Course.{IsRunning}
use navtechradar.Socket.{Arrival}
use navtechradar.TcpClient.{Client}
use navtechradar.TcpClient.Reader.{read_thread}
use navtechradar.TcpClient.Frames.{at}
use navtechradar.TcpClient.Queued.{all_wires, enqueue_all-filled}
use navtechradar.TcpClient.Decode.{
  rounds, decode_answers, read_thread-Decodes, Decodes, stops, noise, skips, takes, header_with,
  equal-total, length-take,
}

-- Less than a header, or a valid header with less than its payload behind it.
abbrev pub IsPartial : List ℕ → Type 0
IsPartial s =
    (length s < header_size)
    ⊎ ((id : ℕ) × (n : ℕ) × (p : List ℕ) × (s ≡ header_with version id n ++ p)
        × (n < largest_payload)
        × (length p < n))

abbrev pub IsCut : List ℕ → Type 0
IsCut s = (ms : List (ℕ × List ℕ)) × (rest : List ℕ) × Decodes s ms rest × IsPartial rest

equal-front : (xs rest : List ℕ) → equal xs (xs ++ rest) ≡ some true
unfolding equal
equal-front [] rest = refl
equal-front (x ∷ xs) rest = rw (eq_refl x) (equal-front xs rest)

length-drop_le : (n : ℕ) (xs : List ℕ) → length (drop n xs) ≤ length xs
length-drop_le zero xs = omega arith
length-drop_le (suc n) [] = omega arith
length-drop_le (suc n) (x ∷ xs) = omega (arith, length-drop_le n xs)

-- What stands behind a signature, if it is long enough for a header.
behind_signature :
    (r : List ℕ)
    → 6 ≤ length r
    → All IsByte r
    → (v : ℕ) × (id : ℕ) × (n : ℕ) × (p : List ℕ) × (signature ++ r ≡ header_with v id n ++ p)
      × (id < 256)
      × (n < 2 ^ 32)
      × All IsByte p
      × (length p < length r)
behind_signature [] h byte = absurd (omega arith)
behind_signature (a ∷ []) h byte = absurd (omega arith)
behind_signature (a ∷ b ∷ []) h byte = absurd (omega arith)
behind_signature (a ∷ b ∷ c ∷ []) h byte = absurd (omega arith)
behind_signature (a ∷ b ∷ c ∷ d ∷ []) h byte = absurd (omega arith)
behind_signature (a ∷ b ∷ c ∷ d ∷ e ∷ []) h byte = absurd (omega arith)
behind_signature (v ∷ id ∷ b0 ∷ b1 ∷ b2 ∷ b3 ∷ p) h byte =
    let (_, hid, h0, h1, h2, h3, hp) = six_bytes v id b0 b1 b2 b3 p byte in
    let n : ℕ = htonl (of_le (b0 ∷ b1 ∷ b2 ∷ b3 ∷ [])) in
    let field : be_bytes 4 n ≡ b0 ∷ b1 ∷ b2 ∷ b3 ∷ [] = big_endian b0 b1 b2 b3 h0 h1 h2 h3 in
    (
      v,
      id,
      n,
      p,
      ap (λ bs. signature ++ (v ∷ id ∷ (bs ++ p))) (sym field),
      hid,
      byte_swap-lt 4 (of_le (b0 ∷ b1 ∷ b2 ∷ b3 ∷ [])),
      hp,
      omega arith,
    )

noise-IsCut :
    (s : List ℕ)
    → header_size ≤ length s
    → All IsByte s
    → equal signature s ≡ some false
    → ((t : List ℕ) → All IsByte t → length t < length s → IsCut t)
    → IsCut s
noise-IsCut [] h byte differs cut = absurd (omega arith)
noise-IsCut (b ∷ s) h byte differs cut =
    let (ms, rest, dec, part) = cut s byte.1 (omega arith) in
    let other : take 16 (b ∷ s) ≢ signature = λ e.
      let same : signature ++ drop 16 (b ∷ s) ≡ b ∷ s =
        ap (λ xs. xs ++ drop 16 (b ∷ s)) (sym e) ∙ take-append-drop 16 (b ∷ s) in
      let holds : equal signature (b ∷ s) ≡ some true =
        subst (λ xs. equal signature xs ≡ some true) same
          (equal-front signature (drop 16 (b ∷ s))) in
      cc (holds, differs) in
    (ms, rest, noise b s ms rest (omega arith) other dec, part)

message-IsCut :
    (id n : ℕ) (p : List ℕ)
    → id < 256
    → n < largest_payload
    → n ≤ length p
    → All IsByte p
    → ((t : List ℕ) → All IsByte t → length t ≤ length p → IsCut t)
    → IsCut (header_with version id n ++ p)
message-IsCut id n p hid hn hp byte cut =
    let size : length (take n p) ≡ n = length-take n p hp in
    let (ms, rest, dec, part) = cut (drop n p) (All-drop IsByte n p byte) (length-drop_le n p) in
    let whole : wire id (take n p) ++ drop n p ≡ header_with version id n ++ p =
      λ i. header_with version id (size i) ++ take-append-drop n p i in
    (
      (id, take n p) ∷ ms,
      rest,
      subst (λ t. Decodes t ((id, take n p) ∷ ms) rest) whole
          (takes id (take n p) (drop n p) ms rest (hid, omega arith) dec),
      part,
    )

header-IsCut :
    (v id n : ℕ) (p : List ℕ)
    → id < 256
    → n < 2 ^ 32
    → All IsByte p
    → ((t : List ℕ) → All IsByte t → length t ≤ length p → IsCut t)
    → IsCut (header_with v id n ++ p)
header-IsCut v id n p hid hn byte cut =
    let skip : (v ≢ version) ⊎ (largest_payload ≤ n) → IsCut (header_with v id n ++ p) = λ why.
      let (ms, rest, dec, part) = cut p byte (omega arith) in
      (ms, rest, skips v id n p ms rest hid hn why dec, part) in
    elim (Bool-cases (v == version)) [
      | inr other ↦ skip (inl (ground arith))
      | inl same ↦ elim (Bool-cases (ltb n largest_payload)) [
        | inr big ↦ skip (inr (ground arith))
        | inl small ↦
            subst (λ w. IsCut (header_with w id n ++ p)) (sym (eq→≡ v version same))
              (elim (Bool-cases (ltb (length p) n)) [
                | inl less ↦ ([], _, stops _, inr (id, n, p, refl, ground arith, ground arith))
                | inr enough ↦ message-IsCut id n p hid (ground arith) (ground arith) byte cut
              ])
      ]
    ]

signature-IsCut :
    (r : List ℕ)
    → 6 ≤ length r
    → All IsByte r
    → ((t : List ℕ) → All IsByte t → length t ≤ length r → IsCut t)
    → IsCut (signature ++ r)
signature-IsCut r h byte cut =
    let (v, id, n, p, header, hid, hn, bytes, shorter) = behind_signature r h byte in
    subst IsCut (sym header)
      (header-IsCut v id n p hid hn bytes (λ t bt ht. cut t bt (omega arith)))

stream-IsCut : (fuel : ℕ) (s : List ℕ) → All IsByte s → length s < fuel → IsCut s
stream-IsCut zero s byte h = absurd (omega arith)
stream-IsCut (suc fuel) s byte h = elim (Bool-cases (ltb (length s) header_size)) [
  | inl short ↦ ([], s, stops s, inl (ground arith))
  | inr long ↦
      let enough : header_size ≤ length s = ground arith in
      let (b, e) = equal-total signature s (omega arith) in
      elim (Bool-cases b) [
        | inl same ↦
            let (r, found) = equal_sound signature s (e ∙ ap some same) in
            let size : length s ≡ 16 + length r =
              ap (λ (xs : List ℕ). length xs) found ∙ length-append signature r in
            subst IsCut (sym found) (
              signature-IsCut r (omega arith)
                (All-append_right IsByte signature r (subst (All IsByte) found byte))
                (λ t bt ht. stream-IsCut fuel t bt (omega arith)))
        | inr differs ↦
            noise-IsCut s enough byte (e ∙ ap some differs)
              (λ t bt ht. stream-IsCut fuel t bt (omega arith))
      ]
]

-- Every stream of bytes can be cut into messages so that what is left is less than a header, or a
-- valid header with less than its payload behind it; and the read thread, given the rounds and the
-- answers of recv that the cut takes, comes to the end of that cut. If the queue's thread runs, takes
-- no item meanwhile, and the items are at most one more than max_queue_depth, the queue then has its
-- items and behind them the messages, whole and in order, as far as these are together at most one more
-- than max_queue_depth; the messages after that are dropped.
pub read_thread-IsPartial :
    (s : List ℕ) (c : Client) (later : List Arrival) (q : Queue (List ℕ)) (fuel : ℕ)
    → All IsByte s
    → IsRunning q
    → length q.items ≤ suc max_queue_depth
    → (ms : List (ℕ × List ℕ)) × (rest : List ℕ) × (cut : Decodes s ms rest) × IsPartial rest
      × (read_thread (rounds cut + fuel) (at c s (decode_answers cut later) q)
          ≡ read_thread fuel (
              at c rest later
                (record q { items = take (suc max_queue_depth) (q.items ++ all_wires ms) })))
read_thread-IsPartial s c later q fuel byte running few =
    let (ms, rest, cut, part) = stream-IsCut (suc (length s)) s byte (omega arith) in
    (
      ms,
      rest,
      cut,
      part,
      read_thread-Decodes c s ms rest cut later q fuel
          ∙ ap (λ held. read_thread fuel (at c rest later held))
              (enqueue_all-filled ms q running few),
    )
