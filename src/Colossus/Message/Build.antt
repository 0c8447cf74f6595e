-- ===== src/Colossus/Message/Build.antt =====
-- Messages that are built for sending, in the ways in which radar_client.cpp builds them.
use navtechradar.Base.{
  ℕ, ◌+◌, ◌^◌, ◌<◌, ◌≡◌, arith, true, false, List, [], ◌++◌, Option, some, ◌>>=◌,
}
use navtechradar.Base.{length, length-append}
use navtechradar.IpAddress.{IpAddress}
use navtechradar.Colossus.Kind.{Kind, code}
use navtechradar.Colossus.Message.{Message, new, set_kind, append, append_header, relinquish}
use navtechradar.Colossus.Message.Wire.{
  wire, header, message, new-header, set_kind-header, append-header, append_header-fresh,
  append_header-moves, relinquish-header,
}

-- Message msg { }; msg.type(k); and what relinquish() then gives to the socket.
abbrev pub typed : IpAddress → ℕ → Kind → Option Message
typed a i k = do m ← new a i; set_kind k m

abbrev pub sent : Option Message → Option (List ℕ)
sent built = do m ← built; (bytes, left) ← relinquish m; some bytes

module _ (a : IpAddress) (i : ℕ) (k : Kind) where
  typed_lem : typed a i k ≡ some (message a i false (header (code k) 0))
  typed_lem = rw (new-header a i, set_kind-header a i k false 0 0 [])

  -- A message of a type with nothing appended is sent as the header with payload size 0.
  pub sent-typed : sent (typed a i k) ≡ some (wire (code k) [])
  sent-typed = rw (typed_lem, relinquish-header a i false (code k) 0 [])

  -- What is sent of a new message with a type to which a protocol buffer `p` of less than 2^32 bytes
  -- was appended: the header of the type with the size of `p`, and `p`.
  pub sent-append :
      (p : List ℕ) → length p < 2 ^ 32 → sent (typed a i k >>= append p) ≡ some (wire (code k) p)
  sent-append p small = rw (
    typed_lem,
    append-header a i false (code k) 0 [] p small,
    relinquish-header a i true (code k) (length p) p,
  )

  -- What is sent of a new message with a type and a message header `h` of less than 2^32 bytes: the
  -- header of the type with the size of `h`, and `h`.
  pub sent-append_header :
      (h : List ℕ)
      → length h < 2 ^ 32
      → sent (typed a i k >>= append_header h) ≡ some (wire (code k) h)
  sent-append_header h small = rw (
    typed_lem,
    append_header-fresh a i (code k) h small,
    relinquish-header a i false (code k) (length h) h,
  )

  -- If a message header and a protocol buffer of less than 2^32 bytes together were both appended to
  -- a new message with a type, the header stands before the buffer on the wire, whichever of the two
  -- was appended first, and the payload size is that of both.
  pub sent_either_order :
      (h p : List ℕ)
      → length h + length p < 2 ^ 32
      → (sent (typed a i k >>= λ m. append_header h m >>= append p) ≡ some (wire (code k) (h ++ p)))
        × (sent (typed a i k >>= λ m. append p m >>= append_header h)
            ≡ some (wire (code k) (h ++ p)))
  sent_either_order h p small =
      let both : length (h ++ p) < 2 ^ 32 = omega (arith, length-append h p) in
      (
        rw (
          typed_lem,
          append_header-fresh a i (code k) h (omega arith),
          append-header a i false (code k) (length h) h p both,
          relinquish-header a i true (code k) (length (h ++ p)) (h ++ p),
        ),
        rw (
          typed_lem,
          append-header a i false (code k) 0 [] p (omega arith),
          append_header-moves a i (code k) p h both,
          relinquish-header a i true (code k) (length (h ++ p)) (h ++ p),
        ),
      )
