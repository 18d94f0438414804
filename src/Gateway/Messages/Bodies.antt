-- ===== src/Gateway/Messages/Bodies.antt =====
-- The body of a response is read whole, or refused by its size.
use hivepoint_backend.Common.{
  ℕ, ◌+◌, ◌≤◌, ◌≡◌, refl, inl, inr, none, some, List, [], ◌∷◌, ◌++◌, length, leb, arith, Bool, true,
  false, not, is_some, or_else, Option-cases, Bool-cases, if◌then◌else◌,
}
use mathlib.Core.List.{append_assoc}
use hivepoint_backend.Errors.{ok, throw, app_error, external_error, gateway_response_body_too_large}
use hivepoint_backend.Gateway.Messages.{
  Chunk, data_chunk, empty_chunk, broken, Upstream, Platform, assert_response_body_size,
  read_chunks, non_empty, read_response_body,
}

-- The bytes that a stream gives before its end, or before it breaks.
abbrev pub bytes_of : List Chunk → List ℕ
bytes_of [] = []
bytes_of (empty_chunk ∷ rest) = bytes_of rest
bytes_of (broken ∷ rest) = []
bytes_of (data_chunk chunk ∷ rest) = chunk ++ bytes_of rest

-- A stream that breaks.
abbrev pub is_broken : List Chunk → Bool
is_broken [] = false
is_broken (empty_chunk ∷ rest) = is_broken rest
is_broken (broken ∷ rest) = true
is_broken (data_chunk chunk ∷ rest) = is_broken rest

-- The bytes of a response, as a stream or as a buffer, and whether reading them throws.
abbrev pub response_bytes : Upstream → List ℕ
response_bytes response = elim response.body [
  | none ↦ or_else response.buffer []
  | some chunks ↦ bytes_of chunks
]

abbrev pub is_unreadable : Upstream → Bool
is_unreadable response = elim response.body [
  | none ↦ not (is_some response.buffer)
  | some chunks ↦ is_broken chunks
]

length-append : (a b : List ℕ) → length (a ++ b) ≡ length a + length b
length-append [] b = omega arith
length-append (x ∷ a) b = omega (arith, length-append a b)

append_nil : (a : List ℕ) → a ++ [] ≡ a
append_nil [] = refl
append_nil (x ∷ a) = cc (append_nil a)

module _ (platform : Platform) where
  read_chunks_lem :
      (chunks : List Chunk) (total : ℕ) (read : List ℕ)
      → total ≤ platform.gateway_response_body_limit_bytes
      → read_chunks platform chunks total read ≡ (
          if leb (total + length (bytes_of chunks)) platform.gateway_response_body_limit_bytes
          then (if is_broken chunks then throw external_error else ok (read ++ bytes_of chunks))
          else throw (app_error gateway_response_body_too_large 502))
  unfolding read_chunks assert_response_body_size
  read_chunks_lem [] total read h = ground (arith, h, append_nil read)
  read_chunks_lem (empty_chunk ∷ rest) total read h = read_chunks_lem rest total read h
  read_chunks_lem (broken ∷ rest) total read h = ground (arith, h)
  read_chunks_lem (data_chunk chunk ∷ rest) total read h =
      elim (Bool-cases (leb (total + length chunk) platform.gateway_response_body_limit_bytes)) [
        | inl fits ↦ ground (
          arith,
          fits,
          read_chunks_lem rest (total + length chunk) (read ++ chunk),
          length-append chunk (bytes_of rest),
          append_assoc read chunk (bytes_of rest),
        )
        | inr big ↦ ground (arith, big, length-append chunk (bytes_of rest))
      ]

  -- Reading the body of a response, however it is cut into chunks: where the bytes that it gives are
  -- beyond the limit, it is refused with 502; otherwise an error of the reader is thrown, and
  -- without one all of its bytes are read (nothing where there are none).
  pub read_response_body_lem :
      (response : Upstream)
      → read_response_body platform response ≡ (
          if leb (length (response_bytes response)) platform.gateway_response_body_limit_bytes
          then (if is_unreadable response
              then throw external_error
              else ok (non_empty platform (response_bytes response)))
          else throw (app_error gateway_response_body_too_large 502))
  unfolding read_response_body assert_response_body_size
  read_response_body_lem response = elim (Option-cases response.body) [
    | inl whole ↦ elim (Option-cases response.buffer) [
      | inl away ↦ ground (arith, whole, away)
      | inr (bytes, came) ↦ ground (arith, whole, came)
    ]
    | inr (chunks, streamed) ↦ ground (arith, streamed, read_chunks_lem chunks 0 [])
  ]
