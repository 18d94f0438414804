-- ===== src/Gateway/Messages/Headers.antt =====
-- The gateway keeps its own headers to itself: neither the caller's key nor the headers of the
-- connection pass, in either direction.
use hivepoint_backend.Common.{
  ◌≡◌, refl, subst, ◌∙◌, inl, inr, String, true, false, none, List, [], ◌∷◌, ◌||◌, is_some, str_eq,
  eq_iff, arith, Bool-cases,
}
use hivepoint_backend.Errors.{ok, Result-cases}
use hivepoint_backend.Gateway.Messages.{
  Platform, blocked_request_headers, is_in, set_header, get_header, forward_header, forward_headers,
  build_request_headers,
}

-- Setting one header leaves every other one as it is.
set_header_other :
    (name other value : String) (headers : List (String × String))
    → str_eq name other ≡ false
    → get_header other (set_header name value headers) ≡ get_header other headers
set_header_other name other value [] h = ground (arith, h)
set_header_other name other value ((n, v) ∷ rest) h = ground (
  arith,
  h,
  eq_iff n name,
  eq_iff n other,
  eq_iff name other,
  set_header_other name other value rest h,
)

-- A blocked name is another one than a name that is not blocked.
apart :
    (names : List String) (name blocked : String)
    → is_in names blocked ≡ true
    → is_in names name ≡ false
    → str_eq name blocked ≡ false
apart names name blocked h k = elim (Bool-cases (str_eq name blocked)) [
  | inr differ ↦ differ
  | inl same ↦ absurd (
      ground (
        arith,
        h,
        k,
        subst (λ (n : String). is_in names n ≡ false) ((eq_iff name blocked).0 same) k,
      ))
]

module _ (platform : Platform) where
  forward_header_blocked :
      (name key value : String) (sent next : List (String × String))
      → is_in blocked_request_headers name ≡ true
      → get_header name sent ≡ none
      → forward_header platform key value sent ≡ ok next
      → get_header name next ≡ none
  unfolding forward_header
  forward_header_blocked name key value sent next h k e =
      let n = platform.to_lower_case key in
      elim (Bool-cases (str_eq value "" || is_in blocked_request_headers n)) [
        | inl dropped ↦ ground (arith, e, dropped, k)
        | inr passed ↦ elim (Bool-cases (platform.accepts_header key value)) [
          | inl accepted ↦
              let same : next ≡ set_header n value sent = ground (arith, e, passed, accepted) in
              rw same (
                set_header_other n name value sent
                  (apart blocked_request_headers n name h (ground (arith, passed)))
                ∙ k)
          | inr refused ↦ absurd (ground (arith, e, passed, refused))
        ]
      ]

  forward_headers_blocked :
      (name : String) (headers sent next : List (String × String))
      → is_in blocked_request_headers name ≡ true
      → get_header name sent ≡ none
      → forward_headers platform headers sent ≡ ok next
      → get_header name next ≡ none
  unfolding forward_headers
  forward_headers_blocked name [] sent next h k e = ground (arith, e, k)
  forward_headers_blocked name ((key, value) ∷ rest) sent next h k e =
      elim (Result-cases (forward_header platform key value sent)) [
        | inl (f, refused) ↦ absurd (ground (arith, e, refused))
        | inr (one, passed) ↦
            forward_headers_blocked name rest one next h
              (forward_header_blocked name key value sent one h k passed)
              (ground (arith, e, passed))
      ]

  -- Of the request's headers, none is sent on that is blocked, whatever its case: not the key that
  -- the caller authorizes with, and none of the connection. Where a header is not accepted, there
  -- are none to send.
  pub build_request_headers_blocked :
      (name : String) (headers sent : List (String × String))
      → is_in blocked_request_headers name ≡ true
      → build_request_headers platform headers ≡ ok sent
      → get_header name sent ≡ none
  unfolding build_request_headers
  build_request_headers_blocked name headers sent h e =
      elim (Result-cases (forward_headers platform headers [])) [
        | inl (f, refused) ↦ absurd (ground (arith, e, refused))
        | inr (given, passed) ↦
            let kept = forward_headers_blocked name headers [] given h refl passed in
            elim (Bool-cases (is_some (get_header "accept" given))) [
              | inl asked ↦ ground (arith, e, passed, asked, kept)
              | inr unasked ↦
                  let other =
                    set_header_other "accept" name "application/json, text/plain;q=0.9, */*;q=0.1"
                      given (apart blocked_request_headers "accept" name h refl) in
                  ground (arith, e, passed, unasked, kept, other)
            ]
      ]
