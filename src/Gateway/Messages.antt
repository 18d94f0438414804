-- ===== src/Gateway/Messages.antt =====
-- The messages that the gateway passes on, of src/modules/gateway/gateway.service.ts: headers in
-- both directions, the body of the request and the body of the response.
pub mod Bodies
pub mod Headers
use hivepoint_backend.Common.{
  ℕ, ◌+◌, String, Bool, true, false, Option, none, some, List, [], ◌∷◌, ◌++◌, ◌&&◌, ◌||◌, ◌==◌, not,
  leb, any, length, str_eq, includes, or_else, is_some, if◌then◌else◌,
}
use hivepoint_backend.Errors.{
  Result, ok, throw, app_error, external_error, throw_if, ◌>>=◌, gateway_request_body_too_large,
  gateway_response_body_too_large,
}

pub data Method : Type 0 where
  get post put patch delete : Method

-- The body of a request as the service tells its kinds apart; the views and buffers of binary data
-- are their bytes.
pub data RequestBody : Type 0 where
  undefined : RequestBody
  text : String → RequestBody
  binary : List ℕ → RequestBody
  other : String → RequestBody

-- A body that is sent; the JSON text of any other value is `other`'s.
pub data SentBody : Type 0 where
  no_body : SentBody
  text_body : String → SentBody
  binary_body : List ℕ → SentBody

-- What `reader.read()` gives before the end: bytes, nothing, or an error that it throws.
pub data Chunk : Type 0 where
  data_chunk : List ℕ → Chunk
  empty_chunk broken : Chunk

-- The answer of `fetch`. `body` is none where the response has no stream, and `buffer` is then its
-- `arrayBuffer()`, none where that throws.
pub record Upstream : Type 0 where
  pub ok_flag : Bool
  pub status : ℕ
  pub headers : List (String × String)
  pub body : Option (List Chunk)
  pub buffer : Option (List ℕ)

-- `GatewayBodyEncoding`
pub data BodyEncoding : Type 0 where
  json text base64 : BodyEncoding

-- `parsedBody`: what `JSON.parse` made of a text is that text.
pub record ParsedBody : Type 0 where
  pub parsed_body : Option String
  pub raw_body : Option (List ℕ)
  pub body_encoding : Option BodyEncoding

-- The platform's encodings, and the settings GATEWAY_*_BODY_LIMIT_BYTES.
pub record Platform : Type 0 where
  pub to_lower_case : String → String
  pub trim : String → String
  pub byte_length : String → ℕ
  pub utf8_text : List ℕ → String
  pub base64_text : List ℕ → String
  pub is_json_text : String → Bool
  pub accepts_header : String → String → Bool
  pub gateway_request_body_limit_bytes : ℕ
  pub gateway_response_body_limit_bytes : ℕ

abbrev pub blocked_request_headers : List String
blocked_request_headers =
    "connection" ∷ "content-length" ∷ "host" ∷ "transfer-encoding" ∷ "x-api-key" ∷ "expect" ∷ []

abbrev pub blocked_response_headers : List String
blocked_response_headers = "connection" ∷ "content-length" ∷ "set-cookie" ∷ "transfer-encoding" ∷ []

abbrev pub text_content_type_markers : List String
text_content_type_markers =
    "text/" ∷ "/xml" ∷ "+xml" ∷ "application/javascript" ∷ "application/ecmascript"
    ∷ "application/x-www-form-urlencoded" ∷ []

abbrev pub streaming_content_type_markers : List String
streaming_content_type_markers = "text/event-stream" ∷ "application/x-ndjson" ∷ []

-- `set.has(name)`
abbrev pub is_in : List String → String → Bool
is_in names name = any (λ n. str_eq n name) names

-- `Headers.set` with a name in lower case, as `Headers` keeps it.
abbrev pub set_header : String → String → List (String × String) → List (String × String)
set_header name value [] = (name, value) ∷ []
set_header name value ((n, v) ∷ rest) =
    if str_eq n name then (n, value) ∷ rest else (n, v) ∷ set_header name value rest

-- `Headers.get`
abbrev pub get_header : String → List (String × String) → Option String
get_header name [] = none
get_header name ((n, v) ∷ rest) = if str_eq n name then some v else get_header name rest

module _ (platform : Platform) where
  open platform use {to_lower_case}

  -- One entry of the request's headers; `Headers.set` throws a TypeError where it does not accept it.
  unfoldable pub forward_header :
      String → String → List (String × String) → Result (List (String × String))
  forward_header key value sent =
      let name = to_lower_case key in
      if str_eq value "" || is_in blocked_request_headers name
      then ok sent
      else if platform.accepts_header key value
      then ok (set_header name value sent)
      else throw external_error

  -- The loop over the entries.
  unfoldable pub forward_headers :
      List (String × String) → List (String × String) → Result (List (String × String))
  forward_headers [] sent = ok sent
  forward_headers ((key, value) ∷ rest) sent = elim (forward_header key value sent) [
    | throw e ↦ throw e
    | ok next ↦ forward_headers rest next
  ]

  unfoldable pub build_request_headers : List (String × String) → Result (List (String × String))
  build_request_headers headers = elim (forward_headers headers []) [
    | throw e ↦ throw e
    | ok sent ↦ ok (
        if is_some (get_header "accept" sent)
        then sent
        else set_header "accept" "application/json, text/plain;q=0.9, */*;q=0.1" sent)
  ]

  -- `buildRequestBody`, with the headers that it may add to.
  unfoldable pub build_request_body :
      Method → RequestBody → List (String × String) → SentBody × List (String × String)
  build_request_body Method.get body headers = (no_body, headers)
  build_request_body _ undefined headers = (no_body, headers)
  build_request_body _ (RequestBody.text s) headers = (text_body s, headers)
  build_request_body _ (binary bytes) headers = (binary_body bytes, headers)
  build_request_body _ (other written) headers = (
    text_body written,
    if is_some (get_header "content-type" headers)
        then headers
        else set_header "content-type" "application/json" headers,
  )

  unfoldable pub get_body_size_bytes : SentBody → ℕ
  get_body_size_bytes no_body = 0
  get_body_size_bytes (text_body s) = platform.byte_length s
  get_body_size_bytes (binary_body bytes) = length bytes

  unfoldable pub assert_request_body_size : SentBody → Result (Unit {0})
  assert_request_body_size body =
      throw_if (not (leb (get_body_size_bytes body) platform.gateway_request_body_limit_bytes))
        (app_error gateway_request_body_too_large 413)

  unfoldable pub assert_response_body_size : ℕ → Result (Unit {0})
  assert_response_body_size size =
      throw_if (not (leb size platform.gateway_response_body_limit_bytes))
        (app_error gateway_response_body_too_large 502)

  -- The loop over the stream: the bytes of the chunks so far are `read`, and their number is
  -- checked after each chunk.
  unfoldable pub read_chunks : List Chunk → ℕ → List ℕ → Result (List ℕ)
  read_chunks [] total_bytes read = ok read
  read_chunks (empty_chunk ∷ rest) total_bytes read = read_chunks rest total_bytes read
  read_chunks (broken ∷ rest) total_bytes read = throw external_error
  read_chunks (data_chunk chunk ∷ rest) total_bytes read =
      elim (assert_response_body_size (total_bytes + length chunk)) [
        | throw e ↦ throw e
        | ok _ ↦ read_chunks rest (total_bytes + length chunk) (read ++ chunk)
      ]

  abbrev pub non_empty : List ℕ → Option (List ℕ)
  non_empty [] = none
  non_empty (byte ∷ bytes) = some (byte ∷ bytes)

  unfoldable pub read_response_body : Upstream → Result (Option (List ℕ))
  read_response_body response = elim response.body [
    | none ↦ elim response.buffer [
      | none ↦ throw external_error
      | some bytes ↦ (assert_response_body_size (length bytes) >>= λ _. ok (non_empty bytes))
    ]
    | some chunks ↦ (read_chunks chunks 0 [] >>= λ bytes. ok (non_empty bytes))
  ]

  unfoldable pub is_json_content_type : String → Bool
  is_json_content_type content_type =
      let normalized = to_lower_case content_type in
      includes normalized "/json" || includes normalized "+json"

  unfoldable pub is_text_content_type : String → Bool
  is_text_content_type content_type =
      let normalized = to_lower_case content_type in
      if str_eq normalized "" then true else any (includes normalized) text_content_type_markers

  unfoldable pub parse_bytes : String → List ℕ → ParsedBody
  parse_bytes content_type bytes =
      let content = platform.utf8_text bytes in
      if is_json_content_type content_type
      then (record {
        parsed_body = some content;
        raw_body = some bytes;
        body_encoding =
            some (if platform.is_json_text content then BodyEncoding.json else BodyEncoding.text);
      })
      else if is_text_content_type content_type
      then (record {
        parsed_body = some content;
        raw_body = some bytes;
        body_encoding = some BodyEncoding.text;
      })
      else record {
        parsed_body = some (platform.base64_text bytes);
        raw_body = some bytes;
        body_encoding = some base64;
      }

  unfoldable pub parse_response_body : Upstream → Result ParsedBody
  parse_response_body response = elim (read_response_body response) [
    | throw e ↦ throw e
    | ok none ↦ ok (record { parsed_body = none; raw_body = none; body_encoding = none })
    | ok (some bytes) ↦
        ok (parse_bytes (or_else (get_header "content-type" response.headers) "") bytes)
  ]

  unfoldable pub should_stream_proxy_response : Upstream → Bool
  should_stream_proxy_response response =
      let content_type =
        to_lower_case (platform.trim (or_else (get_header "content-type" response.headers) "")) in
      is_some response.body && any (includes content_type) streaming_content_type_markers

  unfoldable pub serialize_headers : List (String × String) → List (String × String)
  serialize_headers [] = []
  serialize_headers ((key, value) ∷ rest) =
      if is_in blocked_response_headers (to_lower_case key)
      then serialize_headers rest
      else (key, value) ∷ serialize_headers rest
