-- ===== src/Gateway/Target.antt =====
-- The upstream address of a product's version, of src/modules/gateway/gateway.service.ts: the server
-- that its OpenAPI document names, joined with the path and the query of the request.
use hivepoint_backend.Common.{
  ℕ, String, Bool, Option, none, some, List, ◌&&◌, not, str_eq, starts_with, ends_with, split,
  get_elem?, or_else, is_some, is_truthy, if◌then◌else◌, ◌==◌,
}
use Prim.Native.Char.{code}
use Prim.Native.String.{◌++◌}
use hivepoint_backend.Errors.{
  Result, ok, throw, app_error, gateway_target_not_configured, external_error, ◌>>=◌,
}
use hivepoint_backend.ExternalUrl.{
  Network, Url, SafeExternalUrlOptions, assert_safe_external_http_url,
}

-- What `JSON.parse` answers.
mutual
  pub data Json : Type 0 where
    null : Json
    boolean : Bool → Json
    number : ℕ → Json
    text : String → Json
    array : Items → Json
    object : Fields → Json

  pub data Items : Type 0 where
    end_items : Items
    item : Json → Items → Items

  pub data Fields : Type 0 where
    end_fields : Fields
    field : String → Json → Fields → Fields

-- The matches of the five regular expressions on a document in YAML, each with its first group; how
-- `URL` resolves a relative reference, is given a path and a query, and is written; and how
-- `URLSearchParams` sets the query's entries over those that the path has.
pub record UrlWorld : Type 0 where
  pub net : Network
  pub parse_json : String → Option Json
  pub match_servers_block : String → Option String
  pub match_server_url : String → Option String
  pub match_host : String → Option String
  pub match_base_path : String → Option String
  pub match_scheme : String → Option String
  pub resolve_url : String → String → Option String
  pub url_text : Url → String → String
  pub merge_query : String → List (String × String) → String

-- `parsed[key]`
abbrev pub get_field : String → Fields → Option Json
get_field key end_fields = none
get_field key (field name value rest) = if str_eq name key then some value else get_field key rest

-- `servers.find((item) => typeof item === 'object' && item !== null && 'url' in item)`, and its `url`
abbrev pub find_server_url : Items → Option Json
find_server_url end_items = none
find_server_url (item (object fields) rest) =
    let found = get_field "url" fields in if is_some found then found else find_server_url rest
find_server_url (item _ rest) = find_server_url rest

-- `schemes.find((item) => typeof item === 'string')`
abbrev pub find_text : Items → Option String
find_text end_items = none
find_text (item (text s) rest) = some s
find_text (item _ rest) = find_text rest

abbrev pub text_of : Option Json → String
text_of (some (text s)) = s
text_of _ = ""

abbrev pub server_url_of : Option Json → String
server_url_of (some (array items)) = text_of (find_server_url items)
server_url_of _ = ""

abbrev pub first_scheme : Option Json → Option String
first_scheme (some (array items)) = find_text items
first_scheme _ = none

module _ (world : UrlWorld) where
  open world use {
    net, parse_json, match_servers_block, match_server_url, match_host, match_base_path,
    match_scheme,
  }

  -- The fields of a parsed document. Of `null` they cannot be read, and the error is caught.
  unfoldable pub server_url_of_fields : Fields → Option String
  server_url_of_fields fields =
      let url = net.trim (server_url_of (get_field "servers" fields)) in
      let host = net.trim (text_of (get_field "host" fields)) in
      let base_path = net.trim (text_of (get_field "basePath" fields)) in
      if not (str_eq url "")
      then some url
      else if str_eq host ""
      then none
      else some (
          or_else (first_scheme (get_field "schemes" fields)) "https" ++ "://" ++ host ++ base_path)

  unfoldable pub extract_server_url_from_json : String → Option String
  extract_server_url_from_json snapshot = elim (parse_json snapshot) [
    | some (object fields) ↦ server_url_of_fields fields
    | _ ↦ none
  ]

  unfoldable pub extract_server_url_from_yaml : String → Option String
  extract_server_url_from_yaml snapshot =
      let server_url : Option String = elim (match_servers_block snapshot) [
        | none ↦ none
        | some block ↦ match_server_url block
      ] in
      let host = net.trim (or_else (match_host snapshot) "") in
      let base_path = net.trim (or_else (match_base_path snapshot) "") in
      if is_truthy server_url
      then some (net.trim (or_else server_url ""))
      else if str_eq host ""
      then none
      else some (or_else (match_scheme snapshot) "https" ++ "://" ++ host ++ base_path)

  unfoldable pub extract_server_url : Option String → Option String
  extract_server_url snapshot =
      let document = or_else snapshot "" in
      if not (is_truthy snapshot)
      then none
      else if is_truthy (extract_server_url_from_json document)
      then extract_server_url_from_json document
      else extract_server_url_from_yaml document

  unfoldable pub resolve_upstream_base_url :
      SafeExternalUrlOptions → Option String → String → Result String
  resolve_upstream_base_url options snapshot open_api_url =
      let server_url = extract_server_url snapshot in
      if not (is_truthy server_url)
      then throw (app_error gateway_target_not_configured 502)
      else elim (world.resolve_url (or_else server_url "") open_api_url) [
        | none ↦ throw (app_error gateway_target_not_configured 502)
        | some resolved ↦
            (assert_safe_external_http_url net resolved options >>= λ url. ok resolved)
      ]

-- `path.replace(/\/{2,}/g, '/')`: of several slashes (code 47) the last is kept.
abbrev pub collapse_slashes : String → String
collapse_slashes String.[] = ""
collapse_slashes (String.◌∷◌ c s) =
    let rest = collapse_slashes s in
    if code c == 47 && starts_with s "/" then rest else String.◌∷◌ c rest

-- `path.slice(0, -1)`
abbrev pub drop_last : String → String
drop_last String.[] = ""
drop_last (String.◌∷◌ c String.[]) = ""
drop_last (String.◌∷◌ c (String.◌∷◌ d s)) = String.◌∷◌ c (drop_last (String.◌∷◌ d s))

-- `path.startsWith('/') ? path : '/' + path`
abbrev pub with_slash : String → String
with_slash path = if starts_with path "/" then path else "/" ++ path

module _ (world : UrlWorld) where
  unfoldable pub normalize_path : String → String
  normalize_path path = with_slash (world.net.trim path)

  -- A question mark has the code 63. `new URL` throws a TypeError where the base does not parse.
  unfoldable pub build_upstream_url :
      SafeExternalUrlOptions → String → String → List (String × String) → Result String
  build_upstream_url options upstream_base_url path query =
      let pieces = split 63 path in
      let path_only = or_else (get_elem? pieces 0) "" in
      let inline_query = or_else (get_elem? pieces 1) "" in
      elim (world.net.parse_url upstream_base_url) [
        | none ↦ throw external_error
        | some base ↦
            let base_path =
              if ends_with base.pathname "/" then drop_last base.pathname else base.pathname in
            let url : Url = record base {
              pathname = collapse_slashes (base_path ++ with_slash path_only);
            } in
            let upstream_url = world.url_text url (world.merge_query inline_query query) in
            (assert_safe_external_http_url world.net upstream_url options >>= λ checked.
            ok upstream_url)
      ]
