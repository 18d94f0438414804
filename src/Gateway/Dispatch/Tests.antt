-- ===== src/Gateway/Dispatch/Tests.antt =====
-- A request for two of the two requests that are left, to an upstream that answers.
use hivepoint_backend.Common.{
  ◌≡◌, refl, true, false, none, some, String, List, [], ◌∷◌, length, leb, str_eq, if◌then◌else◌,
}
use hivepoint_backend.Prisma.Lists.{list_delegate}
use hivepoint_backend.Errors.{ok, throw, app_error, external_error, gateway_response_body_too_large}
use hivepoint_backend.Schema.{ApiKey, ApiVersion, VersionStatus, clash_version, clash_bucket}
use hivepoint_backend.ExternalUrl.{Url}
use hivepoint_backend.Usage.Authorize.Fixtures.{client, config, db, usage-IsAggregated}
use hivepoint_backend.Gateway.Target.{UrlWorld}
use hivepoint_backend.Gateway.Messages.{
  Method, RequestBody, data_chunk, empty_chunk, Upstream, Platform, get_header, non_empty,
  build_request_headers, read_response_body,
}
use hivepoint_backend.Gateway.Messages.Bodies.{
  response_bytes, is_unreadable, read_response_body_lem,
}
use hivepoint_backend.Gateway.Messages.Headers.{build_request_headers_blocked}
use hivepoint_backend.Gateway.Dispatch.{execute}
use hivepoint_backend.Gateway.Requests.{GatewayDispatchInput, State, World}
use hivepoint_backend.Gateway.Dispatch.Outcome.{execute-IsOutcome}
use hivepoint_backend.Gateway.Dispatch.Ends.{IsOutcome}
use hivepoint_backend.Gateway.Dispatch.{
  find_published_version, limit_and_charge, charge, after_charge, send, fetch_upstream,
  fetch_with_headers,
}
use hivepoint_backend.Usage.Authorize.{
  authorize_usage_internal, find_api_key, authorize_request, authorize_usage_with_consumption,
  find_subscription_plan, preview, consume, used_rate_limit_requests,
}
use hivepoint_backend.Usage.Windows.{get_usage_window, get_rate_limit_window_start}
use hivepoint_backend.Usage.Aggregation.{
  sum_usage_for_window, sum_raw_usage, sum_daily_aggregate_usage, record_usage_in_transaction,
}
use hivepoint_backend.Usage.Days.{full_days_start, is_utc_day_boundary}
use hivepoint_backend.Usage.Overage.{get_overage_state}
use hivepoint_backend.Gateway.Burst.Fixtures.{burst_config}
use hivepoint_backend.Gateway.Burst.{
  check_and_consume, resolve_burst_limit, run_attempts, transact, lock_bucket_row, refill_tokens,
}
use hivepoint_backend.Gateway.Target.{
  resolve_upstream_base_url, extract_server_url, extract_server_url_from_json,
  extract_server_url_from_yaml, build_upstream_url, normalize_path,
}
use hivepoint_backend.ExternalUrl.{
  assert_safe_external_http_url, parse_external_url, has_blocked_hostname, resolve_addresses,
  is_private_address, is_private_ipv4, is_private_parts, is_private_octets,
}
use hivepoint_backend.Gateway.Messages.{
  forward_headers, forward_header, build_request_body, assert_request_body_size,
  get_body_size_bytes,
}

abbrev base : Url
base = record {
  protocol = "https:";
  username = "";
  password = "";
  hostname = "maps.example";
  pathname = "/v1/";
}

abbrev urls : UrlWorld
urls = record {
  net = record {
    parse_url = λ s. some base;
    lookup = λ s. some ("203.0.113.9" ∷ []);
    is_ip = λ s. if str_eq s "203.0.113.9" then 4 else 0;
    trim = λ s. s;
    to_lower_case = λ s. s;
  };
  parse_json = λ s. none;
  match_servers_block = λ s. some s;
  match_server_url = λ s. some s;
  match_host = λ s. none;
  match_base_path = λ s. none;
  match_scheme = λ s. none;
  resolve_url = λ s b. some s;
  url_text = λ u q. u.pathname;
  merge_query = λ s q. s;
}

abbrev upstream : Upstream
upstream = record {
  ok_flag = true;
  status = 200;
  headers = ("content-type", "text/plain") ∷ ("set-cookie", "a=b") ∷ [];
  body = some (data_chunk (72 ∷ []) ∷ empty_chunk ∷ data_chunk (105 ∷ []) ∷ []);
  buffer = some [];
}

abbrev platform : Platform
platform = record {
  to_lower_case = λ s. s;
  trim = λ s. s;
  byte_length = λ s. 0;
  utf8_text = λ bytes. "Hi";
  base64_text = λ bytes. "SGk=";
  is_json_text = λ s. false;
  accepts_header = λ name value. true;
  gateway_request_body_limit_bytes = 1000;
  gateway_response_body_limit_bytes = 2;
}

abbrev world : World
world = record {
  config = config;
  client = client;
  api_version = list_delegate clash_version;
  burst_config = burst_config;
  gateway_burst_bucket = list_delegate clash_bucket;
  urls = urls;
  platform = platform;
  allow_private_network_targets = false;
  fetch = λ url method headers body. ok upstream;
  key_of = λ id. "7";
}

abbrev key : ApiKey
key = record {
  id = 1;
  user_id = 2;
  label = "k";
  key_hash = "ksalt";
  is_active = true;
  created_at = 0;
  revoked_at = none;
}

abbrev version : ApiVersion
version = record {
  id = 4;
  product_id = 3;
  version = "1";
  status = VersionStatus.published;
  open_api_url = "https://maps.example/api.yaml";
  open_api_snapshot = some "https://maps.example/v1/";
  open_api_fetched_at = none;
  created_at = 0;
}

abbrev state : State
state = record {
  db = record db { api_keys = key ∷ [] };
  versions = version ∷ [];
  buckets = [];
  sent = [];
}

abbrev input : GatewayDispatchInput
input = record {
  product_id = 3;
  path = "/towns?near=me";
  method = Method.get;
  headers = ("x-api-key", "k") ∷ ("accept", "text/plain") ∷ [];
  query = [];
  body = RequestBody.undefined;
  request_count = 2;
}

execute-IsOutcome_example :
    IsOutcome world input "k" 400000 state
      (execute world input (some "k") false 400000 (λ n. none) state).1
      (execute world input (some "k") false 400000 (λ n. none) state).0
execute-IsOutcome_example =
    execute-IsOutcome world input (some "k") false 400000 (λ n. none) state usage-IsAggregated

abbrev accepted : List (String × String)
accepted = ("accept", "text/plain") ∷ []

build_request_headers_blocked_example : get_header "x-api-key" accepted ≡ none
unfolding build_request_headers forward_headers forward_header
build_request_headers_blocked_example =
    build_request_headers_blocked platform "x-api-key" input.headers accepted refl refl

read_response_body_lem_example : read_response_body platform upstream ≡ (
    if leb (length (response_bytes upstream)) 2
    then (if is_unreadable upstream
        then throw external_error
        else ok (non_empty platform (response_bytes upstream)))
    else throw (app_error gateway_response_body_too_large 502))
read_response_body_lem_example = read_response_body_lem platform upstream

sent_towns :
    (execute world input (some "k") false 400000 (λ n. none) state).1.sent ≡ "/v1/towns" ∷ []
unfolding execute find_published_version limit_and_charge charge after_charge send fetch_upstream
    fetch_with_headers authorize_usage_internal find_api_key authorize_request
    authorize_usage_with_consumption find_subscription_plan get_usage_window preview consume
    sum_usage_for_window sum_raw_usage sum_daily_aggregate_usage full_days_start is_utc_day_boundary
    used_rate_limit_requests get_rate_limit_window_start get_overage_state
    record_usage_in_transaction check_and_consume resolve_burst_limit run_attempts transact
    lock_bucket_row refill_tokens resolve_upstream_base_url extract_server_url
    extract_server_url_from_json extract_server_url_from_yaml build_upstream_url normalize_path
    assert_safe_external_http_url parse_external_url has_blocked_hostname resolve_addresses
    is_private_address is_private_ipv4 is_private_parts is_private_octets build_request_headers
    forward_headers forward_header build_request_body assert_request_body_size get_body_size_bytes
sent_towns = refl
