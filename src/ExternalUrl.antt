-- ===== src/ExternalUrl.antt =====
-- src/common/utils/external-url.ts: which addresses outside the service it may call.
pub mod Dotted
mod Tests
use hivepoint_backend.Common.{
  ℕ, String, Bool, true, false, Option, none, some, List, [], ◌∷◌, ◌&&◌, ◌||◌, ◌==◌, not, leb, any,
  str_eq, starts_with, ends_with, split, decimal, if◌then◌else◌,
}
use hivepoint_backend.Errors.{Result, ok, throw, app_error, unsafe_external_url}

-- The parts of node's `URL` that the service reads and writes.
pub record Url : Type 0 where
  pub protocol : String
  pub username : String
  pub password : String
  pub hostname : String
  pub pathname : String

-- The world of the check: `new URL(text)`, none where it throws; `lookup`, none where it rejects;
-- `isIP` of node's net, which answers 4, 6 or 0; and JavaScript's mapping and trimming of texts.
pub record Network : Type 0 where
  pub parse_url : String → Option Url
  pub lookup : String → Option (List String)
  pub is_ip : String → ℕ
  pub trim : String → String
  pub to_lower_case : String → String

-- `SafeExternalUrlOptions`, less the message.
pub record SafeExternalUrlOptions : Type 0 where
  pub allow_private_network_targets : Bool
  pub http_status : ℕ

-- The test on the parts of an address, which are four numbers.
unfoldable pub is_private_octets : ℕ → ℕ → Bool
is_private_octets a b =
    a == 0
    || (a == 10
        || (a == 127
            || ((a == 100 && (leb 64 b && leb b 127))
                || ((a == 169 && b == 254)
                    || ((a == 172 && (leb 16 b && leb b 31))
                        || ((a == 192 && b == 168) || (a == 198 && (b == 18 || b == 19))))))))

-- `isIP` has answered 4, so every part is a decimal number.
unfoldable pub is_private_parts : List (Option ℕ) → Bool
is_private_parts (some a ∷ some b ∷ some c ∷ some d ∷ []) = is_private_octets a b
is_private_parts _ = true

abbrev pub numbers : List String → List (Option ℕ)
numbers [] = []
numbers (part ∷ parts) = decimal part ∷ numbers parts

-- A full stop has the code 46.
unfoldable pub is_private_ipv4 : String → Bool
is_private_ipv4 address = is_private_parts (numbers (split 46 address))

-- The mark of an error, with the status that the caller chose.
abbrev pub unsafe_url {ℓ} : {A : Type ℓ} → SafeExternalUrlOptions → Result A
unsafe_url options = throw (app_error unsafe_external_url options.http_status)

module _ (net : Network) where
  unfoldable pub is_private_ipv6 : String → Bool
  is_private_ipv6 address =
      let normalized = net.to_lower_case (net.trim address) in
      str_eq normalized "::"
      || (str_eq normalized "::1"
          || (starts_with normalized "fc"
              || (starts_with normalized "fd"
                  || (starts_with normalized "fe8"
                      || (starts_with normalized "fe9"
                          || (starts_with normalized "fea" || starts_with normalized "feb"))))))

  unfoldable pub is_private_address : String → Bool
  is_private_address address =
      if net.is_ip address == 4
      then is_private_ipv4 address
      else if net.is_ip address == 6
      then is_private_ipv6 address
      else true

  unfoldable pub has_blocked_hostname : String → Bool
  has_blocked_hostname hostname =
      let normalized = net.to_lower_case (net.trim hostname) in
      str_eq normalized "localhost"
      || (ends_with normalized ".localhost" || ends_with normalized ".local")

  unfoldable pub parse_external_url : String → SafeExternalUrlOptions → Result Url
  parse_external_url text options = elim (net.parse_url text) [
    | none ↦ unsafe_url options
    | some url ↦
        if not (str_eq url.protocol "http:") && not (str_eq url.protocol "https:")
        then unsafe_url options
        else if not (str_eq url.username "")
            || (not (str_eq url.password "") || str_eq url.hostname "")
        then unsafe_url options
        else ok url
  ]

  unfoldable pub resolve_addresses : String → SafeExternalUrlOptions → Result (List String)
  resolve_addresses hostname options =
      if not (net.is_ip hostname == 0)
      then ok (hostname ∷ [])
      else elim (net.lookup hostname) [ none ↦ unsafe_url options | some addresses ↦ ok addresses ]

  unfoldable pub assert_safe_external_http_url : String → SafeExternalUrlOptions → Result Url
  assert_safe_external_http_url text options = elim (parse_external_url text options) [
    | throw e ↦ throw e
    | ok url ↦
        if options.allow_private_network_targets
        then ok url
        else if has_blocked_hostname url.hostname
        then unsafe_url options
        else elim (resolve_addresses url.hostname options) [
          | throw e ↦ throw e
          | ok addresses ↦ if any is_private_address addresses then unsafe_url options else ok url
        ]
  ]
