-- ===== src/ExternalUrl/Tests.antt =====
-- Addresses of both kinds.
use hivepoint_backend.Common.{none, any, arith, ◌≡◌, refl, true, false, includes}
use hivepoint_backend.ExternalUrl.{Network, is_private_address, is_private_ipv6}
use hivepoint_backend.ExternalUrl.Dotted.{
  dotted, address_of, is_in_block, private_blocks, is_private_ipv4-dotted,
}
use hivepoint_backend.ExternalUrl.{is_private_ipv4, is_private_parts, is_private_octets}

loopback : is_private_ipv4 "127.0.0.1" ≡ true
unfolding is_private_ipv4 is_private_parts is_private_octets
loopback = refl

public_address : is_private_ipv4 "172.32.10.9" ≡ false
unfolding is_private_ipv4 is_private_parts is_private_octets
public_address = refl

json_type : includes "application/json" "/json" ≡ true
json_type = refl

is_private_ipv4-dotted_example :
    is_private_ipv4 (dotted 172 16 254 1)
    ≡ any (is_in_block (address_of 172 16 254 1)) private_blocks
is_private_ipv4-dotted_example =
    is_private_ipv4-dotted 172 16 254 1 (omega arith) (omega arith) (omega arith) (omega arith)

abbrev net : Network
net = record {
  parse_url = λ s. none;
  lookup = λ s. none;
  is_ip = λ s. 6;
  trim = λ s. s;
  to_lower_case = λ s. s;
}

-- The loopback address of IPv6 is private; that of IPv4 in its IPv6 form is not taken for private.
loopback_6 : is_private_address net "::1" ≡ true
unfolding is_private_address is_private_ipv6
loopback_6 = refl

mapped_loopback : is_private_address net "::ffff:127.0.0.1" ≡ false
unfolding is_private_address is_private_ipv6
mapped_loopback = refl
