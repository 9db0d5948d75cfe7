-- ===== src/Tests/Packets.antt =====
-- The SOCKS5 packets and the ports at concrete inputs.
use amgi_net_tools.Base.{
  ◌≡◌, ◌≢◌, refl, Bytes, [], ◌∷◌, codes, inr, ok, fault, over_read, arith, true, false,
}
use amgi_net_tools.Decimal.{decimal, from_chars, from_chars-decimal}
use amgi_net_tools.Socks5.Packet.{
  dom, Address, is_socks5_auth_request, is_valid_request_packet, get_remote_address_info,
}
use amgi_net_tools.Tests.Samples.{sample_inet}
use amgi_net_tools.Socks5.Packet.Hello.{Decides, is_socks5_auth_request-Decides}
use amgi_net_tools.Socks5.Packet.Request.{
  IsRequest, DecidesRequest, is_valid_request_packet-Decides, encode_domain,
  get_remote_address_info-encode_domain, encode_domain_too_short, get_remote_address_info_over_read,
}
use amgi_net_tools.Socks5.Packet.Numeric.{
  inet4, encode_numeric, get_remote_address_info-encode_numeric,
}
use amgi_net_tools.Socks5.Packet.Bounds.{get_remote_address_info-in_bounds}

abbrev no_address : Address
no_address = record { host = []; port = [] }

from_chars-decimal_example : from_chars (decimal 8080) ≡ 8080
from_chars-decimal_example = from_chars-decimal 8080 (omega arith)

is_socks5_auth_request-Decides_example :
    Decides (5 ∷ 2 ∷ 1 ∷ 0 ∷ []) (is_socks5_auth_request (5 ∷ 2 ∷ 1 ∷ 0 ∷ []))
is_socks5_auth_request-Decides_example = is_socks5_auth_request-Decides (5 ∷ 2 ∷ 1 ∷ 0 ∷ [])

is_valid_request_packet-Decides_example :
    DecidesRequest
      (5 ∷ 1 ∷ 0 ∷ 1 ∷ 127 ∷ 0 ∷ 0 ∷ 1 ∷ 0 ∷ 80 ∷ [])
      (is_valid_request_packet (5 ∷ 1 ∷ 0 ∷ 1 ∷ 127 ∷ 0 ∷ 0 ∷ 1 ∷ 0 ∷ 80 ∷ []))
is_valid_request_packet-Decides_example =
    is_valid_request_packet-Decides (5 ∷ 1 ∷ 0 ∷ 1 ∷ 127 ∷ 0 ∷ 0 ∷ 1 ∷ 0 ∷ 80 ∷ [])

get_remote_address_info-encode_domain_example :
    get_remote_address_info sample_inet (encode_domain (codes "example.org") 443) no_address
    ≡ ok (true, record { host = codes "example.org"; port = decimal 443 })
get_remote_address_info-encode_domain_example =
    get_remote_address_info-encode_domain (codes "example.org") 443 sample_inet no_address
      (omega arith) (omega arith) (omega arith)

encode_domain_too_short_example : is_valid_request_packet (encode_domain (codes "ab") 80) ≡ ok false
encode_domain_too_short_example = encode_domain_too_short (codes "ab") 80 (omega arith)

-- A request that announces a name of 200 bytes in a packet of 10.
abbrev cut_request : Bytes
cut_request = 5 ∷ 1 ∷ 0 ∷ 3 ∷ 200 ∷ 97 ∷ 98 ∷ 99 ∷ 0 ∷ 80 ∷ []

abbrev cut_request-IsRequest : IsRequest cut_request
cut_request-IsRequest = record {
  type = dom;
  long = omega arith;
  versioned = refl;
  connects = refl;
  typed = refl;
  known = inr (inr refl);
}

get_remote_address_info_over_read_example :
    get_remote_address_info sample_inet cut_request no_address ≡ fault over_read
get_remote_address_info_over_read_example =
    get_remote_address_info_over_read sample_inet cut_request no_address 200 cut_request-IsRequest
      refl refl (omega arith) (omega arith)

get_remote_address_info-encode_numeric_example :
    get_remote_address_info sample_inet (encode_numeric inet4 (127 ∷ 0 ∷ 0 ∷ 1 ∷ []) 443) no_address
    ≡ ok (true, record { host = codes "127.0.0.1"; port = decimal 443 })
get_remote_address_info-encode_numeric_example =
    get_remote_address_info-encode_numeric inet4 (127 ∷ 0 ∷ 0 ∷ 1 ∷ []) 443 refl sample_inet
      no_address (codes "127.0.0.1") refl (λ e. ground (arith, e)) (omega arith)

get_remote_address_info-in_bounds_example :
    get_remote_address_info sample_inet (encode_domain (codes "a.org") 443) no_address
    ≢ fault over_read
get_remote_address_info-in_bounds_example =
    get_remote_address_info-in_bounds (encode_domain (codes "a.org") 443) sample_inet no_address dom
      5 refl refl (omega arith)
