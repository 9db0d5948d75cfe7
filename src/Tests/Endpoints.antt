-- ===== src/Tests/Endpoints.antt =====
-- The ends of a connection, as they are printed, at a concrete input.
use amgi_net_tools.Base.{◌≡◌, refl, true, [], codes, arith}
use amgi_net_tools.Decimal.{from_chars}
use amgi_net_tools.Transport.Endpoint.{
  Socket, remote_end, located, unknown, ep_to_str, before_last, after_last, ep_to_str-located,
}

abbrev loopback : Socket
loopback = record {
  is_open = true;
  remote_endpoint = located (codes "::1") 8443;
  local_endpoint = unknown [];
}

ep_to_str-located_example :
    (before_last b':' (ep_to_str loopback remote_end) ≡ codes "::1")
    × (from_chars (after_last b':' (ep_to_str loopback remote_end)) ≡ 8443)
ep_to_str-located_example =
    ep_to_str-located loopback remote_end (codes "::1") 8443 refl refl (omega arith)
