-- ===== src/Socks5/Packet/Bounds.antt =====
-- How much of a connection request `get_remote_address_info` of socks5.cpp reads.
use amgi_net_tools.Base.{
  ℕ, ◌+◌, ◌<◌, ◌≤◌, ◌≡◌, ◌≢◌, some, Bytes, length, get_elem?, get_elem?-in_bounds, ◌==◌,
  if◌then◌else◌, Fault, fault, arith,
}
use amgi_net_tools.Socks5.Packet.{
  ipv4, ipv6, dom, ipv4_length, ipv6_length, data_offset, dom_field_offset, Inet, Address, byte_at,
  bytes_at, get_port_from_binary, numeric_address, domain_address, read_address,
  get_remote_address_info,
}

-- The length of a request with an address of a type and, for a host name, of `n` bytes.
abbrev pub announced : (type n : ℕ) → ℕ
announced type n =
    if type == ipv4 then 10 else if type == ipv6 then 22 else if type == dom then 7 + n else 10

module _ (buffer : Bytes) {x : Fault} where
  byte_at-ne-fault : (i : ℕ) → i < length buffer → byte_at buffer i ≢ fault x
  unfolding byte_at
  byte_at-ne-fault i inside =
      let (v, at) = get_elem?-in_bounds buffer i inside in ground (arith, at)

  bytes_at-ne-fault : (i n : ℕ) → i + n ≤ length buffer → bytes_at buffer i n ≢ fault x
  unfolding bytes_at
  bytes_at-ne-fault i n inside = ground arith

  get_port-ne-fault : (i : ℕ) → i + 2 ≤ length buffer → get_port_from_binary buffer i ≢ fault x
  unfolding get_port_from_binary
  get_port-ne-fault i inside = ground (
    arith,
    byte_at-ne-fault i (omega (arith, inside)),
    byte_at-ne-fault (i + 1) (omega (arith, inside)),
  )

  -- A request that is as long as its type and the first byte of its address announce is read within its bounds: decoding
  -- its address meets no fault.
  pub get_remote_address_info-in_bounds :
      (inet : Inet) (a : Address) (type n : ℕ)
      → get_elem? buffer 3 ≡ some type
      → get_elem? buffer 4 ≡ some n
      → announced type n ≤ length buffer
      → get_remote_address_info inet buffer a ≢ fault x
  unfolding get_remote_address_info read_address numeric_address domain_address byte_at
  get_remote_address_info-in_bounds inet a type n typed first inside failed = ground (
    arith,
    typed,
    first,
    bytes_at-ne-fault data_offset ipv4_length,
    bytes_at-ne-fault data_offset ipv6_length,
    bytes_at-ne-fault (data_offset + dom_field_offset) n,
    get_port-ne-fault (data_offset + ipv4_length),
    get_port-ne-fault (data_offset + ipv6_length),
    get_port-ne-fault (data_offset + (n + 1)),
  )
