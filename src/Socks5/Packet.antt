-- ===== src/Socks5/Packet.antt =====
-- socks5.h and socks5.cpp: checks and fields of the packets of a SOCKS5 client. A packet is read
-- through a pointer, with no bound but the one that the code tests: `byte_at` faults past its end.
-- A packet always has an address here (`buffer` is not null); `std::vector::data()` may be null only
-- for an empty packet, which fails the length test that stands beside the null test.
pub mod Hello
pub mod Request
pub mod Faults
pub mod Numeric
pub mod Bounds
use amgi_net_tools.Decimal.{decimal}
use amgi_net_tools.Base.{
  ℕ, zero, suc, ◌+◌, ◌*◌, ◌/◌, ◌%◌, ◌^◌, Bool, true, false, ◌||◌, not, ◌&&◌, List, [], ◌∷◌, ◌++◌,
  Option, none, some, Bytes, codes, length, get_elem?, take, drop, is_empty, ltb, leb, ◌==◌,
  if◌then◌else◌, Result, ok, fault, or_fault, over_read, ◌>>=◌,
}

-- namespace proto::auth
abbrev pub no_auth : ℕ
no_auth = 0x00

abbrev pub not_supported : ℕ
not_supported = 0xff

abbrev pub header_min_length : ℕ
header_min_length = 0x02

-- enum socks5::proto
abbrev pub version : ℕ
version = 0x05

abbrev pub ipv4 : ℕ
ipv4 = 0x01

abbrev pub dom : ℕ
dom = 0x03

abbrev pub ipv6 : ℕ
ipv6 = 0x04

abbrev pub max_dom_length : ℕ
max_dom_length = 255

abbrev pub dom_field_offset : ℕ
dom_field_offset = 1

abbrev pub ipv4_length : ℕ
ipv4_length = 4

abbrev pub ipv6_length : ℕ
ipv6_length = 16

abbrev pub request_header_min_length : ℕ
request_header_min_length = 10

-- enum socks5::request
abbrev pub tcp_connection : ℕ
tcp_connection = 0x01

-- The offset of `request_header::data`.
abbrev pub data_offset : ℕ
data_offset = 4

pub byte_at : Bytes → ℕ → Result ℕ
byte_at buffer i = or_fault (get_elem? buffer i) over_read

-- The `n` bytes from offset `i`, all of which have to be there.
pub bytes_at : Bytes → ℕ → ℕ → Result Bytes
bytes_at buffer i n =
    if leb (i + n) (length buffer) then ok (take n (drop i buffer)) else fault over_read

-- The loop over `auth_header->methods`: `rounds` are left, and `i` methods were looked at.
pub find_no_auth : Bytes → ℕ → ℕ → Result Bool
unfolding byte_at
find_no_auth buffer i zero = ok false
find_no_auth buffer i (suc rounds) = do
  method ← byte_at buffer (header_min_length + i)
  let rest = find_no_auth buffer (i + 1) rounds
  if method == no_auth then ok true else rest

-- The messages that a hello packet is refused with.
unfoldable pub bad_initial_packet : Bytes
bad_initial_packet = codes "socks5 proto: bad initial request packet"

unfoldable pub unsupported_version : Bytes
unsupported_version = codes "socks5 proto: only protocol version 5 is supported"

unfoldable pub invalid_length : Bytes
invalid_length = codes "socks5 proto: invalid authentication request length"

unfoldable pub unsupported_auth : Bytes
unsupported_auth = codes "authentication support is not implemented"

-- The checks on a hello packet from its method count on.
check_methods : Bytes → ℕ → Result (Option Bytes)
unfolding find_no_auth
check_methods buffer methods =
    if ltb (length buffer) (methods + header_min_length) then ok (some invalid_length) else do
      found ← find_no_auth buffer 0 methods
      ok (if found then none else some (unsupported_auth))

-- The error of a hello packet, `none` if it is good.
unfoldable pub is_socks5_auth_request : Bytes → Result (Option Bytes)
unfolding byte_at check_methods
is_socks5_auth_request buffer =
    if ltb (length buffer) header_min_length then ok (some bad_initial_packet) else do
      v ← byte_at buffer 0
      if not (v == version)
          then ok (some unsupported_version)
          else do methods ← byte_at buffer 1; check_methods buffer methods

is_known_type : ℕ → Bool
is_known_type type = type == ipv4 || (type == ipv6 || type == dom)

unfoldable pub is_valid_request_packet : Bytes → Result Bool
unfolding byte_at is_known_type
is_valid_request_packet buffer =
    if leb request_header_min_length (length buffer)
    then (do
      v ← byte_at buffer 0
      if not (v == version) then ok false else do
        command ← byte_at buffer 1
        if not (command == tcp_connection)
            then ok false
            else do type ← byte_at buffer 3; ok (is_known_type type))
    else ok false

-- `(buffer[0] << 8) | buffer[1]` at offset `i`: of two bytes, so that no bits overlap.
unfoldable pub get_port_from_binary : Bytes → ℕ → Result ℕ
unfolding byte_at
get_port_from_binary buffer i = do
  high ← byte_at buffer i
  low ← byte_at buffer (i + 1)
  ok ((high * 256 + low) % 2 ^ 16)

-- asio's `inet_ntop`, for AF_INET and AF_INET6: the address as text, `none` where it reports an error.
pub record Inet : Type 0 where
  pub ntop4 : Bytes → Option Bytes
  pub ntop6 : Bytes → Option Bytes

-- The two strings that `get_remote_address_info` writes.
pub record Address : Type 0 where
  pub host : Bytes
  pub port : Bytes

-- The branches for AF_INET and AF_INET6, which differ in the length `n` of the address. The flag is `!ec`.
unfoldable pub numeric_address :
    (Bytes → Option Bytes) → Bytes → ℕ → Address → Result (Bool × Address)
unfolding bytes_at get_port_from_binary
numeric_address ntop buffer n address = do
  binary ← bytes_at buffer data_offset n
  elim (ntop binary) [
    | none ↦ ok (false, address)
    | some text ↦ do
      port ← get_port_from_binary buffer (data_offset + n)
      ok (true, record { host = text; port = decimal port })
  ]

-- `domainLength` is read from a byte, so its test against `max_dom_length` passes for every packet.
domain_address : Bytes → Address → Result (Bool × Address)
unfolding byte_at bytes_at get_port_from_binary
domain_address buffer address = do
  n ← byte_at buffer data_offset
  if leb n max_dom_length
      then (do
        name ← bytes_at buffer (data_offset + dom_field_offset) n
        port ← get_port_from_binary buffer (data_offset + (n + 1))
        ok (true, record { host = name; port = decimal port }))
      else ok (true, address)

-- `return !ec && !host.empty() && !port.empty()`, behind the branches.
unfoldable pub is_complete : Bool × Address → Bool × Address
is_complete (no_error, a) = (no_error && (not (is_empty a.host) && not (is_empty a.port)), a)

read_address : Inet → ℕ → Bytes → Address → Result (Bool × Address)
unfolding numeric_address domain_address is_complete
read_address inet type buffer address =
    if type == ipv4
    then (do r ← numeric_address inet.ntop4 buffer ipv4_length address; ok (is_complete r))
    else if type == ipv6
    then (do r ← numeric_address inet.ntop6 buffer ipv6_length address; ok (is_complete r))
    else if type == dom
    then (do r ← domain_address buffer address; ok (is_complete r))
    else ok (false, address)

-- The Boolean that the function returns, and the two strings as it leaves them.
unfoldable pub get_remote_address_info : Inet → Bytes → Address → Result (Bool × Address)
unfolding byte_at read_address
get_remote_address_info inet buffer address =
    if leb request_header_min_length (length buffer)
    then (do type ← byte_at buffer 3; read_address inet type buffer address)
    else ok (false, address)
