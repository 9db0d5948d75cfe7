-- ===== src/Socks5/Packet/Numeric.antt =====
-- Connection requests for numeric addresses: `get_remote_address_info` of socks5.cpp.
use amgi_net_tools.Base.{
  ℕ, ◌+◌, ◌<◌, ◌≡◌, ◌≢◌, Bool, ap, ◌∙◌, true, false, [], ◌∷◌, ◌++◌, Option, some, Bytes, length,
  length-append, take, take-append, ◌>>=◌, is_empty, leb, ok, arith,
}
use amgi_net_tools.Decimal.{decimal, decimal-ne-nil}
use amgi_net_tools.Socks5.Packet.{
  version, ipv4, ipv6, ipv4_length, ipv6_length, tcp_connection, request_header_min_length,
  data_offset, bytes_at, get_port_from_binary, Inet, Address, read_address, numeric_address,
  get_remote_address_info, is_complete,
}
use amgi_net_tools.Socks5.Packet.Request.{port_bytes, get_port-append, is_complete-filled}

pub data Family : Type 0 where
  inet4 inet6 : Family

abbrev pub address_type : Family → ℕ
address_type inet4 = ipv4
address_type inet6 = ipv6

abbrev pub address_length : Family → ℕ
address_length inet4 = ipv4_length
address_length inet6 = ipv6_length

abbrev pub ntop : Inet → Family → Bytes → Option Bytes
ntop inet inet4 = inet.ntop4
ntop inet inet6 = inet.ntop6

-- What a client sends to reach a numeric address (RFC 1928, address types 1 and 4).
abbrev pub encode_numeric : Family → Bytes → ℕ → Bytes
encode_numeric family binary port =
    version ∷ tcp_connection ∷ 0 ∷ address_type family ∷ (binary ++ port_bytes port)

is_empty-ne-nil : (xs : Bytes) → xs ≢ [] → is_empty xs ≡ false
is_empty-ne-nil xs filled = ground arith

-- A known numeric type has the address read at its length.
read_address-numeric :
    (inet : Inet) (family : Family) (buffer : Bytes) (a : Address) {r : Bool × Address}
    → numeric_address (ntop inet family) buffer (address_length family) a ≡ ok r
    → is_complete r ≡ r
    → read_address inet (address_type family) buffer a ≡ ok r
unfolding read_address
read_address-numeric inet inet4 buffer a read complete = rw (read, complete)
read_address-numeric inet inet6 buffer a read complete = rw (read, complete)

module _ (family : Family) (binary : Bytes) (port : ℕ)
    (whole : length binary ≡ address_length family) where
  address_read :
      bytes_at (encode_numeric family binary port) data_offset (address_length family) ≡ ok binary
  unfolding bytes_at
  address_read = ground (
    arith,
    whole,
    length-append binary (port_bytes port),
    ap (λ n. take n (binary ++ port_bytes port)) whole,
    take-append binary (port_bytes port),
  )

  port_read :
      port < 65536
      → get_port_from_binary
          (encode_numeric family binary port)
          (data_offset + address_length family)
        ≡ ok port
  port_read small =
      ap (get_port_from_binary (encode_numeric family binary port)) (omega (arith, whole))
      ∙ get_port-append (version ∷ tcp_connection ∷ 0 ∷ address_type family ∷ binary) port small

  module _ (inet : Inet) (a : Address) (text : Bytes) where
    numeric_read :
        ntop inet family binary ≡ some text
        → port < 65536
        → numeric_address
            (ntop inet family)
            (encode_numeric family binary port)
            (address_length family)
            a
          ≡ ok (true, record { host = text; port = decimal port })
    unfolding numeric_address
    numeric_read shown small = rw (address_read, ◌>>=◌, shown) (rw (port_read small))

    complete :
        text ≢ []
        → is_complete (true, record { host = text; port = decimal port })
          ≡ (true, record { host = text; port = decimal port })
    complete filled =
        is_complete-filled text (decimal port) (is_empty-ne-nil text filled) (decimal-ne-nil port)

    long : leb request_header_min_length (length (encode_numeric family binary port)) ≡ true
    long = ground (arith, whole, length-append binary (port_bytes port))

    -- A request for an IPv4 or IPv6 address, which inet_ntop shows as a text that is not empty, is decoded to that text and
    -- the port.
    pub get_remote_address_info-encode_numeric :
        ntop inet family binary ≡ some text
        → text ≢ []
        → port < 65536
        → get_remote_address_info inet (encode_numeric family binary port) a
          ≡ ok (true, record { host = text; port = decimal port })
    unfolding get_remote_address_info
    get_remote_address_info-encode_numeric shown filled small = rw long (
        read_address-numeric inet family (encode_numeric family binary port) a
          (numeric_read shown small) (complete filled))
