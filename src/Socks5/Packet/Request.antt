-- ===== src/Socks5/Packet/Request.antt =====
-- The connection request: `is_valid_request_packet` and `get_remote_address_info` of socks5.cpp.
use amgi_net_tools.Base.{
  ℕ, suc, ◌+◌, ◌/◌, ◌%◌, ◌≤◌, ◌<◌, ◌≡◌, ◌⊎◌, inl, inr, refl, ap, ◌∙◌, Bool, true, false, [], ◌∷◌,
  ◌++◌, some, Bytes, length, length-append, get_elem?, take-append, is_empty, get_elem?-past_end,
  ◌==◌, leb, leb→le, le→leb, ==_iff, Bool-cases, Option-cases, Result, ok, fault, over_read, arith,
}
use native.Mathlib.Numerals.{add-one}
use amgi_net_tools.Decimal.{decimal, decimal-ne-nil}
use amgi_net_tools.Socks5.Packet.{
  is_complete, version, ipv4, ipv6, dom, tcp_connection, request_header_min_length, data_offset,
  bytes_at, is_valid_request_packet, is_known_type, get_port_from_binary, Inet, Address,
  domain_address, get_remote_address_info,
}

-- A request that the first check lets pass: long enough, of version 5, to connect, to a known type of address.
pub record IsRequest (buffer : Bytes) : Type 0 where
  pub type : ℕ
  pub long : request_header_min_length ≤ length buffer
  pub versioned : get_elem? buffer 0 ≡ some version
  pub connects : get_elem? buffer 1 ≡ some tcp_connection
  pub typed : get_elem? buffer 3 ≡ some type
  pub known : (type ≡ ipv4) ⊎ ((type ≡ ipv6) ⊎ (type ≡ dom))

abbrev pub DecidesRequest : Bytes → Result Bool → Type 0
DecidesRequest buffer r = ((r ≡ ok true) × IsRequest buffer) ⊎ ((r ≡ ok false) × ¬ IsRequest buffer)

is_known_type-cases :
    (type : ℕ) → is_known_type type ≡ true → (type ≡ ipv4) ⊎ ((type ≡ ipv6) ⊎ (type ≡ dom))
unfolding is_known_type
is_known_type-cases type h = ground arith

-- The check stays inside the packet and answers true exactly for the requests.
pub is_valid_request_packet-Decides :
    (buffer : Bytes) → DecidesRequest buffer (is_valid_request_packet buffer)
unfolding is_valid_request_packet
is_valid_request_packet-Decides (v ∷ c ∷ r ∷ t ∷ rest) =
    elim (Bool-cases (leb request_header_min_length (length (v ∷ c ∷ r ∷ t ∷ rest)))) [
      | inl long ↦ elim (Bool-cases (v == version)) [
        | inl five ↦ elim (Bool-cases (c == tcp_connection)) [
          | inl connects ↦ elim (Bool-cases (is_known_type t)) [
            | inl known ↦ inl (
              rw (long, five, connects, known) refl,
              record {
                type = t;
                long = leb→le request_header_min_length (length (v ∷ c ∷ r ∷ t ∷ rest)) long;
                versioned = ap some ((==_iff v version).0 five);
                connects = ap some ((==_iff c tcp_connection).0 connects);
                typed = refl;
                known = is_known_type-cases t known;
              },
            )
            | inr unknown ↦
                inr (rw (long, five, connects, unknown) refl, λ q. ground (arith, q.typed, q.known))
          ]
          | inr other ↦ inr (rw (long, five, other) refl, λ q. ground (arith, q.connects))
        ]
        | inr other ↦ inr (rw (long, other) refl, λ q. ground (arith, q.versioned))
      ]
      | inr short ↦ inr (rw short refl, λ q. ground (arith, q.long))
    ]
is_valid_request_packet-Decides [] = inr (refl, λ q. omega (arith, q.long))
is_valid_request_packet-Decides (_ ∷ []) = inr (refl, λ q. omega (arith, q.long))
is_valid_request_packet-Decides (_ ∷ _ ∷ []) = inr (refl, λ q. omega (arith, q.long))
is_valid_request_packet-Decides (_ ∷ _ ∷ _ ∷ []) = inr (refl, λ q. omega (arith, q.long))

-- What a client sends to reach a named host (RFC 1928, address type 3).
abbrev pub encode_domain : Bytes → ℕ → Bytes
encode_domain host port =
    version ∷ tcp_connection ∷ 0 ∷ dom ∷ length host ∷ (host ++ (port / 256) ∷ (port % 256) ∷ [])

get_elem?-append_length :
    (a : Bytes) (x : ℕ) (b : Bytes) → get_elem? (a ++ x ∷ b) (length a) ≡ some x
get_elem?-append_length [] x b = refl
get_elem?-append_length (y ∷ a) x b = get_elem?-append_length a x b

get_elem?-append_suc :
    (a : Bytes) (x y : ℕ) (b : Bytes) → get_elem? (a ++ x ∷ y ∷ b) (suc (length a)) ≡ some y
get_elem?-append_suc [] x y b = refl
get_elem?-append_suc (z ∷ a) x y b = get_elem?-append_suc a x y b

abbrev pub port_bytes : ℕ → Bytes
port_bytes port = (port / 256) ∷ (port % 256) ∷ []

pub get_port-append :
    (a : Bytes) (port : ℕ)
    → port < 65536
    → get_port_from_binary (a ++ port_bytes port) (length a) ≡ ok port
unfolding get_port_from_binary
get_port-append a port h =
    rw (get_elem?-append_length a (port / 256) (port % 256 ∷ []), get_port_from_binary)
      (rw (add-one (length a), get_elem?-append_suc a (port / 256) (port % 256) [])
        (ap ok (omega arith)))

pub is_empty-of_length : (xs : Bytes) → 0 < length xs → is_empty xs ≡ false
is_empty-of_length [] h = elim h [ ]
is_empty-of_length (x ∷ xs) h = refl

pub is_complete-filled :
    (host port : Bytes)
    → is_empty host ≡ false
    → is_empty port ≡ false
    → let a : Address = record { host = host; port = port } in is_complete (true, a) ≡ (true, a)
unfolding is_complete
is_complete-filled host port h p = rw (h, p)

module _ (host : Bytes) (port : ℕ) where
  name_read : bytes_at (encode_domain host port) 5 (length host) ≡ ok host
  unfolding bytes_at
  name_read =
      ground (arith, length-append host (port_bytes port), take-append host (port_bytes port))

  port_read :
      port < 65536
      → get_port_from_binary (encode_domain host port) (data_offset + (length host + 1)) ≡ ok port
  port_read h =
      ap (get_port_from_binary (encode_domain host port)) (omega arith)
      ∙ get_port-append (version ∷ tcp_connection ∷ 0 ∷ dom ∷ length host ∷ host) port h

  domain_read :
      (a : Address)
      → length host ≤ 255
      → port < 65536
      → domain_address (encode_domain host port) a
        ≡ ok (true, record { host = host; port = decimal port })
  unfolding domain_address
  domain_read a n h = rw (le→leb (length host) 255 n, name_read, port_read h)

  -- A request for a host name of 3 to 255 bytes is decoded to that name and that port.
  pub get_remote_address_info-encode_domain :
      (inet : Inet) (a : Address)
      → 3 ≤ length host
      → length host ≤ 255
      → port < 65536
      → get_remote_address_info inet (encode_domain host port) a
        ≡ ok (true, record { host = host; port = decimal port })
  unfolding get_remote_address_info
  get_remote_address_info-encode_domain inet a low high h =
      rw (long, domain_read a high h)
        (ap ok (
          is_complete-filled host (decimal port) (is_empty-of_length host (omega arith))
            (decimal-ne-nil port)))
    where
      long : leb request_header_min_length (length (encode_domain host port)) ≡ true
      long = ground (arith, length-append host (port_bytes port))

  -- A host name of one or two bytes makes a packet below the minimal length, which is refused.
  pub encode_domain_too_short :
      length host < 3 → is_valid_request_packet (encode_domain host port) ≡ ok false
  unfolding is_valid_request_packet
  encode_domain_too_short h = ground (arith, length-append host (port_bytes port))

port_over_read :
    (buffer : Bytes) (i : ℕ)
    → length buffer < i + 2
    → get_port_from_binary buffer i ≡ fault over_read
unfolding get_port_from_binary
port_over_read buffer i short = elim (Option-cases (get_elem? buffer i)) [
  | inl e ↦ rw (e, get_port_from_binary)
  | inr (x, e) ↦ rw (e, get_port_from_binary) (rw (get_elem?-past_end buffer (i + 1) (omega arith)))
]

domain_over_read :
    (buffer : Bytes) (a : Address) (n : ℕ)
    → get_elem? buffer 4 ≡ some n
    → n ≤ 255
    → length buffer < 7 + n
    → domain_address buffer a ≡ fault over_read
unfolding domain_address
domain_over_read buffer a n named byte short = elim (Bool-cases (leb (5 + n) (length buffer))) [
  | inl whole ↦
      rw (named, domain_address)
        (rw (le→leb n 255 byte, whole)
          (rw (port_over_read buffer (data_offset + (n + 1)) (omega arith))))
  | inr cut ↦ rw (named, domain_address) (rw (le→leb n 255 byte, cut))
]

-- A request whose type is a host name is read past its end whenever the name is announced longer
-- than the packet, however well it passed the first check.
pub get_remote_address_info_over_read :
    (inet : Inet) (buffer : Bytes) (a : Address) (n : ℕ)
    → IsRequest buffer
    → get_elem? buffer 3 ≡ some dom
    → get_elem? buffer 4 ≡ some n
    → n ≤ 255
    → length buffer < 7 + n
    → get_remote_address_info inet buffer a ≡ fault over_read
unfolding get_remote_address_info
get_remote_address_info_over_read inet buffer a n q typed named byte short =
    rw (le→leb _ _ q.long, typed, get_remote_address_info)
      (rw (domain_over_read buffer a n named byte short))
