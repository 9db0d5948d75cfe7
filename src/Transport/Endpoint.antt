-- ===== src/Transport/Endpoint.antt =====
-- How the streams of the proxy and the sessions of the tunnel print the ends of a connection: `ep_to_str` of tcp_client_stream.cpp,
-- tcp_server_stream.cpp, tls/tls_server_stream.cpp and amgi_tunnel/session.hpp. What asio says of a socket is the argument.
use amgi_net_tools.Base.{
  ℕ, ◌<◌, ◌≡◌, refl, ap, ◌∙◌, Bool, true, false, [], ◌∷◌, ◌++◌, Bytes, codes, ==_refl,
  if◌then◌else◌, arith,
}
use amgi_net_tools.Decimal.{decimal, from_chars, from_chars-decimal, decimal-lacks, has}

pub data Direction : Type 0 where
  remote_end local_end : Direction

-- The address and the port of one end, or what the error says.
pub data End : Type 0 where
  located : (address : Bytes) → (port : ℕ) → End
  unknown : (message : Bytes) → End

pub record Socket : Type 0 where
  pub is_open : Bool
  pub remote_endpoint : End
  pub local_endpoint : End

abbrev pub end_of : Direction → Socket → End
end_of remote_end sock = sock.remote_endpoint
end_of local_end sock = sock.local_endpoint

abbrev failure : Direction → Bytes
failure remote_end = codes "remote_endpoint failed: "
failure local_end = codes "local_endpoint failed: "

end_to_str : Direction → End → Bytes
end_to_str dir (unknown message) = failure dir ++ message
end_to_str dir (located address port) = address ++ b':' ∷ decimal port

unfoldable pub ep_to_str : Socket → Direction → Bytes
unfolding end_to_str
ep_to_str sock dir =
    if sock.is_open then end_to_str dir (end_of dir sock) else codes "socket not opened"

-- The server streams print the other end; over TLS it is that of the lowest layer.
abbrev pub client_of : Socket → Bytes
client_of sock = ep_to_str sock remote_end

abbrev pub tls_client_of : Socket → Bytes
tls_client_of lowest_layer = ep_to_str lowest_layer remote_end

-- The text before the last colon, and the text after it.
abbrev pub before_last : ℕ → Bytes → Bytes
before_last c [] = []
before_last c (x ∷ xs) = let rest = before_last c xs in if has c xs then x ∷ rest else []

abbrev pub after_last : ℕ → Bytes → Bytes
after_last c [] = []
after_last c (x ∷ xs) = let rest = after_last c xs in if has c xs then rest else xs

has-middle : (c : ℕ) (xs ys : Bytes) → has c (xs ++ c ∷ ys) ≡ true
has-middle c [] ys = ground (arith, ==_refl c)
has-middle c (x ∷ xs) ys = let rest = has-middle c xs ys in ground (arith, rest)

before_last-middle : (c : ℕ) (xs ys : Bytes) → has c ys ≡ false → before_last c (xs ++ c ∷ ys) ≡ xs
before_last-middle c [] ys none_of = rw none_of
before_last-middle c (x ∷ xs) ys none_of =
    rw (has-middle c xs ys, before_last-middle c xs ys none_of)

after_last-middle : (c : ℕ) (xs ys : Bytes) → has c ys ≡ false → after_last c (xs ++ c ∷ ys) ≡ ys
after_last-middle c [] ys none_of = rw none_of
after_last-middle c (x ∷ xs) ys none_of = rw (has-middle c xs ys, after_last-middle c xs ys none_of)

when_true : {A : Type 0} (test : Bool) (a b : A) → test ≡ true → (if test then a else b) ≡ a
when_true true a b h = refl
when_true false a b h = absurd (ground arith)

located_to_str :
    (sock : Socket) (dir : Direction) (address : Bytes) (port : ℕ)
    → sock.is_open ≡ true
    → end_of dir sock ≡ located address port
    → ep_to_str sock dir ≡ address ++ b':' ∷ decimal port
unfolding ep_to_str end_to_str
located_to_str sock dir address port opened there =
    when_true sock.is_open (end_to_str dir (end_of dir sock)) (codes "socket not opened") opened
    ∙ ap (end_to_str dir) there

-- An end of a socket that is open and located is read back from what is printed: what stands before the last colon is its
-- address, which may have colons, and the number after it its port, below 65536.
pub ep_to_str-located :
    (sock : Socket) (dir : Direction) (address : Bytes) (port : ℕ)
    → sock.is_open ≡ true
    → end_of dir sock ≡ located address port
    → port < 65536
    → (before_last b':' (ep_to_str sock dir) ≡ address)
      × (from_chars (after_last b':' (ep_to_str sock dir)) ≡ port)
ep_to_str-located sock dir address port opened there small =
    let printed = located_to_str sock dir address port opened there in
    (
      ap (before_last b':') printed
          ∙ before_last-middle b':' address (decimal port) (decimal-lacks port),
      ap (λ t. from_chars (after_last b':' t)) printed
          ∙ ap from_chars (after_last-middle b':' address (decimal port) (decimal-lacks port))
          ∙ from_chars-decimal port small,
    )
