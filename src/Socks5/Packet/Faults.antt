-- ===== src/Socks5/Packet/Faults.antt =====
-- The faults of the readers in socks5.cpp.
use amgi_net_tools.Base.{ℕ, ◌≡◌, Bytes, fault, Fault, over_read, arith}
use amgi_net_tools.Socks5.Packet.{
  Inet, Address, byte_at, bytes_at, get_port_from_binary, numeric_address, domain_address,
  read_address, get_remote_address_info,
}

byte_at-fault : (buffer : Bytes) (i : ℕ) {x : Fault} → byte_at buffer i ≡ fault x → x ≡ over_read
unfolding byte_at
byte_at-fault buffer i h = ground arith

bytes_at-fault :
    (buffer : Bytes) (i n : ℕ) {x : Fault} → bytes_at buffer i n ≡ fault x → x ≡ over_read
unfolding bytes_at
bytes_at-fault buffer i n h = ground arith

get_port-fault :
    (buffer : Bytes) (i : ℕ) {x : Fault} → get_port_from_binary buffer i ≡ fault x → x ≡ over_read
unfolding get_port_from_binary byte_at
get_port-fault buffer i h = ground arith

pub get_remote_address_info-fault :
    (inet : Inet) (buffer : Bytes) (a : Address) {x : Fault}
    → get_remote_address_info inet buffer a ≡ fault x
    → x ≡ over_read
unfolding get_remote_address_info read_address numeric_address domain_address
get_remote_address_info-fault inet buffer a h = ground arith
