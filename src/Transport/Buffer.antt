-- ===== src/Transport/Buffer.antt =====
-- The fixed write buffer of a stream (stream.h) and the copy that fills it in `do_write`.
use amgi_net_tools.Base.{
  ℕ, ◌≤◌, ◌≡◌, ◌++◌, arith, leb, if◌then◌else◌, length, take, drop, replicate, Bytes, length-append,
  length-drop, length-replicate, take-append, Result, ok, fault, over_write,
}

abbrev pub max_buffer_size : ℕ
max_buffer_size = 0x4000

-- The array as a constructor leaves it.
pub zeroed_buffer : Bytes
zeroed_buffer = replicate max_buffer_size 0

-- `std::copy(event.begin(), event.end(), write_buffer_.begin())`: nothing checks that the event fits.
unfoldable pub copy_into : Bytes → Bytes → Result Bytes
copy_into event buffer =
    if leb (length event) (length buffer)
    then ok (event ++ drop (length event) buffer)
    else fault over_write

pub length-zeroed_buffer : length zeroed_buffer ≡ max_buffer_size
unfolding zeroed_buffer
length-zeroed_buffer = length-replicate {A = ℕ} max_buffer_size 0

pub copy_into-fits :
    (event buffer : Bytes)
    → length event ≤ length buffer
    → copy_into event buffer ≡ ok (event ++ drop (length event) buffer)
unfolding copy_into
copy_into-fits event buffer h = ground arith

pub copy_into-length :
    (event buffer : Bytes) {b : Bytes} → copy_into event buffer ≡ ok b → length b ≡ length buffer
unfolding copy_into
copy_into-length event buffer {b} h =
    ground
      (arith, length-append event (drop (length event) buffer), length-drop (length event) buffer)

pub copy_into-take :
    (event buffer : Bytes) {b : Bytes}
    → copy_into event buffer ≡ ok b
    → take (length event) b ≡ event
unfolding copy_into
copy_into-take event buffer {b} h = ground (arith, take-append event (drop (length event) buffer))
