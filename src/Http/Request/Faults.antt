-- ===== src/Http/Request/Faults.antt =====
-- Which faults reading the host and the service of a request can meet.
use amgi_net_tools.Base.{
  ℕ, ◌≤◌, ◌≡◌, ◌≢◌, refl, Bool, true, false, List, [], ◌∷◌, Bytes, codes, length, ◌==◌, Bool-cases,
  inl, inr, fault, Fault, length_error, arith,
}
use amgi_net_tools.Http.Text.{split, to_string, read_view}
use amgi_net_tools.Http.Request.{
  RequestMethod, k_connect, RequestHeaders, no_headers, with_method, with_target, three_fields,
  get_request_fields, take_header, take_headers, get_remaining_required_fields, second_step,
  header_lines, get_headers, host_of, service_of, get_host, get_service,
}

-- The host of a `CONNECT` request is there, and its size is that of its text.
pub record HasHost (req : RequestHeaders) : Type 0 where
  pub fits : req.host.size ≤ length req.host.text
  pub there : req.host.size ≢ 0

-- A `CONNECT` request has a host that can be read.
abbrev pub IsSound : RequestHeaders → Type 0
IsSound req = req.method ≡ k_connect → HasHost req

with_method-IsSound :
    (name : Bytes) (b : ℕ) (bs : Bytes) → IsSound (with_method name (b ∷ bs) no_headers).0
unfolding with_method
with_method-IsSound name b bs h = ground arith

with_target-IsSound :
    (uri version : Bytes) (r : RequestHeaders × Bool)
    → IsSound r.0
    → IsSound (with_target uri version r).1
unfolding with_target
with_target-IsSound uri version (req, true) s h =
    let t = s h in record { fits = t.fits; there = t.there }
with_target-IsSound uri version (req, false) s h = s h

three_fields-IsSound : (fields : List Bytes) → IsSound (three_fields fields no_headers).1
unfolding three_fields
three_fields-IsSound (a ∷ [] ∷ c ∷ []) h = ground arith
three_fields-IsSound (a ∷ (b ∷ bs) ∷ c ∷ []) h = ground (
  arith,
  with_target-IsSound (b ∷ bs) c (with_method a (b ∷ bs) no_headers) (with_method-IsSound a b bs),
)
three_fields-IsSound [] h = ground arith
three_fields-IsSound (a ∷ []) h = ground arith
three_fields-IsSound (a ∷ b ∷ []) h = ground arith
three_fields-IsSound (a ∷ b ∷ c ∷ d ∷ more) h = ground arith

get_request_fields-IsSound : (header : Bytes) → IsSound (get_request_fields header no_headers).1
unfolding get_request_fields
get_request_fields-IsSound header = three_fields-IsSound (split header (codes " "))

-- A line of headers leaves a host that is there as it is.
take_header-IsSound :
    (line : Bytes) (req : RequestHeaders) → IsSound req → IsSound (take_header line req)
unfolding take_header
take_header-IsSound line req s h = ground (arith, s)

take_headers-IsSound :
    (lines : List Bytes) (req : RequestHeaders) → IsSound req → IsSound (take_headers lines req)
unfolding take_headers
take_headers-IsSound [] req s = s
take_headers-IsSound (line ∷ lines) req s =
    take_headers-IsSound lines (take_header line req) (take_header-IsSound line req s)

no_headers-IsSound : IsSound no_headers
no_headers-IsSound h = ground (arith, h)

second_step-IsSound :
    (lines : List Bytes) (r : Bool × RequestHeaders) → IsSound r.1 → IsSound (second_step lines r)
unfolding second_step get_remaining_required_fields
second_step-IsSound lines (false, req) s = no_headers-IsSound
second_step-IsSound lines (true, req) s =
    elim (Bool-cases ((take_headers lines req).host.size == 0)) [
      | inl gone ↦ rw gone no_headers-IsSound
      | inr kept ↦ rw kept (take_headers-IsSound lines req s)
    ]

header_lines-IsSound : (lines : List Bytes) → IsSound (header_lines lines)
unfolding header_lines
header_lines-IsSound [] = no_headers-IsSound
header_lines-IsSound (first ∷ []) = no_headers-IsSound
header_lines-IsSound (first ∷ second ∷ lines) =
    second_step-IsSound (second ∷ lines) (get_request_fields first no_headers)
      (get_request_fields-IsSound first)

get_headers-IsSound : (header : Bytes) → IsSound (get_headers header)
unfolding get_headers
get_headers-IsSound header = header_lines-IsSound (split header (codes "\r\n"))

host_of-fault :
    (method : RequestMethod) (req : RequestHeaders) {x : Fault}
    → (method ≡ k_connect → HasHost req)
    → host_of method req ≡ fault x
    → x ≡ length_error
unfolding host_of to_string read_view
host_of-fault k_connect req s h = absurd (let t = s refl in ground (arith, t.fits, h))
host_of-fault _ req s h = ground (arith, h)

service_of-ne-fault :
    (method : RequestMethod) (req : RequestHeaders) {x : Fault}
    → (method ≡ k_connect → HasHost req)
    → service_of method req ≢ fault x
unfolding service_of read_view
service_of-ne-fault k_connect req s h = let t = s refl in ground (arith, t.fits, h)
service_of-ne-fault _ req s h = ground (arith, h)

-- Reading the host of a received request can only throw `std::length_error`, and reading its service
-- cannot fail.
pub get_host-fault :
    (buffer : Bytes) {x : Fault} → get_host (get_headers buffer) ≡ fault x → x ≡ length_error
unfolding get_host
get_host-fault buffer h =
    host_of-fault (get_headers buffer).method (get_headers buffer) (get_headers-IsSound buffer) h

pub get_service-ne-fault : (buffer : Bytes) {x : Fault} → get_service (get_headers buffer) ≢ fault x
unfolding get_service
get_service-ne-fault buffer h =
    service_of-ne-fault (get_headers buffer).method (get_headers buffer)
      (get_headers-IsSound buffer) h
