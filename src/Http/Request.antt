-- ===== src/Http/Request.antt =====
-- http.h and http.cpp: the headers of a request.
pub mod Faults
pub mod BareHost
pub mod Connect
pub mod Forward
use amgi_net_tools.Base.{
  ℕ, suc, ◌==◌, ltb, Bool, true, false, not, ◌||◌, List, [], ◌∷◌, Option, none, some, Bytes, codes,
  text_eq, length, is_empty, if◌then◌else◌, Result, ok, ◌>>=◌,
}
use amgi_net_tools.Http.Text.{
  StringView, view, split, find, to_string, read_view, get_http_header_value,
}

pub data RequestMethod : Type 0 where
  k_none k_get k_post k_delete k_update k_head k_connect : RequestMethod

pub record RequestHeaders : Type 0 where
  pub method : RequestMethod
  pub uri : Bytes
  pub version : Bytes
  pub host : StringView
  pub connection : StringView

abbrev pub k_host : Bytes
k_host = codes "Host:"

abbrev pub k_connection : Bytes
k_connection = codes "Connection:"

-- `request_headers{}`
abbrev pub no_headers : RequestHeaders
no_headers = record {
  method = k_none;
  uri = [];
  version = [];
  host = view [];
  connection = view [];
}

abbrev is_empty_view : StringView → Bool
is_empty_view v = v.size == 0

-- The method of a first field; a `CONNECT` also names the host.
unfoldable pub with_method : Bytes → Bytes → RequestHeaders → RequestHeaders × Bool
with_method name target req =
    if text_eq name (codes "GET")
    then (record req { method = k_get }, true)
    else if text_eq name (codes "POST")
    then (record req { method = k_post }, true)
    else if text_eq name (codes "DELETE")
    then (record req { method = k_delete }, true)
    else if text_eq name (codes "UPDATE")
    then (record req { method = k_update }, true)
    else if text_eq name (codes "HEAD")
    then (record req { method = k_head }, true)
    else if text_eq name (codes "CONNECT")
    then (record req { method = k_connect; host = view target }, true)
    else (record req { method = k_none }, false)

-- The fields of a known method; for any other the code returns `npos`, which is true, before it stores
-- the rest.
with_target : Bytes → Bytes → RequestHeaders × Bool → Bool × RequestHeaders
with_target uri version (req, known) =
    (true, if known then record req { uri = uri; version = version } else req)

three_fields : List Bytes → RequestHeaders → Bool × RequestHeaders
unfolding with_method with_target
three_fields (a ∷ b ∷ c ∷ []) req =
    if is_empty a || (is_empty b || is_empty c)
    then (false, req)
    else with_target b c (with_method a b req)
three_fields _ req = (false, req)

unfoldable pub get_request_fields : Bytes → RequestHeaders → Bool × RequestHeaders
unfolding three_fields
get_request_fields header req = three_fields (split header (codes " ")) req

is_found : Option ℕ → Bool
is_found none = false
is_found (some pos) = true

-- One round of the loop over the header lines.
unfoldable pub take_header : Bytes → RequestHeaders → RequestHeaders
unfolding is_found
take_header line req =
    if is_empty_view req.host
    then (if is_found (find k_host line)
        then record req { host = get_http_header_value k_host line }
        else req)
    else (if is_found (find k_connection line)
        then record req { connection = get_http_header_value k_connection line }
        else req)

take_headers : List Bytes → RequestHeaders → RequestHeaders
unfolding take_header
take_headers [] req = req
take_headers (line ∷ lines) req = take_headers lines (take_header line req)

-- The lines are those from `start_idx`, 1, on.
unfoldable pub get_remaining_required_fields : List Bytes → RequestHeaders → Bool × RequestHeaders
unfolding take_headers
get_remaining_required_fields lines req =
    let done = take_headers lines req in (not (is_empty_view done.host), done)

-- The two steps of `get_headers` once the lines are split, each with its early return.
second_step : List Bytes → Bool × RequestHeaders → RequestHeaders
unfolding get_remaining_required_fields
second_step lines (good, req) =
    if not good
    then no_headers
    else (let (complete, done) = get_remaining_required_fields lines req in
        if not complete then no_headers else done)

header_lines : List Bytes → RequestHeaders
unfolding get_request_fields second_step
header_lines (first ∷ second ∷ lines) =
    second_step (second ∷ lines) (get_request_fields first no_headers)
header_lines _ = no_headers

unfoldable pub get_headers : Bytes → RequestHeaders
unfolding header_lines
get_headers header = header_lines (split header (codes "\r\n"))

first_of_two : List Bytes → Bytes
first_of_two (a ∷ b ∷ []) = a
first_of_two _ = []

second_of_two : List Bytes → Bytes
second_of_two (a ∷ b ∷ []) = b
second_of_two _ = []

host_of : RequestMethod → RequestHeaders → Result Bytes
unfolding first_of_two
host_of k_connect req = do host ← read_view req.host; ok (first_of_two (split host (codes ":")))
host_of _ req = to_string req.host

unfoldable pub get_host : RequestHeaders → Result Bytes
unfolding host_of
get_host req = host_of req.method req

service_of : RequestMethod → RequestHeaders → Result Bytes
unfolding first_of_two second_of_two
service_of k_connect req = do host ← read_view req.host; ok (second_of_two (split host (codes ":")))
service_of _ req = ok (first_of_two (split req.uri (codes ":")))

unfoldable pub get_service : RequestHeaders → Result Bytes
unfolding service_of
get_service req = service_of req.method req
