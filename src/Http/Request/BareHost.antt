-- ===== src/Http/Request/BareHost.antt =====
-- A request with a "Host:" line that has nothing behind the name.
use amgi_net_tools.Base.{
  ℕ, ◌+◌, ◌≡◌, false, [], ◌∷◌, some, Bytes, codes, text_eq, length, is_empty, fault, length_error,
  arith,
}
use amgi_net_tools.Http.Text.{split, find, starts_with, to_string, value_at, get_http_header_value}
use amgi_net_tools.Http.Request.{
  k_host, with_method, with_target, three_fields, get_request_fields, take_header, take_headers,
  get_remaining_required_fields, second_step, header_lines, get_headers, host_of, get_host,
  is_found,
}

-- The size of a value that is not there wraps around.
pub get_http_header_value_wraps :
    (name line : Bytes) (pos : ℕ)
    → find name line ≡ some pos
    → length line ≡ length name + pos
    → (get_http_header_value name line).size ≡ 18446744073709551615
unfolding get_http_header_value value_at
get_http_header_value_wraps name line pos found ends = ground (arith, found, ends)

-- The headers of a request by `GET` with nothing but a bare "Host:" line.
bare_headers :
    (first target version : Bytes)
    → split first (codes " ") ≡ codes "GET" ∷ target ∷ version ∷ []
    → is_empty target ≡ false
    → is_empty version ≡ false
    → get_host (header_lines (first ∷ k_host ∷ [])) ≡ fault length_error
unfolding header_lines get_request_fields three_fields with_target with_method
    get_remaining_required_fields second_step take_header take_headers get_host host_of to_string
    text_eq is_found find starts_with get_http_header_value value_at
bare_headers first target version fields t v = rw (fields, t, v)

-- The defect: the host of a `GET` request whose one header line is "Host:" with nothing behind the colon is
-- not found missing: reading it throws `std::length_error`. The lines and the fields of the request are given
-- by what `split` makes of them.
pub bare_host_throws :
    (buffer first target version : Bytes)
    → split buffer (codes "\r\n") ≡ first ∷ k_host ∷ []
    → split first (codes " ") ≡ codes "GET" ∷ target ∷ version ∷ []
    → is_empty target ≡ false
    → is_empty version ≡ false
    → get_host (get_headers buffer) ≡ fault length_error
unfolding get_headers
bare_host_throws buffer first target version lines fields t v =
    rw lines (bare_headers first target version fields t v)
