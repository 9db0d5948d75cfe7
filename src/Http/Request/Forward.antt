-- ===== src/Http/Request/Forward.antt =====
-- A request to forward, with the address of what is asked for in its first line.
use amgi_net_tools.Base.{
  ℕ, ◌-◌, ◌^◌, ◌<◌, ◌≡◌, refl, ap, ◌∙◌, Bool, true, false, not, [], ◌∷◌, ◌++◌, Bytes, codes,
  text_eq, length, ok, arith, ◌==◌, List, take-length, le→leb,
}
use amgi_net_tools.Http.Text.{
  StringView, emit, is_one_of, split_from, split, starts_with, find, value_at,
  get_http_header_value, to_string,
}
use amgi_net_tools.Http.Splits.{Lacks, Lacks-append, Lacks-mono, split-until, split-whole}
use amgi_net_tools.Http.Request.{
  RequestMethod, k_none, k_get, k_post, k_delete, k_update, k_head, k_connect, RequestHeaders,
  no_headers, k_host, with_method, with_target, three_fields, get_request_fields, is_found,
  take_header, take_headers, get_remaining_required_fields, second_step, header_lines, get_headers,
  host_of, get_host, service_of, get_service, first_of_two,
}
use amgi_net_tools.Http.Request.Connect.{separators}

-- The word of a method in a request, and whether requests by it are forwarded.
abbrev pub word : RequestMethod → Bytes
word k_get = codes "GET"
word k_post = codes "POST"
word k_delete = codes "DELETE"
word k_update = codes "UPDATE"
word k_head = codes "HEAD"
word k_connect = codes "CONNECT"
word k_none = []

abbrev pub is_forwarded : RequestMethod → Bool
is_forwarded k_connect = false
is_forwarded k_none = false
is_forwarded _ = true

-- What a client sends (RFC 9112, 3.2.2), with one header line: `GET scheme:rest HTTP/1.1` and `Host: host`.
abbrev pub forward_request : RequestMethod → Bytes → Bytes → Bytes → Bytes
forward_request method scheme rest host =
    (word method ++ 32 ∷ ((scheme ++ 58 ∷ rest) ++ 32 ∷ codes "HTTP/1.1"))
    ++ 13 ∷ 10 ∷ ((codes "Host: " ++ host) ++ 13 ∷ 10 ∷ 13 ∷ 10 ∷ [])

word-Lacks : (m : RequestMethod) → Lacks separators (word m)
unfolding is_one_of
word-Lacks k_get = (refl, (refl, (refl, tt)))
word-Lacks k_post = (refl, (refl, (refl, (refl, tt))))
word-Lacks k_delete = (refl, (refl, (refl, (refl, (refl, (refl, tt))))))
word-Lacks k_update = (refl, (refl, (refl, (refl, (refl, (refl, tt))))))
word-Lacks k_head = (refl, (refl, (refl, (refl, tt))))
word-Lacks k_connect = (refl, (refl, (refl, (refl, (refl, (refl, (refl, tt)))))))
word-Lacks k_none = tt

-- The end of the header and the empty line.
two_ends : split (10 ∷ 13 ∷ 10 ∷ []) (codes "\r\n") ≡ []
unfolding split split_from emit is_one_of
two_ends = refl

spaces : (xs : Bytes) → Lacks separators xs → Lacks (codes " ") xs
unfolding is_one_of
spaces xs = Lacks-mono separators (codes " ") xs (λ c none_of. ground (arith, none_of))

line_ends : (xs : Bytes) → Lacks separators xs → Lacks (codes "\r\n") xs
unfolding is_one_of
line_ends xs = Lacks-mono separators (codes "\r\n") xs (λ c none_of. ground (arith, none_of))

colons : (xs : Bytes) → Lacks separators xs → Lacks (codes ":") xs
unfolding is_one_of
colons xs = Lacks-mono separators (codes ":") xs (λ c none_of. ground (arith, none_of))

module _ (m : RequestMethod) (s : ℕ) (ss : Bytes) (r : ℕ) (rs : Bytes) (h : ℕ) (hs : Bytes) where
  abbrev scheme : Bytes
  scheme = s ∷ ss

  abbrev rest : Bytes
  rest = r ∷ rs

  abbrev host : Bytes
  host = h ∷ hs

  abbrev target : Bytes
  target = scheme ++ 58 ∷ rest

  abbrev request_line : Bytes
  request_line = word m ++ 32 ∷ (target ++ 32 ∷ codes "HTTP/1.1")

  abbrev host_line : Bytes
  host_line = codes "Host: " ++ host

  target-Lacks :
      (d : Bytes) → is_one_of d 58 ≡ false → Lacks d scheme → Lacks d rest → Lacks d target
  target-Lacks d colon sl rl = Lacks-append d scheme (58 ∷ rest) sl (colon, rl)

  line-fields :
      is_forwarded m ≡ true
      → Lacks separators scheme
      → Lacks separators rest
      → split request_line (codes " ") ≡ word m ∷ target ∷ codes "HTTP/1.1" ∷ []
  unfolding emit is_one_of
  line-fields forwarded sl rl =
      split-until (codes " ") (word m) 32 (target ++ 32 ∷ codes "HTTP/1.1")
        (spaces (word m) (word-Lacks m)) refl
      ∙ ap (emit (word m)) (
          split-until (codes " ") target 32 (codes "HTTP/1.1")
            (target-Lacks (codes " ") refl (spaces scheme sl) (spaces rest rl)) refl
          ∙ ap (emit target) (
              split-whole (codes " ") (codes "HTTP/1.1")
                (refl, (refl, (refl, (refl, (refl, (refl, (refl, (refl, tt))))))))))
      ∙ emitted m (target ∷ codes "HTTP/1.1" ∷ []) forwarded
    where
      emitted :
          (m : RequestMethod) (items : _)
          → is_forwarded m ≡ true
          → emit (word m) items ≡ word m ∷ items
      emitted k_get items forwarded = refl
      emitted k_post items forwarded = refl
      emitted k_delete items forwarded = refl
      emitted k_update items forwarded = refl
      emitted k_head items forwarded = refl
      emitted k_connect items forwarded = refl
      emitted k_none items forwarded = absurd (ground arith)

  line-Lacks : Lacks separators scheme → Lacks separators rest → Lacks (codes "\r\n") request_line
  unfolding is_one_of
  line-Lacks sl rl =
      Lacks-append (codes "\r\n") (word m) (32 ∷ (target ++ 32 ∷ codes "HTTP/1.1"))
        (line_ends (word m) (word-Lacks m))
        (
          refl,
          Lacks-append (codes "\r\n") target (32 ∷ codes "HTTP/1.1")
              (target-Lacks (codes "\r\n") refl (line_ends scheme sl) (line_ends rest rl))
              (refl, (refl, (refl, (refl, (refl, (refl, (refl, (refl, (refl, tt))))))))),
        )

  target-parts :
      Lacks separators scheme
      → Lacks separators rest
      → split target (codes ":") ≡ scheme ∷ rest ∷ []
  unfolding emit is_one_of
  target-parts sl rl =
      split-until (codes ":") scheme 58 rest (colons scheme sl) refl
      ∙ ap (emit scheme) (split-whole (codes ":") rest (colons rest rl))

  message-lines :
      Lacks separators scheme
      → Lacks separators rest
      → Lacks (codes "\r\n") host
      → split (forward_request m scheme rest host) (codes "\r\n")
        ≡ emit request_line (host_line ∷ [])
  unfolding emit is_one_of
  message-lines sl rl hl =
      split-until (codes "\r\n") request_line 13 (10 ∷ (host_line ++ 13 ∷ 10 ∷ 13 ∷ 10 ∷ []))
        (line-Lacks sl rl) refl
      ∙ ap (emit request_line) (
          split-until (codes "\r\n") [] 10 (host_line ++ 13 ∷ 10 ∷ 13 ∷ 10 ∷ []) tt refl
          ∙ split-until (codes "\r\n") host_line 13 (10 ∷ 13 ∷ 10 ∷ [])
              (refl, (refl, (refl, (refl, (refl, (refl, hl)))))) refl
          ∙ ap (emit host_line) two_ends)

  -- The headers that the first line alone sets.
  abbrev opened : RequestHeaders
  opened = record no_headers { method = m; uri = target; version = codes "HTTP/1.1" }

  -- The value behind "Host: ".
  abbrev value : StringView
  value = record { text = host; size = length host }

  host-value : length host < 2 ^ 64 - 6 → get_http_header_value k_host host_line ≡ value
  unfolding get_http_header_value value_at find starts_with
  host-value small = ap (λ n. record { text = host; size = n }) (omega (arith, small))

  host_taken :
      length host < 2 ^ 64 - 6
      → second_step (host_line ∷ []) (true, opened) ≡ record opened { host = value }
  unfolding second_step get_remaining_required_fields take_headers take_header is_found find
      starts_with
  host_taken small =
      let there : (length host == 0) ≡ false = ground arith in
      rw (host-value small, there, not) refl

opened_fields :
    (m : RequestMethod) (s : ℕ) (ss : Bytes) (r : ℕ) (rs : Bytes) (h : ℕ) (hs : Bytes)
    → is_forwarded m ≡ true
    → three_fields (word m ∷ target m s ss r rs h hs ∷ codes "HTTP/1.1" ∷ []) no_headers
      ≡ (true, opened m s ss r rs h hs)
unfolding three_fields with_target with_method text_eq
opened_fields k_get s ss r rs h hs forwarded = refl
opened_fields k_post s ss r rs h hs forwarded = refl
opened_fields k_delete s ss r rs h hs forwarded = refl
opened_fields k_update s ss r rs h hs forwarded = refl
opened_fields k_head s ss r rs h hs forwarded = refl
opened_fields k_connect s ss r rs h hs forwarded = absurd (ground arith)
opened_fields k_none s ss r rs h hs forwarded = absurd (ground arith)

emit-line :
    (m : RequestMethod) (xs : Bytes) (items : List Bytes)
    → emit (word m ++ 32 ∷ xs) items ≡ (word m ++ 32 ∷ xs) ∷ items
unfolding emit
emit-line k_get xs items = refl
emit-line k_post xs items = refl
emit-line k_delete xs items = refl
emit-line k_update xs items = refl
emit-line k_head xs items = refl
emit-line k_connect xs items = refl
emit-line k_none xs items = refl

host_of-forwarded :
    (m : RequestMethod) (req : RequestHeaders)
    → is_forwarded m ≡ true
    → host_of m req ≡ to_string req.host
unfolding host_of
host_of-forwarded k_get req forwarded = refl
host_of-forwarded k_post req forwarded = refl
host_of-forwarded k_delete req forwarded = refl
host_of-forwarded k_update req forwarded = refl
host_of-forwarded k_head req forwarded = refl
host_of-forwarded k_connect req forwarded = absurd (ground arith)
host_of-forwarded k_none req forwarded = absurd (ground arith)

service_of-forwarded :
    (m : RequestMethod) (req : RequestHeaders)
    → is_forwarded m ≡ true
    → service_of m req ≡ ok (first_of_two (split req.uri (codes ":")))
unfolding service_of
service_of-forwarded k_get req forwarded = refl
service_of-forwarded k_post req forwarded = refl
service_of-forwarded k_delete req forwarded = refl
service_of-forwarded k_update req forwarded = refl
service_of-forwarded k_head req forwarded = refl
service_of-forwarded k_connect req forwarded = absurd (ground arith)
service_of-forwarded k_none req forwarded = absurd (ground arith)

module _ (m : RequestMethod) (s : ℕ) (ss : Bytes) (r : ℕ) (rs : Bytes) (h : ℕ) (hs : Bytes) where
  headers_read :
      is_forwarded m ≡ true
      → Lacks separators (s ∷ ss)
      → Lacks separators (r ∷ rs)
      → Lacks (codes "\r\n") (h ∷ hs)
      → length (h ∷ hs) < 2 ^ 64 - 6
      → get_headers (forward_request m (s ∷ ss) (r ∷ rs) (h ∷ hs))
        ≡ record (opened m s ss r rs h hs) { host = value m s ss r rs h hs }
  unfolding get_headers header_lines get_request_fields
  headers_read forwarded sl rl hl small =
      ap header_lines (
        message-lines m s ss r rs h hs sl rl hl
        ∙ emit-line m (target m s ss r rs h hs ++ 32 ∷ codes "HTTP/1.1")
            (host_line m s ss r rs h hs ∷ []))
      ∙ ap (λ items. second_step (host_line m s ss r rs h hs ∷ []) (three_fields items no_headers))
          (line-fields m s ss r rs h hs forwarded sl rl)
      ∙ ap (second_step (host_line m s ss r rs h hs ∷ []))
          (opened_fields m s ss r rs h hs forwarded)
      ∙ host_taken m s ss r rs h hs small

  abbrev read : RequestHeaders
  read = record (opened m s ss r rs h hs) { host = value m s ss r rs h hs }

  read_back :
      is_forwarded m ≡ true
      → Lacks separators (s ∷ ss)
      → Lacks separators (r ∷ rs)
      → (read.method ≡ m) × (get_host read ≡ ok (h ∷ hs)) × (get_service read ≡ ok (s ∷ ss))
  unfolding get_host get_service to_string first_of_two
  read_back forwarded sl rl = (
    refl,
    host_of-forwarded m read forwarded
        ∙ rw (le→leb (length (h ∷ hs)) (length (h ∷ hs)) (omega arith), take-length (h ∷ hs)) refl,
    service_of-forwarded m read forwarded
        ∙ ap (λ items. ok (first_of_two items)) (target-parts m s ss r rs h hs sl rl),
  )

  -- A request by GET, POST, DELETE, UPDATE or HEAD whose address has one colon, with a scheme before it and something after
  -- it, neither with a space or an end of a line in it, and whose one header line is "Host: " and a host that is not empty,
  -- has no end of a line in it and less than 2 ^ 64 - 6 bytes, is read as one by this method for that host, and
  -- with the scheme as its service.
  pub get_headers-forward_request :
      is_forwarded m ≡ true
      → Lacks separators (s ∷ ss)
      → Lacks separators (r ∷ rs)
      → Lacks (codes "\r\n") (h ∷ hs)
      → length (h ∷ hs) < 2 ^ 64 - 6
      → let req : RequestHeaders = get_headers (forward_request m (s ∷ ss) (r ∷ rs) (h ∷ hs)) in
        (req.method ≡ m) × (get_host req ≡ ok (h ∷ hs)) × (get_service req ≡ ok (s ∷ ss))
  get_headers-forward_request forwarded sl rl hl small =
      rw (headers_read forwarded sl rl hl small) (read_back forwarded sl rl)
