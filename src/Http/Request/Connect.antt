-- ===== src/Http/Request/Connect.antt =====
-- The request that opens a tunnel.
use amgi_net_tools.Base.{
  ℕ, ◌≡◌, refl, ap, ◌∙◌, true, false, not, [], ◌∷◌, ◌++◌, Bytes, codes, text_eq, length, ok, arith,
  ◌==◌, take-length, le→leb, ◌>>=◌,
}
use amgi_net_tools.Http.Text.{view, emit, is_one_of, split_from, split, read_view}
use amgi_net_tools.Http.Splits.{Lacks, Lacks-append, Lacks-mono, split-until, split-whole}
use amgi_net_tools.Http.Request.{
  k_connect, RequestHeaders, no_headers, with_method, with_target, three_fields, get_request_fields,
  take_header, take_headers, get_remaining_required_fields, second_step, header_lines, get_headers,
  host_of, get_host, service_of, get_service, first_of_two, second_of_two,
}

-- What a client sends to open a tunnel (RFC 9110, 9.3.6), with one header line.
abbrev pub connect_request : Bytes → Bytes → Bytes → Bytes
connect_request host port header =
    (codes "CONNECT" ++ 32 ∷ ((host ++ 58 ∷ port) ++ 32 ∷ codes "HTTP/1.1"))
    ++ 13 ∷ 10 ∷ (header ++ 13 ∷ 10 ∷ 13 ∷ 10 ∷ [])

-- Neither a space, a colon, nor the end of a line.
abbrev pub separators : Bytes
separators = codes " :\r\n"

-- The end of the header and the empty line.
two_ends : split (10 ∷ 13 ∷ 10 ∷ []) (codes "\r\n") ≡ []
unfolding split split_from emit is_one_of
two_ends = refl

module _ (h : ℕ) (hs : Bytes) (p : ℕ) (ps : Bytes) where
  abbrev host : Bytes
  host = h ∷ hs

  abbrev port : Bytes
  port = p ∷ ps

  abbrev target : Bytes
  target = host ++ 58 ∷ port

  abbrev request_line : Bytes
  request_line = codes "CONNECT" ++ 32 ∷ (target ++ 32 ∷ codes "HTTP/1.1")

  target-Lacks :
      (d : Bytes)
      → ((c : ℕ) → is_one_of separators c ≡ false → is_one_of d c ≡ false)
      → is_one_of d 58 ≡ false
      → Lacks separators host
      → Lacks separators port
      → Lacks d target
  target-Lacks d f colon hl pl =
      Lacks-append d host (58 ∷ port) (Lacks-mono separators d host f hl)
        (colon, Lacks-mono separators d port f pl)

  line-fields :
      Lacks separators host
      → Lacks separators port
      → split request_line (codes " ") ≡ codes "CONNECT" ∷ target ∷ codes "HTTP/1.1" ∷ []
  unfolding emit is_one_of
  line-fields hl pl =
      split-until (codes " ") (codes "CONNECT") 32 (target ++ 32 ∷ codes "HTTP/1.1")
        (refl, (refl, (refl, (refl, (refl, (refl, (refl, tt))))))) refl
      ∙ ap (emit (codes "CONNECT")) (
          split-until (codes " ") target 32 (codes "HTTP/1.1")
            (target-Lacks (codes " ") (λ c none_of. ground (arith, none_of)) refl hl pl) refl
          ∙ ap (emit target) (
              split-whole (codes " ") (codes "HTTP/1.1")
                (refl, (refl, (refl, (refl, (refl, (refl, (refl, (refl, tt))))))))))

  line-Lacks : Lacks separators host → Lacks separators port → Lacks (codes "\r\n") request_line
  unfolding is_one_of
  line-Lacks hl pl =
      Lacks-append (codes "\r\n") (codes "CONNECT") (32 ∷ (target ++ 32 ∷ codes "HTTP/1.1"))
        (refl, (refl, (refl, (refl, (refl, (refl, (refl, tt)))))))
        (
          refl,
          Lacks-append (codes "\r\n") target (32 ∷ codes "HTTP/1.1")
              (target-Lacks (codes "\r\n") (λ c none_of. ground (arith, none_of)) refl hl pl)
              (refl, (refl, (refl, (refl, (refl, (refl, (refl, (refl, (refl, tt))))))))),
        )

  target-parts :
      Lacks separators host → Lacks separators port → split target (codes ":") ≡ host ∷ port ∷ []
  unfolding emit is_one_of
  target-parts hl pl =
      split-until (codes ":") host 58 port (weaker host hl) refl
      ∙ ap (emit host) (split-whole (codes ":") port (weaker port pl))
    where
      weaker : (xs : Bytes) → Lacks separators xs → Lacks (codes ":") xs
      weaker xs = Lacks-mono separators (codes ":") xs (λ c none_of. ground (arith, none_of))

  message-lines :
      (b : ℕ) (bs : Bytes)
      → Lacks separators host
      → Lacks separators port
      → Lacks (codes "\r\n") (b ∷ bs)
      → split (connect_request host port (b ∷ bs)) (codes "\r\n") ≡ request_line ∷ (b ∷ bs) ∷ []
  unfolding emit is_one_of
  message-lines b bs hl pl bl =
      split-until (codes "\r\n") request_line 13 (10 ∷ ((b ∷ bs) ++ 13 ∷ 10 ∷ 13 ∷ 10 ∷ []))
        (line-Lacks hl pl) refl
      ∙ ap (emit request_line) (
          split-until (codes "\r\n") [] 10 ((b ∷ bs) ++ 13 ∷ 10 ∷ 13 ∷ 10 ∷ []) tt refl
          ∙ split-until (codes "\r\n") (b ∷ bs) 13 (10 ∷ 13 ∷ 10 ∷ []) bl refl
          ∙ ap (emit (b ∷ bs)) two_ends)

  -- The headers that the first line alone sets.
  abbrev opened : RequestHeaders
  opened = record no_headers {
    method = k_connect;
    host = view target;
    uri = target;
    version = codes "HTTP/1.1";
  }

  line-opened :
      Lacks separators host
      → Lacks separators port
      → get_request_fields request_line no_headers ≡ (true, opened)
  unfolding get_request_fields three_fields with_target with_method text_eq
  line-opened hl pl = rw (line-fields hl pl)

  -- A header line leaves the host and the method.
  opened_kept :
      (line : Bytes)
      → ((take_header line opened).method ≡ k_connect)
        × ((take_header line opened).host ≡ view target)
  unfolding take_header
  opened_kept line = ground arith

  second_kept :
      (line : Bytes)
      → ((second_step (line ∷ []) (true, opened)).method ≡ k_connect)
        × ((second_step (line ∷ []) (true, opened)).host ≡ view target)
  unfolding second_step get_remaining_required_fields take_headers
  second_kept line =
      let (m, e) = opened_kept line in
      let there : ((take_header line opened).host.size == 0) ≡ false = ground (arith, e) in
      rw (there, not) (m, e)

  headers_opened :
      (b : ℕ) (bs : Bytes)
      → Lacks separators host
      → Lacks separators port
      → Lacks (codes "\r\n") (b ∷ bs)
      → get_headers (connect_request host port (b ∷ bs))
        ≡ second_step ((b ∷ bs) ∷ []) (true, opened)
  unfolding get_headers header_lines
  headers_opened b bs hl pl bl =
      ap header_lines (message-lines b bs hl pl bl)
      ∙ ap (second_step ((b ∷ bs) ∷ [])) (line-opened hl pl)

  target_read :
      (req : RequestHeaders)
      → req.method ≡ k_connect
      → req.host ≡ view target
      → Lacks separators host
      → Lacks separators port
      → (get_host req ≡ ok host) × (get_service req ≡ ok port)
  unfolding get_host get_service host_of service_of read_view first_of_two second_of_two
  target_read req m e hl pl = (
    rw (
      m,
      host_of,
      e,
      ◌>>=◌,
      le→leb (length target) (length target) (omega arith),
      take-length target,
      target-parts hl pl,
    ),
    rw (
      m,
      service_of,
      e,
      ◌>>=◌,
      le→leb (length target) (length target) (omega arith),
      take-length target,
      target-parts hl pl,
    ),
  )

  -- The request to open a tunnel is read as such, with its host and its port, whatever its header line is. The
  -- host and the port are not empty and have no space, colon or end of a line in them, and the header line
  -- is not empty and has no end of a line in it.
  pub get_headers-connect_request :
      (b : ℕ) (bs : Bytes)
      → Lacks separators host
      → Lacks separators port
      → Lacks (codes "\r\n") (b ∷ bs)
      → ((get_headers (connect_request host port (b ∷ bs))).method ≡ k_connect)
        × (get_host (get_headers (connect_request host port (b ∷ bs))) ≡ ok host)
        × (get_service (get_headers (connect_request host port (b ∷ bs))) ≡ ok port)
  get_headers-connect_request b bs hl pl bl =
      let (m, e) = second_kept (b ∷ bs) in
      rw (headers_opened b bs hl pl bl) (
        let (name, service) = target_read (second_step ((b ∷ bs) ∷ []) (true, opened)) m e hl pl in
        (m, name, service))
