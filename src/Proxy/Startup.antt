-- ===== src/Proxy/Startup.antt =====
-- transport/server.cpp, transport/tls/tls_server.cpp and main.cpp: what precedes the first accept, and what is said when a
-- call throws.
use mathlib.Core.List.{Memᴰ}
use mathlib.Core.Path.{subst}
use amgi_net_tools.Base.{
  ◌≢◌, ◌≡◌, ◌⊎◌, refl, sym, ap, inl, inr, Bool, true, false, Bytes, List, [], ◌∷◌, ◌++◌, codes,
  Option, none, some, arith,
}
use amgi_net_tools.Base.Attempts.{
  finished, perform-cases, Quiet, Quiet-append, Broken, some_of, some_of-prefix, past_five,
}
use amgi_net_tools.Transport.ServerStream.{Kind, tcp, tls}
use amgi_net_tools.Decimal.{from_chars}
use amgi_net_tools.Main.{TlsOptions, Variables, Service, main, main-tls}
use amgi_net_tools.Proxy.Acceptor
use amgi_net_tools.Proxy.Setup.{
  Call, bind, listen, async_accept, ssl_ctx_set_min_proto_version, tls1_3_version,
  use_certificate_chain_file, use_private_key_file, load_verify_file, set_verify_mode, verify_peer,
  verify_fail_if_no_peer_cert, configure_signals, async_wait_signals, listen_on, start_accept,
  configure_tls, prepare_server, prepare_tls_server, prepare, construct, banner, caught, conclude,
  run_service,
}

abbrev pub is_accept : Call → Bool
is_accept (async_accept n) = true
is_accept _ = false

-- Whether a connection is awaited.
abbrev pub accepts : List Call → Bool
accepts cs = some_of is_accept cs

-- Only the last call awaits a connection.
prepare-accepts :
    (kind : Kind) (port : Bytes) (files : TlsOptions) → accepts (prepare kind port files) ≡ false
unfolding prepare prepare_server prepare_tls_server configure_signals async_wait_signals listen_on
    configure_tls
prepare-accepts tcp port files = refl
prepare-accepts tls port files = refl

conclude-calls :
    (lines : Bytes) (ran : Option Bytes) (made : List Call)
    → (conclude lines ran (finished made)).calls ≡ made
unfolding conclude caught
conclude-calls lines none made = refl
conclude-calls lines (some what) made = refl

module _ (throws : List Call → Call → Option Bytes) (ran : Option Bytes) (s : Service) where
  -- All calls were made, in their order, and none threw.
  pub record Starts : Type 0 where
    pub quiet : Quiet throws [] (construct s)
    pub calls : (run_service throws ran s).calls ≡ construct s

  -- The calls before the first that throws were made, no connection is awaited, and the exception is printed and logged.
  pub record Fails : Type 0 where
    pub broken : Broken throws [] (construct s)
    pub calls : (run_service throws ran s).calls ≡ broken.before
    pub waits_not : accepts broken.before ≡ false
    pub printed : (run_service throws ran s).printed ≡ banner s ++ broken.what ++ codes "\n"
    pub fatal_record :
        (run_service throws ran s).fatal_record ≡ some (codes "fatal error: " ++ broken.what)

  -- Whatever a call throws, the program makes all calls of its start up to the first accept, and none throws, or it makes those
  -- before the first that throws, awaits no connection, and prints and logs what the exception says.
  pub run_service-Decides : Starts ⊎ Fails
  unfolding run_service conclude caught construct start_accept
  run_service-Decides = elim (perform-cases throws (construct s) []) [
    | inl (quiet, done) ↦
        inl
          (record { quiet = quiet; calls = rw done (conclude-calls (banner s) ran (construct s)) })
    | inr (b, stopped) ↦ inr (record {
      broken = b;
      calls = rw stopped refl;
      waits_not =
          some_of-prefix is_accept (prepare s.kind s.port s.files) b.before b.after
            (async_accept Acceptor.make.stream_id) b.culprit (prepare-accepts s.kind s.port s.files)
            b.parts;
      printed = rw stopped refl;
      fatal_record = rw stopped refl;
    })
  ]

-- What the TLS server has asked for before its first accept, for a port and files.
pub record Verifies (port : Bytes) (o : TlsOptions) (before : List Call) : Type 0 where
  pub tls_only : Memᴰ (ssl_ctx_set_min_proto_version tls1_3_version) before
  pub certificate : Memᴰ (use_certificate_chain_file o.server_cert) before
  pub key : Memᴰ (use_private_key_file o.private_key) before
  pub authority : Memᴰ (load_verify_file o.ca_cert) before
  pub clients : Memᴰ (set_verify_mode (verify_peer ∷ verify_fail_if_no_peer_cert ∷ [])) before
  pub bound : Memᴰ (bind (from_chars port)) before
  pub listens : Memᴰ listen before

prepare-Verifies : (port : Bytes) (o : TlsOptions) → Verifies port o (prepare tls port o)
unfolding prepare prepare_tls_server configure_signals async_wait_signals configure_tls listen_on
prepare-Verifies port o = record {
  tls_only = past_five (Memᴰ.head refl);
  certificate = past_five (Memᴰ.tail (Memᴰ.head refl));
  key = past_five (Memᴰ.tail (Memᴰ.tail (Memᴰ.tail (Memᴰ.head refl))));
  authority = past_five (Memᴰ.tail (Memᴰ.tail (Memᴰ.tail (Memᴰ.tail (Memᴰ.head refl)))));
  clients = past_five (past_five (Memᴰ.head refl));
  bound = past_five (past_five (Memᴰ.tail (Memᴰ.tail (Memᴰ.tail (Memᴰ.head refl)))));
  listens = past_five (past_five (Memᴰ.tail (Memᴰ.tail (Memᴰ.tail (Memᴰ.tail (Memᴰ.head refl))))));
}

-- What the program has done once it awaits connections, for what the command line has given.
pub record Serves (throws : List Call → Call → Option Bytes) (v : Variables) (calls : List Call)
    : Type 0 where
  pub before : List Call
  pub parts : calls ≡ before ++ async_accept 1 ∷ []
  pub verifies : Verifies v.port v.tls_options before
  pub some_key : v.tls_options.private_key ≢ []
  pub some_certificate : v.tls_options.server_cert ≢ []
  pub some_authority : v.tls_options.ca_cert ≢ []
  pub quiet : Quiet throws [] before

-- A proxy that was started with `--tls` and awaits a connection has, without an exception and before its one accept, asked for
-- TLS 1.3 at least, read the certificate, the private key and the authority file of the command line, none of which
-- has an empty name, asked that each client shows a certificate, and bound its acceptor to the port of the command line
-- and put it to listen.
pub run_service-Serves :
    (throws : List Call → Call → Option Bytes) (ran : Option Bytes) (v : Variables) (s : Service)
    → main v ≡ some s
    → v.has_tls ≡ true
    → accepts (run_service throws ran s).calls ≡ true
    → Serves throws v (run_service throws ran s).calls
unfolding construct start_accept Acceptor.make
run_service-Serves throws ran v s started requested waits =
    let (is_tls, same_port, same_files, some_key, some_certificate, some_authority) =
      main-tls v s requested started in
    elim (run_service-Decides throws ran s) [
      | inr f ↦ absurd (ground (arith, waits, ap accepts f.calls, f.waits_not))
      | inl d ↦ record {
        before = prepare s.kind s.port s.files;
        parts = d.calls;
        verifies =
            subst (λ k. Verifies v.port v.tls_options (prepare k s.port s.files)) (sym is_tls)
              (subst (λ o. Verifies v.port v.tls_options (prepare tls s.port o)) (sym same_files)
                (subst (λ n. Verifies v.port v.tls_options (prepare tls n v.tls_options))
                  (sym same_port) (prepare-Verifies v.port v.tls_options)));
        some_key = some_key;
        some_certificate = some_certificate;
        some_authority = some_authority;
        quiet =
            Quiet-append throws [] (prepare s.kind s.port s.files) (async_accept 1 ∷ []) d.quiet;
      }
    ]
