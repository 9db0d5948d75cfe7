-- ===== src/Tunnel/Startup.antt =====
-- amgi_tunnel/main.cpp and server.hpp: what precedes the first accept, and what is said when a call throws.
use mathlib.Core.List.{Memᴰ}
use amgi_net_tools.Base.{
  ◌≡◌, ◌≢◌, ◌⊎◌, refl, inl, inr, Bool, true, false, Bytes, List, [], ◌∷◌, ◌++◌, codes, Option, none,
  some, arith,
}
use amgi_net_tools.Base.Attempts.{
  finished, perform, perform-cases, Quiet, Quiet-append, Broken, some_of, some_of-prefix, past_five,
}
use amgi_net_tools.Tunnel.Main.{
  TlsOptions, ServerConf, Forwarder, parse_command_line_arguments_new, make, main,
}
use amgi_net_tools.Proxy.Setup.{sigint, sigterm, default_workarounds, no_tlsv1_1, no_tlsv1_2}
use amgi_net_tools.Tunnel.Setup.{
  Call, make_context, tlsv13_client, add, async_wait, set_options, async_accept, load_verify_file,
  use_private_key_file, use_certificate_file, set_verify_mode, verify_peer, configure_signals,
  start_wait_signals, configure_tls, listen_on, make_session, prepare, construct, conclude,
  run_main,
}

abbrev pub is_accept : Call → Bool
is_accept async_accept = true
is_accept _ = false

-- Whether a connection is awaited.
abbrev pub accepts : List Call → Bool
accepts cs = some_of is_accept cs

prepare-accepts : (f : Forwarder) → accepts (prepare f) ≡ false
unfolding prepare configure_signals start_wait_signals configure_tls listen_on make_session
prepare-accepts f = refl

conclude-calls :
    (ran : Option Bytes) (made : List Call) → (conclude ran (finished made)).calls ≡ made
unfolding conclude
conclude-calls none made = refl
conclude-calls (some what) made = refl

-- What the server has asked for before its first accept: the files that were given are read, and the other end of the
-- TLS connection of the first session has to show a certificate that is verified.
pub record Verifies (o : TlsOptions) (before : List Call) : Type 0 where
  pub authority : Memᴰ (load_verify_file o.ca_cert) before
  pub key : Memᴰ (use_private_key_file o.private_key) before
  pub certificate : Memᴰ (use_certificate_file o.client_cert) before
  pub server_verified : Memᴰ (set_verify_mode verify_peer) before

prepare-Verifies : (f : Forwarder) → Verifies f.tls_options (prepare f)
unfolding prepare configure_signals start_wait_signals configure_tls listen_on make_session
prepare-Verifies f = record {
  authority = past_five (Memᴰ.head refl);
  key = past_five (Memᴰ.tail (Memᴰ.head refl));
  certificate = past_five (Memᴰ.tail (Memᴰ.tail (Memᴰ.head refl)));
  server_verified = past_five (past_five (Memᴰ.tail (Memᴰ.tail (Memᴰ.head refl))));
}

module _ (throws : List Call → Call → Option Bytes) (ran answer : Option Bytes)
    (options : ServerConf) where
  -- The calls before the accept were made, and none threw.
  pub record Starts : Type 0 where
    pub before : List Call
    pub parts : (run_main throws ran answer options).calls ≡ before ++ async_accept ∷ []
    pub verifies : Verifies (parse_command_line_arguments_new answer options).tls_options before
    pub quiet : Quiet throws [] before

  -- The calls before the first that throws were made, no connection is awaited, and the exception is printed.
  pub record Fails : Type 0 where
    pub broken : Broken throws [] (construct (main answer options))
    pub calls : (run_main throws ran answer options).calls ≡ broken.before
    pub waits_not : accepts broken.before ≡ false
    pub errors : (run_main throws ran answer options).errors ≡ broken.what ++ codes "\n"

  -- Whatever a call throws, the tunnel reads the files that were given, verifies the other end of the first session and awaits a
  -- connection, where no call throws, or makes the calls before the first that throws, awaits no connection and
  -- prints what the exception says.
  pub run_main-Decides : Starts ⊎ Fails
  unfolding run_main construct conclude main make
  run_main-Decides =
      let f = main answer options in
      elim (perform-cases throws (construct f) []) [
        | inl (quiet, done) ↦ inl (record {
          before = prepare f;
          parts = rw done (conclude-calls ran (construct f));
          verifies = prepare-Verifies f;
          quiet = Quiet-append throws [] (prepare f) (async_accept ∷ []) quiet;
        })
        | inr (b, stopped) ↦ inr (record {
          broken = b;
          calls = rw stopped refl;
          waits_not =
              some_of-prefix is_accept (prepare f) b.before b.after async_accept b.culprit
                (prepare-accepts f) b.parts;
          errors = rw stopped refl;
        })
      ]

-- What the server of a tunnel with empty options does before it reads a file.
abbrev pub first_calls : List Call
first_calls =
    make_context tlsv13_client
    ∷ add sigint
    ∷ add sigterm
    ∷ async_wait
    ∷ set_options (default_workarounds ∷ no_tlsv1_1 ∷ no_tlsv1_2 ∷ [])
    ∷ []

-- The defect: a tunnel whose command line the parser refuses does not stop there. Where no call of asio throws but that for an
-- authority file without a name, which does, the server has been made as far as its TLS context, its signals and the wait
-- for them, and what is printed to `std::cerr` is what that exception says.
pub run_main-refused :
    (throws : List Call → Call → Option Bytes) (ran : Option Bytes) (message what : Bytes)
    (options : ServerConf)
    → ((made : List Call) → throws made (load_verify_file []) ≡ some what)
    → ((made : List Call) (c : Call) → c ≢ load_verify_file [] → throws made c ≡ none)
    → ((run_main throws ran (some message) options).calls ≡ first_calls)
      × ((run_main throws ran (some message) options).errors ≡ what ++ codes "\n")
unfolding run_main perform parse_command_line_arguments_new construct prepare conclude main make
    configure_signals start_wait_signals configure_tls
run_main-refused throws ran message what options unreadable fine =
    let a = fine [] (make_context tlsv13_client) (λ e. ground (arith, e)) in
    let b = λ (made : List Call). fine made (add sigint) (λ e. ground (arith, e)) in
    let c = λ (made : List Call). fine made (add sigterm) (λ e. ground (arith, e)) in
    let d = λ (made : List Call). fine made async_wait (λ e. ground (arith, e)) in
    let f = λ (made : List Call).
      fine made (set_options (default_workarounds ∷ no_tlsv1_1 ∷ no_tlsv1_2 ∷ []))
        (λ e. ground (arith, e)) in
    (rw (a, b, c, d, f, unreadable) refl, rw (a, b, c, d, f, unreadable) refl)
