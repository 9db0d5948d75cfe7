-- ===== src/Tunnel/Setup.antt =====
-- amgi_tunnel/main.cpp, with the constructors of server.hpp and session.hpp: what is called before the first connection is
-- awaited. Whether a call of asio throws, and what, is a parameter, which may depend on the calls before it.
use amgi_net_tools.Base.{ℕ, Bool, Bytes, List, [], ◌∷◌, ◌++◌, codes, Option, none, some}
use amgi_net_tools.Base.Attempts.{Attempt, finished, threw, perform}
use amgi_net_tools.Proxy.Setup.{
  Signal, sigint, sigterm, SslOption, default_workarounds, no_tlsv1_1, no_tlsv1_2,
}
use amgi_net_tools.Tunnel.Main.{TlsOptions, ServerConf, Forwarder, main}

pub data Method : Type 0 where
  tlsv13_client : Method

pub data VerifyMode : Type 0 where
  verify_peer : VerifyMode

pub data Call : Type 0 where
  make_context : Method → Call
  add : Signal → Call
  async_wait : Call
  set_options : List SslOption → Call
  load_verify_file : Bytes → Call
  use_private_key_file : Bytes → Call
  use_certificate_file : Bytes → Call
  open_acceptor : Call
  reuse_address : Call
  bind : ℕ → Call
  listen : Call
  set_verify_mode : VerifyMode → Call  -- of the socket of a session
  set_verify_callback : Call
  async_accept : Call

unfoldable pub configure_signals : List Call
configure_signals = add sigint ∷ add sigterm ∷ []

unfoldable pub start_wait_signals : List Call
start_wait_signals = async_wait ∷ []

unfoldable pub configure_tls : TlsOptions → List Call
configure_tls settings =
    set_options (default_workarounds ∷ no_tlsv1_1 ∷ no_tlsv1_2 ∷ [])
    ∷ load_verify_file settings.ca_cert
    ∷ use_private_key_file settings.private_key
    ∷ use_certificate_file settings.client_cert
    ∷ []

unfoldable pub listen_on : ℕ → List Call
listen_on port = open_acceptor ∷ reuse_address ∷ bind port ∷ listen ∷ []

-- The constructor of the session that waits for a connection.
unfoldable pub make_session : List Call
make_session = set_verify_mode verify_peer ∷ set_verify_callback ∷ []

-- The callback that it sets.
unfoldable pub verify_certificate : Bool → Bool
verify_certificate preverified = preverified

-- The constructor of the server, up to its accept.
unfoldable pub prepare : Forwarder → List Call
unfolding configure_signals start_wait_signals configure_tls listen_on make_session
prepare f =
    make_context tlsv13_client
    ∷ (configure_signals
        ++ start_wait_signals
        ++ configure_tls f.tls_options
        ++ listen_on f.port
        ++ make_session)

unfoldable pub construct : Forwarder → List Call
unfolding prepare
construct f = prepare f ++ async_accept ∷ []

-- What the program did when it ends: what it called, and what it wrote to `std::cerr`.
pub record Report : Type 0 where
  pub calls : List Call
  pub errors : Bytes

-- What comes of the constructor and then of `run`, which may throw.
unfoldable pub conclude : (ran : Option Bytes) → Attempt Call → Report
conclude ran (threw made what) = record { calls = made; errors = what ++ codes "\n" }
conclude (some what) (finished made) = record { calls = made; errors = what ++ codes "\n" }
conclude none (finished made) = record { calls = made; errors = [] }

-- `main`, for what the parser answers and the options are.
unfoldable pub run_main :
    (List Call → Call → Option Bytes)
    → (ran : Option Bytes) → (answer : Option Bytes) → ServerConf
    → Report
unfolding main construct conclude
run_main throws ran answer options =
    conclude ran (perform throws (construct (main answer options)) [])
