-- ===== src/Proxy/Setup.antt =====
-- transport/server.cpp, transport/tls/tls_server.cpp and the body of `main` in main.cpp: what is called before the first
-- connection is awaited. What a call does is not modelled; whether it throws, and what, is a parameter, which may depend on
-- the calls before it.
use amgi_net_tools.Base.{ℕ, Bytes, List, [], ◌∷◌, ◌++◌, codes, Option, none, some}
use amgi_net_tools.Base.Attempts.{Attempt, finished, threw, perform}
use amgi_net_tools.Decimal.{from_chars}
use amgi_net_tools.Transport.ServerStream.{Kind, tcp, tls}
use amgi_net_tools.Proxy.Acceptor
use amgi_net_tools.Main.{TlsOptions, Backend, http, socks5, Service}

pub data Signal : Type 0 where
  sigint sigterm : Signal

pub data Method : Type 0 where
  tlsv13_server : Method

pub data SslOption : Type 0 where
  default_workarounds no_tlsv1_1 no_tlsv1_2 : SslOption

pub data Version : Type 0 where
  tls1_3_version : Version

pub data VerifyFlag : Type 0 where
  verify_peer verify_fail_if_no_peer_cert : VerifyFlag

-- The calls of asio, of OpenSSL and of the logger. The two of OpenSSL, whose results are not looked at, do not throw.
pub data Call : Type 0 where
  make_context : Method → Call
  add : Signal → Call
  async_wait : Call
  set_options : List SslOption → Call
  ssl_ctx_set_min_proto_version : Version → Call
  use_certificate_chain_file : Bytes → Call
  ssl_ctx_set_client_ca_list : Bytes → Call
  use_private_key_file : Bytes → Call
  load_verify_file : Bytes → Call
  set_verify_mode : List VerifyFlag → Call
  open_acceptor : Call
  reuse_address : Call
  bind : ℕ → Call
  listen : Call
  info : Bytes → Call
  async_accept : ℕ → Call

unfoldable pub configure_signals : List Call
configure_signals = add sigint ∷ add sigterm ∷ []

unfoldable pub async_wait_signals : List Call
async_wait_signals = async_wait ∷ []

-- The acceptor is opened for IPv4 at the port.
unfoldable pub listen_on : Bytes → List Call
unfolding from_chars
listen_on port = open_acceptor ∷ reuse_address ∷ bind (from_chars port) ∷ listen ∷ []

-- The first accept, for the stream with the identifier that the loop starts with.
unfoldable pub start_accept : List Call
unfolding Acceptor.make
start_accept = async_accept Acceptor.make.stream_id ∷ []

unfoldable pub configure_tls : TlsOptions → List Call
configure_tls settings =
    set_options (default_workarounds ∷ no_tlsv1_1 ∷ no_tlsv1_2 ∷ [])
    ∷ ssl_ctx_set_min_proto_version tls1_3_version
    ∷ use_certificate_chain_file settings.server_cert
    ∷ ssl_ctx_set_client_ca_list settings.ca_cert
    ∷ use_private_key_file settings.private_key
    ∷ load_verify_file settings.ca_cert
    ∷ set_verify_mode (verify_peer ∷ verify_fail_if_no_peer_cert ∷ [])
    ∷ []

-- The constructors, up to the first accept.
unfoldable pub prepare_server : Bytes → List Call
unfolding configure_signals async_wait_signals listen_on
prepare_server port =
    configure_signals
    ++ async_wait_signals
    ++ listen_on port
    ++ info (codes "proxy server starts on port: " ++ port) ∷ []

unfoldable pub prepare_tls_server : Bytes → TlsOptions → List Call
unfolding configure_signals async_wait_signals listen_on configure_tls
prepare_tls_server port settings =
    make_context tlsv13_server
    ∷ (configure_signals
        ++ async_wait_signals
        ++ configure_tls settings
        ++ listen_on port
        ++ info (codes "socks5-proxy tls_server starts on port: " ++ port) ∷ [])

unfoldable pub prepare : Kind → Bytes → TlsOptions → List Call
unfolding prepare_server prepare_tls_server
prepare tcp port files = prepare_server port
prepare tls port files = prepare_tls_server port files

unfoldable pub construct : Service → List Call
unfolding prepare start_accept
construct s = prepare s.kind s.port s.files ++ start_accept

unfoldable pub mode_line : Backend → Bytes
mode_line http = codes "Proxy-mode: http/s\n"
mode_line socks5 = codes "Proxy-mode: socks5\n"

unfoldable pub port_line : Kind → Bytes → Bytes
port_line tls port = codes "Start listening port: " ++ port ++ codes ", tls tunnel mode enabled\n"
port_line tcp port = codes "Start listening port: " ++ port ++ codes ", tls tunnel mode disabled\n"

-- What the program did when it ends: what it called, what it printed, and the fatal record that it logged, if any.
pub record Report : Type 0 where
  pub calls : List Call
  pub printed : Bytes
  pub fatal_record : Option Bytes

-- What is printed before the server is made.
unfoldable pub banner : Service → Bytes
unfolding mode_line port_line
banner s = mode_line s.backend ++ port_line s.kind s.port

-- The handler of the `try` block.
unfoldable pub caught : Bytes → List Call → Bytes → Report
caught lines made what = record {
  calls = made;
  printed = lines ++ what ++ codes "\n";
  fatal_record = some (codes "fatal error: " ++ what);
}

-- What comes of the constructor and then of `run`, which may throw.
unfoldable pub conclude : Bytes → (ran : Option Bytes) → Attempt Call → Report
unfolding caught
conclude lines ran (threw made what) = caught lines made what
conclude lines (some what) (finished made) = caught lines made what
conclude lines none (finished made) = record { calls = made; printed = lines; fatal_record = none }

-- The body of `main` once the options are read.
unfoldable pub run_service :
    (List Call → Call → Option Bytes) → (ran : Option Bytes) → Service → Report
unfolding construct banner conclude
run_service throws ran s = conclude (banner s) ran (perform throws (construct s) [])
