-- ===== src/Main.antt =====
-- amgi_proxy/main.cpp: from the command line to the server that runs. `boost::program_options` is not modelled: what it
-- stored is the argument.
use amgi_net_tools.Base.{
  Bytes, Bool, true, ◌≡◌, ◌≢◌, [], Option, some, none, codes, text_eq, is_empty, if◌then◌else◌,
  arith,
}
use amgi_net_tools.Transport.ServerStream.{Kind, tcp, tls}
use amgi_net_tools.Logger.{Level, Output, console, file, parse_log_level}

pub record TlsOptions : Type 0 where
  pub private_key : Bytes
  pub server_cert : Bytes
  pub ca_cert : Bytes

pub record ServerConf : Type 0 where
  pub listen_port : Bytes
  pub proxy_backend : Bytes
  pub log_file_path : Bytes
  pub log_level : Level
  pub tls_options : TlsOptions

-- The variables map: the values, defaults included, and which of the options without one were given.
pub record Variables : Type 0 where
  pub port : Bytes
  pub mode : Bytes
  pub log_level : Bytes
  pub log_file : Bytes
  pub tls_options : TlsOptions
  pub has_tls : Bool
  pub has_help : Bool

-- `exit`, with its message if it is a failure.
pub data Parsed : Type 0 where
  exits : Option Bytes → Parsed
  parsed : ServerConf → Parsed

-- What is said of the first option that `--tls` misses.
unfoldable pub missing : TlsOptions → Option Bytes
missing o =
    if is_empty o.private_key
    then some (codes "In tls mode, the <private-key> parameter must be specified\n")
    else if is_empty o.server_cert
    then some (codes "In tls mode, the <server-cert> parameter must be specified\n")
    else if is_empty o.ca_cert
    then some (codes "In tls mode, the <ca-cert> parameter must be specified\n")
    else none

with_level : Variables → Level → Parsed
unfolding missing
with_level v level =
    let conf : ServerConf = record {
      listen_port = v.port;
      proxy_backend = v.mode;
      log_file_path = v.log_file;
      log_level = level;
      tls_options = v.tls_options;
    } in
    elim (if v.has_tls then missing v.tls_options else none) [
      | some message ↦ exits (some message)
      | none ↦ parsed conf
    ]

unfoldable pub parse_command_line_arguments : Variables → Parsed
unfolding with_level parse_log_level
parse_command_line_arguments v =
    if v.has_help then exits none else elim (parse_log_level v.log_level) [
      | none ↦ exits (
          some (
            codes "Error: log_level value must be one of [debug|trace|info|warning|error|fatal]\n"))
      | some level ↦ with_level v level
    ]

pub data Backend : Type 0 where
  http socks5 : Backend

-- What `main` starts.
pub record Service : Type 0 where
  pub log_output : Output
  pub backend : Backend
  pub kind : Kind
  pub port : Bytes
  pub files : TlsOptions

unfoldable pub serve : ServerConf → Service
serve conf = record {
  log_output = if is_empty conf.log_file_path then console else file;
  backend = if text_eq conf.proxy_backend (codes "http") then http else socks5;
  kind = if is_empty conf.tls_options.private_key then tcp else tls;
  port = conf.listen_port;
  files = conf.tls_options;
}

unfoldable pub main : Variables → Option Service
unfolding parse_command_line_arguments serve
main v = elim (parse_command_line_arguments v) [
  | exits message ↦ none
  | parsed conf ↦ some (serve conf)
]

-- A proxy that was started with `--tls` serves over TLS only, at the port and with the private key, the certificate and the
-- authority file that were given, none of which is empty.
pub main-tls :
    (v : Variables) (s : Service)
    → v.has_tls ≡ true
    → main v ≡ some s
    → (s.kind ≡ tls)
      × (s.port ≡ v.port)
      × (s.files ≡ v.tls_options)
      × (v.tls_options.private_key ≢ [])
      × (v.tls_options.server_cert ≢ [])
      × (v.tls_options.ca_cert ≢ [])
unfolding main parse_command_line_arguments with_level serve missing
main-tls v s requested served = ground arith
