-- ===== src/Tunnel/Main.antt =====
-- amgi_tunnel/main.cpp: from the command line to the server. cli_tools is not modelled: what its parser answers, and the
-- values of the options, are arguments.
use amgi_net_tools.Base.{ℕ, Bytes, [], Option, none, some}
use amgi_net_tools.Decimal.{from_chars}

pub record TlsOptions : Type 0 where
  pub private_key : Bytes
  pub client_cert : Bytes
  pub ca_cert : Bytes

pub record ServerConf : Type 0 where
  pub listen_port : Bytes
  pub target_port : Bytes
  pub target_host : Bytes
  pub tls_options : TlsOptions

-- `server_conf srv_conf{}`
abbrev pub empty_conf : ServerConf
empty_conf = record {
  listen_port = [];
  target_port = [];
  target_host = [];
  tls_options = record { private_key = []; client_cert = []; ca_cert = [] };
}

-- The message of the parser, if it has one, is printed with the help.
unfoldable pub parse_command_line_arguments_new : Option Bytes → ServerConf → ServerConf
parse_command_line_arguments_new (some message) options = empty_conf
parse_command_line_arguments_new none options = options

-- What the server listens at and connects to.
pub record Forwarder : Type 0 where
  pub port : ℕ
  pub remote_host : Bytes
  pub remote_service : Bytes
  pub tls_options : TlsOptions

unfoldable pub make : ServerConf → Forwarder
unfolding from_chars
make conf = record {
  port = from_chars conf.listen_port;
  remote_host = conf.target_host;
  remote_service = conf.target_port;
  tls_options = conf.tls_options;
}

unfoldable pub main : Option Bytes → ServerConf → Forwarder
unfolding parse_command_line_arguments_new make
main answer options = make (parse_command_line_arguments_new answer options)
