-- ===== src/Tests/Mains.antt =====
-- The command line of the proxy at a concrete input.
use amgi_net_tools.Base.{[], codes, true, false}
use amgi_net_tools.Transport.ServerStream.{tls}
use amgi_net_tools.Logger.{console}
use amgi_net_tools.Main.{Variables, TlsOptions, Service, http}

abbrev files : TlsOptions
files = record {
  private_key = codes "key.pem";
  server_cert = codes "cert.pem";
  ca_cert = codes "ca.pem";
}

abbrev pub given : Variables
given = record {
  port = codes "8443";
  mode = codes "http";
  log_level = codes "info";
  log_file = [];
  tls_options = files;
  has_tls = true;
  has_help = false;
}

abbrev pub started : Service
started = record {
  log_output = console;
  backend = http;
  kind = tls;
  port = codes "8443";
  files = files;
}
