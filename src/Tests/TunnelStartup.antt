-- ===== src/Tests/TunnelStartup.antt =====
-- The start of the tunnel at a concrete input.
use amgi_net_tools.Base.{refl, ◌≢◌, ◌∷◌, ◌≡◌, Bytes, List, [], codes, Option, none, some}
use amgi_net_tools.Tunnel.Main.{ServerConf}
use amgi_net_tools.Tunnel.Setup.{Call, load_verify_file, run_main}
use amgi_net_tools.Tunnel.Startup.{first_calls, run_main-refused}

abbrev options : ServerConf
options = record {
  listen_port = codes "2080";
  target_port = codes "8443";
  target_host = codes "127.0.0.1";
  tls_options = record {
    private_key = codes "key.pem";
    client_cert = codes "cert.pem";
    ca_cert = codes "ca.pem";
  };
}

-- There is no file without a name.
abbrev unnamed : List Call → Call → Option Bytes
unnamed made (load_verify_file []) = some (codes "load_verify_file: No such file or directory")
unnamed made c = none

only_unnamed : (made : List Call) (c : Call) → c ≢ load_verify_file [] → unnamed made c ≡ none
only_unnamed made (load_verify_file []) other = absurd (other refl)
only_unnamed made (load_verify_file (b ∷ bs)) other = refl
only_unnamed made _ other = refl

run_main-refused_example :
    ((run_main unnamed none (some (codes "p is required")) options).calls ≡ first_calls)
    × ((run_main unnamed none (some (codes "p is required")) options).errors
        ≡ codes "load_verify_file: No such file or directory\n")
run_main-refused_example =
    run_main-refused unnamed none (codes "p is required")
      (codes "load_verify_file: No such file or directory") options (λ made. refl) only_unnamed
