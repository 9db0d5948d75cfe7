-- ===== src/Tests/Startup.antt =====
-- The start of the proxy at a concrete input.
use amgi_net_tools.Base.{Bytes, List, refl, Option, none, text_eq}
use amgi_net_tools.Decimal.{from_chars}
use amgi_net_tools.Logger.{parse_log_level}
use amgi_net_tools.Main
use amgi_net_tools.Main.{parse_command_line_arguments, serve, missing}
use amgi_net_tools.Proxy.Acceptor
use amgi_net_tools.Base.Attempts.{perform}
use amgi_net_tools.Proxy.Setup.{
  Call, configure_signals, async_wait_signals, listen_on, start_accept, configure_tls,
  prepare_server, prepare_tls_server, prepare, construct, banner, mode_line, port_line, conclude,
  run_service,
}
use amgi_net_tools.Proxy.Startup.{Serves, run_service-Serves}
use amgi_net_tools.Tests.Mains.{given, started}

-- No call throws.
abbrev quiet : List Call → Call → Option Bytes
quiet made c = none

run_service-Serves_example : Serves quiet given (run_service quiet none started).calls
unfolding Main.main parse_command_line_arguments serve missing parse_log_level text_eq perform
    configure_signals async_wait_signals listen_on start_accept configure_tls prepare_server
    prepare_tls_server prepare construct banner mode_line port_line conclude run_service from_chars
    Acceptor.make
run_service-Serves_example = run_service-Serves quiet none given started refl refl refl
