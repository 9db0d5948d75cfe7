-- ===== src/Tests/Logging.antt =====
-- The logger at concrete inputs.
use amgi_net_tools.Base.{◌≡◌, true, [], some, arith}
use amgi_net_tools.Logger.{info, error, console, Logger, log_level_to_string, parse_log_level}
use amgi_net_tools.Logger.Records.{parse_log_level-log_level_to_string}

parse_log_level-log_level_to_string_example :
    parse_log_level (log_level_to_string error) ≡ some error
parse_log_level-log_level_to_string_example =
    parse_log_level-log_level_to_string error (λ h. ground (arith, h))

abbrev quiet : Logger
quiet = record {
  output = console;
  level = info;
  file_is_open = true;
  cout = [];
  cerr = [];
  file_text = [];
}
