-- ===== src/Logger.antt =====
-- amgi_proxy/logger: which records are written, and where. Timestamps are a parameter.
pub mod Records
use amgi_net_tools.Base.{
  ℕ, ◌||◌, ◌&&◌, Bool, true, false, not, [], ◌∷◌, ◌++◌, Bytes, codes, text_eq, Option, none, some,
  ltb, leb, ◌==◌, is_empty, if◌then◌else◌,
}

pub data Level : Type 0 where
  debug trace info warning error fatal : Level

pub data Output : Type 0 where
  no_output console file file_and_console : Output

-- The order of the enumeration.
abbrev pub rank : Level → ℕ
rank debug = 0
rank trace = 1
rank info = 2
rank warning = 3
rank error = 4
rank fatal = 5

-- The logger, with what it has written to `std::cout`, `std::cerr` and its file.
pub record Logger : Type 0 where
  pub output : Output
  pub level : Level
  pub file_is_open : Bool
  pub cout : Bytes
  pub cerr : Bytes
  pub file_text : Bytes

abbrev pub log_level_to_string : Level → Bytes
log_level_to_string debug = codes "debug"
log_level_to_string trace = codes "trace"
log_level_to_string info = codes "info"
log_level_to_string warning = codes "warn"
log_level_to_string error = codes "error"
log_level_to_string fatal = codes "fatal"

-- main.cpp: `none` stands for the exit with a failure.
unfoldable pub parse_log_level : Bytes → Option Level
parse_log_level level_str =
    if text_eq level_str (codes "debug")
    then some debug
    else if text_eq level_str (codes "trace")
    then some trace
    else if text_eq level_str (codes "info")
    then some info
    else if text_eq level_str (codes "warning")
    then some warning
    else if text_eq level_str (codes "error")
    then some error
    else if text_eq level_str (codes "fatal")
    then some fatal
    else none

unfoldable pub make_log_record_prefix : Bytes → Level → Bytes
make_log_record_prefix timestamp log_level =
    timestamp ++ (32 ∷ 91 ∷ (log_level_to_string log_level ++ 93 ∷ 9 ∷ []))

-- `if (total_message[total_message.size() - 1] != '\n') total_message.push_back('\n')`
unfoldable pub end_line : Bytes → Bytes
end_line [] = 10 ∷ []
end_line (c ∷ []) = if c == 10 then c ∷ [] else c ∷ 10 ∷ []
end_line (c ∷ d ∷ rest) = c ∷ end_line (d ∷ rest)

unfoldable pub to_console : Output → Bool
to_console console = true
to_console file_and_console = true
to_console _ = false

-- `output_ & file`
unfoldable pub to_file : Output → Bool
to_file file = true
to_file file_and_console = true
to_file _ = false

unfoldable pub is_none : Output → Bool
is_none no_output = true
is_none _ = false

-- A record goes to the console, to one of its two streams by its level.
write_console : Level → Bytes → Logger → Logger
write_console log_level total l =
    if leb (rank log_level) (rank info)
    then record l { cout = l.cout ++ total }
    else record l { cerr = l.cerr ++ total }

-- The two `if`s at the end of `log`.
unfoldable pub write_record : Level → Bytes → Logger → Logger
unfolding write_console to_console to_file
write_record log_level total l =
    let shown = if to_console l.output then write_console log_level total l else l in
    if l.file_is_open && to_file l.output
    then record shown { file_text = shown.file_text ++ total }
    else shown

unfoldable pub log : Bytes → Bytes → Level → Logger → Logger
unfolding write_record is_none make_log_record_prefix end_line
log timestamp message log_level l =
    if ltb (rank log_level) (rank l.level) || (is_empty message || is_none l.output)
    then l
    else write_record log_level (end_line (make_log_record_prefix timestamp log_level ++ message)) l

-- Whether the file could be opened is for the file system to say.
unfoldable pub initialize_impl : Bool → Output → Level → Logger → Logger
unfolding to_file
initialize_impl opens log_output log_level l = record l {
  output = log_output;
  level = log_level;
  file_is_open = if to_file log_output then opens else l.file_is_open;
}
