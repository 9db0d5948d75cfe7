-- ===== src/Logger/Records.antt =====
-- What the logger writes.
use amgi_net_tools.Base.{
  ◌⊎◌, codes, ◌≡◌, ◌≢◌, refl, Bool, true, false, [], ◌++◌, Bytes, text_eq, some,
}
use amgi_net_tools.Logger.{Level, warning, Logger, log_level_to_string, parse_log_level}

-- The names of the levels in records are those of the option, but for that of `warning`.
pub parse_log_level-log_level_to_string :
    (l : Level) → l ≢ warning → parse_log_level (log_level_to_string l) ≡ some l
unfolding parse_log_level text_eq
parse_log_level-log_level_to_string warning other = absurd (other refl)
parse_log_level-log_level_to_string _ other = refl

-- A text that is written under a condition.
abbrev pub only : Bool → Bytes → Bytes
only true text = text
only false text = []

-- The text as it is, which ends in a newline, or with a newline that it lacks.
abbrev pub IsLine : Bytes → Bytes → Type 0
IsLine text line = (start : Bytes) × (line ≡ start ++ codes "\n") × ((text ≡ line) ⊎ (text ≡ start))
