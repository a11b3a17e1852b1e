-- ===== src/Base/Log.antt =====
-- The logger of winterfell/base/wf_log.h and winterfell/base/wf_log.cc: what a line of the LOG macros prints,
-- and whether it ends the program.
pub mod Lines
use winterfell.Prelude.{
  ℕ, ◌+◌, Bool, true, false, List, [], ◌∷◌, ◌++◌, Bytes, codes, decimal, leb, ◌==◌, if◌then◌else◌,
}

-- `LoggerLevel`
pub data Level : Type 0 where
  trace debug info warn error fatal : Level

-- The value of the enumerator.
abbrev pub rank : Level → ℕ
rank trace = 0
rank debug = 1
rank info = 2
rank warn = 3
rank error = 4
rank fatal = 5

unfoldable pub level_string : Level → Bytes
level_string trace = codes "TRACE"
level_string debug = codes "DEBUG"
level_string info = codes "INFO"
level_string warn = codes "WARN"
level_string error = codes "ERROR"
level_string fatal = codes "FATAL"

pub record Logger : Type 0 where
  pub level : Level

-- `setLogLevel`
unfoldable pub set_log_level : Level → Logger → Logger
set_log_level level logger = record logger { level = level }

pub record LoggerEvent : Type 0 where
  pub logfmt : Bytes
  pub level : Level
  -- what has been put into the stream
  pub body : Bytes

-- The constructor, with the time as it is printed.
unfoldable pub new_event : Level → Bytes → ℕ → Bytes → ℕ → LoggerEvent
new_event level time thread_id file lineno = record {
  logfmt =
      level_string level
      ++ (codes " ["
          ++ (time
              ++ (codes "] "
                  ++ (decimal thread_id
                      ++ (codes " "
                          ++ (codes "%s"
                              ++ (codes " - " ++ (file ++ (codes ":" ++ decimal lineno)))))))));
  level = level;
  body = [];
}

-- `SS() << text`
unfoldable pub put : Bytes → LoggerEvent → LoggerEvent
put text event = record event { body = event.body ++ text }

-- `printf(format, text)`: `%s` is the text, up to its first zero byte; the model puts nothing for any other
-- conversion, of which the library's own formats have none.
unfoldable pub until_zero : Bytes → Bytes
until_zero [] = []
until_zero (c ∷ cs) = let rest = c ∷ until_zero cs in if c == 0 then [] else rest

-- The flag tells whether a `%` stands just before.
unfoldable pub formatted : Bytes → Bool → Bytes → Bytes
formatted text after_percent [] = []
formatted text true (c ∷ cs) =
    (if c == b's' then until_zero text else []) ++ formatted text false cs
formatted text false (c ∷ cs) =
    let rest = formatted text true cs in
    let plain = c ∷ formatted text false cs in if c == b'%' then rest else plain

-- What a statement has printed, and whether it then calls `abort`.
pub record Outcome : Type 0 where
  pub output : Bytes
  pub aborts : Bool

abbrev pub is_fatal : Level → Bool
is_fatal fatal = true
is_fatal level = false

-- The destructor of `LoggerWrapper`.
unfoldable pub destroy_wrapper : LoggerEvent → Outcome
destroy_wrapper event = record {
  output = formatted event.body false (event.logfmt ++ codes "\n");
  aborts = is_fatal event.level;
}

-- `LOG_LEVEL(level) << text`
unfoldable pub log_level : Logger → Level → Bytes → ℕ → Bytes → ℕ → Bytes → Outcome
log_level logger level time thread_id file lineno text =
    if leb (rank logger.level) (rank level)
    then destroy_wrapper (put text (new_event level time thread_id file lineno))
    else record { output = []; aborts = false }
