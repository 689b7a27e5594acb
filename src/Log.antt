-- ===== src/Log.antt =====
-- src/log.c: the logger. The message is formatted by the loop of src/error.c's `ta_error_set`, which
-- `get_message` repeats from 64 bytes.
pub mod Layout
pub mod Emit
pub mod Lines
use taningia.Base.{
  ℕ, suc, ◌+◌, ◌-◌, Bool, true, false, Option, none, some, List, [], ◌∷◌, ◌++◌, ◌||◌, ltb, length,
  if◌then◌else◌, ◌==◌,
}
use taningia.Base.CString.{Bytes, Text, codes}
use taningia.Base.Int.{ℤ, pos}
use taningia.Base.Run.{Run, ok, fault, ◌>>=◌}
use taningia.Error.{Printer, format_loop}
use taningia.Iri.{strdup}
use taningia.Object
use taningia.Object.{Object, log_free}

-- `ta_log_level_t`
pub data Level : Type 0 where
  debug info warn error critical : Level

-- Its values.
abbrev pub rank : Level → ℕ
rank debug = 0
rank info = 1
rank warn = 2
rank error = 3
rank critical = 4

abbrev pub max_date_size : ℕ
max_date_size = 64

-- `struct _ta_log`; the handler is named by its address, and so is its data.
pub record Log : Type 0 where
  pub parent : Object
  pub name : Text
  pub level : Level
  pub handler : Option ℕ
  pub use_colors : ℤ
  pub handler_data : ℕ
  pub date_format : Text

-- `ta_log_init`
unfoldable pub init : Text → Run Log
init domain_name = do
  name ← strdup domain_name
  ok (record {
    parent = Object.init (some log_free);
    name = name;
    level = warn;
    handler = none;
    use_colors = pos 0;
    handler_data = 0;
    date_format = some (codes "%x %X");
  })

unfoldable pub set_handler : Log → Option ℕ → ℕ → Log
set_handler log handler user_data = record log { handler = handler; handler_data = user_data }

unfoldable pub set_use_colors : Log → ℤ → Log
set_use_colors log use_colors = record log { use_colors = use_colors }

unfoldable pub get_use_colors : Log → ℤ
get_use_colors log = log.use_colors

unfoldable pub set_level : Log → Level → Log
set_level log level = record log { level = level }

unfoldable pub get_level : Log → Level
get_level log = log.level

unfoldable pub set_date_format : Log → Text → Run Log
set_date_format log date_format = do
  copy ← strdup date_format
  ok (record log { date_format = copy })

unfoldable pub get_date_format : Log → Text
get_date_format log = log.date_format

-- What the code runs on: which sizes can be allocated, the present time under a format, and what a
-- handler returns for a level, a text and its data.
pub record Env : Type 0 where
  pub mem : ℕ → Bool
  pub stamp : Bytes → Bytes
  pub answer : ℕ → Level → Bytes → ℕ → Bool

-- What is written to the standard error, the calls of handlers, the last one first, and how many
-- blocks of memory are in use.
pub record Out : Type 0 where
  pub stderr : Bytes
  pub handled : List (Level × Bytes)
  pub blocks : ℕ

-- `get_message`: `none` where the fuel ran out, and NULL where there is no memory.
unfoldable pub get_message : ℕ → Printer → (ℕ → Bool) → Option (Run (Option Bytes))
get_message fuel print mem =
    let loop = format_loop fuel print mem 64 in if mem 64 then loop else some (ok none)

-- `strftime` with a buffer of a size: it returns 0 where the text and its NUL do not fit.
abbrev pub strftime : ℕ → Bytes → Text
strftime max [] = none
strftime max (c ∷ cs) = if ltb (length (c ∷ cs)) max then some (c ∷ cs) else none

-- `_ta_log_localtime`: the buffer of a text that does not fit is not freed.
unfoldable pub localtime : Env → Log → Out → Text × Out
localtime env log out = elim log.date_format [
  | none ↦ (none, out)
  | some format ↦
      let stamped : Text × Out = elim (strftime max_date_size (env.stamp format)) [
        | none ↦ (
          none,
          record out {
            stderr = out.stderr ++ codes "Oh god, fix it! Date format too long!";
            blocks = suc out.blocks;
          },
        )
        | some text ↦ (some text, record out { blocks = suc out.blocks })
      ] in
      if env.mem max_date_size then stamped else (none, out)
]
