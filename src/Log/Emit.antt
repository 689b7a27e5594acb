-- ===== src/Log/Emit.antt =====
-- src/log.c, `_call_handler` and the five functions that log a message at a level.
use taningia.Base.{ℕ, suc, Bool, false, Option, none, some, [], ◌∷◌, ◌++◌, ◌-◌, leb, if◌then◌else◌}
use Prim.Native.String.{String}
use taningia.Base.CString.{Bytes, Text, codes}
use taningia.Base.Int.{ℤ}
use taningia.Base.Run.{Run, ok, fault, ◌>>=◌}
use taningia.Error.{Printer}
use taningia.Object.{is_zero}
use taningia.Log.{
  Level, debug, info, warn, error, critical, rank, Log, Env, Out, get_message, localtime,
}
use taningia.Log.Layout.{full}

-- A string that is read: NULL has none.
abbrev pub chars : Text → Run Bytes
chars none = fault
chars (some s) = ok s

-- `_call_handler`: whether the handler has taken the message.
unfoldable pub call_handler : Env → Log → Bytes → Text → Level → Out → Run (Bool × Out)
call_handler env log msg ltime level out = elim log.handler [
  | none ↦ ok (false, out)
  | some handler ↦ do
    time ← chars ltime
    name ← chars log.name
    text ← full time name msg
    ok (
      env.answer handler level text log.handler_data,
      record out { handled = (level, text) ∷ out.handled },
    )
]

-- The bytes around the time, and behind the message, of a line in colour.
abbrev pub escape : String → Bytes
escape s = 27 ∷ codes s

-- The line of a level without colours.
abbrev pub plain_line : Level → Bytes → Bytes → Bytes → Bytes
plain_line info time name msg =
    codes "[  INFO ] [ " ++ time ++ codes " ] [ " ++ name ++ codes " ] " ++ msg ++ (10 ∷ [])
plain_line warn time name msg =
    codes "[  WARN ] [ " ++ time ++ codes " ] [ " ++ name ++ codes " ] " ++ msg ++ (10 ∷ [])
plain_line debug time name msg =
    codes "[ DEBUG ] [ " ++ time ++ codes " ] [ " ++ name ++ codes " ]  " ++ msg ++ (10 ∷ [])
plain_line critical time name msg =
    codes "[ CRITI ] [ " ++ time ++ codes " ] [ " ++ name ++ codes " ]  " ++ msg ++ (10 ∷ [])
plain_line error time name msg =
    codes "[ ERROR ] [ " ++ time ++ codes " ] [ " ++ name ++ codes " ] " ++ msg ++ (10 ∷ [])

-- The line in colour, from its pieces.
abbrev pub coloured : Bytes → Bytes → Bytes → Bytes → Bytes → Bytes → Bytes
coloured before between behind time name msg =
    before
    ++ time
    ++ codes " ]"
    ++ between
    ++ codes "[ "
    ++ name
    ++ codes " ] "
    ++ msg
    ++ behind
    ++ (10 ∷ [])

abbrev pub colour_line : Level → Bytes → Bytes → Bytes → Bytes
colour_line info =
    coloured (escape "[;36m[  INFO ] [ ") (escape "[;0m " ++ escape "[;0m") (escape "[;0m")
colour_line warn =
    coloured (escape "[;33m[  WARN ] [ ") (escape "[;0m " ++ escape "[;0m") (escape "[;0m")
colour_line debug =
    coloured (escape "[;34m[ DEBUG ] [ ") (escape "[;0m " ++ escape "[0;0m") (escape "[;0m")
colour_line critical =
    coloured (escape "[;31m[ CRITI ] [ ") (escape "[;0m " ++ escape "[;0m") (escape "[;0m")
colour_line error =
    coloured (escape "[1;31m[ ERROR ] [ ") (escape "[1;0m" ++ escape "[1;1m ") (escape "[1;0m")

-- `fprintf (stderr, …)` with or without colours.
unfoldable pub line : Level → ℤ → Bytes → Bytes → Bytes → Bytes
line level use_colors time name msg =
    if is_zero use_colors then plain_line level time name msg else colour_line level time name msg

-- A function behind its message: the handler, then the line, then the two blocks are freed.
unfoldable pub emit : Env → Log → Level → Bytes → Out → Run Out
emit env log level msg out = do
  let (ltime, out1) = localtime env log out
  (taken, out2) ← call_handler env log msg ltime level out1
  let print = (do
    time ← chars ltime
    name ← chars log.name
    ok (record out2 {
      stderr = out2.stderr ++ line level log.use_colors time name msg;
      blocks = out2.blocks - 2;
    }))
  if taken then ok out2 else print

-- What follows the formatting, where there is no memory and where there is a message.
abbrev pub emit_if : Env → Log → Level → Out → Option Bytes → Run Out
emit_if env log level out none = ok out
emit_if env log level out (some msg) =
    emit env log level msg (record out { blocks = suc out.blocks })

abbrev pub written_of : Env → Log → Level → Out → Option (Run (Option Bytes)) → Option (Run Out)
written_of env log level out none = none
written_of env log level out (some formatted) = some (formatted >>= emit_if env log level out)

-- What `ta_log_info`, `ta_log_warn`, `ta_log_debug`, `ta_log_critical` and `ta_log_error` share.
unfoldable pub log_at : Level → ℕ → Env → Log → Printer → Out → Option (Run Out)
log_at level fuel env log print out =
    let written = written_of env log level out (get_message fuel print env.mem) in
    if leb (rank log.level) (rank level) then written else some (ok out)

-- `ta_log_info`
unfoldable pub log_info : ℕ → Env → Log → Printer → Out → Option (Run Out)
unfolding log_at
log_info fuel env log print out = log_at info fuel env log print out

-- `ta_log_warn`
unfoldable pub log_warn : ℕ → Env → Log → Printer → Out → Option (Run Out)
unfolding log_at
log_warn fuel env log print out = log_at warn fuel env log print out

-- `ta_log_debug`
unfoldable pub log_debug : ℕ → Env → Log → Printer → Out → Option (Run Out)
unfolding log_at
log_debug fuel env log print out = log_at debug fuel env log print out

-- `ta_log_critical`
unfoldable pub log_critical : ℕ → Env → Log → Printer → Out → Option (Run Out)
unfolding log_at
log_critical fuel env log print out = log_at critical fuel env log print out

-- `ta_log_error`
unfoldable pub log_error : ℕ → Env → Log → Printer → Out → Option (Run Out)
unfolding log_at
log_error fuel env log print out = log_at error fuel env log print out
