-- ===== src/Log/Lines.antt =====
-- What a message of src/log.c leaves: the call of the handler, the line, and the memory in use.
use taningia.Base.{
  ◌^◌, ℕ, suc, ◌+◌, ◌-◌, ◌<◌, ◌≡◌, refl, Bool, true, Option, none, some, ◌∷◌, ◌++◌, leb, length,
  arith, if◌then◌else◌, Bool-cases, inl, inr,
}
use taningia.Base.CString.{Bytes, codes, lacks}
use taningia.Base.Run.{ok, fault}
use taningia.Error.{c99}
use taningia.Error.Laws.{format_loop_total, c99-Prints}
use taningia.Log.{Level, rank, Log, Env, Out, strftime, max_date_size, get_message, localtime}
use taningia.Log.Layout.{entry, full-entry}
use taningia.Log.Emit.{call_handler, line, emit, log_at}

module _ (env : Env) (log : Log) (level : Level) (time name msg : Bytes) where
  -- The line on the standard error.
  abbrev pub printed : Out → Out
  printed out = record out { stderr = out.stderr ++ line level log.use_colors time name msg }

  -- The call of the handler.
  abbrev pub seen : Out → Out
  seen out = record out { handled = (level, entry time name msg) ∷ out.handled }

  -- What a message leaves: a handler gets it first, and where the handler returns a true value,
  -- nothing is printed and two blocks stay in use.
  unfoldable pub outcome : Option ℕ → Out → Out
  outcome none out = printed out
  outcome (some handler) out =
      if env.answer handler level (entry time name msg) log.handler_data
      then record (seen out) { blocks = out.blocks + 2 }
      else printed (seen out)

get_message-c99 :
    (fuel : ℕ) (msg : Bytes) (mem : ℕ → Bool)
    → ((n : ℕ) → mem n ≡ true)
    → length msg < fuel
    → length msg < 2 ^ 30
    → get_message fuel (c99 msg) mem ≡ some (ok (some msg))
unfolding get_message
get_message-c99 fuel msg mem m f b =
    rw
      (
        m 64,
        format_loop_total fuel mem 64 (c99-Prints msg) m (omega arith) (omega arith) (omega arith)
            b,
      )
      refl

localtime-some :
    (env : Env) (log : Log) (format time : Bytes) (out : Out)
    → env.mem max_date_size ≡ true
    → log.date_format ≡ some format
    → strftime max_date_size (env.stamp format) ≡ some time
    → localtime env log out ≡ (some time, record out { blocks = suc out.blocks })
unfolding localtime
localtime-some env log format time out m d t = rw (d, m, t) refl

emit-outcome :
    (env : Env) (log : Log) (level : Level) (time name msg format : Bytes) (handler : Option ℕ)
    (out : Out)
    → env.mem max_date_size ≡ true
    → log.date_format ≡ some format
    → strftime max_date_size (env.stamp format) ≡ some time
    → log.name ≡ some name
    → log.handler ≡ handler
    → lacks 0 (entry time name msg) ≡ true
    → emit env log level msg (record out { blocks = suc out.blocks })
      ≡ ok (outcome env log level time name msg handler out)
unfolding emit call_handler outcome
emit-outcome env log level time name msg format none out m d t n h l =
    let back : suc (suc out.blocks) - 2 ≡ out.blocks = omega arith in
    rw
      (
        localtime-some env log format time (record out { blocks = suc out.blocks }) m d t,
        h,
        n,
        back,
      )
      refl
emit-outcome env log level time name msg format (some handler) out m d t n h l =
    let back : suc (suc out.blocks) - 2 ≡ out.blocks = omega arith in
    let two : suc (suc out.blocks) ≡ out.blocks + 2 = omega arith in
    elim (Bool-cases (env.answer handler level (entry time name msg) log.handler_data)) [
      | inl e ↦
          rw
            (
              localtime-some env log format time (record out { blocks = suc out.blocks }) m d t,
              h,
              n,
              full-entry time name msg l,
              e,
              two,
            )
            refl
      | inr e ↦
          rw
            (
              localtime-some env log format time (record out { blocks = suc out.blocks }) m d t,
              h,
              n,
              full-entry time name msg l,
              e,
              back,
            )
            refl
    ]

-- With memory, a message of fewer than 2^30 bytes without a NUL, at or above the level of the log,
-- and a date that fits: the functions that log end, with any fuel above the length of the message,
-- and no size overflows. A handler gets the level
-- and `[time][name] message`. Where there is none, or it returns 0, the line of the level is written
-- to the standard error and no more memory is in use than before; where it returns a true value,
-- nothing is written, and the message and the time stay in use.
pub log_at-outcome :
    (env : Env) (log : Log) (level : Level) (time name msg format : Bytes) (handler : Option ℕ)
    (fuel : ℕ) (out : Out)
    → leb (rank log.level) (rank level) ≡ true
    → ((n : ℕ) → env.mem n ≡ true)
    → length msg < fuel
    → length msg < 2 ^ 30
    → log.date_format ≡ some format
    → strftime max_date_size (env.stamp format) ≡ some time
    → log.name ≡ some name
    → log.handler ≡ handler
    → lacks 0 (entry time name msg) ≡ true
    → log_at level fuel env log (c99 msg) out
      ≡ some (ok (outcome env log level time name msg handler out))
unfolding log_at
log_at-outcome env log level time name msg format handler fuel out r m f b d t n h l =
    rw
      (
        get_message-c99 fuel msg env.mem m f b,
        r,
        emit-outcome env log level time name msg format handler out (m max_date_size) d t n h l,
      )
      refl

localtime-none :
    (env : Env) (log : Log) (format : Bytes) (out : Out)
    → env.mem max_date_size ≡ true
    → log.date_format ≡ some format
    → strftime max_date_size (env.stamp format) ≡ none
    → (out' : Out) × (localtime env log out ≡ (none, out'))
unfolding localtime
localtime-none env log format out m d t = (
  record out {
    stderr = out.stderr ++ codes "Oh god, fix it! Date format too long!";
    blocks = suc out.blocks;
  },
  rw (d, m, t) refl,
)

emit-fault :
    (env : Env) (log : Log) (level : Level) (msg : Bytes) (handler : Option ℕ) (out out' : Out)
    → localtime env log out ≡ (none, out')
    → log.handler ≡ handler
    → emit env log level msg out ≡ fault
unfolding emit call_handler
emit-fault env log level msg none out out' e h = rw (e, h) refl
emit-fault env log level msg (some handler) out out' e h = rw (e, h) refl

-- A message that is logged where the date does not fit into its buffer, or is empty, has no meaning,
-- with a handler and without: the NULL in place of the time is measured or printed.
log_at-long_date :
    (env : Env) (log : Log) (level : Level) (msg format : Bytes) (fuel : ℕ) (out : Out)
    → leb (rank log.level) (rank level) ≡ true
    → ((n : ℕ) → env.mem n ≡ true)
    → length msg < fuel
    → length msg < 2 ^ 30
    → log.date_format ≡ some format
    → strftime max_date_size (env.stamp format) ≡ none
    → log_at level fuel env log (c99 msg) out ≡ some fault
unfolding log_at
log_at-long_date env log level msg format fuel out r m f b d t =
    let start : Out = record out { blocks = suc out.blocks } in
    let (out', e) = localtime-none env log format start (m max_date_size) d t in
    rw
      (
        get_message-c99 fuel msg env.mem m f b,
        r,
        emit-fault env log level msg log.handler start out' e refl,
      )
      refl
