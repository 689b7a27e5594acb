-- ===== src/Error.antt =====
-- src/error.c over the state of include/taningia/global.h: the last error of a thread, its message
-- in memory that is owned, freed or not yet allocated, and the formatting loop of `ta_error_set`.
pub mod Laws
use taningia.Base.{
  ◌^◌, ℕ, zero, suc, ◌+◌, ◌-◌, ◌*◌, Bool, true, false, Option, none, some, ltb, if◌then◌else◌,
  length, take,
}
use taningia.Base.CString.{Bytes}
use taningia.Base.Int.{ℤ, pos, negsuc}
use taningia.Base.Run.{Run, ok, fault, ◌>>=◌, ◌>>◌}

-- The return values TA_OK and TA_ERROR.
abbrev pub ta_ok : ℤ
ta_ok = pos 0

abbrev pub ta_error : ℤ
ta_error = negsuc 0

-- The values of the error enumerations.
abbrev pub ta_atom_load_error : ℕ
ta_atom_load_error = 100

abbrev pub ta_atom_parsing_error : ℕ
ta_atom_parsing_error = 101

abbrev pub ta_iri_parsing_error : ℕ
ta_iri_parsing_error = 200

abbrev pub ta_tag_parsing_error : ℕ
ta_tag_parsing_error = 201

-- What the field `message` points at: nothing, a string on the heap, or memory given back.
pub data Slot : Type 0 where
  null : Slot
  live : Bytes → Slot
  dangling : Slot

-- `ta_global_state_t`; `last_error` says whether the pointer is set. It can only point at `error_t`.
pub record Global : Type 0 where
  pub last_error : Bool
  pub code : ℕ
  pub message : Slot

-- The zeroed state that `ta_global_state_get` allocates for a new thread.
abbrev pub fresh : Global
fresh = record { last_error = false; code = 0; message = null }

-- `free (error->message)`: the pointer keeps its value.
abbrev pub free_slot : Slot → Run Slot
free_slot null = ok null
free_slot (live m) = ok dangling
free_slot dangling = fault

-- `ta_error_last`: `none` is NULL.
unfoldable pub last : Global → Option (ℕ × Slot)
last g = if g.last_error then some (g.code, g.message) else none

-- `ta_error_clear`
unfoldable pub clear : Global → Run Global
clear g =
    if g.last_error
    then (do m ← free_slot g.message; ok (record g { last_error = false; message = m }))
    else ok (record g { last_error = false })

-- `set_err`
unfoldable pub set_err : ℕ → Bytes → Global → Run Global
set_err code msg g =
    free_slot g.message >> ok (record { last_error = true; code = code; message = live msg })

-- A call of `vsnprintf` with a buffer of a given size: what it leaves in the buffer and what it
-- returns, with `none` for a negative number.
abbrev pub Printer : Type 0
Printer = ℕ → Bytes × Option ℕ

-- The loop of `ta_error_set`. The outer `none` means that the fuel ran out, the inner one that
-- `realloc` failed; an `int` that the new size does not fit into is a fault.
unfoldable pub format_loop : ℕ → Printer → (ℕ → Bool) → ℕ → Option (Run (Option Bytes))
format_loop zero print mem size = none
format_loop (suc fuel) print mem size =
    let (msg, n) = print size in
    elim n [
      | some n ↦
          let again = format_loop fuel print mem (n + 1) in
          if ltb n size
          then some (ok (some msg))
          else if ltb (n + 1) (2 ^ 31)
          then (if mem (n + 1) then again else some (ok none))
          else some fault
      | none ↦
          let again = format_loop fuel print mem (size * 2) in
          if ltb (size * 2) (2 ^ 31)
          then (if mem (size * 2) then again else some (ok none))
          else some fault
    ]

-- What follows the loop, where there is no memory and where there is a message.
abbrev pub set_formatted : ℕ → Global → Option Bytes → Run Global
set_formatted code g none = ok g
set_formatted code g (some msg) = set_err code msg g

abbrev pub set_looped : ℕ → Global → Option (Run (Option Bytes)) → Option (Run Global)
set_looped code g none = none
set_looped code g (some looped) = some (looped >>= set_formatted code g)

-- `ta_error_set`; `mem` says which sizes can be allocated. The result of `calloc` is not tested.
unfoldable pub error_set : ℕ → Printer → (ℕ → Bool) → ℕ → Global → Option (Run Global)
unfolding format_loop set_err
error_set fuel print mem code g =
    let looped = set_looped code g (format_loop fuel print mem 32) in
    if mem (32 * 8) then looped else some fault

-- `vsnprintf` of the C standard of 1999 for a format without directives: a prefix that fits, and
-- the whole length.
abbrev pub c99 : Bytes → Printer
c99 out size = (take (size - 1) out, some (length out))

-- A run that never ends has no meaning either.
abbrev pub run_of : Option (Run Global) → Run Global
run_of none = fault
run_of (some run) = run

-- A call of `ta_error_set` with such a format, on a machine that does not run out of memory.
unfoldable pub report : ℕ → Bytes → Global → Run Global
unfolding error_set
report code out g = run_of (error_set (length out + 1) (c99 out) (λ _. true) code g)
