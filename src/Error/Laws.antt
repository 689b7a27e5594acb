-- ===== src/Error/Laws.antt =====
-- What `ta_error_set`, `ta_error_last` and `ta_error_clear` do together.
use taningia.Base.{
  ◌^◌, Option, ℕ, zero, suc, ◌+◌, ◌-◌, ◌*◌, ◌≤◌, ◌<◌, ◌≡◌, ◌≢◌, refl, ◌∙◌, ◌⊎◌, inl, inr, Bool,
  true, false, none, some, arith, ltb, length, take_all, Bool-cases,
}
use taningia.Base.CString.{Bytes}
use taningia.Base.Run.{Run, ok, fault, ◌>>=◌, After, >>=-After_any}
use taningia.Error.{
  set_looped, run_of, live, dangling, Global, Printer, last, clear, set_err, format_loop, error_set,
  c99, report, free_slot,
}

-- What the loop relies on: the text `out` and its length come back where it fits, and else a
-- negative number (glibc before 2.1) or the length (the standard of 1999).
pub record Prints (out : Bytes) (print : Printer) : Type 0 where
  pub fits :
      (size : ℕ) → length out < size → ((print size).0 ≡ out) × ((print size).1 ≡ some (length out))
  pub short :
      (size : ℕ)
      → size ≤ length out
      → ((print size).1 ≡ none) ⊎ ((print size).1 ≡ some (length out))

format_loop-fits :
    (fuel : ℕ) {out : Bytes} {print : Printer} (mem : ℕ → Bool) (size : ℕ)
    → Prints out print
    → length out < size
    → format_loop (suc fuel) print mem size ≡ some (ok (some out))
unfolding format_loop
format_loop-fits fuel {out} mem size p h =
    let (text, n) = p.fits size h in
    let room : ltb (length out) size ≡ true = ground arith in rw (n, format_loop, room, text)

format_loop-none :
    (fuel : ℕ) (print : Printer) (mem : ℕ → Bool) (size : ℕ)
    → (print size).1 ≡ none
    → mem (size * 2) ≡ true
    → size * 2 < 2 ^ 31
    → format_loop (suc fuel) print mem size ≡ format_loop fuel print mem (size * 2)
unfolding format_loop
format_loop-none fuel print mem size e m b =
    let small : ltb (size * 2) (2 ^ 31) ≡ true = ground arith in rw (e, format_loop, small, m)

format_loop-some :
    (fuel n : ℕ) (print : Printer) (mem : ℕ → Bool) (size : ℕ)
    → (print size).1 ≡ some n
    → size ≤ n
    → mem (n + 1) ≡ true
    → n + 1 < 2 ^ 31
    → format_loop (suc fuel) print mem size ≡ format_loop fuel print mem (n + 1)
unfolding format_loop
format_loop-some fuel n print mem size e h m b =
    let big : ltb n size ≡ false = ground arith in
    let small : ltb (n + 1) (2 ^ 31) ≡ true = ground arith in rw (e, format_loop, big, small, m)

-- Each round that does not end the loop makes the buffer longer.
pub format_loop_total :
    (fuel : ℕ) {out : Bytes} {print : Printer} (mem : ℕ → Bool) (size : ℕ)
    → Prints out print
    → ((n : ℕ) → mem n ≡ true)
    → 0 < size
    → length out + 1 < fuel + size
    → 0 < fuel
    → length out < 2 ^ 30
    → format_loop fuel print mem size ≡ some (ok (some out))
format_loop_total zero mem size p m s h f b = absurd (omega arith)
format_loop_total (suc fuel) {out} {print} mem size p m s h f b =
    elim (Bool-cases (ltb (length out) size)) [
      | inl enough ↦ format_loop-fits fuel mem size p (ground arith)
      | inr small ↦
          let le : size ≤ length out = ground arith in
          elim (p.short size le) [
            | inl e ↦
                format_loop-none fuel print mem size e (m _) (omega arith)
                ∙ format_loop_total fuel mem (size * 2) p m (omega arith) (omega arith)
                    (omega arith) b
            | inr e ↦
                format_loop-some fuel (length out) print mem size e le (m _) (omega arith)
                ∙ format_loop_total fuel mem (length out + 1) p m (omega arith) (omega arith)
                    (omega arith) b
          ]
    ]

-- The state is sound when no dangling pointer is left behind.
abbrev pub IsSound : Global → Type 0
IsSound g = g.message ≢ dangling

abbrev pub reported : ℕ → Bytes → Global
reported code out = record { last_error = true; code = code; message = live out }

pub set_err-last :
    (code : ℕ) (msg : Bytes) (g : Global) → IsSound g → set_err code msg g ≡ ok (reported code msg)
unfolding set_err
set_err-last code msg g s = ground arith

error_set_lem :
    (fuel code : ℕ) {out : Bytes} {print : Printer} (mem : ℕ → Bool) (g : Global)
    → Prints out print
    → ((n : ℕ) → mem n ≡ true)
    → length out < fuel
    → length out < 2 ^ 30
    → IsSound g
    → error_set fuel print mem code g ≡ some (ok (reported code out))
unfolding error_set
error_set_lem fuel code {out} mem g p m h b s =
    rw (m (32 * 8), format_loop_total fuel mem 32 p m (omega arith) (omega arith) (omega arith) b)
      (rw (set_err-last code out g s))

-- With memory and a `vsnprintf` that prints `out`, of fewer than 2^30 bytes, `ta_error_set` ends with
-- any fuel above the length of `out`, whichever convention `vsnprintf` follows and without an overflow
-- of its sizes, and from a sound state stores the code and the whole message, so that `ta_error_last`
-- then gives both.
pub error_set-last :
    (fuel code : ℕ) {out : Bytes} {print : Printer} (mem : ℕ → Bool) (g : Global)
    → Prints out print
    → ((n : ℕ) → mem n ≡ true)
    → length out < fuel
    → length out < 2 ^ 30
    → IsSound g
    → (g' : Global) × (error_set fuel print mem code g ≡ some (ok g'))
      × (last g' ≡ some (code, live out))
      × IsSound g'
unfolding last
error_set-last fuel code {out} {print} mem g p m h b s =
    (reported code out, error_set_lem fuel code mem g p m h b s, refl, cc)

-- When `realloc` fails, `ta_error_set` leaves the state as it was: the last error is the old one.
pub error_set_no_memory :
    (fuel code : ℕ) (out : Bytes) (mem : ℕ → Bool) (g : Global)
    → mem (32 * 8) ≡ true
    → 32 ≤ length out
    → length out < 2 ^ 30
    → mem (length out + 1) ≡ false
    → error_set (suc fuel) (c99 out) mem code g ≡ some (ok g)
unfolding error_set format_loop
error_set_no_memory fuel code out mem g m h b e =
    let big : ltb (length out) 32 ≡ false = ground arith in
    let small : ltb (length out + 1) (2 ^ 31) ≡ true = ground arith in rw (m, big, small, e)

pub c99-Prints : (out : Bytes) → Prints out (c99 out)
c99-Prints out = record {
  fits = λ size h. (take_all out (size - 1) (omega arith), refl);
  short = λ size h. inr refl;
}

pub report_sound :
    (code : ℕ) (out : Bytes) (g : Global)
    → IsSound g
    → length out < 2 ^ 30
    → report code out g ≡ ok (reported code out)
unfolding report
report_sound code out g s b = rw (
  error_set_lem (length out + 1) code (λ _. true) g (c99-Prints out) (λ n. refl) (omega arith) b s,
  report,
)

-- With memory the loop does not give up: it runs out of fuel, overflows, or has a message.
abbrev has_message : Option (Run (Option Bytes)) → Bool
has_message (some (ok none)) = false
has_message _ = true

round-has_message :
    (fuel : ℕ) (print : Printer) (size : ℕ) (n : Option ℕ)
    → ((s : ℕ) → has_message (format_loop fuel print (λ _. true) s) ≡ true)
    → (print size).1 ≡ n
    → has_message (format_loop (suc fuel) print (λ _. true) size) ≡ true
unfolding format_loop
round-has_message fuel print size none k e = elim (Bool-cases (ltb (size * 2) (2 ^ 31))) [
  | inl small ↦ rw (e, format_loop, small) (k (size * 2))
  | inr big ↦ rw (e, format_loop, big) refl
]
round-has_message fuel print size (some n) k e = elim (Bool-cases (ltb n size)) [
  | inl fits ↦ rw (e, format_loop, fits) refl
  | inr short ↦ elim (Bool-cases (ltb (n + 1) (2 ^ 31))) [
    | inl small ↦ rw (e, format_loop, short, small) (k (n + 1))
    | inr big ↦ rw (e, format_loop, short, big) refl
  ]
]

format_loop-has_message :
    (fuel : ℕ) (print : Printer) (size : ℕ)
    → has_message (format_loop fuel print (λ _. true) size) ≡ true
format_loop-has_message zero print size = unfold format_loop in refl
format_loop-has_message (suc fuel) print size =
    round-has_message fuel print size (print size).1 (format_loop-has_message fuel print) refl

set_err-After :
    (code : ℕ) (out : Bytes) (g : Global) → After (λ g'. g'.last_error ≡ true) (set_err code out g)
unfolding set_err After
set_err-After code out g =
    >>=-After_any (λ g'. g'.last_error ≡ true) (free_slot g.message) _ (λ _. refl)

formatted-After :
    (code : ℕ) (g : Global) (loop : Option (Run (Option Bytes)))
    → has_message loop ≡ true
    → After (λ g'. g'.last_error ≡ true) (run_of (set_looped code g loop))
unfolding After
formatted-After code g none h = tt
formatted-After code g (some fault) h = tt
formatted-After code g (some (ok none)) h = absurd (ground arith)
formatted-After code g (some (ok (some msg))) h = set_err-After code msg g

-- A run that reports an error leaves one that can be read.
pub report_lem :
    (code : ℕ) (out : Bytes) (g : Global) → After (λ g'. g'.last_error ≡ true) (report code out g)
unfolding report error_set
report_lem code out g =
    formatted-After code g (format_loop (length out + 1) (c99 out) (λ _. true) 32)
      (format_loop-has_message (length out + 1) (c99 out) 32)

-- `ta_error_clear` frees the message and keeps the pointer, so the next `ta_error_set` frees the
-- same memory again: after an error was set and cleared, no further error can be set.
pub clear-set_faults :
    (code code' : ℕ) (msg msg' : Bytes) (g : Global)
    → IsSound g
    → (do g1 ← set_err code msg g; g2 ← clear g1; set_err code' msg' g2) ≡ fault
unfolding set_err clear
clear-set_faults code code' msg msg' g s = ground arith
