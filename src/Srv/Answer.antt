-- ===== src/Srv/Answer.antt =====
-- src/srv.c, the part of `ta_srv_query_domain` that reads the answer. A byte that the name server
-- has not sent is not read. `dn_expand` is a parameter: from what the buffer holds, how many bytes a
-- name takes, and what the buffer holds then.
use taningia.Base.{
  ℕ, zero, suc, ◌+◌, ◌-◌, ◌*◌, ◌||◌, not, Option, none, some, List, [], ◌∷◌, ◌++◌, ltb, ◌==◌,
  length, if◌then◌else◌,
}
use taningia.Base.CString.{Bytes, Text}
use taningia.Base.Run.{Run, ok, fault, ◌>>=◌}
use taningia.Srv.{Target, init}

-- `dn_expand (answer, end, p, buf, …)`: the size, with `none` for -1, and the text in the buffer, where
-- `none` is a buffer without one, as it is at first.
abbrev pub Expand : Type 0
Expand = Bytes → ℕ → Text → Option ℕ × Text

-- `*p`
abbrev pub byte_at : Bytes → ℕ → Run ℕ
byte_at [] p = fault
byte_at (b ∷ answer) zero = ok b
byte_at (b ∷ answer) (suc p) = byte_at answer p

-- `GETSHORT` and `GETLONG`
unfoldable pub getshort : Bytes → ℕ → Run ℕ
getshort answer p = do high ← byte_at answer p; low ← byte_at answer (p + 1); ok (high * 256 + low)

unfoldable pub getlong : Bytes → ℕ → Run ℕ
unfolding getshort
getlong answer p = do
  high ← getshort answer p
  low ← getshort answer (p + 2)
  ok (high * 65536 + low)

-- `p += dn_expand (…)`
abbrev pub skip : ℕ → Option ℕ → ℕ
skip p none = p - 1
skip p (some size) = p + size

-- `strdup (buf)`
abbrev pub name_of : Text → Run Bytes
name_of none = fault
name_of (some name) = ok name

abbrev pub t_srv : ℕ
t_srv = 33

abbrev pub c_in : ℕ
c_in = 1

-- The fields of an SRV record behind its length.
unfoldable pub read_target : Expand → Bytes → ℕ → Text → Target → Run (Target × ℕ × Text)
unfolding getshort
read_target expand answer p buf t = do
  priority ← getshort answer p
  weight ← getshort answer (p + 2)
  port ← getshort answer (p + 4)
  let (size, buf') = expand answer (p + 6) buf
  host ← name_of buf'
  ok (
    record t { priority = priority; weight = weight; port = port; host = some host },
    skip (p + 6) size,
    buf',
  )

-- A record of the answer: its target where it is of the class and type asked for, and the rest.
unfoldable pub read_record : Expand → Bytes → ℕ → Text → Run (Option Target × ℕ × Text)
unfolding getshort getlong read_target
read_record expand answer start buf = do
  let (size, buf1) = expand answer start buf
  let p = skip start size
  type ← getshort answer p
  class ← getshort answer (p + 2)
  ttl ← getlong answer (p + 4)
  rdlength ← getshort answer (p + 8)
  let t : Target = record init { class = class; ttl = ttl }
  let read = (do (t', p', buf2) ← read_target expand answer (p + 10) buf1 t; ok (some t', p', buf2))
  if not (type == t_srv) || not (class == c_in) then ok (none, p + 10 + rdlength, buf1) else read

-- `if` the record was one: `ta_list_append (targets, t)`.
abbrev pub append_target : List Target → Option Target → List Target
append_target targets none = targets
append_target targets (some t) = targets ++ t ∷ []

-- The loop over the answer section; `end` is the length of the answer.
unfoldable pub read_answers : Expand → Bytes → ℕ → ℕ → Text → List Target → Run (List Target)
unfolding read_record
read_answers expand answer zero p buf targets = ok targets
read_answers expand answer (suc count) p buf targets =
    let next = (do
      (t, p', buf') ← read_record expand answer p buf
      read_answers expand answer count p' buf' (append_target targets t)) in
    if ltb p (length answer) then next else ok targets

-- The loop over the query section.
unfoldable pub skip_queries : Expand → Bytes → ℕ → ℕ → Text → ℕ × Text
skip_queries expand answer zero p buf = (p, buf)
skip_queries expand answer (suc count) p buf =
    let (size, buf') = expand answer p buf in
    let rest = skip_queries expand answer count (skip p size + 4) buf' in
    if ltb p (length answer) then rest else (p, buf)

-- The targets in the order of the answer: the counts of the header, whose size is 12, then the two
-- sections.
unfoldable pub read_targets : Expand → Bytes → Run (List Target)
unfolding getshort skip_queries read_answers
read_targets expand answer = do
  queries ← getshort answer 4
  answers ← getshort answer 6
  let (p, buf) = skip_queries expand answer queries 12 none
  read_answers expand answer answers p buf []
