-- ===== src/Tests.antt =====
-- Runs of the code at fixed inputs, and the theorems at inputs that meet their hypotheses.
mod Memory
mod Elements
mod Entries
mod Loading
mod Streams
mod Stanzas
mod Records
mod Choices
use taningia.Base.{
  ℕ, ◌+◌, ◌≤◌, ◌<◌, ◌≡◌, ◌%◌, ◌⊎◌, ◌==◌, refl, false, none, some, List, [], ◌∷◌, ◌++◌,
  if◌then◌else◌, ltb, length, arith, ◌/◌,
}
use taningia.Base.CString.{Bytes, Text, codes}
use taningia.Base.Int.{ℤ, pos}
use taningia.Base.Run.{ok, fault, ◌>>=◌}
use taningia.Atom.{Iris, print_iri}
use taningia.Atom.Attributes.{
  link-attributes, in_reply_to-attributes, category-attributes, print_if,
}
use taningia.Atom.Category
use taningia.Atom.Category.{Category}
use taningia.Atom.Counts.{
  Counted, with_count, link-free_last, init-free, setters-same_fault, set_href-counts,
}
use taningia.Atom.InReplyTo
use taningia.Atom.InReplyTo.{InReplyTo, threading_ns}
use taningia.Atom.Link
use taningia.Atom.Link.{Link}
use taningia.Atom.Xml.{Xml, same_key}
use taningia.Buf
use taningia.Buf.{Buf}
use taningia.Buf.Contents.{Holds, IsEnded, cat-Holds}
use taningia.Buf.Format.{catf-overruns}
use taningia.Buf.Growth.{buf_realloc-grows}
use taningia.Buf.Strings.{always, cat_all, concat, dump-cat_all}
use taningia.Error
use taningia.Error.{Global, Slot, live, fresh, c99, clear, set_err, last, error_set}
use taningia.Error.Laws.{IsSound, c99-Prints, error_set-last, error_set_no_memory, clear-set_faults}
use taningia.Iri
use taningia.Iri.{Iri, get_port}
use taningia.Iri.Accessors.{get-set, get, set, same}
use taningia.Iri.Parse.{parse, is_scheme_char}
use taningia.Iri.Parse.Authority.{IsAuthority}
use taningia.Iri.Parse.Errors.{Keeps, parse-Keeps}
use taningia.Iri.Parse.Opaque.{parse-opaque}
use taningia.Iri.Parse.RoundTrip.{parse-to_string, with_authority}
use taningia.Iri.Print.{to_string, decimal}
use taningia.Iri.Print.Layout.{render, to_string-render}
use taningia.Object
use taningia.Object.{Cell, freed, iri_free, atom_in_reply_to_free, atom_category_free}
use taningia.Object.Counting.{take, release, use_all, init-release}
use taningia.Tag
use taningia.Tag.{Tag, entity, set_fields}
use taningia.Tag.Laws.{set_fields-entity}
use taningia.TaList
use taningia.TaList.{Heap, Pointer, write}
use taningia.TaList.Chain.{Chain, Entry, node, distinct, mentions}
use taningia.TaList.Changing.{append-Chain, reverse-Chain}

abbrev top : ℕ
top = 0x7fff0000

parse_path_query :
    parse top (codes "bleh://lincoln@comum.org:123/test/path?q=1#fr") Iri.init
    ≡ ok (
      record {
        parent = Iri.init.parent;
        scheme = some (codes "bleh");
        user = some (codes "lincoln");
        host = some (codes "comum.org");
        port = pos 123;
        path = some (codes "/test/path");
        query = some (codes "q=1");
        fragment = some (codes "fr");
      },
      none,
    )
unfolding parse Iri.init
parse_path_query = refl

fresh-IsSound : IsSound fresh
fresh-IsSound = λ e. cc

abbrev pub long_text : Bytes
long_text = codes "a message of more than thirty-two bytes"

error_set-last_example :
    (g' : Global) × (error_set 40 (c99 long_text) always 200 fresh ≡ some (ok g'))
    × (last g' ≡ some (200, live long_text))
    × IsSound g'
error_set-last_example =
    error_set-last 40 200 always fresh (c99-Prints long_text) (λ n. refl) (omega arith)
      (omega arith) fresh-IsSound

clear-set_example :
    (do g1 ← set_err 200 (codes "a") fresh; g2 ← clear g1; set_err 201 (codes "b") g2) ≡ fault
clear-set_example = clear-set_faults 200 201 (codes "a") (codes "b") fresh fresh-IsSound

init-release_example :
    (use_all ((take ∷ release ∷ []) ++ release ∷ []) (Cell.live (Object.init (some iri_free)))
      ≡ ok (freed, some iri_free ∷ []))
    × (use_all
          ((take ∷ release ∷ []) ++ release ∷ take ∷ [])
          (Cell.live (Object.init (some iri_free)))
        ≡ fault)
init-release_example =
    init-release (take ∷ release ∷ []) [] take (some iri_free) (omega arith, tt) refl

-- An IRI with the given port.
abbrev on_port : ℕ → Iri
on_port n =
    with_authority (codes "http") (some (codes "me")) (codes "e.org") n (some (codes "a/b"))
      (some (codes "q")) (some (codes "f"))

to_string-render_example : to_string (on_port 80) ≡ ok (render (on_port 80))
unfolding decimal
to_string-render_example = to_string-render (on_port 80) refl (omega arith)

abbrev url : Bytes
url = codes "http://me@e.org:81/a/b?q#f"

on_port-IsAuthority :
    IsAuthority
      (some (codes "me"))
      (codes "e.org")
      81
      (some (codes "a/b"))
      (some (codes "q"))
      (some (codes "f"))
on_port-IsAuthority = record {
  user = refl;
  host = refl;
  port = omega arith;
  path = refl;
  size = omega arith;
  tail = refl;
}

parse-to_string_example :
    (do s ← to_string (on_port 81); parse top s Iri.init) ≡ ok (on_port 81, none)
unfolding is_scheme_char decimal
parse-to_string_example =
    parse-to_string top (codes "http") (some (codes "me")) (codes "e.org") 81 (some (codes "a/b"))
      (some (codes "q")) (some (codes "f")) refl on_port-IsAuthority tt (omega arith) (omega arith)
      (omega arith) (omega arith)

abbrev mailto : Iri
mailto = record Iri.init {
  scheme = some (codes "mailto");
  path = some (codes "a@b.c");
  query = some (codes "s=1");
  fragment = none;
}

parse-opaque_example : parse top (render mailto) Iri.init ≡ ok (mailto, none)
unfolding is_scheme_char
parse-opaque_example =
    parse-opaque top (codes "mailto") (codes "a@b.c") (some (codes "s=1")) none refl refl refl refl
      refl (omega arith)

bad_port :
    parse top (codes "http://e.org:x/") (on_port 81)
    ≡ ok (on_port 81, some (codes "Invalid port number"))
unfolding parse
bad_port = refl

abbrev of_example : Tag
of_example = record {
  iri = Iri.init;
  authority = some (codes "e.org");
  date = some (codes "2009");
  specific = some (codes "x");
}

set_fields-entity_example :
    set_fields (entity (codes "e.org") (codes "2009") (codes "x:y")) of_example ≡ (
      record of_example {
        authority = some (codes "e.org");
        date = some (codes "2009");
        specific = some (codes "x:y");
      },
      none,
    )
set_fields-entity_example =
    set_fields-entity (codes "e.org") (codes "2009") (codes "x:y") of_example refl refl

abbrev tagged : Iri
tagged = record Iri.init { scheme = some (codes "tag"); path = some (codes "e.org,2009:x") }

parse-tagged : parse top (codes "tag:e.org,2009:x") Iri.init ≡ ok (tagged, none)
unfolding parse Iri.init
parse-tagged = refl
