-- ===== src/Atom/Content.antt =====
-- src/atom.c, `ta_atom_content_t`. The text is memory on the heap, in which a byte may hold
-- nothing yet (`Buf.Memory`), and which may have been given back.
pub mod Length
pub mod Release
use taningia.Base.{
  ℕ, ◌+◌, Bool, ◌||◌, Option, none, some, List, [], ◌∷◌, ◌++◌, map, leb, ◌==◌, if◌then◌else◌,
  length, take,
}
use taningia.Base.CString.{Bytes, Text, codes}
use taningia.Base.Run.{Run, ok, fault, ◌>>=◌}
use taningia.Buf.{Memory, read_string}
use taningia.Iri.{strdup}
use taningia.Object
use taningia.Object.{Object, atom_content_free}
use taningia.Atom.{Pointer, Iris, ref_iri, unref_iri}
use taningia.Atom.Xml.{Xml, same_key, insert_iri}

-- What the field `content` points at.
pub data Place : Type 0 where
  null : Place
  block : Memory → Place
  given_back : Place

-- `free`
abbrev pub free_place : Place → Run Place
free_place null = ok null
free_place (block m) = ok given_back
free_place given_back = fault

-- `ta_atom_content_t`
pub record Content : Type 0 where
  pub parent : Object
  pub type : Text
  pub content : Place
  pub len : ℕ
  pub src : Pointer

abbrev pub or_text : Text → Text
or_text none = some (codes "text")
or_text (some type) = some type

-- `ta_atom_content_init`
unfoldable pub init : Text → Content
init type = record {
  parent = Object.init (some atom_content_free);
  type = or_text type;
  content = null;
  len = 0;
  src = none;
}

-- `ta_atom_content_free`, on the text and the IRIs.
unfoldable pub free : Content → Iris → Run Iris
free c iris = do place ← free_place c.content; unref_iri c.src iris

unfoldable pub get_type : Content → Text
get_type c = c.type

unfoldable pub set_type : Content → Text → Run Content
set_type c type = do copy ← strdup type; ok (record c { type = copy })

unfoldable pub get_src : Content → Pointer
get_src c = c.src

-- The text behind a new source: it goes only where an old source is replaced.
abbrev pub clear_content : Pointer → Pointer → Place → Run Place
clear_content (some old) (some new) null = ok null
clear_content (some old) (some new) (block m) = ok null
clear_content (some old) (some new) given_back = fault
clear_content _ _ place = ok place

-- `ta_atom_content_set_src`
unfoldable pub set_src : Content → Pointer → Iris → Run (Content × Iris)
set_src c src iris = do
  iris1 ← unref_iri c.src iris
  place ← clear_content c.src src c.content
  iris2 ← ref_iri src iris1
  ok (record c { content = place; src = src }, iris2)

-- `ta_atom_content_get_content`: the pointer, and what is stored in `len`.
unfoldable pub get_content : Content → Place × ℕ
get_content c = (c.content, c.len)

-- The source behind a new text: it goes only where an old text is replaced.
abbrev pub clear_src : Place → Text → Pointer → Iris → Run (Pointer × Iris)
clear_src null text src iris = ok (src, iris)
clear_src place none src iris = ok (src, iris)
clear_src place (some s) src iris = do iris' ← unref_iri src iris; ok (none, iris')

-- `malloc (len + 1)` and `memcpy (…, text, len)`; the text and its NUL are what can be read.
abbrev pub copied : Bytes → ℕ → Run Place
copied text len =
    if leb len (length text)
    then ok (block (map some (take len text) ++ none ∷ []))
    else if len == length text + 1
    then ok (block (map some text ++ some 0 ∷ none ∷ []))
    else fault

-- The assignment to `content`, where there is a text and a length.
abbrev pub place_text : Text → ℕ → Place → Run Place
place_text none len place = ok place
place_text (some text) len place = if len == 0 then ok place else copied text len

-- `ta_atom_content_set_content`, for a length that is not negative. The field `len` is not written.
unfoldable pub set_content : Content → Text → ℕ → Iris → Run (Content × Iris)
set_content c text len iris = do
  freed ← free_place c.content
  (src, iris') ← clear_src c.content text c.src iris
  place ← place_text text len freed
  ok (record c { content = place; src = src }, iris')

-- What `iks_insert_cdata (x, data, len)` reads: `len` bytes, or up to the NUL if `len` is 0.
abbrev pub known : Memory → Run Bytes
known [] = ok []
known (none ∷ m) = fault
known (some c ∷ m) = do s ← known m; ok (c ∷ s)

unfoldable pub cdata : Memory → ℕ → Run Bytes
unfolding read_string
cdata m len =
    if len == 0 then read_string m else if leb len (length m) then known (take len m) else fault

module _ (xml : Xml) where
  -- The text as the data of the element, or of an XHTML `div` in it.
  unfoldable pub insert_text : Text → Bytes → xml.Node → Run xml.Node
  insert_text none value ct = fault
  insert_text (some type) value ct =
      let div =
        xml.insert_attrib (xml.new (codes "div")) (codes "xmlns")
          (some (codes "http://www.w3.org/1999/xhtml")) in
      if same_key type (codes "xhtml")
      then ok (xml.insert_node ct (xml.insert_cdata div (some value)))
      else ok (xml.insert_cdata ct (some value))

  unfoldable pub insert_place : Content → xml.Node → Run xml.Node
  unfolding insert_text cdata
  insert_place c ct = elim c.content [
    | null ↦ ok ct
    | block m ↦ do read ← cdata m c.len; insert_text c.type read ct
    | given_back ↦ fault
  ]

  -- `ta_atom_content_to_iks`
  unfoldable pub to_iks : Content → Iris → Run xml.Node
  unfolding insert_place insert_iri
  to_iks c iris =
      let ct = xml.insert_attrib (xml.new (codes "content")) (codes "type") c.type in
      elim c.src [
        | some a ↦ insert_iri xml (codes "src") (some a) iris ct
        | none ↦ insert_place c ct
      ]
