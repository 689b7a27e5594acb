-- ===== src/Pubsub.antt =====
-- src/pubsub.c: the stanzas of publish and subscribe. The XML tree is a document behind pointers,
-- and the two counters of the stanza ids are those of the file.
pub mod Nodes
pub mod Config
pub mod Pairs
use taningia.Base.{ℕ, suc, ◌+◌, ◌^◌, ◌≡◌, Bool, Option, none, some, ◌++◌, ltb, if◌then◌else◌, take}
use taningia.Base.CString.{Bytes, Text, codes}
use taningia.Base.Int.{pos}
use taningia.Base.Run.{Run, ok, fault, ◌>>=◌}
use taningia.Iri.Print.{decimal}

-- An `iks *`.
abbrev pub Pointer : Type 0
Pointer = Option ℕ

-- `enum iksubtype`, as far as the file names it.
pub data SubType : Type 0 where
  get set result error other : SubType

-- The functions of the XML library on a document that holds all the nodes. A pointer that is NULL
-- takes no child and no text.
pub record Tree : Type 1 where
  pub Doc : Type 0
  pub new : Bytes → Doc → Pointer × Doc
  pub insert : Pointer → Bytes → Doc → Pointer × Doc
  pub insert_attrib : Pointer → Bytes → Text → Doc → Doc
  pub insert_cdata : Pointer → Text → ℕ → Doc → Doc
  pub insert_node : Pointer → Pointer → Doc → Doc
  pub child : Pointer → Doc → Pointer
  pub make_iq : SubType → Bytes → Doc → Pointer × Doc
  pub insert-null : (name : Bytes) (d : Doc) → insert none name d ≡ (none, d)
  pub cdata-null : (text : Text) (len : ℕ) (d : Doc) → insert_cdata none text len d ≡ d

-- The document and the static counters of `createiq` and `createiqps`.
pub record State (Doc : Type 0) : Type 0 where
  pub doc : Doc
  pub queries : ℕ
  pub stanzas : ℕ

-- `nid++` on an `int`, whose overflow has no meaning.
abbrev pub next_id : ℕ → Run ℕ
next_id nid = if ltb (nid + 1) (2 ^ 31) then ok (nid + 1) else fault

-- `snprintf (sid, 32, …)`
unfoldable pub sid : Bytes → ℕ → Bytes
sid kind nid = take 31 (kind ++ decimal (pos nid))

-- The `switch` of `createiqps`.
abbrev pub type_name : SubType → Text
type_name get = some (codes "get")
type_name set = some (codes "set")
type_name result = some (codes "result")
type_name error = some (codes "error")
type_name other = none

module _ (tree : Tree) where
  abbrev pub Docs : Type 0
  Docs = State tree.Doc

  -- `if (text) iks_insert_attrib (p, key, text);`
  abbrev pub attrib_if : Pointer → Bytes → Text → tree.Doc → tree.Doc
  attrib_if p key none d = d
  attrib_if p key (some text) d = tree.insert_attrib p key (some text) d

  -- The attributes `from`, `to` and `id` of a stanza.
  abbrev pub addressed : Pointer → Text → Text → Bytes → tree.Doc → tree.Doc
  addressed iq from to id d =
      tree.insert_attrib iq (codes "id") (some id)
        (tree.insert_attrib iq (codes "to") to (tree.insert_attrib iq (codes "from") from d))

  -- `createiq`
  unfoldable pub createiq : Text → Text → SubType → Bytes → Docs → Run (Pointer × Docs)
  unfolding sid
  createiq from to type ns s = do
    nid ← next_id s.queries
    let made = tree.make_iq type ns s.doc
    ok (
      made.0,
      record s {
        doc = addressed made.0 from to (sid (codes "query") s.queries) made.1;
        queries = nid;
      },
    )

  -- `createiqps`
  unfoldable pub createiqps : Text → Text → SubType → Docs → Run (Pointer × Docs)
  unfolding sid
  createiqps from to type s = do
    nid ← next_id s.stanzas
    let made = tree.new (codes "iq") s.doc
    let typed = attrib_if made.0 (codes "type") (type_name type) made.1
    let inner =
        tree.insert made.0 (codes "pubsub")
          (addressed made.0 from to (sid (codes "ps") s.stanzas) typed)
    ok (
      made.0,
      record s {
        doc =
            tree.insert_attrib inner.0 (codes "xmlns")
              (some (codes "http://jabber.org/protocol/pubsub")) inner.1;
        stanzas = nid;
      },
    )
