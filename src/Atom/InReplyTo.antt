-- ===== src/Atom/InReplyTo.antt =====
-- src/atom.c, `ta_atom_in_reply_to_t`. Its text belongs to the record.
use taningia.Base.{none, some}
use taningia.Base.CString.{Bytes, Text, codes}
use taningia.Base.Run.{Run, ok, ◌>>=◌}
use taningia.Iri.{strdup}
use taningia.Object
use taningia.Object.{Object, atom_in_reply_to_free}
use taningia.Atom.{Pointer, Iris, ref_iri, unref_iri, exchange}
use taningia.Atom.Xml.{Xml, insert_if, insert_iri, insert_iri_if}

-- `ta_atom_in_reply_to_t`
pub record InReplyTo : Type 0 where
  pub parent : Object
  pub ref : Pointer
  pub href : Pointer
  pub source : Pointer
  pub type : Text

-- `ta_atom_in_reply_to_init`
unfoldable pub init : Pointer → Iris → Run (InReplyTo × Iris)
init ref iris = do
  iris' ← ref_iri ref iris
  ok (
    record {
      parent = Object.init (some atom_in_reply_to_free);
      ref = ref;
      href = none;
      source = none;
      type = none;
    },
    iris',
  )

-- `ta_atom_in_reply_to_free`, on the IRIs.
unfoldable pub free : InReplyTo → Iris → Run Iris
free irt iris = do
  iris1 ← unref_iri irt.ref iris
  iris2 ← unref_iri irt.href iris1
  unref_iri irt.source iris2

unfoldable pub get_ref : InReplyTo → Pointer
get_ref irt = irt.ref

unfoldable pub set_ref : InReplyTo → Pointer → Iris → Run (InReplyTo × Iris)
set_ref irt ref iris = do iris' ← exchange irt.ref ref iris; ok (record irt { ref = ref }, iris')

unfoldable pub get_href : InReplyTo → Pointer
get_href irt = irt.href

unfoldable pub set_href : InReplyTo → Pointer → Iris → Run (InReplyTo × Iris)
set_href irt href iris = do
  iris' ← exchange irt.href href iris
  ok (record irt { href = href }, iris')

unfoldable pub get_source : InReplyTo → Pointer
get_source irt = irt.source

unfoldable pub set_source : InReplyTo → Pointer → Iris → Run (InReplyTo × Iris)
set_source irt source iris = do
  iris' ← exchange irt.source source iris
  ok (record irt { source = source }, iris')

unfoldable pub get_type : InReplyTo → Text
get_type irt = irt.type

unfoldable pub set_type : InReplyTo → Text → Run InReplyTo
set_type irt type = do copy ← strdup type; ok (record irt { type = copy })

-- `TA_ATOM_THREADING_NS`
abbrev pub threading_ns : Bytes
threading_ns = codes "http://purl.org/syndication/thread/1.0"

module _ (xml : Xml) where
  -- `ta_atom_in_reply_to_to_iks`
  unfoldable pub to_iks : InReplyTo → Iris → Run xml.Node
  unfolding insert_if insert_iri insert_iri_if
  to_iks irt iris = do
    let named =
        xml.insert_attrib (xml.new (codes "in-reply-to")) (codes "xmlns") (some threading_ns)
    with_ref ← insert_iri xml (codes "ref") irt.ref iris named
    with_href ← insert_iri_if xml (codes "href") irt.href iris with_ref
    with_source ← insert_iri_if xml (codes "source") irt.source iris with_href
    ok (insert_if xml (codes "type") irt.type with_source)
