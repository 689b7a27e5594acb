-- ===== src/Atom/Attributes.antt =====
-- src/atom.c: the attributes that the `_to_iks` functions write.
use taningia.Base.{arith, ◌≡◌, refl, none, some, if◌then◌else◌}
use taningia.Base.CString.{Bytes, Text, codes}
use taningia.Base.Run.{Run, ok, ◌>>=◌, >>=-eq-ok}
use taningia.Atom.{Pointer, Iris, print_iri}
use taningia.Atom.Xml.{Xml, same_key, insert_if, insert_iri, insert_iri_if}
use taningia.Atom.Link
use taningia.Atom.Link.{Link}
use taningia.Atom.InReplyTo
use taningia.Atom.InReplyTo.{InReplyTo, threading_ns}
use taningia.Atom.Category
use taningia.Atom.Category.{Category}

abbrev or_else : Text → Text → Text
or_else none t = t
or_else (some s) t = some s

or_else-none : (t : Text) → or_else t none ≡ t
or_else-none none = refl
or_else-none (some s) = refl

-- The print of an IRI where there is one.
abbrev pub print_if : Pointer → Iris → Run Text
print_if none iris = ok none
print_if (some a) iris = do s ← print_iri (some a) iris; ok (some s)

module _ (xml : Xml) where
  find-insert_if :
      (n : xml.Node) (j : Bytes) (v : Text) (k : Bytes)
      → xml.find_attrib (insert_if xml j v n) k
        ≡ (if same_key j k then or_else v (xml.find_attrib n k) else xml.find_attrib n k)
  unfolding insert_if
  find-insert_if n j none k = ground arith
  find-insert_if n j (some v) k = xml.find-insert n j (some v) k

  insert_iri_lem :
      (key : Bytes) (p : Pointer) (iris : Iris) (s : Bytes) (n : xml.Node)
      → print_iri p iris ≡ ok s
      → insert_iri xml key p iris n ≡ ok (xml.insert_attrib n key (some s))
  unfolding insert_iri
  insert_iri_lem key p iris s n e = rw e refl

  insert_iri_if_lem :
      (key : Bytes) (p : Pointer) (iris : Iris) (t : Text) (n : xml.Node)
      → print_if p iris ≡ ok t
      → insert_iri_if xml key p iris n ≡ ok (insert_if xml key t n)
  unfolding insert_iri_if insert_iri insert_if
  insert_iri_if_lem key none iris none n e = refl
  insert_iri_if_lem key none iris (some s) n e = cc
  insert_iri_if_lem key (some a) iris none n e =
      let (s, printed, e') = >>=-eq-ok (print_iri (some a) iris) _ e in cc
  insert_iri_if_lem key (some a) iris (some s) n e =
      let (s', printed, e') = >>=-eq-ok (print_iri (some a) iris) _ e in
      let same : s' ≡ s = cc in rw (printed, same) refl

  find-insert_attrib :
      (n : xml.Node) (j : Bytes) (v : Text) (k : Bytes)
      → xml.find_attrib (xml.insert_attrib n j v) k
        ≡ (if same_key j k then v else xml.find_attrib n k)
  find-insert_attrib = xml.find-insert

  find_empty : (s k : Bytes) → xml.find_attrib (xml.new s) k ≡ none
  find_empty = xml.find-new

  ruleset attributes = (find-insert_if, find-insert_attrib, find_empty, or_else-none)

  abbrev link_node : Bytes → Link → xml.Node
  link_node href link = insert_if xml (codes "length") link.length (
      insert_if xml (codes "type") link.type (
        insert_if xml (codes "title") link.title (
          insert_if xml (codes "rel") link.rel
            (xml.insert_attrib (xml.new (codes "link")) (codes "href") (some href)))))

  -- The element of a link whose IRI prints as `href`: it has that attribute, and `rel`, `title`,
  -- `type` and `length` where the link has these texts, and not otherwise.
  pub link-attributes :
      (link : Link) (iris : Iris) (href : Bytes)
      → print_iri link.href iris ≡ ok href
      → (n : xml.Node) × (Link.to_iks xml link iris ≡ ok n)
        × (xml.find_attrib n (codes "href") ≡ some href)
        × (xml.find_attrib n (codes "rel") ≡ link.rel)
        × (xml.find_attrib n (codes "title") ≡ link.title)
        × (xml.find_attrib n (codes "type") ≡ link.type)
        × (xml.find_attrib n (codes "length") ≡ link.length)
  unfolding Link.to_iks
  link-attributes link iris href e = (
    link_node href link,
    rw (insert_iri_lem (codes "href") link.href iris href (xml.new (codes "link")) e) refl,
    simp attributes,
    simp attributes,
    simp attributes,
    simp attributes,
    simp attributes,
  )

  abbrev reply_node : Bytes → Text → Text → InReplyTo → xml.Node
  reply_node ref href source irt = insert_if xml (codes "type") irt.type (
      insert_if xml (codes "source") source (
        insert_if xml (codes "href") href (
          xml.insert_attrib
            (xml.insert_attrib (xml.new (codes "in-reply-to")) (codes "xmlns") (some threading_ns))
            (codes "ref") (some ref))))

  -- The element of an `in-reply-to` whose IRI prints as `ref` and whose optional IRIs print as
  -- `href` and `source`: it has the namespace of the threading extension, these attributes where
  -- the IRIs are set, and `type` where that text is, and not otherwise.
  pub in_reply_to-attributes :
      (irt : InReplyTo) (iris : Iris) (ref : Bytes) (href source : Text)
      → print_iri irt.ref iris ≡ ok ref
      → print_if irt.href iris ≡ ok href
      → print_if irt.source iris ≡ ok source
      → (n : xml.Node) × (InReplyTo.to_iks xml irt iris ≡ ok n)
        × (xml.find_attrib n (codes "xmlns") ≡ some threading_ns)
        × (xml.find_attrib n (codes "ref") ≡ some ref)
        × (xml.find_attrib n (codes "href") ≡ href)
        × (xml.find_attrib n (codes "source") ≡ source)
        × (xml.find_attrib n (codes "type") ≡ irt.type)
  unfolding InReplyTo.to_iks
  in_reply_to-attributes irt iris ref href source e eh es = (
    reply_node ref href source irt,
    rw
        (
          insert_iri_lem (codes "ref") irt.ref iris ref _ e,
          insert_iri_if_lem (codes "href") irt.href iris href _ eh,
          insert_iri_if_lem (codes "source") irt.source iris source _ es,
        )
        refl,
    simp attributes,
    simp attributes,
    simp attributes,
    simp attributes,
    simp attributes,
  )

  abbrev category_node : Text → Category → xml.Node
  category_node scheme category = insert_if xml (codes "scheme") scheme (
      insert_if xml (codes "label") category.label
        (xml.insert_attrib (xml.new (codes "category")) (codes "term") category.term))

  -- The element of a category whose optional scheme prints as `scheme`: it has the term, and the
  -- label and the scheme where the category has them, and not otherwise.
  pub category-attributes :
      (category : Category) (iris : Iris) (scheme : Text)
      → print_if category.scheme iris ≡ ok scheme
      → (n : xml.Node) × (Category.to_iks xml category iris ≡ ok n)
        × (xml.find_attrib n (codes "term") ≡ category.term)
        × (xml.find_attrib n (codes "label") ≡ category.label)
        × (xml.find_attrib n (codes "scheme") ≡ scheme)
  unfolding Category.to_iks
  category-attributes category iris scheme e = (
    category_node scheme category,
    insert_iri_if_lem (codes "scheme") category.scheme iris scheme _ e,
    simp attributes,
    simp attributes,
    simp attributes,
  )
