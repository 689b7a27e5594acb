-- ===== src/Atom/Xml.antt =====
-- The part of the XML tree library that src/atom.c builds elements with (iks_new,
-- iks_insert_attrib, iks_insert_cdata, iks_find_attrib), as operations and what is relied on.
use taningia.Base.{◌≡◌, Bool, true, false, ◌&&◌, none, some, [], ◌∷◌, ◌==◌, if◌then◌else◌}
use taningia.Base.CString.{Bytes, Text}
use taningia.Base.Run.{Run, ok, ◌>>=◌}
use taningia.Atom.{Pointer, Iris, print_iri}

abbrev pub same_key : Bytes → Bytes → Bool
same_key [] [] = true
same_key [] (c ∷ k) = false
same_key (b ∷ j) [] = false
same_key (b ∷ j) (c ∷ k) = b == c && same_key j k

-- An attribute is set or, with NULL, removed; the text of an element is what was inserted last.
pub record Xml : Type 1 where
  pub Node : Type 0
  pub new : Bytes → Node
  pub insert_attrib : Node → Bytes → Text → Node
  pub insert_cdata : Node → Text → Node
  pub insert_node : Node → Node → Node
  pub find_attrib : Node → Bytes → Text
  pub name : Node → Bytes
  pub find-new : (s k : Bytes) → find_attrib (new s) k ≡ none
  pub find-insert :
      (n : Node) (j : Bytes) (v : Text) (k : Bytes)
      → find_attrib (insert_attrib n j v) k ≡ (if same_key j k then v else find_attrib n k)
  pub name-new : (s : Bytes) → name (new s) ≡ s
  pub name-insert : (n : Node) (j : Bytes) (v : Text) → name (insert_attrib n j v) ≡ name n

module _ (xml : Xml) where
  -- `if (x) iks_insert_attrib (ik, key, x);`
  unfoldable pub insert_if : Bytes → Text → xml.Node → xml.Node
  insert_if key none ik = ik
  insert_if key (some v) ik = xml.insert_attrib ik key (some v)

  -- The print of an IRI as an attribute.
  unfoldable pub insert_iri : Bytes → Pointer → Iris → xml.Node → Run xml.Node
  insert_iri key p iris ik = do iri ← print_iri p iris; ok (xml.insert_attrib ik key (some iri))

  unfoldable pub insert_iri_if : Bytes → Pointer → Iris → xml.Node → Run xml.Node
  unfolding insert_iri
  insert_iri_if key none iris ik = ok ik
  insert_iri_if key (some a) iris ik = insert_iri key (some a) iris ik
