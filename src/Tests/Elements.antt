-- ===== src/Tests/Elements.antt =====
-- The Atom elements at inputs that meet the hypotheses of their theorems.
use taningia.Base.{arith, ℕ, ◌≡◌, ◌==◌, refl, none, some, List, [], ◌∷◌, if◌then◌else◌}
use taningia.Base.CString.{Bytes, Text, codes}
use taningia.Base.Run.{ok, fault}
use taningia.Atom.{Iris, print_iri}
use taningia.Atom.Attributes.{print_if}
use taningia.Atom.Category
use taningia.Atom.Category.{Category}
use taningia.Atom.Content
use taningia.Atom.Content.{Content, set_content, get_content, block, given_back}
use taningia.Atom.Content.Release.{set_content-free}
use taningia.Atom.Counts.{Counted, with_count, link-free_last, setters-same_fault}
use taningia.Atom.InReplyTo
use taningia.Atom.InReplyTo.{InReplyTo, threading_ns}
use taningia.Atom.Link
use taningia.Atom.Link.{Link}
use taningia.Atom.Xml.{Xml, same_key}
use taningia.Iri
use taningia.Iri.{Iri, get_port}
use taningia.Iri.Print.Layout.{to_string-render}
use taningia.Object
use taningia.Object.{Cell, freed, iri_free, atom_in_reply_to_free, atom_category_free}

-- A tree library that keeps the attributes of an element in a list, and text but no children.
pub record Element : Type 0 where
  title : Bytes
  attributes : List (Bytes × Text)
  content : Text

abbrev lookup_key : List (Bytes × Text) → Bytes → Text
lookup_key [] k = none
lookup_key ((j, v) ∷ rest) k = if same_key j k then v else lookup_key rest k

abbrev pub elements : Xml
elements = record {
  Node = Element;
  new = λ s. record { title = s; attributes = []; content = none };
  insert_attrib = λ n j v. record n { attributes = (j, v) ∷ n.attributes };
  insert_cdata = λ n v. record n { content = v };
  insert_node = λ n c. record n { content = c.content };
  find_attrib = λ n k. lookup_key n.attributes k;
  name = λ n. n.title;
  find-new = λ s k. refl;
  find-insert = λ n j v k. refl;
  name-new = λ s. refl;
  name-insert = λ n j v. refl;
}

-- The IRI `mailto:x` at the address 1, with a count, and one at 2.
abbrev opaque_iri : Iri
opaque_iri = record Iri.init { scheme = some (codes "mailto"); path = some (codes "x") }

abbrev shelf : ℕ → Iris
shelf n = λ a.
    if a == 1
    then some (with_count opaque_iri n)
    else if a == 2
    then some (with_count opaque_iri 1)
    else none

shelf-Counted : (n : ℕ) → Counted (shelf n) 1 opaque_iri n
unfolding Counted
shelf-Counted n = refl

second-Counted : (n : ℕ) → Counted (shelf n) 2 opaque_iri 1
unfolding Counted
second-Counted n = refl

abbrev alternate : Link
alternate = record (Link.init (some 1)) { rel = some (codes "alternate") }

abbrev reply : InReplyTo
reply = record {
  parent = Object.init (some atom_in_reply_to_free);
  ref = some 1;
  href = some 1;
  source = some 1;
  type = none;
}

abbrev sports : Category
sports = record {
  parent = Object.init (some atom_category_free);
  label = none;
  term = some (codes "sports");
  scheme = some 1;
}

printed : (n : ℕ) → print_iri (some 1) (shelf n) ≡ ok (codes "mailto:x")
unfolding print_iri Iri.init
printed n = to_string-render (with_count opaque_iri n) refl (omega arith)

print_if_lem : (n : ℕ) → print_if (some 1) (shelf n) ≡ ok (some (codes "mailto:x"))
print_if_lem n = rw (printed n) refl

link-free_last_example :
    (iris' : Iris) × (Link.free (Link.init (some 1)) (shelf 1) ≡ ok iris') × (iris' 1 ≡ none)
link-free_last_example = link-free_last (shelf 1) 1 opaque_iri (shelf-Counted 1)

setters-same_fault_example :
    (Link.set_href alternate (some 1) (shelf 1) ≡ fault)
    × (InReplyTo.set_ref reply (some 1) (shelf 1) ≡ fault)
    × (InReplyTo.set_href reply (some 1) (shelf 1) ≡ fault)
    × (InReplyTo.set_source reply (some 1) (shelf 1) ≡ fault)
    × (Category.set_scheme sports (some 1) (shelf 1) ≡ fault)
unfolding Link.init
setters-same_fault_example =
    setters-same_fault (shelf 1) 1 opaque_iri alternate reply sports (shelf-Counted 1) refl refl
      refl refl refl

-- A content with the text `a` and its NUL.
abbrev short_content : Content
short_content = record (Content.init none) { content = block (some b'a' ∷ some 0 ∷ []) }

set_content-free_example :
    (c' : Content) × (set_content short_content none 0 (shelf 1) ≡ ok (c', shelf 1))
    × ((get_content c').0 ≡ given_back)
    × (set_content c' (some (codes "b")) 1 (shelf 1) ≡ fault)
    × (Content.free c' (shelf 1) ≡ fault)
set_content-free_example =
    set_content-free short_content (some b'a' ∷ some 0 ∷ []) (some (codes "b")) 0 1 (shelf 1) refl
