-- ===== src/Tests/Entries.antt =====
-- The lists of an entry at inputs that meet the hypotheses of their theorems.
use taningia.Base.{ℕ, ◌==◌, refl, none, some, List, [], ◌∷◌, if◌then◌else◌, arith}
use taningia.Base.CString.{codes}
use taningia.Base.Int.{pos}
use taningia.Base.Run.{Run, ok, fault, ◌>>=◌}
use taningia.Iri
use taningia.Object
use taningia.Object.{unref, atom_in_reply_to_free, atom_category_free}
use taningia.TaList.{Heap, free_all}
use taningia.TaList.Chain
use taningia.TaList.Chain.{Chain, node, distinct, mentions}
use taningia.Atom.{unref_iri}
use taningia.Atom.Category.{Category}
use taningia.Atom.InReplyTo
use taningia.Atom.InReplyTo.{InReplyTo}
use taningia.Atom.Store.{Entry, Store, links, categories, unref_object, unref_each, del_list}
use taningia.Atom.Feed
use taningia.Atom.Feed.{Feed}
use taningia.Atom.Entry
use taningia.Atom.Entry.Replies.{Dangling, del_inreplyto-Dangling}

-- A category, and a reply to the IRI at 1, each with a number of references.
abbrev category : ℕ → Category
category n = record {
  parent = record { refcount = pos n; destructor = some atom_category_free };
  label = none;
  term = some (codes "news");
  scheme = none;
}

abbrev reply : InReplyTo
reply = record {
  parent = record { refcount = pos 1; destructor = some atom_in_reply_to_free };
  ref = some 1;
  href = none;
  source = none;
  type = none;
}

-- The list of the nodes 1 and 2, whose objects are at 7 and 8.
abbrev heap : Heap
heap = record {
  cells =
      λ a. if a == 1 then node none (some 2) 7 else if a == 2 then node (some 1) none 8 else none;
  top = 3;
}

abbrev store : Store
store = record {
  heap = heap;
  iris = λ a. if a == 1 then some Iri.init else none;
  elements = λ a. none;
  persons = λ a. none;
  categories =
      λ a. if a == 7 then some (category 2) else if a == 8 then some (category 1) else none;
  links = λ a. none;
  replies = λ a.
      if a == 7 then some (record reply { ref = none }) else if a == 8 then some reply else none;
  contents = λ a. none;
  entries = λ a. none;
}

abbrev nodes : List Chain.Entry
nodes = (1, 7) ∷ (2, 8) ∷ []

nodes-Chain : Chain heap none (some 1) nodes
unfolding Chain
nodes-Chain = (some 2, refl, refl, (none, refl, refl, refl))

-- The categories of an entry and of a feed; the entry has no links.
abbrev filed : Entry
filed = record (Entry.init (pos 0) none) { categories = some 1 }

abbrev filed_feed : Feed
filed_feed = record (Feed.init (pos 0) none) { categories = some 1 }

abbrev replied : Entry
replied = record (Entry.init (pos 0) none) { in_reply_to = some 1 }

abbrev end_of : Run (Entry × Store) → Entry × Store
end_of fault = (replied, store)
end_of (ok left) = left

-- What the call leaves of the entry and of the store.
abbrev left : Entry × Store
left = end_of (Entry.del_inreplyto 4 replied store)

del_inreplyto-Dangling_example : Dangling 1 4 left
unfolding distinct mentions Entry.del_inreplyto del_list unref_each unref_object unref
    InReplyTo.free unref_iri Iri.init Object.init free_all
del_inreplyto-Dangling_example =
    del_inreplyto-Dangling 1 7 ((2, 8) ∷ []) 4 replied store left refl nodes-Chain refl
      (omega arith) refl
