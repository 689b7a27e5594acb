-- ===== src/Atom/Entry/Replies.antt =====
-- src/atom.c, `ta_atom_entry_del_inreplyto`: what it leaves in the entry.
use taningia.Base.{
  ℕ, zero, suc, ◌<◌, ◌≡◌, refl, ◌∙◌, ap, true, Option, none, some, List, [], ◌∷◌, ◌==◌, length, inl,
  inr, Bool-cases, arith,
}
use taningia.Base.Run.{Run-cases, Run, ok, fault, ◌>>=◌, >>=_split, After, ok-After}
use taningia.Object.{Cell, live, freed, unref}
use taningia.TaList.{Heap, write}
use taningia.TaList.Chain
use taningia.TaList.Chain.{Chain, distinct}
use taningia.Atom.{Iris}
use taningia.Atom.Category
use taningia.Atom.Link
use taningia.Atom.InReplyTo
use taningia.Atom.Person.Release.{without}
use taningia.Atom.Store.{
  Entry, Store, Kind, categories, links, replies, with_iris, release, unref_found, unref_object,
  unref_each, del_list,
}
use taningia.Atom.Store.Lists.{Heapless, drop_each, emptied, del_list-emptied}
use taningia.Atom.Entry.{del_inreplyto}

-- A step on the store that comes to the same on another heap.
abbrev Elsewhere : (Store → Run Store) → Type 0
Elsewhere step =
    (h : Heap) (s : Store)
    → step (record s { heap = h }) ≡ (do s' ← step s; ok (record s' { heap = h }))

with_iris-heap :
    (run : Run Iris) (h : Heap) (s : Store)
    → with_iris run (record s { heap = h }) ≡ (do s' ← with_iris run s; ok (record s' { heap = h }))
with_iris-heap fault h s = refl
with_iris-heap (ok iris) h s = refl

module _ (k : Kind) (put-heap : (a : ℕ) (x : Option k.Carrier) → Elsewhere (λ s. ok (k.put a x s)))
    (destroy-heap : (x : k.Carrier) → Elsewhere (k.destroy x)) where
  gone-heap : (a : ℕ) (x : k.Carrier) → Elsewhere (λ s. do s' ← k.destroy x s; ok (k.put a none s'))
  gone-heap a x h s = elim (Run-cases (k.destroy x s)) [
    | inl fails ↦ rw (destroy-heap x h s, fails) refl
    | inr (s1, e) ↦ rw (destroy-heap x h s, e) (put-heap a none h s1)
  ]

  release-heap : (a : ℕ) (x : k.Carrier) (c : Option Cell) → Elsewhere (release k a x c)
  release-heap a x none h s = refl
  release-heap a x (some (live o)) h s = put-heap a (some (k.with_object o x)) h s
  release-heap a x (some freed) h s = gone-heap a x h s

  unref_found-heap : (a : ℕ) (c : Option k.Carrier) → Elsewhere (unref_found k a c)
  unref_found-heap a none h s = refl
  unref_found-heap a (some x) h s =
      >>=_split (unref (some (live (k.object x)))) _ _ _ (λ c. release-heap a x c.0 h s)

-- The categories, links and replies leave the nodes of lists alone.
pub categories-Heapless : Heapless categories
unfolding unref_object
categories-Heapless a h s =
    unref_found-heap categories (λ b x g u. refl)
      (λ x g u. with_iris-heap (Category.free x u.iris) g u) a (s.categories a) h s

pub links-Heapless : Heapless links
unfolding unref_object
links-Heapless a h s =
    unref_found-heap links (λ b x g u. refl) (λ x g u. with_iris-heap (Link.free x u.iris) g u) a
      (s.links a) h s

replies-Heapless : Heapless replies
unfolding unref_object
replies-Heapless a h s =
    unref_found-heap replies (λ b x g u. refl)
      (λ x g u. with_iris-heap (InReplyTo.free x u.iris) g u) a (s.replies a) h s

-- A node that is freed is not there again.
without-freed :
    (xs : List Chain.Entry) (a : ℕ) (h : Heap) → h.cells a ≡ none → (without xs h).cells a ≡ none
without-freed [] a h e = e
without-freed ((b, d) ∷ xs) a h e =
    without-freed xs a (write b none h)
      (elim (Bool-cases (a == b)) [ inl same ↦ rw same refl | inr other ↦ rw other e ])

del_list-reload :
    (k : Kind) (fuel a : ℕ) (s : Store) → s.heap.cells a ≡ none → del_list k fuel (some a) s ≡ fault
unfolding del_list unref_each
del_list-reload k zero a s gone = refl
del_list-reload k (suc fuel) a s gone = rw gone refl

-- An entry that points at a first node that is freed.
abbrev pub Dangling : ℕ → ℕ → Entry × Store → Type 0
Dangling a fuel (entry, s) =
    (entry.in_reply_to ≡ some a) × (s.heap.cells a ≡ none) × (del_inreplyto fuel entry s ≡ fault)

left-Dangling :
    (a d : ℕ) (xs : List Chain.Entry) (fuel : ℕ) (entry : Entry) (s s1 : Store)
    → entry.in_reply_to ≡ some a
    → Dangling a fuel (
      record entry { ext_elements = some none },
      record s1 { heap = without ((a, d) ∷ xs) s.heap },
    )
unfolding del_inreplyto
left-Dangling a d xs fuel entry s s1 points =
    let h1 : Heap = write a none s.heap in
    let s2 : Store = record s1 { heap = without xs h1 } in
    let gone = without-freed xs a h1 (ground arith) in
    let again : del_list replies fuel entry.in_reply_to s2 ≡ fault =
      ap (λ p. del_list replies fuel p s2) points ∙ del_list-reload replies fuel a s2 gone in
    (points, gone, rw again refl)

-- The replies of an entry in a list without a node twice, that is not empty, with more fuel than
-- replies: where `ta_atom_entry_del_inreplyto` does not fault, the entry still points at the first
-- node, which is freed, so that the same call once more faults.
pub del_inreplyto-Dangling :
    (a d : ℕ) (xs : List Chain.Entry) (fuel : ℕ) (entry : Entry) (s : Store) (left : Entry × Store)
    → entry.in_reply_to ≡ some a
    → Chain s.heap none (some a) ((a, d) ∷ xs)
    → distinct ((a, d) ∷ xs) ≡ true
    → suc (length xs) < fuel
    → del_inreplyto fuel entry s ≡ ok left
    → Dangling a fuel left
unfolding del_inreplyto After
del_inreplyto-Dangling a d xs fuel entry s left points c u f e =
    let all = (a, d) ∷ xs in
    let done : del_list replies fuel entry.in_reply_to s
        ≡ emptied replies all (without all s.heap) s =
      ap (λ p. del_list replies fuel p s) points
      ∙ del_list-emptied replies all fuel s (some a) replies-Heapless c u f in
    ok-After (Dangling a fuel) (del_inreplyto fuel entry s) left e
      (elim (Run-cases (drop_each replies ((a, d) ∷ xs) s)) [
        | inl fails ↦ rw (done, fails) tt
        | inr (s1, dropped) ↦ rw (done, dropped) (left-Dangling a d xs fuel entry s s1 points)
      ])
