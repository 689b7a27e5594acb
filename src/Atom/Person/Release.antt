-- ===== src/Atom/Person/Release.antt =====
-- src/atom.c: the release of the extension elements of a person.
use taningia.Base.{
  ℕ, zero, suc, ◌<◌, ◌≡◌, refl, sym, true, false, none, some, List, [], ◌∷◌, arith, length,
}
use taningia.Base.Run.{Run, ok, ◌>>=◌, >>=_split}
use taningia.TaList.{Heap, Pointer, write}
use taningia.TaList.Chain.{Entry, Chain, mentions, distinct, Chain-write}
use taningia.Atom.Person.{Elements, Person, unref_at, free_ext_elements, del_see}

-- One reference less for each entry, in the order of the list.
abbrev pub release_all : List Entry → Elements → Run Elements
release_all [] elements = ok elements
release_all ((a, d) ∷ xs) elements = do elements' ← unref_at d elements; release_all xs elements'

-- The heap without the nodes.
abbrev pub without : List Entry → Heap → Heap
without [] h = h
without ((a, d) ∷ xs) h = without xs (write a none h)

free_ext_elements-release_all :
    (xs : List Entry) (fuel : ℕ) (h : Heap) (elements : Elements) (q p : Pointer)
    → Chain h q p xs
    → distinct xs ≡ true
    → length xs < fuel
    → free_ext_elements fuel h elements p
      ≡ (do elements' ← release_all xs elements; ok (without xs h, elements'))
unfolding free_ext_elements Chain distinct
free_ext_elements-release_all xs zero h elements q p c u f = absurd (omega arith)
free_ext_elements-release_all [] (suc fuel) h elements q p c u f = rw c refl
free_ext_elements-release_all ((a, d) ∷ xs) (suc fuel) h elements q p (n, here, at, rest) u f =
    let fresh : mentions a xs ≡ false = ground arith in
    let rest' = Chain-write h a none xs (some a) n rest fresh in
    rw (here, at)
      (>>=_split (unref_at d elements) _ (release_all xs) _ (λ elements'.
        free_ext_elements-release_all xs fuel _ elements' (some a) n rest' (ground arith)
          (omega arith)))

-- A list of elements without a node twice, with more fuel than elements: `ta_atom_person_del_see`
-- gives back one reference for each element, in order, frees the nodes, and leaves no list; it
-- faults only where giving back a reference does.
pub del_see-release_all :
    (xs : List Entry) (fuel : ℕ) (person : Person) (h : Heap) (elements : Elements)
    → Chain h none person.ext_elements xs
    → distinct xs ≡ true
    → length xs < fuel
    → del_see fuel person h elements ≡ (do
      elements' ← release_all xs elements
      ok (record person { ext_elements = none }, without xs h, elements'))
unfolding del_see
del_see-release_all xs fuel person h elements c u f =
    rw (free_ext_elements-release_all xs fuel h elements none person.ext_elements c u f)
      (sym (>>=_split (release_all xs elements) _ _ _ (λ elements'. refl)))
