-- ===== src/Atom/Load/Steps.antt =====
-- src/atom.c: the errors that the steps of loading an entry leave in the thread.
use taningia.Base.{ℕ, ◌≡◌, Bool, true, false, Option, none, some, List, [], ◌∷◌, ◌||◌}
use taningia.Base.CString.{Bytes, Text, codes}
use taningia.Base.Int.{ℤ}
use taningia.Base.Run.{Run, After, >>=-After, >>=-After_any, if-After}
use taningia.Object.{is_zero}
use taningia.Atom.Content
use taningia.Atom.Entry
use taningia.Atom.Load.{Reader, Load, is_named, refuse, new_iri, set_iri, drop_iri}
use taningia.Atom.Load.Entries
use taningia.Atom.Load.Entries.{
  Flow, added, when, load_author, load_category, load_reply, load_child, load_children,
  look_for_children, load_content, load_fields, set_texts,
}
use taningia.Atom.Load.Parts.{make_content, place}
use taningia.Atom.Load.Troubles.{
  Troubled, PartTroubled, Told, refuse-Troubled, drop_iri-Troubled, part_refused-Troubled,
  set_iri-Told,
}
use taningia.Atom.Store.{Entry, Store, contents, unref_object}
use taningia.Atom.Xml.{same_key}

pub make_content-Troubled :
    (xml : Reader) (top : ℕ) (type src text : Text) (size : ℕ) (l : Load)
    → Troubled l
    → PartTroubled (make_content xml top type src text size l)
unfolding After make_content
make_content-Troubled xml top type (some src) (some text) size l h =
    part_refused-Troubled (Option ℕ) xml top _ l
make_content-Troubled xml top type none none size l h = h
make_content-Troubled xml top type none (some text) size l h =
    >>=-After_any (λ r. Troubled r.1)
      (Content.set_content (Content.init type) (some text) size l.store.iris) _
      (λ c.
        >>=-After_any (λ r. Troubled r.1) (Content.set_content c.0 (some text) size c.1) _ (λ d. h))
make_content-Troubled xml top type (some src) none size l h =
    let (a, l1) = place contents (Content.init type) l.store.iris l in
    let (srci, l2) = new_iri l1 in
    >>=-After (λ r. Told l.errors r.0 r.1.errors) (λ r. Troubled r.1) (set_iri top srci src l2) _
      (set_iri-Told top srci src l2)
      (λ (status, l3) told.
        if-After (λ r. Troubled r.1) (is_zero status) _ _
          (λ yes'.
            >>=-After Troubled (λ r. Troubled r.1) (refuse _ l3) _ (refuse-Troubled _ l3)
              (λ l4 k4.
                >>=-After Troubled (λ r. Troubled r.1) (drop_iri srci l4) _
                  (drop_iri-Troubled srci l4 k4)
                  (λ l5 k5.
                    >>=-After_any (λ r. Troubled r.1) (unref_object contents a l5.store) _
                      (λ s. k5))))
          (λ no'.
            >>=-After_any (λ r. Troubled r.1)
              (Content.set_src (Content.init type) (some srci) l3.store.iris) _ (λ c. told.1 h)))

-- The thread has an error behind a step.
abbrev pub FlowTroubled : Run Flow → Type 0
FlowTroubled run = After (λ f. Troubled f.2) run

pub added-Troubled :
    (add : ℕ → Store → Run (Entry × Store)) (entry : Entry) (made : Option ℕ) (l : Load)
    → Troubled l
    → FlowTroubled (added add entry (made, l))
unfolding After
added-Troubled add entry none l h = h
added-Troubled add entry (some a) l h = >>=-After_any (λ f. Troubled f.2) (add a l.store) _ (λ r. h)

pub when-Troubled :
    (test : Run Bool) (act : Entry → Load → Run Flow) (go : Bool) (entry : Entry) (l : Load)
    → Troubled l
    → FlowTroubled (act entry l)
    → FlowTroubled (when test act (go, entry, l))
unfolding After
when-Troubled test act false entry l h k = h
when-Troubled test act true entry l h k =
    >>=-After_any (λ f. Troubled f.2) test _
      (λ named. if-After (λ f. Troubled f.2) named _ _ (λ yes'. k) (λ no'. h))

pub set_content_if-Troubled :
    (xml : Reader) (top : ℕ) (iso8601_to_time : Bytes → ℤ) (entry : Entry)
    (made : Option (Option ℕ)) (l : Load)
    → Troubled l
    → FlowTroubled (Entries.set_content_if xml top iso8601_to_time entry (made, l))
unfolding After
set_content_if-Troubled xml top iso entry none l h = h
set_content_if-Troubled xml top iso entry (some none) l h = h
set_content_if-Troubled xml top iso entry (some (some ct)) l h =
    >>=-After_any (λ f. Troubled f.2) (Entry.set_content entry ct l.store) _ (λ r. h)

-- The name of a reply.
abbrev pub is_reply : Text → Bool
is_reply none = false
is_reply (some name) = same_key name (codes "in-reply-to")

abbrev pub has_reply : (xml : Reader) → List xml.Node → Bool
has_reply xml [] = false
has_reply xml (child ∷ children) = is_reply (xml.name child) || has_reply xml children

pub when_not-Troubled :
    (name : Text) (act : Entry → Load → Run Flow) (go : Bool) (entry : Entry) (l : Load)
    → is_reply name ≡ false
    → Troubled l
    → FlowTroubled (when (is_named name (codes "in-reply-to")) act (go, entry, l))
unfolding After
when_not-Troubled name act false entry l e h = h
when_not-Troubled none act true entry l e h = tt
when_not-Troubled (some name) act true entry l e h = rw e h
