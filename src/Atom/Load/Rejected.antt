-- ===== src/Atom/Load/Rejected.antt =====
-- src/atom.c, `ta_atom_entry_set_from_iks`: the error that it leaves in the thread.
use taningia.Base.{ℕ, ◌≡◌, Bool, true, false, Option, none, some, List, [], ◌∷◌, ◌&&◌, arith}
use taningia.Base.CString.{Bytes, codes}
use taningia.Base.Int.{ℤ}
use taningia.Base.Run.{◌>>=◌, After, >>=-After, >>=-After_any, if-After, option-After}
use taningia.Atom.Entry
use taningia.Atom.Load.{Reader, Load, Answer, is_named, refuse, with_store}
use taningia.Atom.Load.Entries
use taningia.Atom.Load.Entries.{
  Flow, added, when, load_author, load_category, load_reply, load_child, load_children,
  look_for_children, load_content, load_fields, set_texts,
}
use taningia.Atom.Load.Parts.{read_content, default_type}
use taningia.Atom.Load.Troubles.{
  Troubled, refuse-Troubled, read_head-Troubled, read_author-Troubled, read_category-Troubled,
}
use taningia.Atom.Store.{Entry}
use taningia.Atom.Load.Steps.{
  FlowTroubled, make_content-Troubled, added-Troubled, when-Troubled, set_content_if-Troubled,
  when_not-Troubled, is_reply, has_reply,
}

module _ (xml : Reader) (top : ℕ) (iso8601_to_time : Bytes → ℤ) where
  load_content-Troubled :
      (ik : xml.Node) (entry : Entry) (l : Load)
      → Troubled l
      → FlowTroubled (load_content xml top iso8601_to_time ik entry l)
  unfolding After load_content read_content
  load_content-Troubled ik entry l h =
      option-After (λ f. Troubled f.2) (xml.find ik (codes "content")) _ _ h
        (λ content.
          >>=-After (λ r. Troubled r.1) (λ f. Troubled f.2) (read_content xml top ik content l) _
            (make_content-Troubled xml top
              (default_type xml top (xml.find_attrib content (codes "type"))
                (xml.find_attrib content (codes "src")))
              (xml.find_attrib content (codes "src")) (xml.find_cdata ik (codes "content"))
              (xml.size content) l h)
            (λ (made, l1) k. set_content_if-Troubled xml top iso8601_to_time entry made l1 k))

  load_author-Troubled :
      (fuel : ℕ) (child : xml.Node) (entry : Entry) (l : Load)
      → Troubled l
      → FlowTroubled (load_author xml top iso8601_to_time fuel child entry l)
  unfolding After load_author
  load_author-Troubled fuel child entry l h =
      >>=-After (λ r. Troubled r.1) (λ f. Troubled f.2) _ _ (read_author-Troubled xml top child l h)
        (λ (made, l1) k. added-Troubled (Entry.add_author fuel entry) entry made l1 k)

  load_category-Troubled :
      (fuel : ℕ) (child : xml.Node) (entry : Entry) (l : Load)
      → Troubled l
      → FlowTroubled (load_category xml top iso8601_to_time fuel child entry l)
  unfolding After load_category
  load_category-Troubled fuel child entry l h =
      >>=-After (λ r. Troubled r.1) (λ f. Troubled f.2) _ _
        (read_category-Troubled xml top child l h)
        (λ (made, l1) k. added-Troubled (Entry.add_category fuel entry) entry made l1 k)

  load_child-Troubled :
      (fuel : ℕ) (child : xml.Node) (entry : Entry) (l : Load)
      → is_reply (xml.name child) ≡ false
      → Troubled l
      → FlowTroubled (load_child xml top iso8601_to_time fuel child entry l)
  unfolding After load_child
  load_child-Troubled fuel child entry l e h =
      let name = xml.name child in
      let author = load_author xml top iso8601_to_time fuel child in
      let category = load_category xml top iso8601_to_time fuel child in
      let reply = load_reply xml top iso8601_to_time child in
      let by_reply = when (is_named name (codes "in-reply-to")) reply in
      let by_category = when (is_named name (codes "category")) category in
      let by_author = when (is_named name (codes "author")) author (true, entry, l) in
      >>=-After (λ f. Troubled f.2) (λ f. Troubled f.2) by_author (λ f. by_category f >>= by_reply)
        (when-Troubled (is_named name (codes "author")) author true entry l h
          (load_author-Troubled fuel child entry l h))
        (λ (go1, entry1, l1) k1.
          >>=-After (λ f. Troubled f.2) (λ f. Troubled f.2) (by_category (go1, entry1, l1)) by_reply
            (when-Troubled (is_named name (codes "category")) category go1 entry1 l1 k1
              (load_category-Troubled fuel child entry1 l1 k1))
            (λ (go2, entry2, l2) k2. when_not-Troubled name reply go2 entry2 l2 e k2))

  load_children-Troubled :
      (fuel : ℕ) (children : List xml.Node) (entry : Entry) (l : Load)
      → has_reply xml children ≡ false
      → Troubled l
      → After
          (λ answer. Troubled answer.load)
          (load_children xml top iso8601_to_time fuel children entry l)
  unfolding After load_children
  load_children-Troubled fuel [] entry l e h = h
  load_children-Troubled fuel (child ∷ children) entry l e h =
      >>=-After (λ f. Troubled f.2) (λ answer. Troubled answer.load) _ _
        (load_child-Troubled fuel child entry l (ground arith) h)
        (λ (go, entry1, l1) k.
          if-After (λ answer. Troubled answer.load) go _ _
            (λ yes'. load_children-Troubled fuel children entry1 l1 (ground arith) k) (λ no'. k))

  look_for_children-Troubled :
      (fuel : ℕ) (ik : xml.Node) (go : Bool) (entry : Entry) (l : Load)
      → has_reply xml (xml.children ik) ≡ false
      → Troubled l
      → After
          (λ answer. Troubled answer.load)
          (look_for_children xml top iso8601_to_time fuel ik (go, entry, l))
  unfolding After
  look_for_children-Troubled fuel ik false entry l e h = h
  look_for_children-Troubled fuel ik true entry l e h =
      load_children-Troubled fuel (xml.children ik) entry l e h

  load_fields-Troubled :
      (fuel : ℕ) (ik : xml.Node) (entry : Entry) (head : Option (ℕ × Bytes)) (l : Load)
      → has_reply xml (xml.children ik) ≡ false
      → Troubled l
      → After
          (λ answer. Troubled answer.load)
          (load_fields xml top iso8601_to_time fuel ik entry (head, l))
  unfolding After load_fields
  load_fields-Troubled fuel ik entry none l e h = h
  load_fields-Troubled fuel ik entry (some (eid, title)) l e h =
      let P : Answer Entry → Type 0 = λ answer. Troubled answer.load in
      >>=-After_any P (Entry.set_id entry (some eid) l.store) _ (λ r.
        >>=-After_any P (Entry.set_title r.0 (some title)) _ (λ entry2.
          >>=-After_any P (set_texts xml top iso8601_to_time ik entry2) _ (λ entry3.
            >>=-After (λ f. Troubled f.2) P _ _
              (load_content-Troubled ik entry3 (with_store r.1 l) h)
              (λ (go, entry4, l1) k. look_for_children-Troubled fuel ik go entry4 l1 e k))))

  -- An element without replies: where the loading of an entry ends without a fault, the thread has an
  -- error.
  pub set_from_iks-Troubled :
      (fuel : ℕ) (entry : Entry) (ik : xml.Node) (l : Load)
      → has_reply xml (xml.children ik) ≡ false
      → After
          (λ answer. Troubled answer.load)
          (Entries.set_from_iks xml top iso8601_to_time fuel entry ik l)
  unfolding After Entries.set_from_iks
  set_from_iks-Troubled fuel entry ik l e =
      let P : Answer Entry → Type 0 = λ answer. Troubled answer.load in
      >>=-After_any P (is_named (xml.name ik) (codes "entry")) _ (λ named.
        if-After P (named && xml.has_children ik) _ _
          (λ yes'.
            >>=-After (λ r. Troubled r.1) P _ _ (read_head-Troubled xml top ik l)
              (λ (head, l1) k. load_fields-Troubled fuel ik entry head l1 e k))
          (λ no'.
            >>=-After Troubled P (refuse (codes "Wrong root entry element") l) _
              (refuse-Troubled (codes "Wrong root entry element") l) (λ l1 k. k)))
