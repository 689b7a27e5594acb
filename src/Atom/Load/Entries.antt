-- ===== src/Atom/Load/Entries.antt =====
-- src/atom.c, `ta_atom_entry_set_from_iks` and `ta_atom_entry_set_from_file`. `top` is the address in
-- which strings end, for the parser of IRIs, and `fuel` is for the lists of the entry.
use taningia.Base.{ℕ, Bool, true, false, Option, none, some, List, [], ◌∷◌, ◌&&◌, if◌then◌else◌}
use taningia.Base.CString.{Bytes, Text, codes}
use taningia.Base.Int.{ℤ, pos}
use taningia.Base.Run.{Run, ok, ◌>>=◌}
use taningia.Atom.Entry
use taningia.Atom.Load.{
  Reader, Load, Answer, File, parsed, no_memory, bad_xml, unknown, is_named, with_store, wrong_root,
  returns_0, load_failed, close,
}
use taningia.Atom.Load.Parts.{
  cdata, read_head, uri_refused, read_author, read_category, read_reply, read_content,
}
use taningia.Atom.Store.{Entry, Store}

-- Whether the loading goes on, and what it has made.
abbrev pub Flow : Type 0
Flow = Bool × Entry × Load

-- An object that was made, if any, is added to the entry.
abbrev pub added : (ℕ → Store → Run (Entry × Store)) → Entry → Option ℕ × Load → Run Flow
added add entry (none, l) = ok (false, entry, l)
added add entry (some a, l) = do (entry', s) ← add a l.store; ok (true, entry', with_store s l)

-- `if (!strcmp (iks_name (child), …))`, unless 0 was returned before.
abbrev pub when : Run Bool → (Entry → Load → Run Flow) → Flow → Run Flow
when test act (false, entry, l) = ok (false, entry, l)
when test act (true, entry, l) = do named ← test; if named then act entry l else ok (true, entry, l)

module _ (xml : Reader) (top : ℕ) (iso8601_to_time : Bytes → ℤ) where
  abbrev pub time_if : {Value : Type 0} → (Value → ℤ → Value) → Text → Value → Value
  time_if set none value = value
  time_if set (some t) value = set value (iso8601_to_time t)

  abbrev summary_if : Text → Entry → Entry
  summary_if none entry = entry
  summary_if (some summary) entry = Entry.set_summary entry (some summary)

  abbrev rights_if : Text → Entry → Run Entry
  rights_if none entry = ok entry
  rights_if (some rights) entry = Entry.set_rights entry (some rights)

  -- The fields that are text.
  unfoldable pub set_texts : xml.Node → Entry → Run Entry
  set_texts ik entry =
      let dated = time_if Entry.set_updated (cdata xml top ik "updated") entry in
      let published = time_if Entry.set_published (cdata xml top ik "published") dated in
      rights_if (cdata xml top ik "rights") (summary_if (cdata xml top ik "summary") published)

  abbrev pub set_content_if : Entry → Option (Option ℕ) × Load → Run Flow
  set_content_if entry (none, l) = ok (false, entry, l)
  set_content_if entry (some none, l) = ok (true, entry, l)
  set_content_if entry (some (some ct), l) = do
    (entry', s) ← Entry.set_content entry ct l.store
    ok (true, entry', with_store s l)

  unfoldable pub load_content : xml.Node → Entry → Load → Run Flow
  load_content ik entry l = elim (xml.find ik (codes "content")) [
    | none ↦ ok (true, entry, l)
    | some content ↦ do made ← read_content xml top ik content l; set_content_if entry made
  ]

  unfoldable pub load_author : ℕ → xml.Node → Entry → Load → Run Flow
  load_author fuel child entry l = do
    made ← read_author xml top (uri_refused xml top) child l
    added (Entry.add_author fuel entry) entry made

  unfoldable pub load_category : ℕ → xml.Node → Entry → Load → Run Flow
  load_category fuel child entry l = do
    made ← read_category xml top child l
    added (Entry.add_category fuel entry) entry made

  unfoldable pub load_reply : xml.Node → Entry → Load → Run Flow
  load_reply child entry l = do (go, l') ← read_reply xml top child l; ok (go, entry, l')

  -- One child, which the three tests look at one after the other.
  unfoldable pub load_child : ℕ → xml.Node → Entry → Load → Run Flow
  load_child fuel child entry l = do
    let name = xml.name child
    with_author ← when (is_named name (codes "author")) (load_author fuel child) (true, entry, l)
    with_category ← when (is_named name (codes "category")) (load_category fuel child) with_author
    when (is_named name (codes "in-reply-to")) (load_reply child) with_category

  -- The loop over the children; its result is that of the function.
  unfoldable pub load_children : ℕ → List xml.Node → Entry → Load → Run (Answer Entry)
  load_children fuel [] entry l =
      ok (record { result = pos 1; deleted = false; value = entry; load = l })
  load_children fuel (child ∷ children) entry l = do
    (go, entry', l') ← load_child fuel child entry l
    let rest = load_children fuel children entry' l'
    if go then rest else ok (returns_0 entry' l')

  abbrev pub look_for_children : ℕ → xml.Node → Flow → Run (Answer Entry)
  look_for_children fuel ik (false, entry, l) = ok (returns_0 entry l)
  look_for_children fuel ik (true, entry, l) = load_children fuel (xml.children ik) entry l

  -- What follows the required fields.
  unfoldable pub load_fields : ℕ → xml.Node → Entry → Option (ℕ × Bytes) × Load → Run (Answer Entry)
  load_fields fuel ik entry (none, l) = ok (returns_0 entry l)
  load_fields fuel ik entry (some (eid, title), l) = do
    (entry1, s) ← Entry.set_id entry (some eid) l.store
    entry2 ← Entry.set_title entry1 (some title)
    entry3 ← set_texts ik entry2
    flow ← load_content ik entry3 (with_store s l)
    look_for_children fuel ik flow

  -- `ta_atom_entry_set_from_iks`
  unfoldable pub set_from_iks : ℕ → Entry → xml.Node → Load → Run (Answer Entry)
  set_from_iks fuel entry ik l = do
    named ← is_named (xml.name ik) (codes "entry")
    let loaded = (do head ← read_head xml top ik l; load_fields fuel ik entry head)
    if named && xml.has_children ik
        then loaded
        else wrong_root (codes "Wrong root entry element") entry l

  -- `ta_atom_entry_set_from_file`, for what `iks_load` gives.
  unfoldable pub set_from_file : ℕ → Entry → File xml.Node → Load → Run (ℤ × Entry × Load)
  set_from_file fuel entry (parsed ik) l = do answer ← set_from_iks fuel entry ik l; close answer
  set_from_file fuel entry no_memory l =
      load_failed (codes "Not enough memory to load file") entry l
  set_from_file fuel entry bad_xml l = load_failed (codes "Unable to parse xml file") entry l
  set_from_file fuel entry unknown l = load_failed (codes "Unknown error") entry l
