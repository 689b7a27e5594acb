-- ===== src/Atom/Load/Feeds.antt =====
-- src/atom.c, `ta_atom_feed_set_from_iks` and `ta_atom_feed_set_from_file`. `now` is `time (0)`.
use taningia.Base.{
  ℕ, suc, Bool, true, false, Option, none, some, is_some, List, [], ◌∷◌, ◌&&◌, if◌then◌else◌,
}
use taningia.Base.CString.{Bytes, Text, codes}
use taningia.Base.Int.{ℤ, pos}
use taningia.Base.Run.{Run, ok, fault, ◌>>=◌}
use taningia.Error.{last, clear}
use taningia.Atom.Entry
use taningia.Atom.Entry.{entries}
use taningia.Atom.Feed
use taningia.Atom.Feed.{Feed}
use taningia.Atom.Load.{
  Reader, Load, Answer, File, parsed, no_memory, bad_xml, unknown, is_named, with_store, wrong_root,
  returns_0, load_failed, close, set_iri,
}
use taningia.Atom.Load.Entries
use taningia.Atom.Load.Entries.{time_if}
use taningia.Atom.Load.Parts.{cdata, read_head, uri_refused, read_author, read_category}
use taningia.Atom.Store.{Store, unref_object}

-- Whether the loading goes on, and what it has made.
abbrev pub Flow : Type 0
Flow = Bool × Feed × Load

abbrev pub added : (ℕ → Store → Run (Feed × Store)) → Feed → Option ℕ × Load → Run Flow
added add feed (none, l) = ok (false, feed, l)
added add feed (some a, l) = do (feed', s) ← add a l.store; ok (true, feed', with_store s l)

module _ (xml : Reader) (top : ℕ) (iso8601_to_time : Bytes → ℤ) (now : ℤ) where
  -- The `uri` of an author, which is parsed twice.
  unfoldable pub uri_refused_twice : Text → ℕ → Load → Run (Bool × Load)
  uri_refused_twice none iri l = ok (false, l)
  uri_refused_twice (some uri) iri l = do
    (status, l1) ← set_iri top iri uri l
    uri_refused xml top (some uri) iri l1

  -- The loaded entry is given back where the thread has an error, and added where it has none.
  abbrev pub keep_entry : ℕ → ℕ → Feed → Load → Run Flow
  keep_entry fuel a feed l =
      let dropped = (do
        g ← clear l.errors
        s ← unref_object (entries fuel) a l.store
        ok (true, feed, record l { store = s; errors = g })) in
      let kept = (do
        (feed', s) ← Feed.add_entry fuel feed a l.store
        ok (true, feed', with_store s l)) in
      if is_some (last l.errors) then dropped else kept

  -- An entry. Where its loading has deleted the element, the loop goes on from freed memory.
  unfoldable pub load_entry : ℕ → xml.Node → Feed → Load → Run Flow
  load_entry fuel child feed l = do
    let a = l.next
    answer ←
        Entries.set_from_iks xml top iso8601_to_time fuel (Entry.init now none) child
          (record l { next = suc l.next })
    let s = (entries fuel).put a (some answer.value) answer.load.store
    flow ← keep_entry fuel a feed (with_store s answer.load)
    if answer.deleted then fault else ok flow

  -- One child, with the tests in the order of the code.
  unfoldable pub load_child : ℕ → xml.Node → Feed → Load → Run Flow
  load_child fuel child feed l = do
    is_author ← is_named (xml.name child) (codes "author")
    is_category ← is_named (xml.name child) (codes "category")
    is_entry ← is_named (xml.name child) (codes "entry")
    let author = (do
      made ← read_author xml top uri_refused_twice child l
      added (Feed.add_author fuel feed) feed made)
    let category = (do
      made ← read_category xml top child l
      added (Feed.add_category fuel feed) feed made)
    if is_author
        then author
        else if is_category
        then category
        else if is_entry
        then load_entry fuel child feed l
        else ok (true, feed, l)

  unfoldable pub load_children : ℕ → List xml.Node → Feed → Load → Run (Answer Feed)
  load_children fuel [] feed l =
      ok (record { result = pos 1; deleted = false; value = feed; load = l })
  load_children fuel (child ∷ children) feed l = do
    (go, feed', l') ← load_child fuel child feed l
    let rest = load_children fuel children feed' l'
    if go then rest else ok (returns_0 feed' l')

  unfoldable pub load_fields : ℕ → xml.Node → Feed → Option (ℕ × Bytes) × Load → Run (Answer Feed)
  load_fields fuel ik feed (none, l) = ok (returns_0 feed l)
  load_fields fuel ik feed (some (eid, title), l) = do
    (feed1, s) ← Feed.set_id feed (some eid) l.store
    feed2 ← Feed.set_title feed1 (some title)
    let feed3 = time_if xml top iso8601_to_time Feed.set_updated (cdata xml top ik "updated") feed2
    load_children fuel (xml.children ik) feed3 (with_store s l)

  -- `ta_atom_feed_set_from_iks`
  unfoldable pub set_from_iks : ℕ → Feed → xml.Node → Load → Run (Answer Feed)
  set_from_iks fuel feed ik l = do
    named ← is_named (xml.name ik) (codes "feed")
    let loaded = (do head ← read_head xml top ik l; load_fields fuel ik feed head)
    if named && xml.has_children ik
        then loaded
        else wrong_root (codes "Wrong root feed element") feed l

  -- `ta_atom_feed_set_from_file`, for what `iks_load` gives.
  unfoldable pub set_from_file : ℕ → Feed → File xml.Node → Load → Run (ℤ × Feed × Load)
  set_from_file fuel feed (parsed ik) l = do answer ← set_from_iks fuel feed ik l; close answer
  set_from_file fuel feed no_memory l = load_failed (codes "Not enough memory to load file") feed l
  set_from_file fuel feed bad_xml l = load_failed (codes "Unable to parse xml file") feed l
  set_from_file fuel feed unknown l = load_failed (codes "Unknown error") feed l
