-- ===== src/Tests/Loading.antt =====
-- The loading of elements at inputs that meet the hypotheses of its theorems.
use taningia.Base.{[], if◌then◌else◌, is_some, ltb, none, refl, some, suc, ℕ, ◌==◌, ◌||◌, ◌∷◌, ◌≡◌}
use taningia.Base.CString.{Bytes, Text, codes}
use taningia.Base.Int.{ℤ, pos}
use taningia.Base.Run.{Run, ok, fault}
use taningia.Error.{live, fresh, last, ta_atom_parsing_error}
use taningia.Error.Laws.{IsSound}
use taningia.Iri
use taningia.Iri.{Iri}
use taningia.Iri.Parse.{parse}
use taningia.Object
use taningia.Atom.Entry
use taningia.Atom.Feed
use taningia.Atom.Feed.{Feed}
use taningia.Atom.Load.{Reader, Load, Answer, parsed, returns_0}
use taningia.Atom.Load.Answers.{IsForeign, set_from_file-IsForeign, set_from_iks-valid_id}
use taningia.Atom.Load.Entries
use taningia.Atom.Load.Feeds
use taningia.Atom.Store.{Entry}
use taningia.Atom.Xml.{same_key}

-- Elements that hold an `id` or nothing, by their names.
abbrev reader : Reader
reader = record {
  Node = Bytes × Text;
  name = λ n. some n.0;
  has_children = λ n. is_some n.1;
  children = λ n. [];
  find = λ n k. none;
  find_cdata = λ n k. if same_key k (codes "id") then n.1 else none;
  find_attrib = λ n k. none;
  size = λ n. 0;
}

abbrev empty_load : Load
empty_load = record {
  store = record {
    heap = record { cells = λ a. none; top = 1 };
    iris = λ a. none;
    elements = λ a. none;
    persons = λ a. none;
    categories = λ a. none;
    links = λ a. none;
    replies = λ a. none;
    contents = λ a. none;
    entries = λ a. none;
  };
  errors = fresh;
  next = 1;
}

fresh-IsSound : IsSound fresh
fresh-IsSound = λ e. cc

abbrev entry : Entry
entry = Entry.init (pos 0) none

abbrev feed : Feed
feed = Feed.init (pos 0) none

abbrev epoch : Bytes → ℤ
epoch s = pos 0

abbrev top : ℕ
top = 0x7fff0000

-- A `feed` in the place of an `entry`, and a `feed` without children.
set_from_file-IsForeign_example :
    (Entries.set_from_file reader top epoch 9 entry
        (parsed (codes "feed", some (codes "tag:x")))
        empty_load
      ≡ fault)
    × (Feeds.set_from_file reader top epoch (pos 0) 9 feed (parsed (codes "feed", none)) empty_load
        ≡ fault)
unfolding IsForeign
set_from_file-IsForeign_example =
    set_from_file-IsForeign reader top 9 epoch (pos 0) (codes "feed", some (codes "tag:x"))
      (codes "feed", none) entry feed empty_load fresh-IsSound (codes "feed", refl, refl)
      (codes "feed", refl, refl)

abbrev tagged : Iri
tagged = record Iri.init { scheme = some (codes "tag"); path = some (codes "e.org,2009:x") }

parse-tagged : parse top (codes "tag:e.org,2009:x") Iri.init ≡ ok (tagged, none)
unfolding parse Iri.init
parse-tagged = refl

abbrev id : Text
id = some (codes "tag:e.org,2009:x")

set_from_iks-valid_id_example :
    (m m' : Load) × (Entries.set_from_iks reader top epoch 9 entry (codes "entry", id) empty_load
      ≡ ok (returns_0 entry m))
    × (Feeds.set_from_iks reader top epoch (pos 0) 9 feed (codes "feed", id) empty_load
        ≡ ok (returns_0 feed m'))
    × (last m.errors ≡ some (ta_atom_parsing_error, live (codes "Invalid <id> iri")))
    × (last m'.errors ≡ some (ta_atom_parsing_error, live (codes "Invalid <id> iri")))
set_from_iks-valid_id_example =
    set_from_iks-valid_id reader top 9 epoch (pos 0) (codes "entry", id) (codes "feed", id) entry
      feed (codes "tag:e.org,2009:x") tagged empty_load fresh-IsSound
      (record { name = refl; children = refl; id = refl })
      (record { name = refl; children = refl; id = refl }) parse-tagged

-- A feed with one entry, by numbers: 0 is the feed, 1 its entry. Both ids are no IRIs.
abbrev document : Reader
document = record {
  Node = ℕ;
  name = λ n.
      if n == 0
      then some (codes "feed")
      else if n == 1
      then some (codes "entry")
      else some (codes "id");
  has_children = λ n. ltb n 2;
  children = λ n. if ltb n 2 then suc n ∷ [] else [];
  find = λ n k. none;
  find_cdata = λ n k.
      if same_key k (codes "id") || same_key k (codes "title") then some (codes "x") else none;
  find_attrib = λ n k. none;
  size = λ n. 0;
}

abbrev run : Run (Answer Feed)
run = Feeds.set_from_iks document top epoch (pos 0) 9 feed 0 empty_load

abbrev end_of : Run (Answer Feed) → Answer Feed
end_of fault = returns_0 feed empty_load
end_of (ok answer) = answer
