-- ===== src/Atom/Load/Unfed.antt =====
-- src/atom.c, `ta_atom_feed_set_from_iks`: the entries of a feed behind its loading.
use taningia.Base.{◌≡◌, Bool, false, List, [], ◌∷◌, ◌||◌}
use taningia.Base.Run.{Run, After}
use taningia.Atom.Entry
use taningia.Atom.Entry.{entries}
use taningia.Atom.Feed
use taningia.Atom.Feed.{Feed}
use taningia.Atom.Load.{Reader, Load}
use taningia.Atom.Load.Feeds
use taningia.Atom.Load.Feeds.{Flow}
use taningia.Atom.Load.Steps.{has_reply}
use taningia.Atom.Store.{Store}

-- A reply stands in one of the elements.
abbrev pub has_replies : (xml : Reader) → List xml.Node → Bool
has_replies xml [] = false
has_replies xml (child ∷ children) = has_reply xml (xml.children child) || has_replies xml children

-- The entries are those of the feed before.
abbrev Same : Feed → Run Flow → Type 0
Same feed run = After (λ f. f.1.entries ≡ feed.entries) run
