-- ===== src/Atom/Entry/Deletion.antt =====
-- src/atom.c: the functions that delete the categories and links of an entry and the categories of a
-- feed.
use taningia.Base.Run.{◌>>=◌}
use taningia.TaList.Chain
use taningia.TaList.Chain.{Chain}
use taningia.Atom.Store.{Entry, Store}
use taningia.Atom.Feed
use taningia.Atom.Feed.{Feed}
