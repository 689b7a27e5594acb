-- ===== src/Atom/Content/Length.antt =====
-- src/atom.c: the length of the text of a content, which is never stored.
use taningia.Atom.Xml.{Xml}
use taningia.Atom.Content.{Content}
