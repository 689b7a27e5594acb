-- ===== src/Atom/Content/Release.antt =====
-- src/atom.c: a content whose text is released by `ta_atom_content_set_content`.
use taningia.Base.{ℕ, ◌≡◌, refl, none}
use taningia.Base.CString.{Text}
use taningia.Base.Run.{ok, fault}
use taningia.Buf.{Memory}
use taningia.Atom.{Iris}
use taningia.Atom.Content.{Content, block, given_back, free, set_content, get_content}

-- A content that has a text and is given NULL: the text is freed, but the content still points at
-- it, so that its next text and its destruction both free it again.
pub set_content-free :
    (c : Content) (m : Memory) (text : Text) (len len' : ℕ) (iris : Iris)
    → c.content ≡ block m
    → (c' : Content) × (set_content c none len iris ≡ ok (c', iris))
      × ((get_content c').0 ≡ given_back)
      × (set_content c' text len' iris ≡ fault)
      × (free c' iris ≡ fault)
unfolding set_content get_content free
set_content-free c m text len len' iris h =
    (record c { content = given_back }, rw h refl, refl, refl, refl)
