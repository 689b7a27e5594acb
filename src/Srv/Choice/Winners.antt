-- ===== src/Srv/Choice/Winners.antt =====
-- src/srv.c: the list of the winners, to which the choice adds one at a time.
use taningia.Base.{ℕ, ◌≤◌, ◌<◌, ◌≡◌, refl, ◌∙◌, false, none, some, List, [], ◌∷◌, ◌++◌, ◌==◌, arith}
use taningia.Base.Run.{ok}
use taningia.Srv.Choice.{attach}
use taningia.TaList.{Heap, Pointer, write}
use taningia.TaList.Chain.{Entry, node, write-same, write-other}
use taningia.TaList.Reading.{last_of}
use taningia.TaList.Sort.Segments.{copies, copies-apart, copies-head, Forward}

-- Where there is no winner yet, the pointer behind the list is NULL; and so it is where no target is
-- left.
abbrev pub Open : List Entry → Pointer → Type 0
Open [] r = r ≡ none
Open (x ∷ outs) r = Unit {0}

-- The last winner, at `t`, with the pointer behind the list, and the list behind the assignment.
extend_lem :
    (x : Entry) (outs : List Entry) (h : Heap) (p r n b tmp : Pointer) (a d : ℕ)
    → Forward h p (x ∷ outs) r
    → h.cells a ≡ node b n d
    → copies a (x ∷ outs) ≡ 0
    → ((y : ℕ) → copies y (x ∷ outs) ≤ 1)
    → (t dt : ℕ) × (b' : Pointer) × (last_of (x ∷ outs) tmp ≡ some t)
      × (h.cells t ≡ node b' r dt)
      × (0 < copies t (x ∷ outs))
      × Forward (write t (node b' (some a) dt) h) p ((x ∷ outs) ++ (a, d) ∷ []) n
unfolding Forward copies
extend_lem (t, dt) [] h p r n b tmp a d (b', n', here, at, rest) at_a fresh once =
    let (other, gone) = copies-head a t dt [] fresh in
    let h' : Heap = write t (node b' (some a) dt) h in
    (
      t,
      dt,
      b',
      refl,
      rw rest at at,
      ground arith,
      (b', some a, here, write-same h t _, (b, n, refl, write-other h t a _ other ∙ at_a, refl)),
    )
extend_lem (c, dc) (y ∷ outs) h p r n b tmp a d (b', n', here, at, rest) at_a fresh once =
    let (other, gone) = copies-head a c dc (y ∷ outs) fresh in
    let below : (x : ℕ) → copies x (y ∷ outs) ≤ 1 =
      λ x. let o : copies x ((c, dc) ∷ y ∷ outs) ≤ 1 = once x in omega arith in
    let (t, dt, bt, is_last, at_t, some_t, forward) =
      extend_lem y outs h n' r n b (some c) a d rest at_a gone below in
    let c_once : copies c ((c, dc) ∷ y ∷ outs) ≤ 1 = once c in
    let c_gone : copies c (y ∷ outs) ≡ 0 = ground arith in
    let apart : (t == c) ≡ false = copies-apart t c (y ∷ outs) some_t c_gone in
    let back : (c == t) ≡ false = ground arith in
    (t, dt, bt, is_last, at_t, omega arith, (b', n', here, write-other h t c _ back ∙ at, forward))

-- A winner comes behind the others; no cell changes but one of theirs.
pub attach-Forward :
    (outs : List Entry) (h : Heap) (out tail r n b : Pointer) (a d : ℕ)
    → Forward h out outs r
    → tail ≡ last_of outs none
    → Open outs r
    → h.cells a ≡ node b n d
    → copies a outs ≡ 0
    → ((y : ℕ) → copies y outs ≤ 1)
    → (h' : Heap) × (out' : Pointer) × (attach out tail a h ≡ ok (h', out'))
      × Forward h' out' (outs ++ (a, d) ∷ []) n
      × ((x : ℕ) → copies x outs ≡ 0 → h'.cells x ≡ h.cells x)
unfolding attach Forward
attach-Forward [] h out tail r n b a d f l e at fresh once =
    (h, some a, rw (f ∙ e) refl, (b, n, refl, at, refl), λ x c. refl)
attach-Forward ((c, dc) ∷ outs) h out tail r n b a d (b', n', here, at_c, rest) l e at fresh once =
    let (t, dt, bt, is_last, at_t, some_t, forward) =
      extend_lem (c, dc) outs h (some c) r n b none a d (b', n', refl, at_c, rest) at fresh once in
    (
      write t (node bt (some a) dt) h,
      some c,
      rw (here, l ∙ is_last, at_t) refl,
      forward,
      λ x gone.
          let apart : (t == x) ≡ false = copies-apart t x ((c, dc) ∷ outs) some_t gone in
          let back : (x == t) ≡ false = ground arith in write-other h t x _ back,
    )

pub last_of-snoc :
    (outs : List Entry) (tmp : Pointer) (a d : ℕ) → last_of (outs ++ (a, d) ∷ []) tmp ≡ some a
last_of-snoc [] tmp a d = refl
last_of-snoc ((c, dc) ∷ outs) tmp a d = last_of-snoc outs (some c) a d
