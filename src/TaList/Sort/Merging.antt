-- ===== src/TaList/Sort/Merging.antt =====
-- src/list.c: the loop of `ta_list_sort` that merges two runs.
use taningia.Base.{
  ℕ, suc, ◌+◌, ◌-◌, ◌≤◌, ◌≡◌, refl, true, false, ◌||◌, none, some, List, [], ◌∷◌, ◌++◌, ltb, ◌==◌,
  arith, length,
}
use taningia.Base.Run.{ok}
use taningia.TaList.{Heap, Pointer}
use taningia.TaList.Remove.{is_null}
use taningia.TaList.Chain.{Entry, node}
use taningia.TaList.Sort.{Merge, take_p, take_q, goes_on, attach}
use taningia.TaList.Sort.Segments.{copies, Forward, Built, Same, Forward-frame, attach-Built}
use taningia.TaList.Sort.Runs.{fits}

-- What has been merged, the last entry first; what is left of the two runs; and the rest of the
-- list, which starts behind the second run.
pub record Parts (m : Merge) (rs ps qs later : List Entry) : Type 0 where
  pub built : Built m.heap m.list m.tail rs
  pub stop : Pointer
  pub first : Forward m.heap m.p ps stop
  pub second : Forward m.heap m.q (qs ++ later) none
  pub psize : m.psize ≡ length ps
  pub qsize : fits m.qsize (length qs) (length later) ≡ true
  pub once : (x : ℕ) → copies x rs + (copies x ps + copies x (qs ++ later)) ≤ 1

-- A node is taken that occurs nowhere else: the others are where they were.
taken_lem :
    (m : Merge) (a d : ℕ) (b n : Pointer) (rs ps ws : List Entry)
    → Built m.heap m.list m.tail rs
    → m.heap.cells a ≡ node b n d
    → ((x : ℕ) → copies x ((a, d) ∷ rs) + (copies x ps + copies x ws) ≤ 1)
    → (h : Heap) × (l : Pointer) × (attach a m
        ≡ ok (record m { heap = h; list = l; tail = some a }))
      × Built h l (some a) ((a, d) ∷ rs)
      × Same m.heap h ps
      × Same m.heap h ws
unfolding copies
taken_lem m a d b n rs ps ws built at once =
    let self : copies a ((a, d) ∷ rs) ≡ suc (copies a rs) = ground arith in
    let at_a : copies a ((a, d) ∷ rs) + (copies a ps + copies a ws) ≤ 1 = once a in
    let below : (x : ℕ) → copies x rs ≤ 1 = λ x.
      let at_x : copies x ((a, d) ∷ rs) + (copies x ps + copies x ws) ≤ 1 = once x in omega arith in
    let (h, l, attached, built', same) =
      attach-Built rs m a d b n built at (omega (arith, self, at_a)) below in
    (
      h,
      l,
      attached,
      built',
      λ x c.
          let at_x : copies x ((a, d) ∷ rs) + (copies x ps + copies x ws) ≤ 1 = once x in
          same x (omega arith),
      λ x c.
          let at_x : copies x ((a, d) ∷ rs) + (copies x ps + copies x ws) ≤ 1 = once x in
          same x (omega arith),
    )

pub take_p-Parts :
    (m : Merge) (a d : ℕ) (rs ps qs later : List Entry)
    → Parts m rs ((a, d) ∷ ps) qs later
    → (m' : Merge) × (take_p m ≡ ok m') × Parts m' ((a, d) ∷ rs) ps qs later
unfolding take_p Forward copies
take_p-Parts m a d rs ps qs later parts =
    let (b, n, here, at, rest) = parts.first in
    let m1 : Merge = record m { p = n; psize = m.psize - 1 } in
    let once : (x : ℕ) → copies x ((a, d) ∷ rs) + (copies x ps + copies x (qs ++ later)) ≤ 1 = λ x.
      let o : copies x rs + (copies x ((a, d) ∷ ps) + copies x (qs ++ later)) ≤ 1 = parts.once x in
      omega arith in
    let (h, l, attached, built, same_p, same_q) =
      taken_lem m1 a d b n rs ps (qs ++ later) parts.built at once in
    (
      record m1 { heap = h; list = l; tail = some a },
      rw (here, at) attached,
      record {
        built = built;
        stop = parts.stop;
        first = Forward-frame ps m.heap h n parts.stop rest same_p;
        second = Forward-frame (qs ++ later) m.heap h m.q none parts.second same_q;
        psize = omega (arith, parts.psize);
        qsize = parts.qsize;
        once = once;
      },
    )

fits_less : (size n k : ℕ) → fits size (suc n) k ≡ true → fits (size - 1) n k ≡ true
fits_less size n k f = ground arith

pub take_q-Parts :
    (m : Merge) (a d : ℕ) (rs ps qs later : List Entry)
    → Parts m rs ps ((a, d) ∷ qs) later
    → (m' : Merge) × (take_q m ≡ ok m') × Parts m' ((a, d) ∷ rs) ps qs later
unfolding take_q Forward copies
take_q-Parts m a d rs ps qs later parts =
    let (b, n, here, at, rest) = parts.second in
    let m1 : Merge = record m { q = n; qsize = m.qsize - 1 } in
    let once : (x : ℕ) → copies x ((a, d) ∷ rs) + (copies x ps + copies x (qs ++ later)) ≤ 1 = λ x.
      let o : copies x rs + (copies x ps + copies x ((a, d) ∷ (qs ++ later))) ≤ 1 = parts.once x in
      omega arith in
    let (h, l, attached, built, same_p, same_q) =
      taken_lem m1 a d b n rs ps (qs ++ later) parts.built at once in
    (
      record m1 { heap = h; list = l; tail = some a },
      rw (here, at) attached,
      record {
        built = built;
        stop = parts.stop;
        first = Forward-frame ps m.heap h m.p parts.stop parts.first same_p;
        second = Forward-frame (qs ++ later) m.heap h n none rest same_q;
        psize = parts.psize;
        qsize = fits_less m.qsize (length qs) (length later) parts.qsize;
        once = once;
      },
    )

-- The tests of the loop, by what is left.
pub goes_on-p :
    (m : Merge) (x : Entry) (rs ps qs later : List Entry)
    → Parts m rs (x ∷ ps) qs later
    → goes_on m.psize m.qsize m.q ≡ true
goes_on-p m x rs ps qs later parts = ground (arith, parts.psize)

pub goes_on-q :
    (m : Merge) (x : Entry) (rs ps qs later : List Entry)
    → Parts m rs ps (x ∷ qs) later
    → (goes_on m.psize m.qsize m.q ≡ true) × ((m.qsize == 0 || is_null m.q) ≡ false)
unfolding Forward
goes_on-q m (a, d) rs ps qs later parts =
    let (b, n, here, at, rest) = parts.second in
    let f : fits m.qsize (suc (length qs)) (length later) ≡ true = parts.qsize in
    let some_q : (m.qsize == 0) ≡ false = ground arith in
    let more : ltb 0 m.qsize ≡ true = ground arith in
    (rw (here, more) (ground arith), rw (here, some_q) refl)

pub no_q :
    (m : Merge) (rs ps later : List Entry)
    → Parts m rs ps [] later
    → (m.qsize == 0 || is_null m.q) ≡ true
unfolding Forward
no_q m rs ps [] parts = rw parts.second (ground arith)
no_q m rs ps (x ∷ later) parts =
    let f : fits m.qsize 0 (suc (length later)) ≡ true = parts.qsize in ground arith
