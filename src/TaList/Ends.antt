-- ===== src/TaList/Ends.antt =====
-- src/list.c: `ta_list_prepend` and `ta_list_pop`, at the two ends of a list.
use taningia.Base.{ℕ, suc, ◌≡◌, refl, ◌∙◌, true, false, none, some, List, [], ◌∷◌, ◌==◌, arith}
use taningia.Base.Int.{pos}
use taningia.Base.Run.{ok}
use taningia.TaList.{Heap, Pointer, write, new}
use taningia.TaList.Insert.{prepend, insert, insert_node}
use taningia.TaList.Chain.{
  Entry, Chain, node, mentions, distinct, Chain-write, write-same, write-other,
}
use taningia.TaList.Changing.{Chain-top}

-- The assignments in front of the head `l`, `b` being the new node.
front_lem :
    (xs : List Entry) (fuel : ℕ) (h : Heap) (p : Pointer) (b d : ℕ)
    → Chain h none p xs
    → distinct xs ≡ true
    → mentions b xs ≡ false
    → h.cells b ≡ node none none d
    → (h' : Heap) × (insert_node fuel b h p d (pos 0) ≡ ok (h', some b))
      × Chain h' none (some b) ((b, d) ∷ xs)
unfolding insert_node Chain distinct mentions
front_lem [] fuel h p b d c u m cell = (h, rw c refl, (none, refl, cell, refl))
front_lem ((a, d') ∷ xs) fuel h p b d (n, here, cell', rest) u m cell =
    let h1 : Heap = write a (node (some b) n d') h in
    let h2 : Heap = write b (node none (some a) d) h1 in
    let other : (a == b) ≡ false = ground arith in
    let back : (b == a) ≡ false = ground arith in
    let fresh_a : mentions a xs ≡ false = ground arith in
    let fresh_b : mentions b xs ≡ false = ground arith in
    (
      h2,
      rw (here, cell', back, cell) refl,
      (
        some a,
        refl,
        write-same h1 b _,
        (
          n,
          refl,
          write-other h1 b a _ other ∙ write-same h a _,
          Chain-write h1 b _ xs (some a) n (Chain-write h a _ xs (some a) n rest fresh_a) fresh_b,
        ),
      ),
    )

-- A chain with the given entries, none of them twice and none at the next address:
-- `ta_list_prepend` returns the chain with the new node in front, of an empty list too. It reads
-- no more than the first node, so any fuel is enough.
pub prepend-Chain :
    (xs : List Entry) (fuel : ℕ) (h : Heap) (p : Pointer) (d : ℕ)
    → Chain h none p xs
    → distinct xs ≡ true
    → mentions h.top xs ≡ false
    → (h' : Heap) × (prepend fuel h p d ≡ ok (h', some h.top))
      × Chain h' none (some h.top) ((h.top, d) ∷ xs)
unfolding prepend insert new
prepend-Chain xs fuel h p d c u m =
    let h1 : Heap = (new h).1 in
    let h2 : Heap = write h.top (node none none d) h1 in
    let c1 = Chain-write _ h.top _ xs none p (Chain-top h (suc h.top) xs none p c) m in
    let c2 : Chain h2 none p xs = Chain-write h1 h.top _ xs none p c1 m in
    let (h', eq, c') = front_lem xs fuel h2 p h.top d c2 u m (write-same h1 h.top _) in
    let self : (h.top == h.top) ≡ true = ground arith in (h', rw self eq, c')
