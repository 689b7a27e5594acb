-- ===== src/TaList/Changing.antt =====
-- src/list.c: the lists that the functions make which change one.
use taningia.Base.{
  ℕ, zero, suc, ◌<◌, ◌≡◌, refl, ◌∙◌, ap, Bool, true, false, not, ◌&&◌, none, some, List, [], ◌∷◌,
  ◌++◌, ◌==◌, arith, length,
}
use taningia.Base.Run.{ok}
use taningia.TaList.{
  Heap, Node, Pointer, write, new, last, last_from, append, link, reverse, reverse_from,
}
use taningia.TaList.Chain.{
  Entry, Chain, node, mentions, distinct, Chain-write, write-same, write-other,
}
use taningia.TaList.Reading.{last_from_lem, last_of}

-- The entries in the opposite order, in front of `ys`.
abbrev pub rev_onto : List Entry → List Entry → List Entry
rev_onto [] ys = ys
rev_onto (x ∷ xs) ys = rev_onto xs (x ∷ ys)

-- The addresses of the first list are in neither itself twice nor in the second one.
unfoldable pub apart : List Entry → List Entry → Bool
apart [] ys = true
apart ((a, d) ∷ xs) ys = (not (mentions a xs) && not (mentions a ys)) && apart xs ys

apart-cons :
    (a d : ℕ) (xs ys : List Entry)
    → mentions a xs ≡ false
    → apart xs ys ≡ true
    → apart xs ((a, d) ∷ ys) ≡ true
unfolding apart mentions
apart-cons a d [] ys m h = refl
apart-cons a d ((b, e) ∷ xs) ys m h = ground (arith, apart-cons a d xs ys)

distinct-apart : (xs : List Entry) → distinct xs ≡ true → apart xs [] ≡ true
unfolding distinct apart mentions
distinct-apart [] u = refl
distinct-apart ((a, d) ∷ xs) u = ground (arith, distinct-apart xs)

empty-Chain : (h : Heap) (q : Pointer) → Chain h q none []
unfolding Chain
empty-Chain h q = refl

reverse_from_lem :
    (xs ys : List Entry) (fuel : ℕ) (h : Heap) (q p : Pointer)
    → Chain h q p xs
    → Chain h p q ys
    → apart xs ys ≡ true
    → length xs < fuel
    → (h' : Heap) × (p' : Pointer) × (reverse_from fuel h p q ≡ ok (h', p'))
      × Chain h' none p' (rev_onto xs ys)
unfolding reverse_from Chain apart
reverse_from_lem xs ys zero h q p c done m f = absurd (omega arith)
reverse_from_lem [] ys (suc fuel) h q p c done m f = (h, q, rw c refl, rw c at done)
reverse_from_lem ((a, d) ∷ xs) ys (suc fuel) h q p (n, here, cell, rest) done m f =
    let h1 : Heap = write a (node n q d) h in
    let mx : mentions a xs ≡ false = ground arith in
    let my : mentions a ys ≡ false = ground arith in
    let m' : apart xs ys ≡ true = ground arith in
    let done' : Chain h (some a) q ys = rw here at done in
    let (h', p', eq, c') =
      reverse_from_lem xs ((a, d) ∷ ys) fuel h1 (some a) n (Chain-write h a _ xs (some a) n rest mx)
        (q, refl, write-same h a _, Chain-write h a _ ys (some a) q done' my)
        (apart-cons a d xs ys mx m') (omega arith) in
    (h', p', rw (here, cell) eq, c')

pub Chain-top :
    (h : Heap) (top : ℕ) (xs : List Entry) (q p : Pointer)
    → Chain h q p xs
    → Chain (record h { top = top }) q p xs
unfolding Chain
Chain-top h top [] q p c = c
Chain-top h top ((a, d) ∷ xs) q p (n, here, cell, rest) =
    (n, here, cell, Chain-top h top xs (some a) n rest)

-- The heap behind the two assignments that link the node `b` behind the node `e`.
abbrev before : ℕ → ℕ → Node → Heap → Heap
before b e v h = write e (some (record v { next = some b })) h

abbrev linked : ℕ → ℕ → ℕ → Node → Heap → Heap
linked b d e v h = write b (node (some e) none d) (before b e v h)

snoc_lem :
    (x : Entry) (xs : List Entry) (h : Heap) (q p tmp : Pointer) (b d : ℕ)
    → Chain h q p (x ∷ xs)
    → distinct (x ∷ xs) ≡ true
    → mentions b (x ∷ xs) ≡ false
    → (e : ℕ) × (v : Node) × (h.cells e ≡ some v)
      × (last_of (x ∷ xs) tmp ≡ some e)
      × ((a : ℕ) → mentions a (x ∷ xs) ≡ false → (a == e) ≡ false)
      × Chain (linked b d e v h) q p ((x ∷ xs) ++ (b, d) ∷ [])
unfolding Chain distinct mentions
snoc_lem (a, d') [] h q p tmp b d (n, here, cell, rest) u m =
    let other : (a == b) ≡ false = ground arith in
    (
      a,
      record { prev = q; next = n; datum = d' },
      cell,
      refl,
      λ a' m'. ground arith,
      (
        some b,
        here,
        write-other (before b a (record { prev = q; next = n; datum = d' }) h) b a _ other
            ∙ write-same h a _,
        (
          none,
          refl,
          write-same (before b a (record { prev = q; next = n; datum = d' }) h) b _,
          refl,
        ),
      ),
    )
snoc_lem (a, d') (y ∷ ys) h q p tmp b d (n, here, cell, rest) u m =
    let other : (a == b) ≡ false = ground arith in
    let fresh : mentions a (y ∷ ys) ≡ false = ground arith in
    let (e, v, cell', eq, apart', c) =
      snoc_lem y ys h (some a) n (some a) b d rest (ground arith) (ground arith) in
    (
      e,
      v,
      cell',
      eq,
      λ a' m'. apart' a' (ground arith),
      (
        n,
        here,
        write-other (before b e v h) b a _ other
            ∙ (write-other h e a (some (record v { next = some b })) (apart' a fresh) ∙ cell),
        c,
      ),
    )

link_lem :
    (xs : List Entry) (fuel : ℕ) (h : Heap) (p : Pointer) (b d : ℕ)
    → Chain h none p xs
    → distinct xs ≡ true
    → mentions b xs ≡ false
    → h.cells b ≡ node none none d
    → length xs < fuel
    → (h' : Heap) × (p' : Pointer) × (link fuel b h p ≡ ok (h', p'))
      × Chain h' none p' (xs ++ (b, d) ∷ [])
unfolding link Chain last
link_lem [] fuel h p b d c u m cell f = (h, some b, rw c refl, (none, refl, cell, refl))
link_lem ((a, d') ∷ xs) fuel h p b d (n, here, cell', rest) u m cell f =
    let (e, v, at_e, is_last, apart', c) =
      snoc_lem (a, d') xs h none (some a) none b d (n, refl, cell', rest) u m in
    let found : last_from fuel h (some a) none ≡ ok (some e) =
      last_from_lem ((a, d') ∷ xs) fuel h none (some a) none (n, refl, cell', rest) f
      ∙ ap ok is_last in
    let other : (b == e) ≡ false = apart' b m in
    (linked b d e v h, some a, rw (here, found, at_e, other, cell) refl, c)

-- A chain with the given entries, none of them twice and none at the next address: with more fuel
-- than entries `ta_list_append` of data that is not NULL makes the chain with the new node at its
-- end, of an empty list too.
pub append-Chain :
    (xs : List Entry) (fuel : ℕ) (h : Heap) (p : Pointer) (d : ℕ)
    → Chain h none p xs
    → distinct xs ≡ true
    → mentions h.top xs ≡ false
    → length xs < fuel
    → 0 < d
    → (h' : Heap) × (p' : Pointer) × (append fuel h p d ≡ ok (h', p'))
      × Chain h' none p' (xs ++ (h.top, d) ∷ [])
unfolding append new
append-Chain xs fuel h p d c u m f nz =
    let h1 : Heap = (new h).1 in
    let h2 : Heap = write h.top (node none none d) h1 in
    let c1 : Chain h1 none p xs =
      Chain-write _ h.top _ xs none p (Chain-top h (suc h.top) xs none p c) m in
    let c2 : Chain h2 none p xs = Chain-write h1 h.top _ xs none p c1 m in
    let (h', p', eq, c') = link_lem xs fuel h2 p h.top d c2 u m (write-same h1 h.top _) f in
    let some_data : (d == 0) ≡ false = ground arith in
    let self : (h.top == h.top) ≡ true = ground arith in (h', p', rw (some_data, self) eq, c')

-- A chain none of whose addresses occurs twice: with more fuel than entries `ta_list_reverse`
-- returns a chain, well linked in both directions, with the same nodes in the opposite order.
pub reverse-Chain :
    (xs : List Entry) (fuel : ℕ) (h : Heap) (p : Pointer)
    → Chain h none p xs
    → distinct xs ≡ true
    → length xs < fuel
    → (h' : Heap) × (p' : Pointer) × (reverse fuel h p ≡ ok (h', p'))
      × Chain h' none p' (rev_onto xs [])
unfolding reverse
reverse-Chain xs fuel h p c u f =
    reverse_from_lem xs [] fuel h none p c (empty-Chain h p) (distinct-apart xs u) f
