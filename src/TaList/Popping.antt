-- ===== src/TaList/Popping.antt =====
-- src/list.c: `ta_list_pop` takes off the last node of a list.
use taningia.Base.{
  ℕ, ◌+◌, ◌<◌, ◌≡◌, refl, ◌∙◌, ap, true, false, none, some, List, [], ◌∷◌, ◌++◌, ◌==◌, arith,
  length, length-append,
}
use taningia.Base.Run.{ok}
use taningia.TaList.{Heap, Node, Pointer, write, last, last_from}
use taningia.TaList.Remove.{pop, pop_last}
use taningia.TaList.Chain.{Entry, Chain, node, mentions, distinct, write-same, write-other}
use taningia.TaList.Reading.{last_from_lem, last_of}

-- The heap behind the assignments that part the node `b` from the node `e` in front of it.
abbrev cut : ℕ → Node → Heap → Heap
cut e v h = write e (some (record v { next = none })) h

abbrev parted : ℕ → ℕ → ℕ → Node → Heap → Heap
parted b d e v h = write b (node none none d) (cut e v h)

unsnoc_lem :
    (x : Entry) (xs : List Entry) (h : Heap) (q p tmp : Pointer) (b d : ℕ)
    → Chain h q p ((x ∷ xs) ++ (b, d) ∷ [])
    → distinct (x ∷ xs) ≡ true
    → mentions b (x ∷ xs) ≡ false
    → (e : ℕ) × (v : Node) × (h.cells e ≡ some v)
      × (h.cells b ≡ node (some e) none d)
      × (last_of ((x ∷ xs) ++ (b, d) ∷ []) tmp ≡ some b)
      × ((b == e) ≡ false)
      × ((a : ℕ) → mentions a (x ∷ xs) ≡ false → (a == e) ≡ false)
      × Chain (parted b d e v h) q p (x ∷ xs)
unfolding Chain distinct mentions
unsnoc_lem (a, d') [] h q p tmp b d (n, here, cell, (n', here', cell', end)) u m =
    let other : (a == b) ≡ false = ground arith in
    let v : Node = record { prev = q; next = n; datum = d' } in
    (
      a,
      v,
      cell,
      rw end at cell',
      refl,
      ground arith,
      λ a' m'. ground arith,
      (none, here, write-other (cut a v h) b a _ other ∙ write-same h a _, refl),
    )
unsnoc_lem (a, d') (y ∷ ys) h q p tmp b d (n, here, cell, rest) u m =
    let other : (a == b) ≡ false = ground arith in
    let fresh : mentions a (y ∷ ys) ≡ false = ground arith in
    let (e, v, at_e, at_b, is_last, be, apart', c) =
      unsnoc_lem y ys h (some a) n (some a) b d rest (ground arith) (ground arith) in
    (
      e,
      v,
      at_e,
      at_b,
      is_last,
      be,
      λ a' m'. apart' a' (ground arith),
      (
        n,
        here,
        write-other (cut e v h) b a _ other
            ∙ (write-other h e a (some (record v { next = none })) (apart' a fresh) ∙ cell),
        c,
      ),
    )

-- A chain that ends with the node `b`, none of whose addresses occurs twice: with more fuel than
-- nodes `ta_list_pop` hands out `b` and returns the chain of the nodes in front of it, or NULL
-- where there are none.
pub pop-Chain :
    (xs : List Entry) (b d fuel : ℕ) (h : Heap) (p : Pointer)
    → Chain h none p (xs ++ (b, d) ∷ [])
    → distinct xs ≡ true
    → mentions b xs ≡ false
    → length xs + 1 < fuel
    → (h' : Heap) × (p' : Pointer) × (pop fuel h p ≡ ok (h', p', some b)) × Chain h' none p' xs
unfolding pop pop_last last Chain mentions
pop-Chain [] b d fuel h p (n, here, cell, end) u m f =
    let found : last_from fuel h (some b) none ≡ ok (some b) =
      last_from_lem ((b, d) ∷ []) fuel h none (some b) none (n, refl, cell, end) (omega arith) in
    let self : (b == b) ≡ true = ground arith in (h, none, rw (here, found, cell, self) refl, refl)
pop-Chain ((a, d') ∷ xs) b d fuel h p (n, here, cell, rest) u m f =
    let (e, v, at_e, at_b, is_last, be, apart', c) =
      unsnoc_lem (a, d') xs h none (some a) none b d (n, refl, cell, rest) u m in
    let found : last_from fuel h (some a) none ≡ ok (some b) =
      last_from_lem (((a, d') ∷ xs) ++ (b, d) ∷ []) fuel h none (some a) none (n, refl, cell, rest)
        (omega (arith, length-append ((a, d') ∷ xs) ((b, d) ∷ [])))
      ∙ ap ok is_last in
    let not_head : (b == a) ≡ false = ground arith in
    (parted b d e v h, some a, rw (here, found, at_b, at_e, be, at_b, not_head) refl, c)
