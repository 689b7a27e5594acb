-- ===== src/TaList/Middle.antt =====
-- The middle of a chain of src/list.c: the node there, and the entries without it.
use taningia.Base.{
  ℕ, ◌≡◌, refl, sym, ap, ◌∙◌, true, false, ◌||◌, none, some, List, [], ◌∷◌, ◌++◌, ◌==◌, arith,
}
use taningia.TaList.{Heap, Pointer}
use taningia.TaList.Chain.{Entry, node, Chain, mentions, distinct}

abbrev pub head_of : List Entry → Pointer
head_of [] = none
head_of ((a, d) ∷ xs) = some a

pub Chain-head : (xs : List Entry) (h : Heap) (q p : Pointer) → Chain h q p xs → p ≡ head_of xs
unfolding Chain
Chain-head [] h q p c = c
Chain-head ((a, d) ∷ xs) h q p (n, here, at, rest) = here

pub Chain-at :
    (ys zs : List Entry) (h : Heap) (q p : Pointer) (a d : ℕ)
    → Chain h q p (ys ++ (a, d) ∷ zs)
    → (b : Pointer) × (h.cells a ≡ node b (head_of zs) d)
unfolding Chain
Chain-at [] zs h q p a d (n, here, at, rest) =
    (q, at ∙ ap (λ m. node q m d) (Chain-head zs h (some a) n rest))
Chain-at ((e, de) ∷ ys) zs h q p a d (n, here, at, rest) = Chain-at ys zs h (some e) n a d rest

pub mentions-append :
    (x : ℕ) (ys zs : List Entry) → mentions x (ys ++ zs) ≡ (mentions x ys || mentions x zs)
unfolding mentions
mentions-append x [] zs = refl
mentions-append x ((e, de) ∷ ys) zs = rw (mentions-append x ys zs) (ground arith)

-- Without one of its entries, a list keeps its addresses apart, and no other has that address.
pub distinct-middle :
    (ys zs : List Entry) (a d : ℕ)
    → distinct (ys ++ (a, d) ∷ zs) ≡ true
    → (distinct (ys ++ zs) ≡ true) × (mentions a (ys ++ zs) ≡ false)
unfolding distinct mentions
distinct-middle [] zs a d u = (ground arith, ground arith)
distinct-middle ((e, de) ∷ ys) zs a d u =
    let (rest, away) = distinct-middle ys zs a d (ground arith) in
    let whole : (mentions e ys || mentions e ((a, d) ∷ zs)) ≡ false =
      sym (mentions-append e ys ((a, d) ∷ zs)) ∙ ground arith in
    let fresh : mentions e (ys ++ zs) ≡ false = mentions-append e ys zs ∙ ground arith in
    let other : (e == a) ≡ false = ground arith in (rw (fresh, rest) refl, rw (other, away) refl)
