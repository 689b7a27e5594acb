-- ===== src/TaList/Unlinking.antt =====
-- What `ta_list_remove` of src/list.c leaves: the chain without the node that it has found.
use taningia.Base.{
  ℕ, zero, suc, ◌<◌, ◌≡◌, refl, ◌∙◌, Bool, true, false, not, ◌&&◌, none, some, List, [], ◌∷◌, ◌++◌,
  ◌==◌, length, arith,
}
use taningia.Base.Run.{Run, ok, ◌>>=◌, >>=-eq-ok}
use taningia.TaList.{Heap, Pointer, write}
use taningia.TaList.Chain.{
  Entry, node, Chain, mentions, distinct, Chain-write, write-same, write-other,
}
use taningia.TaList.Remove.{update_if, unlink, remove_from, remove}

-- No entry has this data.
unfoldable pub lacks_datum : ℕ → List Entry → Bool
lacks_datum d [] = true
lacks_datum d ((a, e) ∷ xs) = not (e == d) && lacks_datum d xs

-- The two assignments that take a node out: of the node before it, and of the node behind it.
unfoldable relink : Pointer → Pointer → Heap → Run Heap
relink b n h = do
  h1 ← update_if (λ m. record m { next = n }) b h
  update_if (λ m. record m { prev = b }) n h1

-- Another node in front of a chain.
reprev_lem :
    (zs : List Entry) (h : Heap) (q r n : Pointer)
    → Chain h q n zs
    → distinct zs ≡ true
    → (h' : Heap) × (update_if (λ m. record m { prev = r }) n h ≡ ok h')
      × Chain h' r n zs
      × ((x : ℕ) → mentions x zs ≡ false → h'.cells x ≡ h.cells x)
unfolding Chain distinct mentions
reprev_lem [] h q r n c u = (h, rw c refl, c, λ x m. refl)
reprev_lem ((a, d) ∷ zs) h q r n (n', here, cell, rest) u =
    let apart : mentions a zs ≡ false = ground arith in
    let h' : Heap = write a (node r n' d) h in
    (
      h',
      rw (here, cell) refl,
      (n', here, write-same h a _, Chain-write h a _ zs (some a) n' rest apart),
      λ x m. let other : (x == a) ≡ false = ground arith in write-other h a x _ other,
    )

-- What is known behind the removal of `a` from between `ys` and `zs`.
abbrev Relinked : Heap → Pointer → ℕ → ℕ → ℕ → List Entry → List Entry → ℕ → Type 0
Relinked h q c dc a ys zs d =
    (b n : Pointer) × (h' : Heap) × (h.cells a ≡ node b n d)
    × (relink b n h ≡ ok h')
    × Chain h' q (some c) ((c, dc) ∷ ys ++ zs)
    × ((x : ℕ) → mentions x ((c, dc) ∷ ys ++ (a, d) ∷ zs) ≡ false → h'.cells x ≡ h.cells x)
    × (h'.cells a ≡ h.cells a)

relink_lem :
    (ys zs : List Entry) (h : Heap) (q : Pointer) (c dc a d : ℕ)
    → Chain h q (some c) ((c, dc) ∷ ys ++ (a, d) ∷ zs)
    → distinct ((c, dc) ∷ ys ++ (a, d) ∷ zs) ≡ true
    → Relinked h q c dc a ys zs d
unfolding Chain distinct mentions relink
relink_lem [] zs h q c dc a d (n0, here, cell, (n, next, at, rest)) u =
    let c_zs : mentions c zs ≡ false = ground arith in
    let a_zs : mentions a zs ≡ false = ground arith in
    let c_a : (a == c) ≡ false = ground arith in
    let h1 : Heap = write c (node q n dc) h in
    let (h', eq, c', frame) =
      reprev_lem zs h1 (some a) (some c) n (Chain-write h c _ zs (some a) n rest c_zs)
        (ground arith) in
    (
      some c,
      n,
      h',
      at,
      rw cell eq,
      (n, refl, frame c c_zs ∙ write-same h c _, c'),
      λ x m.
          let x_zs : mentions x zs ≡ false = ground arith in
          let x_c : (x == c) ≡ false = ground arith in frame x x_zs ∙ write-other h c x _ x_c,
      frame a a_zs ∙ write-other h c a _ c_a,
    )
relink_lem ((e, de) ∷ ys) zs h q c dc a d (n0, here, cell, (n1, next, at_e, rest)) u =
    let away : mentions c ((e, de) ∷ ys ++ (a, d) ∷ zs) ≡ false = ground arith in
    let (b, n, h', at, eq, (n2, first, cell2, rest2), frame, same) =
      relink_lem ys zs h (some c) e de a d (n1, refl, at_e, rest) (ground arith) in
    (
      b,
      n,
      h',
      at,
      eq,
      (n0, refl, frame c away ∙ cell, (n2, next, cell2, rest2)),
      λ x m. frame x (ground arith),
      same,
    )

-- The node at the head, which has no node before it.
unlink-head :
    (zs : List Entry) (h : Heap) (a d : ℕ) (n : Pointer)
    → h.cells a ≡ node none n d
    → Chain h (some a) n zs
    → mentions a zs ≡ false
    → distinct zs ≡ true
    → (h' : Heap) × (unlink h a a ≡ ok (h', n))
      × Chain h' none n zs
      × ((x : ℕ) → mentions x zs ≡ false → h'.cells x ≡ h.cells x)
unfolding unlink
unlink-head zs h a d n at c m u =
    let (h1, eq1, c1, frame1) = reprev_lem zs h (some a) none n c u in
    let (h2, eq2, c2, frame2) = reprev_lem zs h1 none none n c1 u in
    let head : h1.cells a ≡ node none n d = frame1 a m ∙ at in
    let self : (a == a) ≡ true = ground arith in
    (h2, rw (at, eq1, head, self, eq2) refl, c2, λ x m'. frame2 x m' ∙ frame1 x m')

-- The loop stops at the first node with the data.
remove_from-unlink :
    (ys zs : List Entry) (fuel l : ℕ) (h : Heap) (q p : Pointer) (a d : ℕ)
    → Chain h q p (ys ++ (a, d) ∷ zs)
    → lacks_datum d ys ≡ true
    → length ys < fuel
    → remove_from fuel h l p d ≡ (do (h', list) ← unlink h l a; ok (h', list, some a))
unfolding Chain lacks_datum remove_from
remove_from-unlink ys zs zero l h q p a d c no_d f = absurd (omega arith)
remove_from-unlink [] zs (suc fuel) l h q p a d (n, here, at, rest) no_d f =
    let self : (d == d) ≡ true = ground arith in rw (here, at, self) refl
remove_from-unlink ((e, de) ∷ ys) zs (suc fuel) l h q p a d (n, here, at, rest) no_d f =
    let other : (de == d) ≡ false = ground arith in
    let later : lacks_datum d ys ≡ true = ground arith in
    rw (here, at, other) (remove_from-unlink ys zs fuel l h (some e) n a d rest later (omega arith))

apart_from :
    (ys zs : List Entry) (c a d : ℕ) → mentions c (ys ++ (a, d) ∷ zs) ≡ false → (a == c) ≡ false
unfolding mentions
apart_from [] zs c a d m = ground arith
apart_from ((e, de) ∷ ys) zs c a d m = apart_from ys zs c a d (ground arith)

-- A node behind the head.
unlink-behind :
    (ys zs : List Entry) (h : Heap) (c dc a d : ℕ)
    → Chain h none (some c) ((c, dc) ∷ ys ++ (a, d) ∷ zs)
    → distinct ((c, dc) ∷ ys ++ (a, d) ∷ zs) ≡ true
    → (a == c) ≡ false
    → (h' : Heap) × (unlink h c a ≡ ok (h', some c))
      × Chain h' none (some c) ((c, dc) ∷ ys ++ zs)
      × (h'.cells a ≡ h.cells a)
      × ((x : ℕ) → mentions x ((c, dc) ∷ ys ++ (a, d) ∷ zs) ≡ false → h'.cells x ≡ h.cells x)
unfolding Chain unlink relink
unlink-behind ys zs h c dc a d chain u other =
    let (b, n, h', at, eq, (n', first, head, rest), frame, same) =
      relink_lem ys zs h none c dc a d chain u in
    let (h1, eq1, eq2) =
      >>=-eq-ok (update_if (λ m. record m { next = n }) b h)
        (λ h1. update_if (λ m. record m { prev = b }) n h1) eq in
    (h', rw (at, eq1, eq2, head, other) refl, (n', first, head, rest), same, frame)

-- A chain with the data `d`, none of whose addresses occurs twice: with more fuel than the nodes
-- before the first that has `d`, `ta_list_remove` hands out that node, as it was, and returns the
-- chain of all the others in their order, well linked in both directions, at the head, in the middle
-- and at the end. No other cell changes.
pub remove-Chain :
    (ys zs : List Entry) (fuel : ℕ) (h : Heap) (p : Pointer) (a d : ℕ)
    → Chain h none p (ys ++ (a, d) ∷ zs)
    → distinct (ys ++ (a, d) ∷ zs) ≡ true
    → lacks_datum d ys ≡ true
    → length ys < fuel
    → (h' : Heap) × (p' : Pointer) × (remove fuel h p d ≡ ok (h', p', some a))
      × Chain h' none p' (ys ++ zs)
      × (h'.cells a ≡ h.cells a)
      × ((x : ℕ) → mentions x (ys ++ (a, d) ∷ zs) ≡ false → h'.cells x ≡ h.cells x)
unfolding Chain distinct mentions remove
remove-Chain [] zs fuel h p a d (n, here, at, rest) u no_d f =
    let away : mentions a zs ≡ false = ground arith in
    let (h', eq, c', frame) = unlink-head zs h a d n at rest away (ground arith) in
    (
      h',
      n,
      rw (here, remove_from-unlink [] zs fuel a h none (some a) a d (n, refl, at, rest) no_d f, eq)
          refl,
      c',
      frame a away,
      λ x m. frame x (ground arith),
    )
remove-Chain ((c, dc) ∷ ys) zs fuel h p a d (n, here, at, rest) u no_d f =
    let whole : Chain h none (some c) ((c, dc) ∷ ys ++ (a, d) ∷ zs) = (n, refl, at, rest) in
    let away : mentions c (ys ++ (a, d) ∷ zs) ≡ false = ground arith in
    let other : (a == c) ≡ false = apart_from ys zs c a d away in
    let (h', eq, c', same, frame) = unlink-behind ys zs h c dc a d whole u other in
    (
      h',
      some c,
      rw (here, remove_from-unlink ((c, dc) ∷ ys) zs fuel c h none (some c) a d whole no_d f, eq)
          refl,
      c',
      same,
      frame,
    )
