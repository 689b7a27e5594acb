-- ===== src/TaList/Sort/Segments.antt =====
-- The parts of a heap of src/list.c while `ta_list_sort` moves its nodes: what is still to be taken,
-- which is linked forwards only, and what has been merged, which is linked in both directions.
use taningia.Base.{
  ℕ, ◌+◌, ◌≤◌, ◌<◌, ◌≡◌, refl, sym, ◌∙◌, false, true, none, some, List, [], ◌∷◌, ◌++◌, ◌==◌, arith,
  Bool-cases, inl, inr, if◌then◌else◌,
}
use taningia.Base.Run.{ok}
use taningia.TaList.{Heap, Pointer, write}
use taningia.TaList.Chain.{Entry, Chain, node, mentions, distinct, write-same, write-other}
use taningia.TaList.Changing.{rev_onto}
use taningia.TaList.Sort.{Merge, attach}

-- How often an address occurs.
unfoldable pub copies : ℕ → List Entry → ℕ
copies x [] = 0
copies x ((a, d) ∷ xs) = (if a == x then 1 else 0) + copies x xs

-- The entries from `p` on, by `next`; behind them comes `r`.
unfoldable pub Forward : Heap → Pointer → List Entry → Pointer → Type 0
Forward h p [] r = p ≡ r
Forward h p ((a, d) ∷ xs) r =
    (b n : Pointer) × (p ≡ some a) × (h.cells a ≡ node b n d) × Forward h n xs r

-- The entries from `list` to `q`, the last one first; behind them comes `n`.
unfoldable pub Linked : Heap → Pointer → Pointer → Pointer → List Entry → Type 0
Linked h list q n [] = (q ≡ none) × (list ≡ n)
Linked h list q n ((a, d) ∷ rs) =
    (b : Pointer) × (q ≡ some a) × (h.cells a ≡ node b n d) × Linked h list b (some a) rs

-- The same, where the last `next` is left over from before.
unfoldable pub Built : Heap → Pointer → Pointer → List Entry → Type 0
unfolding Linked
Built h list tail [] = tail ≡ none
Built h list tail ((a, d) ∷ rs) =
    (b n : Pointer) × (tail ≡ some a) × (h.cells a ≡ node b n d) × Linked h list b (some a) rs

-- The entries are where they were.
abbrev pub Same : Heap → Heap → List Entry → Type 0
Same h h' xs = (x : ℕ) → 0 < copies x xs → h'.cells x ≡ h.cells x

pub Forward-frame :
    (xs : List Entry) (h h' : Heap) (p r : Pointer)
    → Forward h p xs r
    → Same h h' xs
    → Forward h' p xs r
unfolding Forward copies
Forward-frame [] h h' p r held same = held
Forward-frame ((a, d) ∷ xs) h h' p r (b, n, here, at, rest) same =
    let self : 0 < copies a ((a, d) ∷ xs) = ground arith in
    (b, n, here, same a self ∙ at, Forward-frame xs h h' n r rest (λ x c. same x (omega arith)))

pub Linked-frame :
    (rs : List Entry) (h h' : Heap) (list q n : Pointer)
    → Linked h list q n rs
    → Same h h' rs
    → Linked h' list q n rs
unfolding Linked copies
Linked-frame [] h h' list q n held same = held
Linked-frame ((a, d) ∷ rs) h h' list q n (b, here, at, rest) same =
    let self : 0 < copies a ((a, d) ∷ rs) = ground arith in
    (
      b,
      here,
      same a self ∙ at,
      Linked-frame rs h h' list b (some a) rest (λ x c. same x (omega arith)),
    )

pub Chain-frame :
    (xs : List Entry) (h h' : Heap) (q p : Pointer)
    → Chain h q p xs
    → Same h h' xs
    → Chain h' q p xs
unfolding Chain copies
Chain-frame [] h h' q p c same = c
Chain-frame ((a, d) ∷ xs) h h' q p (n, here, at, rest) same =
    let self : 0 < copies a ((a, d) ∷ xs) = ground arith in
    (n, here, same a self ∙ at, Chain-frame xs h h' (some a) n rest (λ x c. same x (omega arith)))

-- What has been merged, in front of a chain.
pub Linked-Chain :
    (rs ys : List Entry) (h : Heap) (list q n : Pointer)
    → Linked h list q n rs
    → Chain h q n ys
    → Chain h none list (rev_onto rs ys)
unfolding Linked Chain
Linked-Chain [] ys h list q n (first, at) c = rw (at, sym first) c
Linked-Chain ((a, d) ∷ rs) ys h list q n (b, here, at, rest) c =
    Linked-Chain rs ((a, d) ∷ ys) h list b (some a) rest (n, refl, at, rw (sym here) c)

pub Chain-Forward :
    (xs : List Entry) (h : Heap) (q p : Pointer) → Chain h q p xs → Forward h p xs none
unfolding Chain Forward
Chain-Forward [] h q p c = c
Chain-Forward ((a, d) ∷ xs) h q p (n, here, at, rest) =
    (q, n, here, at, Chain-Forward xs h (some a) n rest)

mentions-copies : (x : ℕ) (xs : List Entry) → mentions x xs ≡ false → copies x xs ≡ 0
unfolding mentions copies
mentions-copies x [] m = refl
mentions-copies x ((a, d) ∷ xs) m =
    let other : (a == x) ≡ false = ground arith in ground (arith, mentions-copies x xs)

pub copies-mentions : (x : ℕ) (xs : List Entry) → copies x xs ≡ 0 → mentions x xs ≡ false
unfolding mentions copies
copies-mentions x [] c = refl
copies-mentions x ((a, d) ∷ xs) c =
    let other : (a == x) ≡ false = ground arith in
    let rest : mentions x xs ≡ false = copies-mentions x xs (omega arith) in rw (other, rest) refl

pub distinct-copies : (x : ℕ) (xs : List Entry) → distinct xs ≡ true → copies x xs ≤ 1
unfolding distinct copies
distinct-copies x [] u = omega arith
distinct-copies x ((a, d) ∷ xs) u =
    let rest : copies x xs ≤ 1 = distinct-copies x xs (ground arith) in
    elim (Bool-cases (a == x)) [
      | inl same ↦
          let e : a ≡ x = ground arith in
          let away : mentions a xs ≡ false = ground arith in
          let gone : copies x xs ≡ 0 = mentions-copies x xs (rw e at away) in rw same (omega arith)
      | inr other ↦ rw other (omega arith)
    ]

-- Two addresses are not the same where only one of them occurs.
pub copies-apart :
    (x y : ℕ) (xs : List Entry) → 0 < copies x xs → copies y xs ≡ 0 → (x == y) ≡ false
copies-apart x y xs some_x no_y = elim (Bool-cases (x == y)) [
  | inl same ↦
      let e : x ≡ y = ground arith in
      let some_y : 0 < copies y xs = rw e at some_x in absurd (omega arith)
  | inr other ↦ other
]

pub copies-head :
    (x a d : ℕ) (xs : List Entry)
    → copies x ((a, d) ∷ xs) ≡ 0
    → ((x == a) ≡ false) × (copies x xs ≡ 0)
unfolding copies
copies-head x a d xs c = (ground arith, omega arith)

pub copies-append : (x : ℕ) (xs ys : List Entry) → copies x (xs ++ ys) ≡ copies x xs + copies x ys
unfolding copies
copies-append x [] ys = omega arith
copies-append x ((a, d) ∷ xs) ys = omega (arith, copies-append x xs ys)

pub copies-rev_onto :
    (x : ℕ) (xs ys : List Entry) → copies x (rev_onto xs ys) ≡ copies x xs + copies x ys
unfolding copies
copies-rev_onto x [] ys = omega arith
copies-rev_onto x ((a, d) ∷ xs) ys = omega (arith, copies-rev_onto x xs ((a, d) ∷ ys))

-- A node that is taken comes behind those that have been merged; no other cell changes.
pub attach-Built :
    (rs : List Entry) (m : Merge) (e d : ℕ) (b n : Pointer)
    → Built m.heap m.list m.tail rs
    → m.heap.cells e ≡ node b n d
    → copies e rs ≡ 0
    → ((x : ℕ) → copies x rs ≤ 1)
    → (h : Heap) × (l : Pointer) × (attach e m
        ≡ ok (record m { heap = h; list = l; tail = some e }))
      × Built h l (some e) ((e, d) ∷ rs)
      × ((x : ℕ) → copies x ((e, d) ∷ rs) ≡ 0 → h.cells x ≡ m.heap.cells x)
unfolding attach Built Linked copies
attach-Built [] m e d b n built at fresh once = (
  write e (node none n d) m.heap,
  some e,
  rw (built, at) refl,
  (none, n, refl, write-same m.heap e _, (refl, refl)),
  λ x c. write-other m.heap e x _ ((copies-head x e d [] c).0),
)
attach-Built ((t, dt) ∷ rs) m e d b n (b', n', here, at_t, rest) at fresh once =
    let h1 : Heap = write t (node b' (some e) dt) m.heap in
    let h2 : Heap = write e (node (some t) n d) h1 in
    let (apart, e_gone) = copies-head e t dt rs fresh in
    let back : (t == e) ≡ false = ground arith in
    let t_once : copies t ((t, dt) ∷ rs) ≤ 1 = once t in
    let gone : copies t rs ≡ 0 = ground arith in
    (
      h2,
      m.list,
      rw (here, at_t, apart, at) refl,
      (
        some t,
        n,
        refl,
        write-same h1 e _,
        (
          b',
          refl,
          write-other h1 e t _ back ∙ write-same m.heap t _,
          Linked-frame rs m.heap h2 m.list b' (some t) rest (λ x c.
              write-other h1 e x _ (copies-apart x e rs c e_gone)
              ∙ write-other m.heap t x _ (copies-apart x t rs c gone)),
        ),
      ),
      λ x c.
          let (not_e, c') = copies-head x e d ((t, dt) ∷ rs) c in
          let (not_t, c'') = copies-head x t dt rs c' in
          write-other h1 e x _ not_e ∙ write-other m.heap t x _ not_t,
    )
