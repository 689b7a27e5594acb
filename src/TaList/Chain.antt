-- ===== src/TaList/Chain.antt =====
-- The lists that a heap of src/list.c holds: the nodes of a chain, by address and data.
use taningia.Base.{
  ℕ, ◌≡◌, refl, Bool, true, false, not, ◌||◌, ◌&&◌, Option, none, some, List, [], ◌∷◌, ◌==◌, arith,
}
use taningia.TaList.{Heap, Node, Pointer, write}

abbrev pub Entry : Type 0
Entry = ℕ × ℕ

abbrev pub node : Pointer → Pointer → ℕ → Option Node
node p n d = some (record { prev = p; next = n; datum = d })

-- The chain that starts at `p`, whose first node points back at `q`.
unfoldable pub Chain : Heap → Pointer → Pointer → List Entry → Type 0
Chain h q p [] = p ≡ none
Chain h q p ((a, d) ∷ xs) =
    (n : Pointer) × (p ≡ some a) × (h.cells a ≡ node q n d) × Chain h (some a) n xs

-- The chain has a node at the address.
unfoldable pub mentions : ℕ → List Entry → Bool
mentions a [] = false
mentions a ((b, d) ∷ xs) = (b == a) || mentions a xs

-- No address occurs twice.
unfoldable pub distinct : List Entry → Bool
unfolding mentions
distinct [] = true
distinct ((a, d) ∷ xs) = not (mentions a xs) && distinct xs

-- A write elsewhere keeps the chain.
pub Chain-write :
    (h : Heap) (a : ℕ) (c : Option Node) (xs : List Entry) (q p : Pointer)
    → Chain h q p xs
    → mentions a xs ≡ false
    → Chain (write a c h) q p xs
unfolding Chain mentions
Chain-write h a c [] q p held m = held
Chain-write h a c ((b, d) ∷ xs) q p (n, at, cell, rest) m =
    let other : (b == a) ≡ false = ground arith in
    let later : mentions a xs ≡ false = ground arith in
    (n, at, rw other cell, Chain-write h a c xs (some b) n rest later)

pub write-same : (h : Heap) (a : ℕ) (c : Option Node) → (write a c h).cells a ≡ c
write-same h a c = ground arith

pub write-other :
    (h : Heap) (a b : ℕ) (c : Option Node) → (b == a) ≡ false → (write a c h).cells b ≡ h.cells b
write-other h a b c e = rw e refl
