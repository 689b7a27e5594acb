-- ===== src/TaList/Sort/Tally.antt =====
-- What a rearrangement of the entries of a list of src/list.c keeps: how many of them pass a test,
-- and with it that no address and no data occurs twice.
use taningia.Base.{
  ℕ, ◌+◌, ◌≤◌, ◌≡◌, refl, sym, ◌∙◌, Bool, true, List, [], ◌∷◌, ◌==◌, arith, if◌then◌else◌,
}
use mathlib.Core.List.{Perm, foldr}
use mathlib.Core.List.Perm
use native.Mathlib.Nat.{ℕ_set}
use taningia.TaList.Chain.{Entry, distinct}
use taningia.TaList.Sort.Segments.{copies, copies-mentions, distinct-copies}

abbrev one_more : (Entry → Bool) → Entry → ℕ → ℕ
one_more test x n = (if test x then 1 else 0) + n

-- How many entries pass the test.
unfoldable pub tally : (Entry → Bool) → List Entry → ℕ
tally test [] = 0
tally test (x ∷ xs) = (if test x then 1 else 0) + tally test xs

tally-foldr : (test : Entry → Bool) (xs : List Entry) → tally test xs ≡ foldr (one_more test) 0 xs
unfolding tally
tally-foldr test [] = refl
tally-foldr test (x ∷ xs) = rw (tally-foldr test xs) refl

pub tally-Perm :
    (test : Entry → Bool) (xs ys : List Entry) → Perm xs ys → tally test xs ≡ tally test ys
tally-Perm test xs ys moved =
    tally-foldr test xs
    ∙ Perm.foldr-eq ℕ_set (one_more test) (λ a b n. omega arith) moved 0
    ∙ sym (tally-foldr test ys)

copies-tally : (x : ℕ) (xs : List Entry) → copies x xs ≡ tally (λ e. e.0 == x) xs
unfolding copies tally
copies-tally x [] = refl
copies-tally x ((a, d) ∷ xs) = rw (copies-tally x xs) refl

copies-distinct : (xs : List Entry) → ((x : ℕ) → copies x xs ≤ 1) → distinct xs ≡ true
unfolding distinct copies
copies-distinct [] once = refl
copies-distinct ((a, d) ∷ xs) once =
    let a_once : copies a ((a, d) ∷ xs) ≤ 1 = once a in
    let gone : copies a xs ≡ 0 = ground arith in
    let below : (x : ℕ) → copies x xs ≤ 1 =
      λ x. let o : copies x ((a, d) ∷ xs) ≤ 1 = once x in omega arith in
    rw (copies-mentions a xs gone, copies-distinct xs below) refl

pub distinct-Perm : (xs ys : List Entry) → Perm xs ys → distinct ys ≡ true → distinct xs ≡ true
distinct-Perm xs ys moved u = copies-distinct xs (λ x. omega (
  arith,
  copies-tally x xs,
  copies-tally x ys,
  tally-Perm (λ e. e.0 == x) xs ys moved,
  distinct-copies x ys u,
))
