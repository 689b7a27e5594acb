-- ===== src/Atom/Counts.antt =====
-- src/atom.c: the reference counts of the IRIs that elements point at.
use taningia.Base.{
  ◌<◌, ◌-◌, ◌^◌, ltb, true, if◌then◌else◌, ℕ, suc, ◌≡◌, refl, sym, ◌∙◌, ap, false, Option, none,
  some, ◌==◌, arith, Bool-cases, inl, inr,
}
use taningia.Base.CString.{Text, Bytes}
use taningia.Base.Int.{pos}
use taningia.Base.Run.{ok, fault, ◌>>=◌}
use taningia.Iri.{Iri}
use taningia.Atom.{Iris, put, ref_cell, unref_cell, ref_iri, unref_iri, exchange}
use taningia.Atom.Link
use taningia.Atom.Link.{Link}
use taningia.Atom.InReplyTo
use taningia.Atom.InReplyTo.{InReplyTo}
use taningia.Atom.Category
use taningia.Atom.Category.{Category}

-- The IRI with another count.
abbrev pub with_count : Iri → ℕ → Iri
with_count i n = record i { parent = record i.parent { refcount = pos n } }

-- At the address is the IRI, with `n` references.
unfoldable pub Counted : Iris → ℕ → Iri → ℕ → Type 0
Counted iris a i n = iris a ≡ some (with_count i n)

ref-Counted :
    (iris : Iris) (a n : ℕ) (i : Iri)
    → Counted iris a i (suc n)
    → suc n < 2 ^ 31 - 1
    → ref_iri (some a) iris ≡ ok (put a (some (with_count i (suc (suc n)))) iris)
unfolding ref_iri ref_cell Counted
ref-Counted iris a n i h b =
    let room : ltb (suc n) (2 ^ 31 - 1) ≡ true = ground arith in rw (h, room) refl

unref-Counted :
    (iris : Iris) (a n : ℕ) (i : Iri)
    → Counted iris a i (suc (suc n))
    → unref_iri (some a) iris ≡ ok (put a (some (with_count i (suc n))) iris)
unfolding unref_iri unref_cell Counted
unref-Counted iris a n i h = rw h refl

unref_last :
    (iris : Iris) (a : ℕ) (i : Iri)
    → Counted iris a i 1
    → unref_iri (some a) iris ≡ ok (put a none iris)
unfolding unref_iri unref_cell Counted
unref_last iris a i h = rw h refl

put_same : (a : ℕ) (i : Option Iri) (iris : Iris) → put a i iris a ≡ i
put_same a i iris = ground arith

put_other : (a b : ℕ) (i : Option Iri) (iris : Iris) → (b == a) ≡ false → put a i iris b ≡ iris b
put_other a b i iris h = rw h refl

-- Two writes at one address, the second of the old value.
put_back :
    (a : ℕ) (i j : Option Iri) (iris : Iris) (b : ℕ)
    → iris a ≡ j
    → put a j (put a i iris) b ≡ iris b
put_back a i j iris b h = elim (Bool-cases (b == a)) [
  | inl same ↦ let e : b ≡ a = ground arith in rw same (sym (ap iris e ∙ h))
  | inr other ↦ rw other refl
]

put-Counted : (iris : Iris) (a n : ℕ) (i : Iri) → Counted (put a (some (with_count i n)) iris) a i n
unfolding Counted
put-Counted iris a n i = put_same a (some (with_count i n)) iris

counted_lem :
    (iris : Iris) (a n : ℕ) (i : Iri) → Counted iris a i n → iris a ≡ some (with_count i n)
unfolding Counted
counted_lem iris a n i h = h

ref_gone : (iris : Iris) (a : ℕ) → ref_iri (some a) (put a none iris) ≡ fault
unfolding ref_iri ref_cell
ref_gone iris a = rw (put_same a none iris) refl

exchange_same :
    (iris : Iris) (a : ℕ) (i : Iri) → Counted iris a i 1 → exchange (some a) (some a) iris ≡ fault
unfolding exchange
exchange_same iris a i h = rw (unref_last iris a i h) (ref_gone iris a)

-- A link is made without a new reference and gives one back when it is freed: where the caller's
-- reference was the only one, the IRI is freed under the caller.
pub link-free_last :
    (iris : Iris) (a : ℕ) (i : Iri)
    → Counted iris a i 1
    → (iris' : Iris) × (Link.free (Link.init (some a)) iris ≡ ok iris') × (iris' a ≡ none)
unfolding Link.free Link.init
link-free_last iris a i h = (put a none iris, unref_last iris a i h, put_same a none iris)

-- An `in-reply-to` that is made for an IRI and freed, and a category with that IRI as its scheme:
-- each leaves every IRI as it was, with its count, which the new reference does not overflow.
pub init-free :
    (iris : Iris) (a n : ℕ) (i : Iri) (term : Bytes) (label : Text)
    → Counted iris a i (suc n)
    → suc n < 2 ^ 31 - 1
    → (iris2 : Iris) × (iris3 : Iris) × ((do
      (irt, iris') ← InReplyTo.init (some a) iris
      InReplyTo.free irt iris')
        ≡ ok iris2)
      × ((do (c, iris') ← Category.init (some term) label (some a) iris; Category.free c iris')
          ≡ ok iris3)
      × ((b : ℕ) → iris2 b ≡ iris b)
      × ((b : ℕ) → iris3 b ≡ iris b)
unfolding InReplyTo.init InReplyTo.free Category.init Category.free unref_iri
init-free iris a n i term label h b =
    let held : Iris = put a (some (with_count i (suc (suc n)))) iris in
    let back : Iris = put a (some (with_count i (suc n))) held in
    let given = unref-Counted held a n i (put-Counted iris a (suc (suc n)) i) in
    (
      back,
      back,
      rw (ref-Counted iris a n i h b, given) refl,
      rw (ref-Counted iris a n i h b) given,
      λ b. put_back a (some (with_count i (suc (suc n)))) _ iris b (counted_lem iris a (suc n) i h),
      λ b. put_back a (some (with_count i (suc (suc n)))) _ iris b (counted_lem iris a (suc n) i h),
    )

-- The setters of an IRI drop the reference to the old one before they take one to the new: set to
-- the IRI that they have, which nobody else holds, they use memory that they have just freed.
pub setters-same_fault :
    (iris : Iris) (a : ℕ) (i : Iri) (link : Link) (irt : InReplyTo) (category : Category)
    → Counted iris a i 1
    → link.href ≡ some a
    → irt.ref ≡ some a
    → irt.href ≡ some a
    → irt.source ≡ some a
    → category.scheme ≡ some a
    → (Link.set_href link (some a) iris ≡ fault)
      × (InReplyTo.set_ref irt (some a) iris ≡ fault)
      × (InReplyTo.set_href irt (some a) iris ≡ fault)
      × (InReplyTo.set_source irt (some a) iris ≡ fault)
      × (Category.set_scheme category (some a) iris ≡ fault)
unfolding Link.set_href InReplyTo.set_ref InReplyTo.set_href InReplyTo.set_source
    Category.set_scheme
setters-same_fault iris a i link irt category h l r f s c =
    let e = exchange_same iris a i h in
    let gone = unref_last iris a i h in
    (
      rw (l, e) refl,
      rw (r, e) refl,
      rw (f, e) refl,
      rw (s, e) refl,
      rw (c, gone, ref_gone iris a) refl,
    )

-- Set to another IRI that is alive, with a count below the greatest int, a setter moves one reference from the old IRI, which is
-- held elsewhere too, to the new one, and every other IRI stays as it is.
pub set_href-counts :
    (iris : Iris) (a b n m : ℕ) (i j : Iri) (link : Link)
    → Counted iris a i (suc (suc n))
    → Counted iris b j (suc m)
    → suc m < 2 ^ 31 - 1
    → (b == a) ≡ false
    → link.href ≡ some a
    → (link' : Link) × (iris' : Iris) × (Link.set_href link (some b) iris ≡ ok (link', iris'))
      × (Link.get_href link' ≡ some b)
      × ((c : ℕ)
          → iris' c ≡ (
              if c == b
              then some (with_count j (suc (suc m)))
              else if c == a
              then some (with_count i (suc n))
              else iris c))
unfolding Link.set_href Link.get_href exchange Counted
set_href-counts iris a b n m i j link h k below other l =
    let iris1 : Iris = put a (some (with_count i (suc n))) iris in
    let k1 : Counted iris1 b j (suc m) = put_other a b _ iris other ∙ k in
    (
      record link { href = some b },
      put b (some (with_count j (suc (suc m)))) iris1,
      rw (l, unref-Counted iris a n i h, ref-Counted iris1 b m j k1 below) refl,
      refl,
      λ c. refl,
    )
