-- ===== src/Srv/Order.antt =====
-- What src/srv.c reads, and the order in which it sorts it.
use taningia.Base.{
  ℕ, zero, suc, ◌+◌, ◌*◌, ◌/◌, ◌%◌, ◌≡◌, refl, ap, ◌∙◌, Bool, ◌||◌, ◌&&◌, some, [], ◌∷◌, ◌++◌, ltb,
  leb, ◌==◌, length, arith, inl, inr, Bool-cases, length-append,
}
use taningia.Base.CString.{Bytes, Text}
use taningia.Base.Run.{ok}
use taningia.TaList.Sort.{at_most_zero}
use taningia.Srv.{Target, init, difference, cmp_targets}
use taningia.Srv.Answer.{Expand, byte_at, getshort, getlong, t_srv, c_in, read_target, read_record}

-- The order of RFC 2782: by priority, then by weight.
abbrev pub precedes : Target → Target → Bool
precedes ta tb =
    ltb ta.priority tb.priority || (ta.priority == tb.priority && leb ta.weight tb.weight)

difference_lem : (a b : ℕ) → at_most_zero (difference a b) ≡ leb a b
difference_lem a b = elim (Bool-cases (leb b a)) [
  | inl e ↦ rw e (ground arith)
  | inr e ↦ rw e (ground arith)
]

-- `cmp_targets` compares by priority, and targets of one priority by weight: it is at most 0 exactly
-- where the first target does not come behind the second.
pub cmp_targets-precedes : (ta tb : Target) → at_most_zero (cmp_targets ta tb) ≡ precedes ta tb
unfolding cmp_targets
cmp_targets-precedes ta tb = elim (Bool-cases (ta.priority == tb.priority)) [
  | inl e ↦ rw e (difference_lem ta.weight tb.weight ∙ ground arith)
  | inr e ↦ rw e (difference_lem ta.priority tb.priority ∙ ground arith)
]

-- The two bytes of a number of 16 bits, and the four of one of 32 bits, the highest first.
abbrev pub short : ℕ → Bytes
short n = n / 256 ∷ n % 256 ∷ []

abbrev pub long : ℕ → Bytes
long n = short (n / 65536) ++ short (n % 65536)

byte_at-behind : (s t : Bytes) (p k : ℕ) → p ≡ length s + k → byte_at (s ++ t) p ≡ byte_at t k
byte_at-behind [] t p k e = ap (byte_at t) {x = p} {y = k} (omega arith)
byte_at-behind (c ∷ s) t zero k e = absurd (omega arith)
byte_at-behind (c ∷ s) t (suc p) k e = byte_at-behind s t p k (omega arith)

-- A number of 16 bits is read from its bytes, which stand at `k` behind `s`.
getshort-behind :
    (s t : Bytes) (p k n : ℕ)
    → p ≡ length s + k
    → byte_at t k ≡ ok (n / 256)
    → byte_at t (k + 1) ≡ ok (n % 256)
    → getshort (s ++ t) p ≡ ok n
unfolding getshort
getshort-behind s t p k n e high low =
    let whole : n / 256 * 256 + n % 256 ≡ n = omega arith in
    rw (byte_at-behind s t p k e, byte_at-behind s t (p + 1) (k + 1) (omega arith), high, low)
      (ap ok whole)

-- A record of the class IN and the type SRV behind its name, before the rest of the answer.
abbrev pub body : Target → ℕ → Bytes → Bytes
body t rdlength rest =
    short t_srv
    ++ short c_in
    ++ long t.ttl
    ++ short rdlength
    ++ short t.priority
    ++ short t.weight
    ++ short t.port
    ++ rest

-- An SRV record that stands in an answer behind the bytes `s` and the `size` bytes of its name, with
-- its numbers in the order of the network and a name of a host that `dn_expand` reads into the buffer:
-- it is read as the target with these numbers and that host, whatever the buffer held, and the reading
-- goes on behind it.
pub read_record-body :
    (expand : Expand) (s name rest host : Bytes) (owner : Text) (t : Target) (rdlength size : ℕ)
    (buf : Text)
    → expand ((s ++ name) ++ body t rdlength rest) (length s) buf ≡ (some (length name), owner)
    → expand ((s ++ name) ++ body t rdlength rest) (length s + length name + 10 + 6) owner
      ≡ (some size, some host)
    → read_record expand ((s ++ name) ++ body t rdlength rest) (length s) buf
      ≡ ok (
        some (record init {
          ttl = t.ttl;
          class = c_in;
          priority = t.priority;
          weight = t.weight;
          port = t.port;
          host = some host;
        }),
        length s + length name + 10 + 6 + size,
        some host,
      )
unfolding read_record read_target getlong
read_record-body expand s name rest host owner t rdlength size buf first last =
    let front : Bytes = s ++ name in
    let text : Bytes = body t rdlength rest in
    let p : ℕ = length s + length name in
    let at : length front ≡ p = length-append s name in
    let type : getshort (front ++ text) p ≡ ok t_srv =
      getshort-behind front text p 0 t_srv (omega (arith, at)) refl refl in
    let class : getshort (front ++ text) (p + 2) ≡ ok c_in =
      getshort-behind front text (p + 2) 2 c_in (omega (arith, at)) refl refl in
    let high : getshort (front ++ text) (p + 4) ≡ ok (t.ttl / 65536) =
      getshort-behind front text (p + 4) 4 (t.ttl / 65536) (omega (arith, at)) refl refl in
    let low : getshort (front ++ text) (p + 4 + 2) ≡ ok (t.ttl % 65536) =
      getshort-behind front text (p + 4 + 2) 6 (t.ttl % 65536) (omega (arith, at)) refl refl in
    let size16 : getshort (front ++ text) (p + 8) ≡ ok rdlength =
      getshort-behind front text (p + 8) 8 rdlength (omega (arith, at)) refl refl in
    let priority : getshort (front ++ text) (p + 10) ≡ ok t.priority =
      getshort-behind front text (p + 10) 10 t.priority (omega (arith, at)) refl refl in
    let weight : getshort (front ++ text) (p + 10 + 2) ≡ ok t.weight =
      getshort-behind front text (p + 10 + 2) 12 t.weight (omega (arith, at)) refl refl in
    let port : getshort (front ++ text) (p + 10 + 4) ≡ ok t.port =
      getshort-behind front text (p + 10 + 4) 14 t.port (omega (arith, at)) refl refl in
    let ttl : t.ttl / 65536 * 65536 + t.ttl % 65536 ≡ t.ttl = omega arith in
    rw (first, type, class, high, low, size16, priority, weight, port, last, ttl) refl
