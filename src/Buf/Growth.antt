-- ===== src/Buf/Growth.antt =====
-- The sizes that `_buf_realloc` of src/buf.c computes.
use taningia.Base.{
  ℕ, zero, suc, ◌+◌, ◌-◌, ◌*◌, ◌/◌, ◌%◌, ◌^◌, ◌≤◌, ◌<◌, ◌≡◌, refl, some, ltb, ◌==◌, if◌then◌else◌,
  arith, Bool, false, ◌||◌, leb, Bool-cases, inl, inr,
}
use taningia.Base.Run.{ok}
use taningia.Error.{ta_ok, ta_error}
use taningia.Buf.{Buf, int, grow, align, new_size, buf_realloc, resize}

pub int-ok : (n : ℕ) → n < 2 ^ 31 → int n ≡ ok n
int-ok n h = ground arith

pub grow_lem :
    (fuel requested size : ℕ)
    → 0 < size
    → requested ≤ size + fuel
    → requested ≤ 2 ^ 30
    → size ≤ requested + requested / 2
    → (n : ℕ) × (grow fuel requested size ≡ ok n)
      × (requested ≤ n)
      × (n ≤ requested + requested / 2)
unfolding grow
grow_lem zero requested size p h r b = (size, ground arith, omega arith, b)
grow_lem (suc fuel) requested size p h r b = elim (Bool-cases (ltb size requested)) [
  | inr e ↦ (size, rw e, ground arith, b)
  | inl e ↦
      let lt : size < requested = ground arith in
      let (n, eq, ge, le) =
        grow_lem fuel requested (size * 2 - size / 2) (omega arith) (omega arith) r (omega arith) in
      (n, rw (e, int-ok (size * 2) (omega arith), eq), ge, le)
]

-- The size that is asked for is a multiple of 8 that holds what was requested and exceeds it by at
-- most a half and seven bytes.
pub new_size_lem :
    (requested size : ℕ)
    → size < requested
    → requested ≤ 2 ^ 30
    → (n : ℕ) × (new_size requested size ≡ ok n)
      × (requested ≤ n)
      × (n ≤ requested + requested / 2 + 7)
      × (n % 8 ≡ 0)
unfolding new_size align
new_size_lem requested size lt r = elim (Bool-cases (size == 0)) [
  | inl e ↦
      let (n, eq, ge, le) =
        grow_lem requested requested requested (omega arith) (omega arith) r (omega arith) in
      (
        (n + 7) / 8 * 8,
        rw (e, eq, int-ok (n + 7) (omega arith)),
        omega arith,
        omega arith,
        omega arith,
      )
  | inr e ↦
      let nz : 0 < size = ground arith in
      let (n, eq, ge, le) = grow_lem requested requested size nz (omega arith) r (omega arith) in
      (
        (n + 7) / 8 * 8,
        rw (e, eq, int-ok (n + 7) (omega arith)),
        omega arith,
        omega arith,
        omega arith,
      )
]

-- A request of at most 2^30 bytes that exceeds the allocation is met: the loop ends without an
-- overflow at a multiple of 8 that holds the request and exceeds it by at most a half and seven
-- bytes. The block has that size if `realloc` gives it, and else the buffer stays and the result is
-- TA_ERROR.
pub buf_realloc-grows :
    (mem : ℕ → Bool) (b : Buf) (requested : ℕ)
    → b.allocated_size < requested
    → requested ≤ 2 ^ 30
    → (n : ℕ) × (requested ≤ n)
      × (n ≤ requested + requested / 2 + 7)
      × (n % 8 ≡ 0)
      × (buf_realloc mem b requested ≡ (
          if mem n
          then ok (record b { ptr = some (resize b.ptr n); allocated_size = n }, ta_ok)
          else ok (b, ta_error)))
unfolding buf_realloc
buf_realloc-grows mem b requested lt r =
    let (n, eq, ge, le, aligned) = new_size_lem requested b.allocated_size lt r in
    let needed : (requested == 0 || leb requested b.allocated_size) ≡ false = ground arith in
    (n, ge, le, aligned, rw (needed, eq) refl)
