-- ===== src/Object.antt =====
-- src/object.c: the reference count that every object of the library begins with.
pub mod Counting
use taningia.Base.{
  ltb, not, ◌^◌, ◌-◌, zero, suc, Bool, true, false, Option, none, some, List, [], ◌∷◌,
  if◌then◌else◌,
}
use taningia.Base.Int.{ℤ, pos, negsuc}
use taningia.Base.Run.{Run, ok, fault, ◌>>=◌}

-- `ta_free_func_t` values that the library's constructors install.
pub data Destructor : Type 0 where
  iri_free tag_free atom_link_free atom_in_reply_to_free atom_category_free : Destructor
  atom_simple_element_free atom_content_free atom_person_free : Destructor
  atom_entry_free atom_feed_free xmpp_client_free log_free srv_target_free : Destructor

-- `ta_object_t`
pub record Object : Type 0 where
  pub refcount : ℤ
  pub destructor : Option Destructor

-- The memory behind a `ta_object_t *` that is not NULL.
pub data Cell : Type 0 where
  live : Object → Cell
  freed : Cell

-- `++` and `--` on an `int`; `is_greatest` says that the first has no meaning, and the second is
-- away from the lower end, which no object that is alive has as its count.
abbrev pub is_greatest : ℤ → Bool
is_greatest (pos n) = not (ltb n (2 ^ 31 - 1))
is_greatest (negsuc n) = false

abbrev pub increment : ℤ → ℤ
increment (pos n) = pos (suc n)
increment (negsuc zero) = pos zero
increment (negsuc (suc n)) = negsuc n

abbrev pub decrement : ℤ → ℤ
decrement (pos zero) = negsuc zero
decrement (pos (suc n)) = pos n
decrement (negsuc n) = negsuc (suc n)

abbrev pub is_zero : ℤ → Bool
is_zero (pos zero) = true
is_zero _ = false

-- `ta_object_init`: the fields of the object, whatever stood there.
unfoldable pub init : Option Destructor → Object
init d = record { refcount = pos 1; destructor = d }

-- `ta_object_ref`; the overflow of the count is a fault.
unfoldable pub ref : Cell → Run Cell
ref (live o) =
    if is_greatest o.refcount
    then fault
    else ok (live (record o { refcount = increment o.refcount }))
ref freed = fault

-- The destructors that a run calls, `none` standing for `free` alone.
abbrev pub Destroyed : Type 0
Destroyed = List (Option Destructor)

-- `ta_object_unref`; the `none` of the argument is NULL.
unfoldable pub unref : Option Cell → Run (Option Cell × Destroyed)
unref none = ok (none, [])
unref (some freed) = fault
unref (some (live o)) =
    let left = record o { refcount = decrement o.refcount } in
    if is_zero left.refcount then ok (some freed, o.destructor ∷ []) else ok (some (live left), [])
