-- ===== src/Pubsub/Pairs.antt =====
-- The configuration that `ta_pubsub_node_create` and `ta_pubsub_node_createv` of src/pubsub.c take:
-- names and values in turn.
use taningia.Base.{
  ℕ, zero, suc, ◌+◌, ◌%◌, ◌^◌, ◌<◌, ◌≡◌, refl, sym, ap, ◌∙◌, true, false, none, some, List, [], ◌∷◌,
  ◌==◌, ltb, length, arith,
}
use taningia.Base.CString.{Bytes, Text, codes}
use taningia.Base.Run.{ok, returns, returns-ok, returns-if, if-Holds, >>=-ext_any}
use taningia.TaList.Remove.{is_null}
use taningia.Pubsub.{Pointer, Tree, Docs, createiqps}
use taningia.Pubsub.Config.{
  Form, param_at, with_form, add_name, add_value, step, fill, fill_from, begin_create, start,
  finish, node_create, node_createv,
}

-- The arguments of pairs of a name and two values: with the first values, and with the second.
abbrev pub with_first : List (Bytes × Bytes × Bytes) → List Bytes
with_first [] = []
with_first ((name, x, y) ∷ pairs) = name ∷ x ∷ with_first pairs

abbrev pub with_second : List (Bytes × Bytes × Bytes) → List Bytes
with_second [] = []
with_second ((name, x, y) ∷ pairs) = name ∷ y ∷ with_second pairs

module _ (tree : Tree) where
  -- The round of a name follows an even number of rounds, that of a value an odd number.
  abbrev IsEven : Form tree.Doc → Type 0
  IsEven v = (v.i % 2 ≡ 0) × (v.nargs ≡ v.nvals)

  abbrev IsOdd : Form tree.Doc → Type 0
  IsOdd v = (v.i % 2 ≡ 1) × (v.nargs ≡ suc v.nvals)

  with_form-counts :
      (config : Pointer) (v : Form tree.Doc)
      → ((with_form tree config v).i ≡ v.i)
        × ((with_form tree config v).nargs ≡ v.nargs)
        × ((with_form tree config v).nvals ≡ v.nvals)
  unfolding with_form
  with_form-counts config v =
      if-Holds (λ w. (w.i ≡ v.i) × (w.nargs ≡ v.nargs) × (w.nvals ≡ v.nvals)) (is_null v.form) _ v
        (λ _. (refl, refl, refl)) (λ _. (refl, refl, refl))

  step-i :
      (config : Pointer) (arg : Bytes) (v : Form tree.Doc) → (step tree config arg v).i ≡ suc v.i
  unfolding step add_name add_value
  step-i config arg v =
      let (i, nargs, nvals) = with_form-counts config v in
      if-Holds (λ w. suc w.i ≡ suc v.i) ((with_form tree config v).i % 2 == 0)
        (add_name tree arg (with_form tree config v)) (add_value tree arg (with_form tree config v))
        (λ _. ap suc i) (λ _. ap suc i)

  step-IsEven :
      (config : Pointer) (arg : Bytes) (v : Form tree.Doc)
      → IsEven v
      → IsOdd (step tree config arg v)
  unfolding step add_name
  step-IsEven config arg v (e, n) =
      let (i, nargs, nvals) = with_form-counts config v in
      let here : ((with_form tree config v).i % 2 == 0) ≡ true = rw i (ground arith) in
      rw here (ground arith)

  step-IsOdd :
      (config : Pointer) (arg : Bytes) (v : Form tree.Doc)
      → IsOdd v
      → IsEven (step tree config arg v)
  unfolding step add_value
  step-IsOdd config arg v (e, n) =
      let (i, nargs, nvals) = with_form-counts config v in
      let here : ((with_form tree config v).i % 2 == 0) ≡ false = rw i (ground arith) in
      rw here (ground arith)

  fill-pairs :
      (config : Pointer) (args : List Bytes) (v : Form tree.Doc)
      → (IsEven v
          → ((fill tree config args v).nargs == (fill tree config args v).nvals)
            ≡ (length args % 2 == 0))
        × (IsOdd v
            → ((fill tree config args v).nargs == (fill tree config args v).nvals)
              ≡ (suc (length args) % 2 == 0))
  unfolding fill
  fill-pairs config [] v = (λ (e, n). ground arith, λ (e, n). ground arith)
  fill-pairs config (arg ∷ args) v =
      let (even, odd) = fill-pairs config args (step tree config arg v) in
      (λ h. odd (step-IsEven config arg v h), λ h. even (step-IsOdd config arg v h) ∙ ground arith)

  begin_create-returns :
      (from to name : Text) (s : Docs tree)
      → s.stanzas + 1 < 2 ^ 31
      → (r : Pointer × Pointer × Docs tree) × (begin_create tree from to name s ≡ ok r)
  unfolding begin_create createiqps
  begin_create-returns from to name s h =
      let room : ltb (s.stanzas + 1) (2 ^ 31) ≡ true = ground arith in
      returns-ok (begin_create tree from to name s) (rw room refl)

  add_value-null :
      (x : Bytes) (v : Form tree.Doc) → add_value tree x v ≡ record v { nvals = suc v.nvals }
  unfolding add_value
  add_value-null x v =
      rw (tree.insert-null (codes "value") v.doc, tree.cdata-null (some x) 0 v.doc) refl

  add_value_any : (x y : Bytes) (v : Form tree.Doc) → add_value tree x v ≡ add_value tree y v
  add_value_any x y v = add_value-null x v ∙ sym (add_value-null y v)

  -- A value leaves no trace.
  step_any :
      (config : Pointer) (x y : Bytes) (v : Form tree.Doc)
      → v.i % 2 ≡ 1
      → step tree config x v ≡ step tree config y v
  unfolding step
  step_any config x y v e =
      let (i, nargs, nvals) = with_form-counts config v in
      let here : ((with_form tree config v).i % 2 == 0) ≡ false = rw i (ground arith) in
      rw (here, add_value_any x y (with_form tree config v)) refl

  fill_any :
      (config : Pointer) (pairs : List (Bytes × Bytes × Bytes)) (v : Form tree.Doc)
      → v.i % 2 ≡ 0
      → fill tree config (with_first pairs) v ≡ fill tree config (with_second pairs) v
  unfolding fill
  fill_any config [] v e = refl
  fill_any config ((name, x, y) ∷ pairs) v e =
      let v1 : Form tree.Doc = step tree config name v in
      let v2 : Form tree.Doc = step tree config y v1 in
      let odd : v1.i % 2 ≡ 1 = rw (step-i config name v) (omega arith) in
      let even : v2.i % 2 ≡ 0 = rw (step-i config y v1, step-i config name v) (omega arith) in
      ap (fill tree config (with_first pairs)) (step_any config x y v1 odd)
      ∙ fill_any config pairs v2 even

  fill_from-fill :
      (fuel : ℕ) (config : Pointer) (all args : List Bytes) (v : Form tree.Doc)
      → ((k : ℕ) → param_at all (k + v.i) ≡ param_at args k)
      → length args < fuel
      → fill_from tree fuel config (some all) v ≡ ok (fill tree config args v)
  unfolding fill fill_from
  fill_from-fill zero config all args v h f = absurd (omega arith)
  fill_from-fill (suc fuel) config all [] v h f =
      let end : param_at all v.i ≡ none =
        ap (param_at all) {x = v.i} {y = 0 + v.i} (omega arith) ∙ h 0 in
      rw (end, fill_from) refl
  fill_from-fill (suc fuel) config all (arg ∷ args) v h f =
      let here : param_at all v.i ≡ some arg =
        ap (param_at all) {x = v.i} {y = 0 + v.i} (omega arith) ∙ h 0 in
      rw (here, fill_from)
        (fill_from-fill fuel config all args (step tree config arg v)
          (λ k.
            ap (param_at all) {x = k + (step tree config arg v).i} {y = suc k + v.i}
              (rw (step-i config arg v) (omega arith))
            ∙ h (suc k))
          (omega arith))

-- `ta_pubsub_node_createv` with an array, and more rounds than it has strings, makes the stanza that
-- `ta_pubsub_node_create` makes with these strings as its arguments, and leaves the same document and
-- counters, or fails the same assertion; with NULL it makes the one without arguments.
pub createv-create :
    (tree : Tree) (fuel : ℕ) (from to name : Text) (args : List Bytes) (s : Docs tree)
    → length args < fuel
    → (node_createv tree fuel from to name (some args) s ≡ node_create tree from to name args s)
      × (node_createv tree fuel from to name none s ≡ node_create tree from to name [] s)
unfolding node_create node_createv fill fill_from
createv-create tree zero from to name args s f = absurd (omega arith)
createv-create tree (suc fuel) from to name args s f = (
  >>=-ext_any (begin_create tree from to name s) _ _ (λ (iq, config, s').
      let loop : fill_from tree (suc fuel) config (some args) (start tree s'.doc)
          ≡ ok (fill tree config args (start tree s'.doc)) =
        fill_from-fill tree (suc fuel) config args args (start tree s'.doc)
          (λ k. ap (param_at args) {x = k + 0} {y = k} (omega arith)) f in
      rw loop refl),
  >>=-ext_any (begin_create tree from to name s) _ _ (λ r. refl),
)

-- While the counter of the stanzas is below its bound, `ta_pubsub_node_create` returns a stanza
-- exactly when the names and values come in pairs; with an odd number of arguments its assertion
-- fails.
pub node_create-returns :
    (tree : Tree) (from to name : Text) (args : List Bytes) (s : Docs tree)
    → s.stanzas + 1 < 2 ^ 31
    → returns (node_create tree from to name args s) ≡ (length args % 2 == 0)
unfolding node_create finish
node_create-returns tree from to name args s h =
    let ((iq, config, s'), eq) = begin_create-returns tree from to name s h in
    let (even, odd) = fill-pairs tree config args (start tree s'.doc) in
    rw (eq, even (refl, refl)) (returns-if (length args % 2 == 0) _)

-- The values of the configuration are lost: whatever they are, `ta_pubsub_node_create` returns the
-- same stanza in the same document.
node_create_any :
    (tree : Tree) (from to name : Text) (pairs : List (Bytes × Bytes × Bytes)) (s : Docs tree)
    → node_create tree from to name (with_first pairs) s
      ≡ node_create tree from to name (with_second pairs) s
unfolding node_create
node_create_any tree from to name pairs s =
    >>=-ext_any (begin_create tree from to name s) _ _ (λ (iq, config, s').
      ap (finish tree iq s') (fill_any tree config pairs (start tree s'.doc) refl))
