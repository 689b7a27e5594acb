-- ===== src/Pubsub/Config.antt =====
-- src/pubsub.c, `ta_pubsub_node_create` and `ta_pubsub_node_createv`: the creation of a node with
-- its configuration, a form that is built from names and values in turn.
use taningia.Base.{
  ℕ, zero, suc, ◌%◌, Option, none, some, List, [], ◌∷◌, ◌++◌, ◌==◌, take, if◌then◌else◌,
}
use taningia.Base.CString.{Bytes, Text, codes}
use taningia.Base.Run.{Run, ok, fault, ◌>>=◌}
use taningia.TaList.Remove.{is_null}
use taningia.Pubsub.{Pointer, set, Tree, Docs, attrib_if, createiqps}
use taningia.Pubsub.Nodes.{inside}

abbrev pub ns_ps_config : Bytes
ns_ps_config = codes "http://jabber.org/protocol/pubsub#node_config"

-- The variables of the loops; `field` is not among them, since each round has its own.
pub record Form (Doc : Type 0) : Type 0 where
  pub form : Pointer
  pub i : ℕ
  pub nargs : ℕ
  pub nvals : ℕ
  pub doc : Doc

-- `snprintf (fname, NODE_SIZE_MAX, "pubsub#%s", arg)`
abbrev pub fname : Bytes → Bytes
fname arg = take 255 (codes "pubsub#" ++ arg)

-- `conf_params[i]`, with NULL behind the last.
abbrev pub param_at : List Bytes → ℕ → Text
param_at [] i = none
param_at (x ∷ xs) zero = some x
param_at (x ∷ xs) (suc i) = param_at xs i

module _ (tree : Tree) where
  -- The block under `if (form == NULL)`.
  unfoldable pub open_form : Pointer → tree.Doc → Pointer × tree.Doc
  open_form config d =
      let x = tree.insert config (codes "x") d in
      let d1 = tree.insert_attrib x.0 (codes "xmlns") (some (codes "jabber:x:data")) x.1 in
      let d2 = tree.insert_attrib x.0 (codes "type") (some (codes "submit")) d1 in
      let f = tree.insert x.0 (codes "field") d2 in
      let d3 = tree.insert_attrib f.0 (codes "var") (some (codes "FORM_TYPE")) f.1 in
      let d4 = tree.insert_attrib f.0 (codes "type") (some (codes "hidden")) d3 in
      let value = tree.insert f.0 (codes "value") d4 in
      (x.0, tree.insert_cdata value.0 (some ns_ps_config) 0 value.1)

  -- The branch of a name.
  unfoldable pub add_name : Bytes → Form tree.Doc → Form tree.Doc
  add_name arg v =
      let field = tree.insert v.form (codes "field") v.doc in
      record v {
        doc = tree.insert_attrib field.0 (codes "var") (some (fname arg)) field.1;
        nargs = suc v.nargs;
      }

  -- The branch of a value: `field` is NULL, as the round has just set it.
  unfoldable pub add_value : Bytes → Form tree.Doc → Form tree.Doc
  add_value arg v =
      let value = tree.insert none (codes "value") v.doc in
      record v { doc = tree.insert_cdata value.0 (some arg) 0 value.1; nvals = suc v.nvals }

  -- The form of a round.
  unfoldable pub with_form : Pointer → Form tree.Doc → Form tree.Doc
  with_form config v =
      let opened = open_form config v.doc in
      if is_null v.form then record v { form = opened.0; doc = opened.1 } else v

  -- A round of the loop of `ta_pubsub_node_create`, which is that of `ta_pubsub_node_createv` too.
  unfoldable pub step : Pointer → Bytes → Form tree.Doc → Form tree.Doc
  step config arg v =
      let w = with_form config v in
      let added = if w.i % 2 == 0 then add_name arg w else add_value arg w in
      record added { i = suc added.i }

  -- The loop of `ta_pubsub_node_create` over its arguments.
  unfoldable pub fill : Pointer → List Bytes → Form tree.Doc → Form tree.Doc
  fill config [] v = v
  fill config (arg ∷ args) v = fill config args (step config arg v)

  -- The loop of `ta_pubsub_node_createv`, which reads `conf_params[i]`.
  unfoldable pub fill_from : ℕ → Pointer → Option (List Bytes) → Form tree.Doc → Run (Form tree.Doc)
  fill_from zero config params v = fault
  fill_from (suc fuel) config none v = ok v
  fill_from (suc fuel) config (some params) v = elim (param_at params v.i) [
    | none ↦ ok v
    | some arg ↦ fill_from fuel config (some params) (step config arg v)
  ]

  -- What both do first: the stanza, `create` with the name of the node, and `configure`.
  unfoldable pub begin_create : Text → Text → Text → Docs tree → Run (Pointer × Pointer × Docs tree)
  begin_create from to name s = do
    (iq, s') ← createiqps tree from to set s
    let create = inside tree iq (codes "create") s'.doc
    let config =
        inside tree iq (codes "configure") (attrib_if tree create.0 (codes "node") name create.1)
    ok (iq, config.0, record s' { doc = config.1 })

  abbrev pub start : tree.Doc → Form tree.Doc
  start d = record { form = none; i = 0; nargs = 0; nvals = 0; doc = d }

  -- `assert (nargs == nvals); return iq;`
  unfoldable pub finish : Pointer → Docs tree → Form tree.Doc → Run (Pointer × Docs tree)
  finish iq s v = if v.nargs == v.nvals then ok (iq, record s { doc = v.doc }) else fault

  -- `ta_pubsub_node_create`; `args` are the arguments before NULL.
  unfoldable pub node_create :
      Text → Text → Text → List Bytes → Docs tree → Run (Pointer × Docs tree)
  node_create from to name args s = do
    (iq, config, s') ← begin_create from to name s
    finish iq s' (fill config args (start s'.doc))

  -- `ta_pubsub_node_createv`; `fuel` bounds its rounds.
  unfoldable pub node_createv :
      ℕ → Text → Text → Text → Option (List Bytes) → Docs tree → Run (Pointer × Docs tree)
  node_createv fuel from to name params s = do
    (iq, config, s') ← begin_create from to name s
    v ← fill_from fuel config params (start s'.doc)
    finish iq s' v
