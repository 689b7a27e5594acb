-- ===== src/Tests/Stanzas.antt =====
-- The stanzas of publish and subscribe, and the log, at inputs that meet the hypotheses of their
-- theorems.
use taningia.Base.{ℕ, suc, ◌%◌, ◌≡◌, refl, ◌==◌, true, none, some, List, [], ◌∷◌, arith, length}
use taningia.Base.CString.{Bytes, Text, codes}
use taningia.Base.Int.{pos}
use taningia.Base.Run.{ok, returns}
use taningia.Error.{c99}
use taningia.Object
use taningia.Object.{log_free}
use taningia.Pubsub.{Pointer, Tree, Docs}
use taningia.Pubsub.Config.{node_create, node_createv}
use taningia.Pubsub.Pairs.{createv-create, node_create-returns}
use taningia.Log.{info, error, Log, Env, Out}
use taningia.Log.Layout.{full, entry, full-entry}
use taningia.Log.Emit.{log_at}
use taningia.Log.Lines.{outcome, log_at-outcome}

-- A document that keeps what was inserted where, and the next pointer.
abbrev Journal : Type 0
Journal = ℕ × List (Pointer × Bytes)

abbrev insert_below : Pointer → Bytes → Journal → Pointer × Journal
insert_below none name (n, es) = (none, (n, es))
insert_below (some p) name (n, es) = (some n, (suc n, (some p, name) ∷ es))

abbrev cdata_below : Pointer → Text → ℕ → Journal → Journal
cdata_below none text len d = d
cdata_below (some p) none len d = d
cdata_below (some p) (some text) len (n, es) = (n, (some p, text) ∷ es)

insert_below-null : (name : Bytes) (d : Journal) → insert_below none name d ≡ (none, d)
insert_below-null name (n, es) = refl

abbrev journal : Tree
journal = record {
  Doc = Journal;
  new = λ name d. (some d.0, (suc d.0, (none, name) ∷ d.1));
  insert = insert_below;
  insert_attrib = λ p key value d. (d.0, (p, key) ∷ d.1);
  insert_cdata = cdata_below;
  insert_node = λ p q d. d;
  child = λ p d. some 2;
  make_iq = λ type ns d. (some d.0, (suc d.0, (none, ns) ∷ d.1));
  insert-null = insert_below-null;
  cdata-null = λ text len d. refl;
}

abbrev start_state : Docs journal
start_state = record { doc = (1, []); queries = 0; stanzas = 4 }

abbrev title : Bytes
title = codes "title"

createv-create_example :
    (node_createv journal 3 none none (some title) (some (title ∷ title ∷ [])) start_state
      ≡ node_create journal none none (some title) (title ∷ title ∷ []) start_state)
    × (node_createv journal 3 none none (some title) none start_state
        ≡ node_create journal none none (some title) [] start_state)
createv-create_example =
    createv-create journal 3 none none (some title) (title ∷ title ∷ []) start_state (omega arith)

node_create-returns_example :
    returns (node_create journal none none (some title) (title ∷ title ∷ []) start_state)
    ≡ (length (title ∷ title ∷ []) % 2 == 0)
node_create-returns_example =
    node_create-returns journal none none (some title) (title ∷ title ∷ []) start_state
      (omega arith)

-- A logger with a handler, at noon.
abbrev logger : Log
logger = record {
  parent = Object.init (some log_free);
  name = some (codes "n");
  level = info;
  handler = some 3;
  use_colors = pos 0;
  handler_data = 0;
  date_format = some (codes "%X");
}

abbrev noon : Env
noon = record {
  mem = λ n. true;
  stamp = λ format. codes "12:00";
  answer = λ h level text user. true;
}

abbrev out : Out
out = record { stderr = []; handled = []; blocks = 4 }

full-entry_example :
    full (codes "12:00") (codes "n") (codes "hi")
    ≡ ok (entry (codes "12:00") (codes "n") (codes "hi"))
full-entry_example = full-entry (codes "12:00") (codes "n") (codes "hi") refl

log_at-outcome_example :
    log_at error 3 noon logger (c99 (codes "hi")) out
    ≡ some (ok (outcome noon logger error (codes "12:00") (codes "n") (codes "hi") (some 3) out))
log_at-outcome_example =
    log_at-outcome noon logger error (codes "12:00") (codes "n") (codes "hi") (codes "%X") (some 3)
      3 out refl (λ n. refl) (omega arith) (omega arith) refl refl refl refl refl
