-- ===== src/Srv/Choice/Removal.antt =====
-- src/srv.c: what is known of the entries of a list without one of them.
use taningia.Base.{
  ℕ, suc, ◌+◌, ◌≡◌, refl, sym, ◌∙◌, Bool, true, false, not, ◌&&◌, List, [], ◌∷◌, ◌++◌, ◌==◌, arith,
  length,
}
use taningia.Srv.Choice.{Targets}
use taningia.Srv.Choice.Walk.{weight_in, has_priority, total, level}
use taningia.TaList.Sort.Segments.{copies, copies-append}
use taningia.TaList.Chain.{Entry}
use taningia.TaList.Unlinking.{lacks_datum}

-- No two entries have the same data.
unfoldable pub distinct_data : List Entry → Bool
unfolding lacks_datum
distinct_data [] = true
distinct_data ((a, d) ∷ xs) = lacks_datum d xs && distinct_data xs

lacks_datum-middle :
    (x : ℕ) (ys zs : List Entry) (a d : ℕ)
    → lacks_datum x (ys ++ (a, d) ∷ zs) ≡ (not (d == x) && lacks_datum x (ys ++ zs))
unfolding lacks_datum
lacks_datum-middle x [] zs a d = refl
lacks_datum-middle x ((e, de) ∷ ys) zs a d = rw (lacks_datum-middle x ys zs a d) (ground arith)

pub distinct_data-middle :
    (ys zs : List Entry) (a d : ℕ)
    → distinct_data (ys ++ (a, d) ∷ zs) ≡ true
    → (distinct_data (ys ++ zs) ≡ true) × (lacks_datum d ys ≡ true)
unfolding distinct_data lacks_datum
distinct_data-middle [] zs a d u = (ground arith, refl)
distinct_data-middle ((e, de) ∷ ys) zs a d u =
    let (rest, away) = distinct_data-middle ys zs a d (ground arith) in
    let whole : (not (d == de) && lacks_datum de (ys ++ zs)) ≡ true =
      sym (lacks_datum-middle de ys zs a d) ∙ ground arith in
    let here : lacks_datum de (ys ++ zs) ≡ true = ground arith in
    let other : (de == d) ≡ false = ground arith in (rw (here, rest) refl, rw (other, away) refl)

pub level-middle :
    (targets : Targets) (v : ℕ) (ys zs : List Entry) (a d : ℕ)
    → level targets v (ys ++ (a, d) ∷ zs) ≡ true
    → (level targets v (ys ++ zs) ≡ true) × (has_priority v (targets d) ≡ true)
unfolding level
level-middle targets v [] zs a d l = (ground arith, ground arith)
level-middle targets v ((e, de) ∷ ys) zs a d l =
    let (rest, at) = level-middle targets v ys zs a d (ground arith) in
    let here : has_priority v (targets de) ≡ true = ground arith in (rw (here, rest) refl, at)

pub total-middle :
    (targets : Targets) (ys zs : List Entry) (a d : ℕ)
    → total targets (ys ++ (a, d) ∷ zs) ≡ weight_in (targets d) + total targets (ys ++ zs)
unfolding total
total-middle targets [] zs a d = refl
total-middle targets ((e, de) ∷ ys) zs a d = rw (total-middle targets ys zs a d) (omega arith)

pub length-middle :
    (ys zs : List Entry) (x : Entry) → length (ys ++ x ∷ zs) ≡ suc (length (ys ++ zs))
length-middle [] zs x = refl
length-middle (y ∷ ys) zs x = rw (length-middle ys zs x) refl

pub copies-middle :
    (x : ℕ) (ys zs : List Entry) (a d : ℕ)
    → copies x (ys ++ (a, d) ∷ zs) ≡ copies x ((a, d) ∷ []) + copies x (ys ++ zs)
unfolding copies
copies-middle x ys zs a d = omega (arith, copies-append x ys ((a, d) ∷ zs), copies-append x ys zs)
