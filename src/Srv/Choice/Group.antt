-- ===== src/Srv/Choice/Group.antt =====
-- src/srv.c: the choice among the targets of one priority, from the sum of their weights to the
-- list without them.
use taningia.Base.{
  ℕ, zero, suc, ◌+◌, ◌<◌, ◌≤◌, ◌≡◌, refl, sym, ap, ◌∙◌, true, none, some, List, [], ◌∷◌, ◌++◌, leb,
  arith, length, append_assoc, append-nil, length-append,
}
use mathlib.Core.Path.{subst}
use mathlib.Core.List.{Perm, perm_middle}
use mathlib.Core.List.Perm
use taningia.Base.Int.{pos}
use taningia.Base.Run.{ok}
use taningia.Srv.Choice.{pick, Targets, Draw, State, minus, choose, choose_all}
use taningia.Srv.Choice.Walk.{weight_in, total, level, pick-Lands}
use taningia.Srv.Choice.Removal.{
  distinct_data, distinct_data-middle, level-middle, total-middle, length-middle, copies-middle,
}
use taningia.Srv.Choice.Winners.{Open, attach-Forward, last_of-snoc}
use taningia.TaList.{Pointer}
use taningia.TaList.Chain.{Entry, Chain, distinct}
use taningia.TaList.Middle.{Chain-at, distinct-middle, head_of}
use taningia.TaList.Reading.{last_of}
use taningia.TaList.Sort.Segments.{
  copies, copies-append, copies-mentions, Forward, Forward-frame, Chain-frame,
}
use taningia.TaList.Unlinking.{remove-Chain}

-- The list still holds the entries `xs`, no two with one address or one target; and `outs` are the
-- winners, which are no longer in it. The last winner keeps the pointer `behind` that it had.
pub record Ready (s : State) (outs xs : List Entry) : Type 0 where
  pub chain : Chain s.heap none s.targets xs
  pub addresses : distinct xs ≡ true
  pub data_apart : distinct_data xs ≡ true
  pub behind : Pointer
  pub winners : Forward s.heap s.out outs behind
  pub last : s.tail ≡ last_of outs none
  pub opened : Open outs behind
  pub closed : Open xs behind
  pub once : (x : ℕ) → copies x outs + copies x xs ≤ 1

-- Every random number is at most the sum: `rand` does not return `RAND_MAX`.
abbrev pub InRange : Draw → Type 0
InRange draw = (k sum : ℕ) → (r : ℕ) × (draw k (pos sum) ≡ pos r) × (r ≤ sum)

-- The pointer of a node that is taken out, where nothing is left.
head-Open : (ys ws : List Entry) → Open (ys ++ ws) (head_of ws)
head-Open [] [] = refl
head-Open [] ((a, d) ∷ ws) = tt
head-Open (y ∷ ys) ws = tt

snoc-Open : (outs : List Entry) (x : Entry) (r : Pointer) → Open (outs ++ x ∷ []) r
snoc-Open [] x r = tt
snoc-Open (y ∷ outs) x r = tt

-- One winner, where the walk ends at `a`.
choose_at :
    (outs ys ws : List Entry) (a d fuel : ℕ) (targets : Targets) (draw : Draw) (s : State) (sum : ℕ)
    → Ready s outs (ys ++ (a, d) ∷ ws)
    → length ys < fuel
    → pick fuel s.heap targets s.targets (draw s.drawn (pos sum)) ≡ ok (a, weight_in (targets d))
    → (s' : State) × (choose fuel targets draw (pos sum) s ≡ ok (s', weight_in (targets d)))
      × Ready s' (outs ++ (a, d) ∷ []) (ys ++ ws)
unfolding choose copies
choose_at outs ys ws a d fuel targets draw s sum ready f picked =
    let (b, at) = Chain-at ys ws s.heap none s.targets a d ready.chain in
    let (u', a_away) = distinct-middle ys ws a d ready.addresses in
    let (ud', no_d) = distinct_data-middle ys ws a d ready.data_apart in
    let (h, p, removed, c', same, frame) =
      remove-Chain ys ws fuel s.heap s.targets a d ready.chain ready.addresses no_d f in
    let once : (x : ℕ) → copies x outs + (copies x ((a, d) ∷ []) + copies x (ys ++ ws)) ≤ 1 =
      λ x. omega (arith, ready.once x, copies-middle x ys ws a d) in
    let winners : Forward h s.out outs ready.behind =
      Forward-frame outs s.heap h s.out ready.behind ready.winners
        (λ x c. frame x (copies-mentions x (ys ++ (a, d) ∷ ws) (omega (arith, ready.once x)))) in
    let self : copies a ((a, d) ∷ []) ≡ 1 = ground arith in
    let fresh : copies a outs ≡ 0 = omega (arith, once a, self) in
    let (h', out, attached, winners', frame') =
      attach-Forward outs h s.out s.tail ready.behind (head_of ws) b a d winners ready.last
        ready.opened (same ∙ at) fresh (λ x. omega (arith, once x)) in
    (
      record { heap = h'; targets = p; out = out; tail = some a; drawn = suc s.drawn },
      rw (picked, at, removed, attached) refl,
      record {
        chain = Chain-frame (ys ++ ws) h h' none p c' (λ x c. frame' x (omega (arith, once x)));
        addresses = u';
        data_apart = ud';
        behind = head_of ws;
        winners = winners';
        last = sym (last_of-snoc outs none a d);
        opened = snoc-Open outs (a, d) (head_of ws);
        closed = head-Open ys ws;
        once = λ x. omega (arith, once x, copies-append x outs ((a, d) ∷ []));
      },
    )

minus_lem : (w n : ℕ) → minus (pos (w + n)) w ≡ pos n
minus_lem w n = let fits : leb w (w + n) ≡ true = ground arith in rw fits (ap pos (omega arith))

-- All the winners of a group.
pub choose_all-Ready :
    (n : ℕ) (outs group rest : List Entry) (fuel v : ℕ) (targets : Targets) (draw : Draw)
    (s : State)
    → Ready s outs (group ++ rest)
    → length group ≡ n
    → n ≤ fuel
    → level targets v group ≡ true
    → InRange draw
    → (s' : State) × (us : List Entry) × (choose_all n fuel targets draw
          (pos (total targets group))
          s
        ≡ ok s')
      × Ready s' (outs ++ us) rest
      × Perm us group
unfolding choose_all
choose_all-Ready zero outs [] rest fuel v targets draw s ready len f l range =
    (s, [], refl, rw (append-nil outs) ready, Perm.rfl)
choose_all-Ready zero outs (x ∷ group) rest fuel v targets draw s ready len f l range =
    absurd (omega arith)
choose_all-Ready (suc n) outs group rest fuel v targets draw s ready len f l range =
    let (r, drawn, small) = range s.drawn (total targets group) in
    let (ys, a, d, zs, split, found) =
      pick-Lands group rest fuel s.heap targets none s.targets v r ready.chain l small (omega arith)
        (omega arith) in
    let ready' : Ready s outs (ys ++ (a, d) ∷ (zs ++ rest)) =
      subst (Ready s outs) (ap (λ g. g ++ rest) split ∙ append_assoc ys ((a, d) ∷ zs) rest) ready in
    let w : ℕ = weight_in (targets d) in
    let count : suc (length (ys ++ zs)) ≡ suc n =
      sym (length-middle ys zs (a, d)) ∙ sym (ap length split) ∙ len in
    let (l', at) = level-middle targets v ys zs a d (ap (level targets v) (sym split) ∙ l) in
    let sums : total targets group ≡ w + total targets (ys ++ zs) =
      ap (total targets) split ∙ total-middle targets ys zs a d in
    let (s1, chosen, ready1) =
      choose_at outs ys (zs ++ rest) a d fuel targets draw s (total targets group) ready'
        (omega (arith, length-append ys zs, count))
        (ap (pick fuel s.heap targets s.targets) drawn ∙ found) in
    let left : minus (pos (total targets group)) w ≡ pos (total targets (ys ++ zs)) =
      ap (λ k. minus (pos k) w) sums ∙ minus_lem w (total targets (ys ++ zs)) in
    let (s2, us, all, ready2, moved) =
      choose_all-Ready n (outs ++ (a, d) ∷ []) (ys ++ zs) rest fuel v targets draw s1
        (subst (Ready s1 (outs ++ (a, d) ∷ [])) (sym (append_assoc ys zs rest)) ready1)
        (omega (arith, count)) (omega arith) l' range in
    let whole : Perm ((a, d) ∷ us) (ys ++ (a, d) ∷ zs) =
      Perm.trans (Perm.cons (a, d) moved) (Perm.symm (perm_middle {a = (a, d)} ys zs)) in
    (
      s2,
      (a, d) ∷ us,
      rw (chosen, left) all,
      subst (λ o. Ready s2 o rest) (append_assoc outs ((a, d) ∷ []) us) ready2,
      subst (Perm ((a, d) ∷ us)) (sym split) whole,
    )
