-- ===== src/Machine/Invokes.antt =====
-- What the machine decides to start, replay accepts: `dueInvokes` on the chart's leaves against the
-- invoke records of projection.ts.
use hyperchart.Prelude.{
  All, All-append, All-map, Bool, List, Option, [], any, false, if◌then◌else◌, none, or_true, refl,
  some, sym, true, ℕ, ◌∷◌, ◌≡◌,
}
use hyperchart.Chart.{
  Action, ActionState, Chart, State, action_state, compound, final, map_state, messaging, node_at,
  parallel, region,
}
use hyperchart.Dict.Laws.{Entries, Entries-lookup}
use hyperchart.Machine.{concurrency_blocked_action_leaves, leaf_invoke, leaf_invokes, node_invoke}
use hyperchart.Paths.{template_path}
use hyperchart.Projection.{Projection, Run}
use hyperchart.Projection.Endpoints.Messages.{named}
use hyperchart.Projection.Moves.{assert_active_action_uid, is_action_active, is_active_leaf}
use hyperchart.Projection.Pending.{has_pending}
use hyperchart.Projection.Records.{apply_invoke, on_projection, start_visit}
use hyperchart.Projection.Refs.{action_state_at}
use hyperchart.Result.{ok}
use hyperchart.Text.{Str, eq→str_eq, str_eq, str_eq_refl}
use hyperchart.Uid.{ActionUid, matches_declared_uid}

-- The declared identity of an action names the path of its state, as normalization writes it.
abbrev pub NamesItself : Str → State → Type 0
NamesItself path (action_state s) = s.action.uid.state ≡ path
NamesItself path _ = Unit

abbrev pub Replayed : Chart → Projection → Str → Action → ℕ → ℕ → Run → ActionUid → Type 0
Replayed ast p session d timestamp seq r u =
    apply_invoke ast u session (some d) timestamp seq (record r { projection = p })
    ≡ ok (on_projection (start_visit u session d timestamp seq) (record r { projection = p }))

module _ (ast : Chart) (p : Projection) (session : Str) (d : Action) (timestamp seq : ℕ) (r : Run)
    (named : Entries NamesItself ast.states) where
  own_name :
      (leaf : Str) (s : ActionState)
      → node_at ast leaf ≡ some (action_state s)
      → s.action.uid.state ≡ template_path leaf
  unfolding node_at
  own_name leaf s at =
      Entries-lookup NamesItself (template_path leaf) (action_state s) ast.states named at

  action_found :
      (leaf : Str) (s : ActionState)
      → node_at ast leaf ≡ some (action_state s)
      → action_state_at ast leaf ≡ some s
  unfolding action_state_at
  action_found leaf s at = rw (at, action_state_at) refl

  names_match :
      (leaf : Str) (s : ActionState)
      → node_at ast leaf ≡ some (action_state s)
      → matches_declared_uid (record s.action.uid { state = leaf }) s.action.uid ≡ true
  unfolding matches_declared_uid
  names_match leaf s at = rw (str_eq_refl s.action.uid.chart) (
      rw (eq→str_eq (template_path leaf) s.action.uid.state (sym (own_name leaf s at)))
        (str_eq_refl s.action.uid.action))

  asserted :
      (leaf : Str) (s : ActionState)
      → node_at ast leaf ≡ some (action_state s)
      → assert_active_action_uid ast leaf (record s.action.uid { state = leaf }) ≡ ok tt
  unfolding assert_active_action_uid
  asserted leaf s at = rw (action_found leaf s at) (rw (names_match leaf s at) refl)

  invoke_accepted :
      (leaf : Str) (s : ActionState)
      → is_active_leaf p leaf ≡ true
      → node_at ast leaf ≡ some (action_state s)
      → has_pending (record s.action.uid { state = leaf }) p.pending ≡ false
      → Replayed ast p session d timestamp seq r (record s.action.uid { state = leaf })
  unfolding apply_invoke is_action_active
  invoke_accepted leaf s active at free = rw active (rw (asserted leaf s at) (rw free refl))

  node_accepted :
      (blocked : List Str) (leaf : Str) (o : Option State)
      → is_active_leaf p leaf ≡ true
      → node_at ast leaf ≡ o
      → All (Replayed ast p session d timestamp seq r) (node_invoke p blocked leaf o)
  node_accepted blocked leaf none active at = tt
  node_accepted blocked leaf (some (action_state s)) active at =
      by_wait (any (str_eq leaf) blocked)
        (has_pending (record s.action.uid { state = leaf }) p.pending) refl
    where
      by_wait :
          (b c : Bool)
          → has_pending (record s.action.uid { state = leaf }) p.pending ≡ c
          → All
              (Replayed ast p session d timestamp seq r)
              (if b then [] else if c then [] else record s.action.uid { state = leaf } ∷ [])
      by_wait true c e = tt
      by_wait false true e = tt
      by_wait false false free = (invoke_accepted leaf s active at free, tt)
  node_accepted blocked leaf (some (final is_failed)) active at = tt
  node_accepted blocked leaf (some (compound initial ts on_done)) active at = tt
  node_accepted blocked leaf (some (region initial ts)) active at = tt
  node_accepted blocked leaf (some (parallel regions ts on_done)) active at = tt
  node_accepted blocked leaf (some (map_state m)) active at = tt
  node_accepted blocked leaf (some (messaging m)) active at = tt

  leaves_accepted :
      (blocked leaves : List Str)
      → All (λ (l : Str). is_active_leaf p l ≡ true) leaves
      → All (Replayed ast p session d timestamp seq r) (leaf_invokes ast p blocked leaves)
  unfolding leaf_invokes
  leaves_accepted blocked [] active = tt
  leaves_accepted blocked (leaf ∷ leaves) (here, later) =
      All-append (Replayed ast p session d timestamp seq r) (leaf_invoke ast p blocked leaf)
        (leaf_invokes ast p blocked leaves)
        (node_accepted blocked leaf (node_at ast leaf) here refl)
        (leaves_accepted blocked leaves later)

members_there : (ls : List Str) → All (λ (l : Str). any (str_eq l) ls ≡ true) ls
members_there [] = tt
members_there (l ∷ ls) = (
  rw (str_eq_refl l) refl,
  All-map (λ (k : Str). any (str_eq k) ls ≡ true) (λ (k : Str). any (str_eq k) (l ∷ ls) ≡ true)
      (λ k there. rw there (or_true (str_eq k l))) ls (members_there ls),
)

-- Whatever the machine decides to start on the leaves of a chart, replay accepts: none of these invokes is
-- skipped or refused, and each opens a visit of its action. The condition: the declared identity of an
-- action names the path of its state.
pub due_invokes-apply_invoke :
    (ast : Chart) (p : Projection) (session : Str) (d : Action) (timestamp seq : ℕ) (r : Run)
    → Entries NamesItself ast.states
    → All
        (Replayed ast p session d timestamp seq r)
        (leaf_invokes ast p (concurrency_blocked_action_leaves ast p) p.active_leaves)
due_invokes-apply_invoke ast p session d timestamp seq r named =
    leaves_accepted ast p session d timestamp seq r named (concurrency_blocked_action_leaves ast p)
      p.active_leaves (members_there p.active_leaves)
