-- ===== src/Projection/Joins/Done.antt =====
-- What it is for a parallel, a map or an actor-owning compound above a leaf to be done, and that
-- `findCompletedParallel` has every such scope among its candidates.
use hyperchart.Prelude.{
  Bool-cases, List, Option, Option-cases, [], all, any, arith, inl, inr, keep, length, none, not,
  refl, some, subst, suc, true, zero, ℕ, ◌*◌, ◌++◌, ◌||◌, ◌∷◌, ◌≡◌, ◌≤◌,
}
use hyperchart.Chart.{
  ActorDeclaration, Chart, MapState, State, Transition, compound, is_final_state, map_state,
  node_at, parallel,
}
use hyperchart.Dict.{Dict, values}
use hyperchart.Entry.{owns_actors}
use hyperchart.Paths.{parent_path, strip_last_key, template_path, under_scope}
use hyperchart.Projection.{Endpoint, Projection, actor_endpoints}
use hyperchart.Projection.Joins.{
  Join, add_join, has_scope, is_stopped, join_candidates, join_of, joins_above, owned_under,
  owner_is, spawned_count,
}
use hyperchart.Result.{>>=-eq-ok, ok, ok_injective}
use hyperchart.Text.{Str, str_eq, str_eq_refl, str_eq→eq}

-- The paths above a path, on the chain of its parents.
pub data Above (a : Str) : Str → Type 0 where
  at_parent : {p : Str} → parent_path p ≡ some a → Above a p
  further : {p q : Str} → parent_path p ≡ some q → Above a q → Above a p

-- The actors that are owned under a scope, and those that its declaration asks for.
abbrev pub actors_under : Projection → Str → List Endpoint
actors_under q scope = keep (λ (e : Endpoint). owned_under e.owner scope) (actor_endpoints q)

abbrev pub declared_at : Chart → Str → List ActorDeclaration
declared_at ast scope =
    keep (λ (d : ActorDeclaration). owner_is d.owner (template_path scope)) (values ast.actors)

-- A scope is finished: there are active leaves under it, all of them final; as many actors were created
-- under it as are declared for its instances, and all of them have stopped.
pub record IsFinished (ast : Chart) (q : Projection) (scope : Str) : Type 0 where
  pub reached : any (λ (l : Str). under_scope l scope) q.active_leaves ≡ true
  pub finals :
      all (λ (l : Str). not (under_scope l scope) || is_final_state (node_at ast l)) q.active_leaves
      ≡ true
  pub created :
      length (declared_at ast scope) * spawned_count scope q ≤ length (actors_under q scope)
  pub stops :
      all
        (λ (e : Endpoint). not (owned_under e.owner scope) || is_stopped e.status)
        (actor_endpoints q)
      ≡ true

-- What is done above a leaf: a parallel, a map with all of its instances, or a compound that owns actors,
-- rests on a final child and has none of its actors at work.
pub data IsJoinable (ast : Chart) (q : Projection) (leaf : Str) : Type 0 where
  of_parallel :
      (a : Str) (regions : List Str) (ts : Dict Transition) (on_done : Str)
      → Above a leaf
      → node_at ast a ≡ some (parallel regions ts on_done)
      → IsFinished ast q a
      → IsJoinable ast q leaf
  of_map :
      (a : Str) (m : MapState)
      → Above a leaf
      → node_at ast a ≡ some (map_state m)
      → IsFinished ast q (strip_last_key a)
      → IsJoinable ast q leaf
  of_compound :
      (a initial : Str) (ts : Dict Transition) (on_done : Str)
      → is_final_state (node_at ast leaf) ≡ true
      → parent_path leaf ≡ some a
      → node_at ast a ≡ some (compound initial ts on_done)
      → owns_actors ast a ≡ true
      → all (λ (e : Endpoint). not (owner_is e.owner a) || is_stopped e.status) (actor_endpoints q)
        ≡ true
      → IsJoinable ast q leaf

-- Candidates, once found, stay.
has_scope-append_one :
    (s : Str) (js : List Join) (j : Join)
    → has_scope s (js ++ j ∷ []) ≡ (has_scope s js || str_eq j.scope s)
has_scope-append_one s [] j = ground arith
has_scope-append_one s (k ∷ js) j = ground (arith, has_scope-append_one s js j)

add_join_keeps :
    (s : Str) (o : Option Join) (js : List Join)
    → has_scope s js ≡ true
    → has_scope s (add_join o js) ≡ true
add_join_keeps s none js there = there
add_join_keeps s (some j) js there = elim (Bool-cases (has_scope j.scope js)) [
  | inl old ↦ rw old there
  | inr new ↦ rw new (rw (has_scope-append_one s js j) (rw there refl))
]

add_join_own : (j : Join) (js : List Join) → has_scope j.scope (add_join (some j) js) ≡ true
add_join_own j js = elim (Bool-cases (has_scope j.scope js)) [
  | inl old ↦ rw old old
  | inr new ↦ rw new (rw (has_scope-append_one j.scope js j) (rw (new, str_eq_refl j.scope) refl))
]

joins_above_keeps :
    (ast : Chart) (s : Str) (fuel : ℕ) (p : Option Str) (js out : List Join)
    → has_scope s js ≡ true
    → joins_above ast fuel p js ≡ ok out
    → has_scope s out ≡ true
unfolding joins_above
joins_above_keeps ast s fuel none js out there h =
    subst (λ (ks : List Join). has_scope s ks ≡ true) (ok_injective h) there
joins_above_keeps ast s zero (some p) js out there h = cc
joins_above_keeps ast s (suc fuel) (some p) js out there h = elim (Option-cases (node_at ast p)) [
  | inl q ↦ absurd (let k = rw (q, joins_above) at h in cc)
  | inr (node, q) ↦
      joins_above_keeps ast s fuel (parent_path p) (add_join (join_of p node) js) out
        (add_join_keeps s (join_of p node) js there) (rw (q, joins_above) at h)
]

join_candidates_keeps :
    (ast : Chart) (s : Str) (ls : List Str) (js out : List Join)
    → has_scope s js ≡ true
    → join_candidates ast ls js ≡ ok out
    → has_scope s out ≡ true
unfolding join_candidates
join_candidates_keeps ast s [] js out there h =
    subst (λ (ks : List Join). has_scope s ks ≡ true) (ok_injective h) there
join_candidates_keeps ast s (l ∷ ls) js out there h =
    let (found, walked, more) =
      >>=-eq-ok (joins_above ast (suc (length l)) (parent_path l) js) _ h in
    join_candidates_keeps ast s ls found out
      (joins_above_keeps ast s (suc (length l)) (parent_path l) js found there walked) more

chain_found :
    (ast : Chart) (a p : Str) (n : State) (j : Join) (fuel : ℕ) (js out : List Join)
    → Above a p
    → node_at ast a ≡ some n
    → join_of a n ≡ some j
    → joins_above ast fuel (parent_path p) js ≡ ok out
    → has_scope j.scope out ≡ true
unfolding joins_above
chain_found ast a p n j zero js out (at_parent up) at stands h = absurd (let k = rw up at h in cc)
chain_found ast a p n j (suc fuel) js out (at_parent up) at stands h =
    joins_above_keeps ast j.scope fuel (parent_path a) (add_join (join_of a n) js) out
      (rw stands (add_join_own j js)) (rw (at, joins_above) at (rw up at h))
chain_found ast a p n j zero js out (further {q = q} up above) at stands h =
    absurd (let k = rw up at h in cc)
chain_found ast a p n j (suc fuel) js out (further {q = q} up above) at stands h =
    elim (Option-cases (node_at ast q)) [
      | inl e ↦ absurd (let k = rw (e, joins_above) at (rw up at h) in cc)
      | inr (node, e) ↦
          chain_found ast a q n j fuel (add_join (join_of q node) js) out above at stands
            (rw (e, joins_above) at (rw up at h))
    ]

-- Whatever joins above an active leaf is a candidate.
pub join_candidates_found :
    (ast : Chart) (a leaf : Str) (n : State) (j : Join) (ls : List Str) (js out : List Join)
    → any (str_eq leaf) ls ≡ true
    → Above a leaf
    → node_at ast a ≡ some n
    → join_of a n ≡ some j
    → join_candidates ast ls js ≡ ok out
    → has_scope j.scope out ≡ true
unfolding join_candidates
join_candidates_found ast a leaf n j [] js out there above at stands h = cc
join_candidates_found ast a leaf n j (l ∷ ls) js out there above at stands h =
    let (found, walked, more) =
      >>=-eq-ok (joins_above ast (suc (length l)) (parent_path l) js) _ h in
    elim (Bool-cases (str_eq leaf l)) [
      | inl same ↦
          join_candidates_keeps ast j.scope ls found out
            (chain_found ast a l n j (suc (length l)) js found
              (subst (Above a) (str_eq→eq leaf l same) above) at stands walked)
            more
      | inr other ↦
          join_candidates_found ast a leaf n j ls found out (ground arith) above at stands more
    ]
