-- ===== src/Entry/Settles.antt =====
-- Entering a state settles on leaves.
use hyperchart.Prelude.{
  All, All-map, All-map_list, Bool-cases, List, Option, Option-cases, [], arith, if◌then◌else◌, inl,
  inr, map, none, refl, some, suc, zero, ℕ, ◌<◌, ◌∷◌, ◌≡◌,
}
use hyperchart.Chart.{
  Chart, State, action_state, compound, final, map_state, messaging, node_at, parallel, region,
}
use hyperchart.Entry.{enter_container, enter_final, enter_node, enter_state, owns_actors}
use hyperchart.Paths.{child_path, last_segment_key, parent_path, sibling_path}
use hyperchart.Result.{Result, Settled, flat_map-Settled, ok}
use hyperchart.Text.{Str}

-- Where the entry of a path goes on: the initial child, the regions, or the onDone of the compound
-- that an entered final completes.
abbrev pub container_successors : Chart → Str → State → List Str
container_successors ast parent (compound initial transitions on_done) =
    if owns_actors ast parent then [] else sibling_path parent on_done ∷ []
container_successors ast parent _ = []

abbrev pub final_successors : Chart → Option Str → List Str
final_successors ast none = []
final_successors ast (some parent) = elim (node_at ast parent) [
  | none ↦ []
  | some container ↦ container_successors ast parent container
]

abbrev pub node_successors : Chart → Str → State → List Str
node_successors ast p (compound initial transitions on_done) = child_path p initial ∷ []
node_successors ast p (region initial transitions) = child_path p initial ∷ []
node_successors ast p (map_state m) = elim (last_segment_key p) [
  | none ↦ []
  | some key ↦ child_path p m.initial ∷ []
]
node_successors ast p (parallel regions transitions on_done) = map (child_path p) regions
node_successors ast p (final is_failed) = final_successors ast (parent_path p)
node_successors ast p (action_state s) = []
node_successors ast p (messaging m) = []

abbrev pub entry_successors : Chart → Str → List Str
entry_successors ast p = elim (node_at ast p) [ none ↦ [] | some node ↦ node_successors ast p node ]

-- The entry chain is acyclic: a number falls along it.
pub record IsRanked (ast : Chart) (rank : Str → ℕ) : Type 0 where
  pub falls : (p : Str) → All (λ (q : Str). rank q < rank p) (entry_successors ast p)

ok-Settled : {A : Type 0} {a : A} → Settled (ok a)
ok-Settled e = cc

module _ (ast : Chart) (go : Str → Result (List Str)) where
  abbrev GoSettles : List Str → Type 0
  GoSettles qs = All (λ (q : Str). Settled (go q)) qs

  enter_container-Settled :
      (p parent : Str) (c : State)
      → GoSettles (container_successors ast parent c)
      → Settled (enter_container go ast p parent c)
  unfolding enter_container
  enter_container-Settled p parent (compound initial transitions on_done) h =
      elim (Bool-cases (owns_actors ast parent)) [
        | inl owns ↦ rw owns ok-Settled
        | inr free ↦ rw free ((rw free at h).0)
      ]
  enter_container-Settled p parent _ h = ok-Settled

  enter_final-Settled :
      (p : Str) (parent : Option Str)
      → GoSettles (final_successors ast parent)
      → Settled (enter_final go ast p parent)
  unfolding enter_final
  enter_final-Settled p none h = ok-Settled
  enter_final-Settled p (some parent) h = elim (Option-cases (node_at ast parent)) [
    | inl missing ↦ rw (missing, enter_final) (λ e. cc)
    | inr (c, found) ↦
        rw (found, enter_final)
          (enter_container-Settled p parent c (rw (found, final_successors) at h))
  ]

  enter_node-Settled :
      (p : Str) (node : State)
      → GoSettles (node_successors ast p node)
      → Settled (enter_node go ast p node)
  unfolding enter_node
  enter_node-Settled p (compound initial transitions on_done) h = h.0
  enter_node-Settled p (region initial transitions) h = h.0
  enter_node-Settled p (map_state m) h = elim (Option-cases (last_segment_key p)) [
    | inl bare ↦ rw (bare, enter_node) ok-Settled
    | inr (key, keyed) ↦ rw (keyed, enter_node) ((rw (keyed, node_successors) at h).0)
  ]
  enter_node-Settled p (parallel regions transitions on_done) h =
      flat_map-Settled (λ (r : Str). go (child_path p r)) regions
        (All-map_list (λ (q : Str). Settled (go q)) (child_path p) regions h)
  enter_node-Settled p (final is_failed) h = enter_final-Settled p (parent_path p) h
  enter_node-Settled p (action_state s) h = ok-Settled
  enter_node-Settled p (messaging m) h = ok-Settled

module _ (ast : Chart) (rank : Str → ℕ) (ranked : IsRanked ast rank) where
  enter_state_by :
      (fuel : ℕ) (p : Str) (found : Option State)
      → node_at ast p ≡ found
      → All (λ (q : Str). Settled (enter_state ast fuel q)) (entry_successors ast p)
      → Settled (enter_state ast (suc fuel) p)
  unfolding enter_state
  enter_state_by fuel p none e h = rw (e, enter_state) (λ q. cc)
  enter_state_by fuel p (some node) e h =
      rw (e, enter_state)
        (enter_node-Settled ast (enter_state ast fuel) p node (rw (e, entry_successors) at h))

  -- Where a rank falls along the entry chain of a chart, entering a path with fuel above its rank does
  -- not run out of fuel.
  pub enter_state-Settled : (fuel : ℕ) (p : Str) → rank p < fuel → Settled (enter_state ast fuel p)
  enter_state-Settled zero p h = absurd (omega arith)
  enter_state-Settled (suc fuel) p h = enter_state_by fuel p (node_at ast p) refl (
      All-map (λ (q : Str). rank q < rank p) (λ (q : Str). Settled (enter_state ast fuel q))
        (λ q lower. enter_state-Settled fuel q (omega arith)) (entry_successors ast p)
        (ranked.falls p))
