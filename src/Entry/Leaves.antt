-- ===== src/Entry/Leaves.antt =====
-- What is entered are leaves.
use hyperchart.Prelude.{
  All, Bool, Bool-cases, List, Option, Option-cases, [], false, inl, inr, none, not, refl, some,
  subst, suc, true, zero, ℕ, ◌∷◌, ◌≡◌,
}
use hyperchart.Chart.{
  Chart, State, action_state, compound, final, map_state, messaging, node_at, parallel, region,
}
use hyperchart.Entry.{enter_container, enter_final, enter_node, enter_state, is_some, owns_actors}
use hyperchart.Paths.{child_path, last_segment_key, parent_path, sibling_path}
use hyperchart.Result.{Result, flat_map-All, ok, ok_injective}
use hyperchart.Text.{Str}

-- A path rests if its state is an action, a messaging state, a final, or a map not yet spawned.
abbrev pub rests : Str → State → Bool
rests p (action_state s) = true
rests p (messaging m) = true
rests p (final is_failed) = true
rests p (map_state m) = not (is_some (last_segment_key p))
rests p _ = false

abbrev pub is_leaf : Chart → Str → Bool
is_leaf ast p = elim (node_at ast p) [ none ↦ false | some node ↦ rests p node ]

abbrev pub Leaves : Chart → List Str → Type 0
Leaves ast ls = All (λ (l : Str). is_leaf ast l ≡ true) ls

abbrev EntersLeaves : Chart → (Str → Result (List Str)) → Type 0
EntersLeaves ast go = (q : Str) (ls : List Str) → go q ≡ ok ls → Leaves ast ls

module _ (ast : Chart) (go : Str → Result (List Str)) (ih : EntersLeaves ast go) where
  resting :
      (p : Str) (node : State) (ls : List Str)
      → node_at ast p ≡ some node
      → rests p node ≡ true
      → ok (p ∷ []) ≡ ok ls
      → Leaves ast ls
  resting p node ls e r h = subst (Leaves ast) (ok_injective h) (rw (e, is_leaf) r, tt)

  enter_container-Leaves :
      (p parent : Str) (is_failed : Bool) (c : State) (ls : List Str)
      → node_at ast p ≡ some (final is_failed)
      → enter_container go ast p parent c ≡ ok ls
      → Leaves ast ls
  unfolding enter_container
  enter_container-Leaves p parent is_failed (compound initial transitions on_done) ls e h =
      elim (Bool-cases (owns_actors ast parent)) [
        | inl owns ↦ resting p (final is_failed) ls e refl (rw owns at h)
        | inr free ↦ ih (sibling_path parent on_done) ls (rw free at h)
      ]
  enter_container-Leaves p parent is_failed _ ls e h = resting p (final is_failed) ls e refl h

  enter_final-Leaves :
      (p : Str) (parent : Option Str) (is_failed : Bool) (ls : List Str)
      → node_at ast p ≡ some (final is_failed)
      → enter_final go ast p parent ≡ ok ls
      → Leaves ast ls
  unfolding enter_final
  enter_final-Leaves p none is_failed ls e h = resting p (final is_failed) ls e refl h
  enter_final-Leaves p (some parent) is_failed ls e h = elim (Option-cases (node_at ast parent)) [
    | inl missing ↦ absurd (let k = rw (missing, enter_final) at h in cc)
    | inr (c, found) ↦
        enter_container-Leaves p parent is_failed c ls e (rw (found, enter_final) at h)
  ]

  enter_node-Leaves :
      (p : Str) (node : State) (ls : List Str)
      → node_at ast p ≡ some node
      → enter_node go ast p node ≡ ok ls
      → Leaves ast ls
  unfolding enter_node
  enter_node-Leaves p (compound initial transitions on_done) ls e h = ih (child_path p initial) ls h
  enter_node-Leaves p (region initial transitions) ls e h = ih (child_path p initial) ls h
  enter_node-Leaves p (map_state m) ls e h = elim (Option-cases (last_segment_key p)) [
    | inl bare ↦ resting p (map_state m) ls e (rw bare refl) (rw (bare, enter_node) at h)
    | inr (key, keyed) ↦ ih (child_path p m.initial) ls (rw (keyed, enter_node) at h)
  ]
  enter_node-Leaves p (parallel regions transitions on_done) ls e h =
      flat_map-All (λ (l : Str). is_leaf ast l ≡ true) (λ (r : Str). go (child_path p r)) regions ls
        (λ r zs k. ih (child_path p r) zs k) h
  enter_node-Leaves p (final is_failed) ls e h =
      enter_final-Leaves p (parent_path p) is_failed ls e h
  enter_node-Leaves p (action_state s) ls e h = resting p (action_state s) ls e refl h
  enter_node-Leaves p (messaging m) ls e h = resting p (messaging m) ls e refl h

-- Whatever is entered, the paths that it resolves to are leaves of the chart: never a compound, a
-- region, a parallel, or an instance of a map.
pub enter_state-Leaves :
    (ast : Chart) (fuel : ℕ) (p : Str) (ls : List Str)
    → enter_state ast fuel p ≡ ok ls
    → Leaves ast ls
unfolding enter_state
enter_state-Leaves ast zero p ls h = cc
enter_state-Leaves ast (suc fuel) p ls h = elim (Option-cases (node_at ast p)) [
  | inl missing ↦ absurd (let k = rw (missing, enter_state) at h in cc)
  | inr (node, found) ↦
      enter_node-Leaves ast (enter_state ast fuel) (enter_state-Leaves ast fuel) p node ls found
        (rw (found, enter_state) at h)
]
