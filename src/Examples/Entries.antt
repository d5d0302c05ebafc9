-- ===== src/Examples/Entries.antt =====
-- A chart with a ranked entry chain: a compound, whose initial state is an action.
use hyperchart.Prelude.{
  Bool-cases, Option, [], arith, inl, inr, none, refl, some, sym, ℕ, ◌<◌, ◌∙◌, ◌∷◌, ◌≡◌, ◌⊎◌,
}
use hyperchart.Chart.{Chart, State, compound, node_at, script}
use hyperchart.Dict.{Dict, lookup}
use hyperchart.Entry.{enter_state}
use hyperchart.Entry.Settles.{IsRanked, enter_state-Settled, entry_successors}
use hyperchart.Examples.{work_of}
use hyperchart.Paths.{child_path, template_path, template_segment}
use hyperchart.Paths.Tree.{template_path-child_path}
use hyperchart.Result.{Settled}
use hyperchart.Text.{Str, str_eq, str_eq→eq, text}

abbrev states_of_small : Dict State
states_of_small =
    (text "c", compound (text "w") [] (text "z"))
    ∷ (text "c.w", work_of (text "c.w") script (text "z"))
    ∷ []

abbrev small : Chart
small = record {
  id = text "c";
  initial = text "c";
  states = states_of_small;
  actors = [];
  completions = [];
}

abbrev rank_of_node : Option State → ℕ
rank_of_node (some (compound initial transitions on_done)) = 1
rank_of_node _ = 0

abbrev small_rank : Str → ℕ
small_rank p = rank_of_node (node_at small p)

-- Each of the two states is what the lookup of a path with its template gives.
node_of_small :
    (p : Str)
    → (node_at small p ≡ some (compound (text "w") [] (text "z"))) × (template_path p ≡ text "c")
      ⊎ ((node_at small p ≡ some (work_of (text "c.w") script (text "z")))
          ⊎ (node_at small p ≡ none))
unfolding node_at lookup
node_of_small p = elim (Bool-cases (str_eq (text "c") (template_path p))) [
  | inl t ↦ inl (rw t refl, sym (str_eq→eq (text "c") (template_path p) t))
  | inr f ↦ inr (elim (Bool-cases (str_eq (text "c.w") (template_path p))) [
    | inl t ↦ inl (rw (f, t) refl)
    | inr g ↦ inr (rw (f, g) refl)
  ])
]

child_of_small :
    (p : Str)
    → template_path p ≡ text "c"
    → node_at small (child_path p (text "w")) ≡ some (work_of (text "c.w") script (text "z"))
unfolding node_at lookup child_path template_segment
child_of_small p e =
    let t : template_path (child_path p (text "w")) ≡ text "c.w" =
      template_path-child_path p (text "w") refl ∙ rw e refl in
    rw t refl

small-IsRanked : IsRanked small small_rank
small-IsRanked = record {
  falls = λ p. elim (node_of_small p) [
    | inl (node, e) ↦ rw (node, entry_successors) (rw (child_of_small p e) (omega arith), tt)
    | inr (inl node) ↦ rw (node, entry_successors) tt
    | inr (inr node) ↦ rw (node, entry_successors) tt
  ];
}

rank_of_c : small_rank (text "c") < 2
unfolding node_at lookup template_path
rank_of_c = omega arith

enter_state-Settled_example : Settled (enter_state small 2 (text "c"))
enter_state-Settled_example =
    enter_state-Settled small small_rank small-IsRanked 2 (text "c") rank_of_c
