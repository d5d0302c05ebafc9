-- ===== src/Machine/Seats.antt =====
-- Every active action in an instance of a limited map has a slot of the map, or waits.
use hyperchart.Prelude.{
  Bool, Bool-cases, List, [], any, ap, false, inl, inr, none, or_true, refl, some, subst, sym, true,
  ℕ, ◌||◌, ◌∙◌, ◌∷◌, ◌≡◌, ◌⊎◌,
}
use hyperchart.Chart.{Chart, node_at}
use hyperchart.Dict.{Dict}
use hyperchart.Machine.{
  Admission, add_key, admission, admit_leaf, admit_leaves, concurrency_blocked_action_leaves,
  is_action_node, keys_at, limit_of, occupy,
}
use hyperchart.Machine.Slots.{admit_leaf-Admits, enters, has-add_key, keys_at-occupy, stays, waits}
use hyperchart.Paths.{Instance, nearest_instance}
use hyperchart.Projection.{Projection}
use hyperchart.Text.{Str, str_eq, str_eq_refl, str_eq→eq}

has_slot-occupy :
    (c key : Str) (i : Instance) (slots : Dict (List Str))
    → any (str_eq key) (keys_at c slots) ≡ true
    → any (str_eq key) (keys_at c (occupy i slots)) ≡ true
has_slot-occupy c key i slots there = elim (Bool-cases (str_eq i.container c)) [
  | inl same ↦
      let now : keys_at c (occupy i slots) ≡ add_key i.key (keys_at i.container slots) =
        keys_at-occupy c i slots ∙ rw same refl in
      let before : any (str_eq key) (keys_at i.container slots) ≡ true =
        ap (λ (x : Str). any (str_eq key) (keys_at x slots)) (str_eq→eq i.container c same)
        ∙ there in
      rw now (has-add_key i.key key (keys_at i.container slots) ∙ rw before refl)
  | inr other ↦
      let now : keys_at c (occupy i slots) ≡ keys_at c slots =
        keys_at-occupy c i slots ∙ rw other refl in
      rw now there
]

takes_slot :
    (i : Instance) (slots : Dict (List Str))
    → any (str_eq i.key) (keys_at i.container (occupy i slots)) ≡ true
takes_slot i slots =
    let now : keys_at i.container (occupy i slots) ≡ add_key i.key (keys_at i.container slots) =
      keys_at-occupy i.container i slots ∙ rw (str_eq_refl i.container) refl in
    rw now (
      has-add_key i.key i.key (keys_at i.container slots)
      ∙ rw (str_eq_refl i.key) (or_true (any (str_eq i.key) (keys_at i.container slots))))

module _ (ast : Chart) where
  -- Slots are not given up, and no wait ends, while the leaves are gone through.
  keeps_slot :
      (leaf c key : Str) (a : Admission)
      → any (str_eq key) (keys_at c a.slots) ≡ true
      → any (str_eq key) (keys_at c (admit_leaf ast leaf a).slots) ≡ true
  keeps_slot leaf c key a there = elim (admit_leaf-Admits ast leaf a) [
    | stays seated same ↦
        subst (λ (x : Admission). any (str_eq key) (keys_at c x.slots) ≡ true) (sym same) there
    | waits i limit near limited taken same ↦
        subst (λ (x : Admission). any (str_eq key) (keys_at c x.slots) ≡ true) (sym same) there
    | enters i limit near limited free same ↦
        subst (λ (x : Admission). any (str_eq key) (keys_at c x.slots) ≡ true) (sym same)
          (has_slot-occupy c key i a.slots there)
  ]

  keeps_waiting :
      (leaf other : Str) (a : Admission)
      → any (str_eq other) a.blocked ≡ true
      → any (str_eq other) (admit_leaf ast leaf a).blocked ≡ true
  keeps_waiting leaf other a there = elim (admit_leaf-Admits ast leaf a) [
    | stays seated same ↦
        subst (λ (x : Admission). any (str_eq other) x.blocked ≡ true) (sym same) there
    | waits i limit near limited taken same ↦
        subst (λ (x : Admission). any (str_eq other) x.blocked ≡ true) (sym same)
          (has-add_key leaf other a.blocked ∙ rw there refl)
    | enters i limit near limited free same ↦
        subst (λ (x : Admission). any (str_eq other) x.blocked ≡ true) (sym same) there
  ]

  keeps_slots :
      (leaves : List Str) (c key : Str) (a : Admission)
      → any (str_eq key) (keys_at c a.slots) ≡ true
      → any (str_eq key) (keys_at c (admit_leaves ast leaves a).slots) ≡ true
  unfolding admit_leaves
  keeps_slots [] c key a there = there
  keeps_slots (leaf ∷ leaves) c key a there =
      keeps_slots leaves c key (admit_leaf ast leaf a) (keeps_slot leaf c key a there)

  keeps_blocked :
      (leaves : List Str) (other : Str) (a : Admission)
      → any (str_eq other) a.blocked ≡ true
      → any (str_eq other) (admit_leaves ast leaves a).blocked ≡ true
  unfolding admit_leaves
  keeps_blocked [] other a there = there
  keeps_blocked (leaf ∷ leaves) other a there =
      keeps_blocked leaves other (admit_leaf ast leaf a) (keeps_waiting leaf other a there)

  -- A leaf with its own turn has a slot then, or waits.
  turn :
      (leaf : Str) (a : Admission) (i : Instance) (limit : ℕ)
      → is_action_node (node_at ast leaf) ≡ true
      → nearest_instance leaf none ≡ some i
      → limit_of (node_at ast i.container) ≡ some limit
      → (any (str_eq i.key) (keys_at i.container (admit_leaf ast leaf a).slots) ≡ true)
        ⊎ (any (str_eq leaf) (admit_leaf ast leaf a).blocked ≡ true)
  turn leaf a i limit acts near limited = elim (admit_leaf-Admits ast leaf a) [
    | stays seated same ↦ inl (
        subst (λ (x : Admission). any (str_eq i.key) (keys_at i.container x.slots) ≡ true)
          (sym same) (seated i limit acts near limited))
    | waits j bound close bounded taken same ↦ inr (
        subst (λ (x : Admission). any (str_eq leaf) x.blocked ≡ true) (sym same)
          (has-add_key leaf leaf a.blocked
            ∙ rw (str_eq_refl leaf) (or_true (any (str_eq leaf) a.blocked))))
    | enters j bound close bounded free same ↦
        let both : some j ≡ some i = sym close ∙ near in
        let one : j ≡ i = cc in
        inl (
          subst (λ (x : Admission). any (str_eq i.key) (keys_at i.container x.slots) ≡ true)
            (sym same)
            (subst
              (λ (x : Instance). any (str_eq x.key) (keys_at x.container (occupy j a.slots)) ≡ true)
              one (takes_slot j a.slots)))
  ]

  seated_or_waiting :
      (leaves : List Str) (leaf : Str) (a : Admission) (i : Instance) (limit : ℕ)
      → any (str_eq leaf) leaves ≡ true
      → is_action_node (node_at ast leaf) ≡ true
      → nearest_instance leaf none ≡ some i
      → limit_of (node_at ast i.container) ≡ some limit
      → (any (str_eq i.key) (keys_at i.container (admit_leaves ast leaves a).slots) ≡ true)
        ⊎ (any (str_eq leaf) (admit_leaves ast leaves a).blocked ≡ true)
  unfolding admit_leaves
  seated_or_waiting [] leaf a i limit there acts near limited = cc
  seated_or_waiting (l ∷ leaves) leaf a i limit there acts near limited =
      by_place (str_eq leaf l) refl
        (λ later.
          seated_or_waiting leaves leaf (admit_leaf ast l a) i limit later acts near limited)
        there
    where
      by_turn :
          (any (str_eq i.key) (keys_at i.container (admit_leaf ast leaf a).slots) ≡ true)
            ⊎ (any (str_eq leaf) (admit_leaf ast leaf a).blocked ≡ true)
          → (any
                (str_eq i.key)
                (keys_at i.container (admit_leaves ast leaves (admit_leaf ast leaf a)).slots)
              ≡ true)
            ⊎ (any (str_eq leaf) (admit_leaves ast leaves (admit_leaf ast leaf a)).blocked ≡ true)
      by_turn (inl slot) = inl (keeps_slots leaves i.container i.key (admit_leaf ast leaf a) slot)
      by_turn (inr wait) = inr (keeps_blocked leaves leaf (admit_leaf ast leaf a) wait)

      by_place :
          (b : Bool)
          → str_eq leaf l ≡ b
          → (any (str_eq leaf) leaves ≡ true
              → (any
                    (str_eq i.key)
                    (keys_at i.container (admit_leaves ast leaves (admit_leaf ast l a)).slots)
                  ≡ true)
                ⊎ (any (str_eq leaf) (admit_leaves ast leaves (admit_leaf ast l a)).blocked ≡ true))
          → (b || any (str_eq leaf) leaves) ≡ true
          → (any
                (str_eq i.key)
                (keys_at i.container (admit_leaves ast leaves (admit_leaf ast l a)).slots)
              ≡ true)
            ⊎ (any (str_eq leaf) (admit_leaves ast leaves (admit_leaf ast l a)).blocked ≡ true)
      by_place true same rest later =
          subst
            (λ (x : Str).
              (any (str_eq i.key)
                  (keys_at i.container (admit_leaves ast leaves (admit_leaf ast x a)).slots)
                ≡ true)
              ⊎ (any (str_eq leaf) (admit_leaves ast leaves (admit_leaf ast x a)).blocked ≡ true))
            (str_eq→eq leaf l same) (by_turn (turn leaf a i limit acts near limited))
      by_place false other rest later = rest later

-- Every active action in an instance of a limited map has one of the map's slots, or it is held back.
pub slot_or_blocked :
    (ast : Chart) (p : Projection) (leaf : Str) (i : Instance) (limit : ℕ)
    → any (str_eq leaf) p.active_leaves ≡ true
    → is_action_node (node_at ast leaf) ≡ true
    → nearest_instance leaf none ≡ some i
    → limit_of (node_at ast i.container) ≡ some limit
    → (any (str_eq i.key) (keys_at i.container (admission ast p).slots) ≡ true)
      ⊎ (any (str_eq leaf) (concurrency_blocked_action_leaves ast p) ≡ true)
unfolding admission
slot_or_blocked ast p leaf i limit there acts near limited =
    seated_or_waiting ast p.active_leaves leaf _ i limit there acts near limited
