-- ===== src/Uid/Keys.antt =====
-- Effect ids name their action, visit and record.
use hyperchart.Prelude.{
  Option, [], ap, append_assoc, arith, false, none, refl, some, sym, true, ℕ, ◌++◌, ◌↔◌, ◌∙◌, ◌∷◌,
  ◌≡◌,
}
use hyperchart.Text.{Str, str_eq_iff}
use hyperchart.Text.Decimal.{decimal, decimal-Lacks, number_of-decimal}
use hyperchart.Text.Split.{Lacks, split, split-append, split_of_Lacks}
use hyperchart.Uid.{
  ActionUid, EffectParts, action_effect_id, action_uid_key, effect_id_parts, five_parts, is_empty,
  same_action_uid,
}

-- The three names of an identity hold no colon and are not empty.
pub record IsNamed (u : ActionUid) : Type 0 where
  pub chart_lacks : Lacks b':' u.chart
  pub state_lacks : Lacks b':' u.state
  pub action_lacks : Lacks b':' u.action
  pub chart_given : is_empty u.chart ≡ false
  pub state_given : is_empty u.state ≡ false
  pub action_given : is_empty u.action ≡ false

abbrev pub effect_parts : ActionUid → ℕ → ℕ → EffectParts
effect_parts u visit seq = record { uid = u; visit_id = visit; seq_id = seq }

split_effect_id :
    (u : ActionUid) (visit seq : ℕ)
    → IsNamed u
    → split b':' (action_effect_id u visit seq)
      ≡ u.chart ∷ u.state ∷ u.action ∷ decimal visit ∷ decimal seq ∷ []
unfolding action_effect_id action_uid_key
split_effect_id u visit seq h =
    ap (split b':') (
      append_assoc u.chart (b':' ∷ (u.state ++ b':' ∷ u.action)) tail
      ∙ ap (λ t. u.chart ++ b':' ∷ t) (append_assoc u.state (b':' ∷ u.action) tail))
    ∙ split-append b':' u.chart _ h.chart_lacks
    ∙ ap (λ t. u.chart ∷ t) (split-append b':' u.state _ h.state_lacks)
    ∙ ap (λ t. u.chart ∷ u.state ∷ t) (split-append b':' u.action _ h.action_lacks)
    ∙ ap (λ t. u.chart ∷ u.state ∷ u.action ∷ t)
        (split-append b':' (decimal visit) (decimal seq) (decimal-Lacks b':' visit refl))
    ∙ ap (λ t. u.chart ∷ u.state ∷ u.action ∷ decimal visit ∷ t)
        (split_of_Lacks b':' (decimal seq) (decimal-Lacks b':' seq refl))
  where
    tail : Str
    tail = b':' ∷ (decimal visit ++ b':' ∷ decimal seq)

-- An effect id gives back the action, the visit and the record that it was made from, if the names of
-- the action's identity are not empty and hold no colon.
pub effect_id_parts-action_effect_id :
    (u : ActionUid) (visit seq : ℕ)
    → IsNamed u
    → effect_id_parts (action_effect_id u visit seq) ≡ some (effect_parts u visit seq)
unfolding effect_id_parts
effect_id_parts-action_effect_id u visit seq h =
    ap five_parts (split_effect_id u visit seq h)
    ∙ rw
        (
          number_of-decimal visit,
          number_of-decimal seq,
          h.chart_given,
          h.state_given,
          h.action_given,
        )
        refl

-- Two equal effect ids are of one action, one visit and one record, if the names of both identities
-- are not empty and hold no colon.
pub action_effect_id_injective :
    (u v : ActionUid) (m n i j : ℕ)
    → IsNamed u
    → IsNamed v
    → action_effect_id u m i ≡ action_effect_id v n j
    → (u ≡ v) × (m ≡ n) × (i ≡ j)
action_effect_id_injective u v m n i j hu hv e =
    (ap uid_of parts, ap visit_of parts, ap seq_of parts)
  where
    parts : some (effect_parts u m i) ≡ some (effect_parts v n j)
    parts =
        sym (effect_id_parts-action_effect_id u m i hu)
        ∙ ap effect_id_parts e
        ∙ effect_id_parts-action_effect_id v n j hv

    uid_of : Option EffectParts → ActionUid
    uid_of none = u
    uid_of (some p) = p.uid

    visit_of : Option EffectParts → ℕ
    visit_of none = m
    visit_of (some p) = p.visit_id

    seq_of : Option EffectParts → ℕ
    seq_of none = i
    seq_of (some p) = p.seq_id

-- The comparison of two identities decides their equality.
pub same_action_uid_iff : (u v : ActionUid) → (same_action_uid u v ≡ true) ↔ (u ≡ v)
unfolding same_action_uid
same_action_uid_iff u v =
    ground
      (arith, str_eq_iff u.chart v.chart, str_eq_iff u.state v.state, str_eq_iff u.action v.action)
