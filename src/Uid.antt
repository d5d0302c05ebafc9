-- ===== src/Uid.antt =====
-- Action identities: packages/hyperchart/src/core/action_uid.ts, `matchesDeclaredUid` of paths.ts
-- and the effect ids of packages/hyperchart/src/core/machine.ts.
pub mod Keys
use hyperchart.Prelude.{
  Bool, List, Option, [], false, if◌then◌else◌, none, some, true, ℕ, ◌&&◌, ◌++◌, ◌||◌, ◌∷◌,
}
use hyperchart.Paths.{template_path}
use hyperchart.Text.{Str, str_eq}
use hyperchart.Text.Decimal.{decimal, number_of}
use hyperchart.Text.Split.{split}

pub record ActionUid : Type 0 where
  pub chart : Str
  pub state : Str
  pub action : Str

-- `${chart}:${state}:${action}`
unfoldable pub action_uid_key : ActionUid → Str
action_uid_key u = u.chart ++ b':' ∷ (u.state ++ b':' ∷ u.action)

unfoldable pub same_action_uid : ActionUid → ActionUid → Bool
same_action_uid u v = str_eq u.chart v.chart && str_eq u.state v.state && str_eq u.action v.action

unfoldable pub matches_declared_uid : ActionUid → ActionUid → Bool
matches_declared_uid actual declared =
    str_eq actual.chart declared.chart
    && str_eq (template_path actual.state) declared.state
    && str_eq actual.action declared.action

-- `${actionUidKey(actionUid)}:${visitId}:${seqId}`
unfoldable pub action_effect_id : ActionUid → ℕ → ℕ → Str
action_effect_id u visit seq = action_uid_key u ++ b':' ∷ (decimal visit ++ b':' ∷ decimal seq)

pub record EffectParts : Type 0 where
  pub uid : ActionUid
  pub visit_id : ℕ
  pub seq_id : ℕ

-- !s for a string: it is empty.
abbrev pub is_empty : Str → Bool
is_empty [] = true
is_empty (c ∷ s) = false

abbrev pub parts_of : Str → Str → Str → Option ℕ → Option ℕ → Option EffectParts
parts_of chart state action (some visit) (some seq) =
    if is_empty chart || is_empty state || is_empty action
    then none
    else some (record {
      uid = record { chart = chart; state = state; action = action };
      visit_id = visit;
      seq_id = seq;
    })
parts_of chart state action _ _ = none

-- The array pattern takes the first five parts; a missing one is undefined, whose Number is NaN.
abbrev pub five_parts : List Str → Option EffectParts
five_parts (chart ∷ state ∷ action ∷ visit ∷ seq ∷ _) =
    parts_of chart state action (number_of visit) (number_of seq)
five_parts _ = none

unfoldable pub effect_id_parts : Str → Option EffectParts
effect_id_parts id = five_parts (split b':' id)
