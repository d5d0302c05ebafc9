-- ===== src/Projection/Pending.antt =====
-- The list of pending actions: `find`, `removePendingAction` and writes in place.
use hyperchart.Prelude.{
  Bool, List, Option, [], any, false, find, if◌then◌else◌, none, some, ℕ, ◌∷◌, ◌≡◌,
}
use hyperchart.Projection.{PendingAction, Projection, remove_gate_of}
use hyperchart.Uid.{ActionUid, same_action_uid}

-- pendingActions.find((pending) => sameActionUid(pending.actionUid, uid))
unfoldable pub pending_of : ActionUid → List PendingAction → Option PendingAction
pending_of u ps = find (λ (p : PendingAction). same_action_uid p.uid u) ps

-- The list with the first entry of this action taken out.
unfoldable pub without_pending : ActionUid → List PendingAction → List PendingAction
without_pending u [] = []
without_pending u (p ∷ ps) =
    let rest = without_pending u ps in if same_action_uid p.uid u then ps else p ∷ rest

-- pendingActions[index] = next, at the first entry of this action
unfoldable pub replace_pending : ActionUid → PendingAction → List PendingAction → List PendingAction
replace_pending u next [] = []
replace_pending u next (p ∷ ps) =
    let rest = replace_pending u next ps in if same_action_uid p.uid u then next ∷ ps else p ∷ rest

-- pendingActions[i] = next at the first entry that passes a test
unfoldable pub replace_first :
    (PendingAction → Bool) → PendingAction → List PendingAction → List PendingAction
replace_first test next [] = []
replace_first test next (p ∷ ps) =
    let rest = replace_first test next ps in if test p then next ∷ ps else p ∷ rest

abbrev pub gate_of : Option PendingAction → Option ℕ
gate_of none = none
gate_of (some p) = p.gate_seq_id

-- removePendingAction: the entry goes, and the gate that it had opened.
unfoldable pub remove_pending_action : ActionUid → Projection → Projection
remove_pending_action u p = record p {
  pending = without_pending u p.pending;
  gates = remove_gate_of (gate_of (pending_of u p.pending)) p.gates;
}

-- No two entries are of one action.
unfoldable pub has_pending : ActionUid → List PendingAction → Bool
has_pending u ps = any (λ (p : PendingAction). same_action_uid p.uid u) ps

abbrev pub DistinctActions : List PendingAction → Type 0
DistinctActions [] = Unit
DistinctActions (p ∷ ps) = (has_pending p.uid ps ≡ false) × DistinctActions ps
