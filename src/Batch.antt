-- ===== src/Batch.antt =====
-- Grouping of invocation appends, packages/hyperchart/src/core/invocation_batch.ts. `R` are the
-- records and `E` the effects that are no append; `is_invoke` is the test for an invoke record.
pub mod Order
use hyperchart.Prelude.{
  Bool, List, Option, [], if◌then◌else◌, length, ltb, map, none, some, ℕ, ◌++◌, ◌==◌, ◌∷◌,
}
use hyperchart.Text.{Str}

-- Effect | RecordAppend
pub data Commit {ℓ κ} (R : Type ℓ) (E : Type κ) : Type (ℓ ⊔ κ) where
  append : (id : Str) (records : List R) → Commit R E
  effect : E → Commit R E

-- An append of one invoke record.
pub record Invocation {ℓ} (R : Type ℓ) : Type ℓ where
  pub id : Str
  pub invoked : R

-- MAX_INVOKES_PER_COMMIT
abbrev pub max_invokes : ℕ
max_invokes = 32

abbrev pub invoked_of {ℓ} : {R : Type ℓ} → Invocation R → R
invoked_of i = i.invoked

abbrev pub id_of {ℓ} : {R : Type ℓ} → Invocation R → Str
id_of i = i.id

-- batch.push(entry)
abbrev pub joined {ℓ} : {R : Type ℓ} → List (Invocation R) → Invocation R → List (Invocation R)
joined is i = is ++ i ∷ []

module _ {ℓ κ} {R : Type ℓ} {E : Type κ} where
  abbrev pub invocation_of : (R → Bool) → Commit R E → Option (Invocation R)
  invocation_of is_invoke (append id (r ∷ [])) =
      if is_invoke r then some (record { id = id; invoked = r }) else none
  invocation_of is_invoke _ = none

  -- flush: what the batch adds to the output. `batch_id` is JSON.stringify of the ids, behind its
  -- prefix.
  unfoldable pub flush : (List Str → Str) → List (Invocation R) → List (Commit R E)
  flush batch_id [] = []
  flush batch_id (i ∷ []) = append i.id (i.invoked ∷ []) ∷ []
  flush batch_id (i ∷ j ∷ is) =
      append (batch_id (map id_of (i ∷ j ∷ is))) (map invoked_of (i ∷ j ∷ is)) ∷ []

  -- The loop over the entries, with the batch so far; the result is what it adds to the output.
  unfoldable pub batch_from :
      (R → Bool) → (List Str → Str) → List (Invocation R) → List (Commit R E) → List (Commit R E)
  batch_from is_invoke batch_id is [] = flush batch_id is
  batch_from is_invoke batch_id is (e ∷ es) =
      let alone = batch_from is_invoke batch_id [] es in
      elim (invocation_of is_invoke e) [
        | none ↦ flush batch_id is ++ e ∷ alone
        | some i ↦
            let more = batch_from is_invoke batch_id (joined is i) es in
            if length (joined is i) == max_invokes
            then flush batch_id (joined is i) ++ alone
            else more
      ]

  unfoldable pub batch_invocation_appends :
      (R → Bool) → (List Str → Str) → List (Commit R E) → List (Commit R E)
  batch_invocation_appends is_invoke batch_id entries =
      if ltb (length entries) 2 then entries else batch_from is_invoke batch_id [] entries
