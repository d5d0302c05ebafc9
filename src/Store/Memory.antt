-- ===== src/Store/Memory.antt =====
-- The writer of runtime/generic/memory_log_store.ts: commits of one branch, with their checkpoints. A
-- commit that throws leaves the store as it is then, which is returned beside the error.
use hyperchart.Prelude.{
  Bool, List, Option, [], all, any, false, if◌then◌else◌, leb, map, none, not, some, true, ℕ, ◌&&◌,
  ◌++◌, ◌==◌, ◌∷◌,
}
use hyperchart.Actors.{max_safe_integer}
use hyperchart.Json.{Json, end, field, obj, str}
use hyperchart.Result.{
  Result, branch_moved, err, guard, invalid_branch, invalid_checkpoint, ok, poisoned, ◌>>=◌, ◌>>◌,
}
use hyperchart.Store.{
  Index, Stored, apply_entries, branch_entry, branch_of, create, durable, is_branch_id,
  materialize_journal, stamp_drafts,
}
use hyperchart.Text.{Str, str_eq, text}

-- OpaqueCheckpointEnvelope
pub record Checkpoint : Type 0 where
  pub checkpoint_id : Str
  pub head_seq_id : Option ℕ
  pub selector_key : Str
  pub blob : Json
  pub created_at : ℕ

abbrev safe_positive : Option ℕ → Bool
safe_positive none = true
safe_positive (some n) = leb 1 n && leb n max_safe_integer

abbrev is_nonempty : Str → Bool
is_nonempty [] = false
is_nonempty (c ∷ s) = true

unfoldable pub is_checkpoint : Checkpoint → Bool
is_checkpoint c =
    is_nonempty c.checkpoint_id
    && safe_positive c.head_seq_id
    && is_nonempty c.selector_key
    && leb c.created_at max_safe_integer

abbrev pub same_number : Option ℕ → Option ℕ → Bool
same_number none none = true
same_number (some a) (some b) = a == b
same_number _ _ = false

abbrev pub same_place : Checkpoint → Checkpoint → Bool
same_place a b = same_number a.head_seq_id b.head_seq_id && str_eq a.selector_key b.selector_key

-- rememberClonedCheckpoint: the first checkpoint of a place stays.
unfoldable pub remember : List Checkpoint → List Checkpoint → List Checkpoint
remember [] known = known
remember (c ∷ cs) known = remember cs (if any (same_place c) known then known else known ++ c ∷ [])

-- cloneOpaqueCheckpoint of each
abbrev pub assert_checkpoints : List Checkpoint → Result (Unit {0})
assert_checkpoints cs = guard (all is_checkpoint cs) invalid_checkpoint

-- PreparedStampedCommit: the checkpoints, and whether the confirmation throws.
pub record Prepared : Type 0 where
  pub checkpoints : List Checkpoint
  pub committed : Result (Unit {0})

abbrev pub nothing_prepared : Prepared
nothing_prepared = record { checkpoints = []; committed = ok tt }

pub record MemoryStore (D : Type 0) : Type 0 where
  pub selected : Str
  pub index : Index D
  pub checkpoints : List Checkpoint
  pub poisoned_by : Bool

-- Whether the head is compared, and with what it must be the same.
pub data Compare : Type 0 where
  any_head : Compare
  at_head : (expected : Option ℕ) → Compare

abbrev pub head_matches : Compare → Option ℕ → Bool
head_matches any_head head = true
head_matches (at_head expected) head = same_number head expected

module _ {D : Type 0} where
  unfoldable pub memory_store : Str → ℕ → Result (MemoryStore D)
  memory_store branch_id now = do
    guard (is_branch_id branch_id) (invalid_branch branch_id)
    ok (record {
      selected = branch_id;
      index = materialize_journal (
          branch_entry (create (some (obj (field (text "name") (str branch_id) end)))) 1 branch_id
            none now
          ∷ []);
      checkpoints = [];
      poisoned_by = false;
    })

  -- What is decided before anything is written.
  unfoldable pub prepare_commit :
      (D → Bool)
      → Compare
      → List D
      → (List (Stored D) → Result Prepared)
      → ℕ
      → MemoryStore D
      → Result (List (Stored D) × Prepared)
  prepare_commit is_draft compared drafts prepare now s = do
    guard (not s.poisoned_by) (poisoned s.selected)
    b ← branch_of s.index s.selected
    guard (head_matches compared b.head_seq_id) (branch_moved s.selected)
    rs ← stamp_drafts is_draft s.index s.selected drafts now
    prepared ← prepare rs
    assert_checkpoints prepared.checkpoints
    ok (rs, prepared)

  unfoldable pub written : List (Stored D) → Prepared → MemoryStore D → MemoryStore D
  written rs prepared s = record s {
    index = apply_entries (map durable rs) s.index;
    checkpoints = remember prepared.checkpoints s.checkpoints;
  }

  abbrev pub confirmed :
      List (Stored D) → Result (Unit {0}) → MemoryStore D → MemoryStore D × Result (List (Stored D))
  confirmed rs (ok u) s = (s, ok rs)
  confirmed rs (err e) s = (record s { poisoned_by = true }, err e)

  -- The task that enqueueCommit puts on the chain of writes; no drafts are no task.
  unfoldable pub commit :
      (D → Bool)
      → Compare
      → List D
      → (List (Stored D) → Result Prepared)
      → ℕ
      → MemoryStore D
      → MemoryStore D × Result (List (Stored D))
  commit is_draft compared [] prepare now s = (s, ok [])
  commit is_draft compared (d ∷ ds) prepare now s =
      elim (prepare_commit is_draft compared (d ∷ ds) prepare now s) [
        | err e ↦ (s, err e)
        | ok (rs, prepared) ↦ confirmed rs prepared.committed (written rs prepared s)
      ]
