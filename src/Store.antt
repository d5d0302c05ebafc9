-- ===== src/Store.antt =====
-- The journal of a run: the index of records and branches of runtime/generic/log_store.ts, and the
-- writer of runtime/generic/memory_log_store.ts.
pub mod Memory
pub mod Valid
pub mod History
pub mod Append
pub mod Branches
pub mod Commit
pub mod Replay
pub mod Pages
use hyperchart.Prelude.{
  Bool, List, Option, [], all, any, false, if◌then◌else◌, leb, length, none, not, reverse, some,
  suc, true, zero, ℕ, ◌&&◌, ◌++◌, ◌+◌, ◌==◌, ◌||◌, ◌∷◌,
}
use hyperchart.Dict.{Dict, has_key, lookup, put}
use hyperchart.Dict.Numbered.{set_at, value_at}
use hyperchart.Entry.{is_some}
use hyperchart.Json.{Json}
use hyperchart.Result.{
  Result, branch_exists, err, guard, invalid_branch, invalid_draft, missing_record, not_empty, ok,
  out_of_fuel, require, unknown_branch, ◌>>=◌, ◌>>◌,
}
use hyperchart.Text.{Str}

-- A durable record: the draft of the machine with the coordinates that the writer gives it.
pub record Stored (D : Type 0) : Type 0 where
  pub seq_id : ℕ
  pub parent_id : Option ℕ
  pub branch_id : Str
  pub timestamp : ℕ
  pub draft : D

-- What a branch has from its creation; `metadata` is opaque.
pub record Origin : Type 0 where
  pub branch_id : Str
  pub created_at : ℕ
  pub metadata : Option Json

-- A head alone, with no origin, is what a move of a branch that was never created would leave.
pub record BranchHead : Type 0 where
  pub origin : Option Origin
  pub head_seq_id : Option ℕ

pub data Mutation : Type 0 where
  create : (metadata : Option Json) → Mutation
  move : Mutation

-- StorageEntry: a line of the journal.
pub data StorageEntry (D : Type 0) : Type 0 where
  durable : Stored D → StorageEntry D
  branch_entry :
      (op : Mutation) (seq_id : ℕ) (branch_id : Str) (head_seq_id : Option ℕ) (committed_at : ℕ)
      → StorageEntry D

-- MaterializedRunLogIndex
pub record Index (D : Type 0) : Type 0 where
  pub entries : List (StorageEntry D)
  pub records : List (ℕ × Stored D)
  pub branches : Dict BranchHead
  pub next_seq_id : ℕ

-- What trim() removes, and requireBranchId: not blank, at most 128 units, no NUL and no slashes.
abbrev is_blank : ℕ → Bool
is_blank c =
    leb 9 c && leb c 13
    || c == 32
    || c == 160
    || c == 5760
    || leb 8192 c && leb c 8202
    || c == 8232
    || c == 8233
    || c == 8239
    || c == 8287
    || c == 12288
    || c == 65279

abbrev splits_paths : ℕ → Bool
splits_paths c = c == 0 || c == 47 || c == 92

unfoldable pub is_branch_id : Str → Bool
is_branch_id s = not (all is_blank s) && leb (length s) 128 && not (any splits_paths s)

abbrev pub origin_of : Option BranchHead → Option Origin
origin_of none = none
origin_of (some b) = b.origin

abbrev pub or_zero : Option ℕ → ℕ
or_zero none = 0
or_zero (some n) = n

abbrev pub mutated : Mutation → Str → Option ℕ → ℕ → Option BranchHead → BranchHead
mutated (create metadata) branch_id head at previous = record {
  origin = some (record { branch_id = branch_id; created_at = at; metadata = metadata });
  head_seq_id = head;
}
mutated move branch_id head at previous = record { origin = origin_of previous; head_seq_id = head }

module _ {D : Type 0} where
  abbrev pub empty_index : Index D
  empty_index = record { entries = []; records = []; branches = []; next_seq_id = 1 }

  -- applyEntry
  unfoldable pub apply_entry : StorageEntry D → Index D → Index D
  apply_entry (branch_entry op seq branch_id head at) ix = record ix {
    entries = ix.entries ++ branch_entry op seq branch_id head at ∷ [];
    branches =
        put branch_id (mutated op branch_id head at (lookup branch_id ix.branches)) ix.branches;
    next_seq_id = seq + 1;
  }
  apply_entry (durable r) ix = record {
    entries = ix.entries ++ durable r ∷ [];
    records = set_at r.seq_id r ix.records;
    branches =
        put r.branch_id
          (record {
            origin = origin_of (lookup r.branch_id ix.branches);
            head_seq_id = some r.seq_id;
          })
          ix.branches;
    next_seq_id = r.seq_id + 1;
  }

  unfoldable pub apply_entries : List (StorageEntry D) → Index D → Index D
  apply_entries [] ix = ix
  apply_entries (e ∷ es) ix = apply_entries es (apply_entry e ix)

  -- materializeJournal
  abbrev pub materialize_journal : List (StorageEntry D) → Index D
  materialize_journal es = apply_entries es empty_index

  -- branch(branchId)
  unfoldable pub branch_of : Index D → Str → Result BranchHead
  branch_of ix branch_id = require (lookup branch_id ix.branches) (unknown_branch branch_id)

  -- The walk up the parents, newest first. The loop of the sources has no bound; the number that is
  -- next is enough fuel, since the number of a parent is smaller.
  unfoldable pub walk : ℕ → Index D → Option ℕ → Result (List (Stored D))
  walk fuel ix none = ok []
  walk zero ix (some n) = err out_of_fuel
  walk (suc fuel) ix (some n) = do
    r ← require (value_at n ix.records) (missing_record n)
    rest ← walk fuel ix r.parent_id
    ok (r ∷ rest)

  unfoldable pub materialize_history_to_head : Index D → Option ℕ → Result (List (Stored D))
  materialize_history_to_head ix head =
      walk ix.next_seq_id ix head >>= λ newest_first. ok (reverse newest_first)

  unfoldable pub materialize_branch_history : Index D → Str → Result (List (Stored D))
  materialize_branch_history ix branch_id = do
    b ← branch_of ix branch_id
    materialize_history_to_head ix b.head_seq_id

  -- The loop of containsInBranchHistory, and containsInHistory: it stops at the record, which it does
  -- not read.
  unfoldable pub contains_from : ℕ → Index D → ℕ → Option ℕ → Result Bool
  contains_from fuel ix target none = ok false
  contains_from zero ix target (some n) = err out_of_fuel
  contains_from (suc fuel) ix target (some n) =
      let further = require (value_at n ix.records) (missing_record n) >>= λ r.
      contains_from fuel ix target r.parent_id in
      if n == target then ok true else further

  unfoldable pub contains_in_branch_history : Index D → Str → ℕ → Result Bool
  contains_in_branch_history ix branch_id target = do
    b ← branch_of ix branch_id
    contains_from ix.next_seq_id ix target b.head_seq_id

  -- The numbering of stampDrafts, from a number and a parent.
  unfoldable pub stamp_from :
      (D → Bool) → ℕ → Option ℕ → Str → ℕ → List D → Result (List (Stored D))
  stamp_from is_draft next parent branch_id now [] = ok []
  stamp_from is_draft next parent branch_id now (d ∷ ds) = do
    guard (is_draft d) invalid_draft
    let r : Stored D = record {
      seq_id = next;
      parent_id = parent;
      branch_id = branch_id;
      timestamp = now;
      draft = d;
    }
    rest ← stamp_from is_draft (next + 1) (some next) branch_id now ds
    ok (r ∷ rest)

  -- `is_draft` is assertDurableRecordDraft.
  unfoldable pub stamp_drafts : (D → Bool) → Index D → Str → List D → ℕ → Result (List (Stored D))
  stamp_drafts is_draft ix branch_id drafts now = do
    b ← branch_of ix branch_id
    stamp_from is_draft ix.next_seq_id b.head_seq_id branch_id now drafts

  -- commitBuilt with the builder of initializeRootBranch, createBranch and moveBranch: the index after
  -- the entry, which the writer appends to the journal.
  unfoldable pub initialize_root_branch : Str → Option Json → ℕ → Index D → Result (Index D)
  initialize_root_branch branch_id metadata now ix = do
    guard (length ix.entries == 0) not_empty
    ok (apply_entry (branch_entry (create metadata) ix.next_seq_id branch_id none now) ix)

  -- What createBranch and moveBranch decide, and the entry that they write.
  unfoldable pub create_branch : Str → ℕ → Option Json → ℕ → Index D → Result (Index D)
  create_branch branch_id head metadata now ix = do
    guard (is_branch_id branch_id) (invalid_branch branch_id)
    guard (not (has_key branch_id ix.branches)) (branch_exists branch_id)
    guard (is_some (value_at head ix.records)) (missing_record head)
    ok (apply_entry (branch_entry (create metadata) ix.next_seq_id branch_id (some head) now) ix)

  abbrev pub is_recorded : Index D → Option ℕ → Bool
  is_recorded ix none = true
  is_recorded ix (some n) = is_some (value_at n ix.records)

  unfoldable pub move_branch : Str → Option ℕ → ℕ → Index D → Result (Index D)
  move_branch branch_id head now ix = do
    guard (is_branch_id branch_id) (invalid_branch branch_id)
    b ← branch_of ix branch_id
    guard (is_recorded ix head) (missing_record (or_zero head))
    ok (apply_entry (branch_entry move ix.next_seq_id branch_id head now) ix)
