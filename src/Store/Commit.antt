-- ===== src/Store/Commit.antt =====
-- Commits of the memory store: what is written when they return, and when they throw.
use hyperchart.Prelude.{
  Bool, List, Option, [], ap, append-nil, arith, inl, inr, map, none, not, refl, some, subst, sym,
  true, ℕ, ◌∙◌, ◌∷◌, ◌≡◌, ◌⊎◌,
}
use hyperchart.Dict.{lookup}
use hyperchart.Dict.Laws.{lookup-put_self}
use hyperchart.Dict.Numbered.{value_at}
use hyperchart.Json.{end, field, obj, str}
use hyperchart.Result.{
  >>=-eq-ok, Fault, Result, Result-cases, branch_moved, err, guard-eq-ok, invalid_branch, ok,
  ok_injective, poisoned, require-eq-ok, unknown_branch,
}
use hyperchart.Store.{
  BranchHead, Index, Stored, apply_entries, apply_entry, branch_of, create, durable, empty_index,
  is_branch_id, materialize_branch_history, materialize_history_to_head, mutated, stamp_drafts,
  walk,
}
use hyperchart.Store.Append.{Appended, stamped-Appended}
use hyperchart.Store.Memory.{
  Compare, MemoryStore, Prepared, assert_checkpoints, at_head, commit, confirmed, head_matches,
  memory_store, prepare_commit, same_number, written,
}
use hyperchart.Store.Valid.{same-Extends, IsValid, entered-IsValid}
use hyperchart.Text.{Str, text}

abbrev Outcome : Type 0 → Type 0
Outcome D = MemoryStore D × Result (List (Stored D))

same_number→eq : (a b : Option ℕ) → same_number a b ≡ true → a ≡ b
same_number→eq none none h = refl
same_number→eq none (some n) h = cc
same_number→eq (some m) none h = cc
same_number→eq (some m) (some n) h = ap some (ground arith)

module _ {D : Type 0} where
  empty_index-IsValid : IsValid (empty_index {D = D})
  unfolding value_at lookup
  empty_index-IsValid = record {
    placed = λ n r e. cc;
    below = λ n r e. cc;
    older = λ n r e. cc;
    linked = λ n r e. cc;
    headed = λ b h e. cc;
  }

  -- A new store is well formed, and the history of its branch is empty.
  pub memory_store-IsValid :
      (b : Str) (now : ℕ) (s : MemoryStore D)
      → memory_store b now ≡ ok s
      → IsValid s.index × (materialize_branch_history s.index s.selected ≡ ok [])
  unfolding memory_store apply_entries materialize_branch_history branch_of apply_entry
      materialize_history_to_head walk
  memory_store-IsValid b now s h =
      let (_, whole) = guard-eq-ok (is_branch_id b) (invalid_branch b) _ h in
      let metadata = some (obj (field (text "name") (str b) end)) in
      subst
        (λ (x : MemoryStore D).
          IsValid x.index × (materialize_branch_history x.index x.selected ≡ ok []))
        (ok_injective whole)
        (
          entered-IsValid empty_index (create metadata) b none now empty_index-IsValid tt,
          rw (lookup-put_self b (mutated (create metadata) b none now (lookup b [])) []) refl,
        )

  prepared_commit :
      (is_draft : D → Bool) (compared : Compare) (ds : List D)
      (prepare : List (Stored D) → Result Prepared) (now : ℕ) (s : MemoryStore D)
      (hs rs : List (Stored D)) (prepared : Prepared)
      → IsValid s.index
      → materialize_branch_history s.index s.selected ≡ ok hs
      → prepare_commit is_draft compared ds prepare now s ≡ ok (rs, prepared)
      → Appended s.index (apply_entries (map durable rs) s.index) s.selected hs rs ds
  unfolding prepare_commit materialize_branch_history stamp_drafts branch_of
  prepared_commit is_draft compared ds prepare now s hs rs prepared valid history h =
      let (_, m1) = guard-eq-ok (not s.poisoned_by) (poisoned s.selected) _ h in
      let (b, found, m2) = >>=-eq-ok (branch_of s.index s.selected) _ m1 in
      let (_, m3) =
        guard-eq-ok (head_matches compared b.head_seq_id) (branch_moved s.selected) _ m2 in
      let (stamped, made, m4) = >>=-eq-ok (stamp_drafts is_draft s.index s.selected ds now) _ m3 in
      let (given, _, m5) = >>=-eq-ok (prepare stamped) _ m4 in
      let (_, _, whole) = >>=-eq-ok (assert_checkpoints given.checkpoints) _ m5 in
      let there =
        require-eq-ok (lookup s.selected s.index.branches) (unknown_branch s.selected) found in
      subst
        (λ (x : List (Stored D)).
          Appended s.index (apply_entries (map durable x) s.index) s.selected hs x ds)
        (ap (λ (x : List (Stored D) × Prepared). x.0) (ok_injective whole))
        (stamped-Appended is_draft s.selected now ds s.index b hs stamped valid there
          (rw there at history) (rw there at made))

  nothing-Appended :
      (ix : Index D) (b : Str) (hs : List (Stored D))
      → IsValid ix
      → materialize_branch_history ix b ≡ ok hs
      → Appended ix ix b hs [] []
  nothing-Appended ix b hs valid history = record {
    valid_after = valid;
    extends_to = same-Extends ix;
    at_the_end = history ∙ ap ok (sym (append-nil hs));
    others_stay = λ i other. refl;
    as_given = refl;
  }

  -- A commit that returns records has put them at the end of the history of the store's branch, with the
  -- drafts that were given, in order; the other branches have their heads still, every record stays where
  -- it was, and the journal is well formed. The condition: it was well formed before.
  pub commit-Appended :
      (is_draft : D → Bool) (compared : Compare) (ds : List D)
      (prepare : List (Stored D) → Result Prepared) (now : ℕ) (s t : MemoryStore D)
      (hs rs : List (Stored D))
      → IsValid s.index
      → materialize_branch_history s.index s.selected ≡ ok hs
      → commit is_draft compared ds prepare now s ≡ (t, ok rs)
      → Appended s.index t.index s.selected hs rs ds
  unfolding commit written
  commit-Appended is_draft compared [] prepare now s t hs rs valid history h =
      let same : s ≡ t = ap (λ (x : Outcome D). x.0) h in
      let unwritten : [] ≡ rs = ok_injective (ap (λ (x : Outcome D). x.1) h) in
      subst (λ (x : List (Stored D)). Appended s.index t.index s.selected hs x []) unwritten
        (subst (λ (x : MemoryStore D). Appended s.index x.index s.selected hs [] []) same
          (nothing-Appended s.index s.selected hs valid history))
  commit-Appended is_draft compared (d ∷ ds) prepare now s t hs rs valid history h =
      elim (Result-cases (prepare_commit is_draft compared (d ∷ ds) prepare now s)) [
        | inl (done, found) ↦
            let k = rw (found, commit) at h in
            by_confirmation done.0 done.1 done.1.committed
              (prepared_commit is_draft compared (d ∷ ds) prepare now s hs done.0 done.1 valid
                history found)
              k
        | inr (e, found) ↦ let k = rw (found, commit) at h in absurd_error e k
      ]
    where
      absurd_error :
          (e : Fault)
          → ◌≡◌ {A = Outcome D} (s, err e) (t, ok rs)
          → Appended s.index t.index s.selected hs rs (d ∷ ds)
      absurd_error e k = let j : err e ≡ ok rs = ap (λ (x : Outcome D). x.1) k in cc

      by_confirmation :
          (done : List (Stored D)) (p : Prepared) (c : Result (Unit {0}))
          → Appended s.index (apply_entries (map durable done) s.index) s.selected hs done (d ∷ ds)
          → confirmed done c (written done p s) ≡ (t, ok rs)
          → Appended s.index t.index s.selected hs rs (d ∷ ds)
      by_confirmation done p (err e) a k =
          let j : err e ≡ ok rs = ap (λ (x : Outcome D). x.1) k in cc
      by_confirmation done p (ok u) a k =
          subst (λ (x : List (Stored D)). Appended s.index t.index s.selected hs x (d ∷ ds))
            (ok_injective (ap (λ (x : Outcome D). x.1) k))
            (subst (λ (x : MemoryStore D). Appended s.index x.index s.selected hs done (d ∷ ds))
              (ap (λ (x : Outcome D). x.0) k) a)

  -- A commit that throws leaves the store as it was, or its records are in, the confirmation threw, and the
  -- store is marked as unusable.
  pub commit_error :
      (is_draft : D → Bool) (compared : Compare) (ds : List D)
      (prepare : List (Stored D) → Result Prepared) (now : ℕ) (s t : MemoryStore D)
      (hs : List (Stored D)) (e : Fault)
      → IsValid s.index
      → materialize_branch_history s.index s.selected ≡ ok hs
      → commit is_draft compared ds prepare now s ≡ (t, err e)
      → (t ≡ s)
        ⊎ ((rs : List (Stored D)) × Appended s.index t.index s.selected hs rs ds
            × (t.poisoned_by ≡ true))
  unfolding commit written
  commit_error is_draft compared [] prepare now s t hs e valid history h =
      let j : ok [] ≡ err e = ap (λ (x : Outcome D). x.1) h in cc
  commit_error is_draft compared (d ∷ ds) prepare now s t hs e valid history h =
      elim (Result-cases (prepare_commit is_draft compared (d ∷ ds) prepare now s)) [
        | inl (done, found) ↦
            let k = rw (found, commit) at h in
            by_confirmation done.0 done.1 done.1.committed
              (prepared_commit is_draft compared (d ∷ ds) prepare now s hs done.0 done.1 valid
                history found)
              k
        | inr (f, found) ↦
            let k = rw (found, commit) at h in inl (sym (ap (λ (x : Outcome D). x.0) k))
      ]
    where
      by_confirmation :
          (done : List (Stored D)) (p : Prepared) (c : Result (Unit {0}))
          → Appended s.index (apply_entries (map durable done) s.index) s.selected hs done (d ∷ ds)
          → confirmed done c (written done p s) ≡ (t, err e)
          → (t ≡ s)
            ⊎ ((rs : List (Stored D)) × Appended s.index t.index s.selected hs rs (d ∷ ds)
                × (t.poisoned_by ≡ true))
      by_confirmation done p (ok u) a k =
          let j : ok done ≡ err e = ap (λ (x : Outcome D). x.1) k in cc
      by_confirmation done p (err f) a k = inr (
        done,
        subst (λ (x : MemoryStore D). Appended s.index x.index s.selected hs done (d ∷ ds))
            (ap (λ (x : Outcome D). x.0) k) a,
        sym (ap (λ (x : Outcome D). x.0.poisoned_by) k),
      )

  -- appendDraftsAtHead writes only where the branch rests on the head that was expected.
  commit_at_head :
      (is_draft : D → Bool) (expected : Option ℕ) (d : D) (ds : List D)
      (prepare : List (Stored D) → Result Prepared) (now : ℕ) (s t : MemoryStore D)
      (rs : List (Stored D))
      → commit is_draft (at_head expected) (d ∷ ds) prepare now s ≡ (t, ok rs)
      → (b : BranchHead) × (lookup s.selected s.index.branches ≡ some b)
        × (b.head_seq_id ≡ expected)
  unfolding commit prepare_commit branch_of
  commit_at_head is_draft expected d ds prepare now s t rs h =
      elim (Result-cases (prepare_commit is_draft (at_head expected) (d ∷ ds) prepare now s)) [
        | inl (done, found) ↦
            let (_, m1) = guard-eq-ok (not s.poisoned_by) (poisoned s.selected) _ found in
            let (b, there, m2) = >>=-eq-ok (branch_of s.index s.selected) _ m1 in
            let (same, _) =
              guard-eq-ok (head_matches (at_head expected) b.head_seq_id) (branch_moved s.selected)
                _ m2 in
            (
              b,
              require-eq-ok (lookup s.selected s.index.branches) (unknown_branch s.selected) there,
              same_number→eq b.head_seq_id expected same,
            )
        | inr (e, found) ↦
            let k = rw (found, commit) at h in
            let j : err e ≡ ok rs = ap (λ (x : Outcome D). x.1) k in cc
      ]
