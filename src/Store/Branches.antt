-- ===== src/Store/Branches.antt =====
-- Branches: what createBranch and moveBranch do to histories.
use hyperchart.Prelude.{
  Bool, List, Option, Option-cases, [], any, any-append, ap, false, inl, inr, none, not, refl,
  reverse, reverse-cons, some, subst, sym, true, ℕ, ◌||◌, ◌∙◌, ◌∷◌, ◌≡◌,
}
use hyperchart.Dict.{has_key, lookup}
use hyperchart.Dict.Laws.{lookup-put, lookup-put_self}
use hyperchart.Dict.Numbered.{value_at}
use hyperchart.Entry.{is_some}
use hyperchart.Json.{Json}
use hyperchart.Projection.Branch.Every.{history}
use hyperchart.Result.{
  >>=-eq-ok, branch_exists, guard-eq-ok, invalid_branch, missing_record, ok, ok_injective,
}
use hyperchart.Store.{
  Index, Mutation, Stored, apply_entry, branch_entry, branch_of, contains_in_branch_history, create,
  create_branch, is_branch_id, is_recorded, materialize_branch_history, materialize_history_to_head,
  move, move_branch, mutated, or_zero, walk,
}
use hyperchart.Store.History.{
  contains_from-walk, history-Extends, materialize_history_to_head_total, numbered_as,
}
use hyperchart.Store.Valid.{IsValid, Recorded, entered-Extends, entered-IsValid, head-mutated}
use hyperchart.Text.{Str, str_eq}

module _ {D : Type 0} where
  is_some-Recorded :
      (ix : Index D) (n : ℕ) → is_some (value_at n ix.records) ≡ true → Recorded ix (some n)
  is_some-Recorded ix n h = elim (Option-cases (value_at n ix.records)) [
    | inl missing ↦ let k = rw missing at h in cc
    | inr (r, found) ↦ (r, found)
  ]

  is_recorded-Recorded :
      (ix : Index D) (head : Option ℕ) → is_recorded ix head ≡ true → Recorded ix head
  is_recorded-Recorded ix none h = tt
  is_recorded-Recorded ix (some n) h = is_some-Recorded ix n h

  -- What a branch that is created or moved has: the history of its new head, as it was. All records stay,
  -- and so do the heads of the other branches.
  pub record Rebased (ix next : Index D) (b : Str) (head : Option ℕ) : Type 0 where
    pub valid_after : IsValid next
    pub rests_on :
        (hs : List (Stored D)) × (materialize_history_to_head ix head ≡ ok hs)
        × (materialize_branch_history next b ≡ ok hs)
    pub same_records : next.records ≡ ix.records
    pub others_stay : (i : Str) → str_eq b i ≡ false → lookup i next.branches ≡ lookup i ix.branches

  rebase :
      (ix : Index D) (op : Mutation) (b : Str) (head : Option ℕ) (now : ℕ)
      → IsValid ix
      → Recorded ix head
      → Rebased ix (apply_entry (branch_entry op ix.next_seq_id b head now) ix) b head
  unfolding apply_entry materialize_branch_history branch_of
  rebase ix op b head now valid recorded =
      let (hs, history) = materialize_history_to_head_total ix head valid recorded in
      let next = apply_entry (branch_entry op ix.next_seq_id b head now) ix in
      record {
        valid_after = entered-IsValid ix op b head now valid recorded;
        rests_on = (
          hs,
          history,
          rw (lookup-put_self b (mutated op b head now (lookup b ix.branches)) ix.branches) (
              ap (materialize_history_to_head next)
                (head-mutated op b head now (lookup b ix.branches))
              ∙ history-Extends ix next head hs (entered-Extends ix op b head now) history),
        );
        same_records = refl;
        others_stay = λ i other.
            lookup-put b i (mutated op b head now (lookup b ix.branches)) ix.branches
            ∙ rw other refl;
      }

  -- A branch that is created at a record of a well-formed journal has the history of that record; no record
  -- and no other branch changes, and the journal stays well formed.
  pub create_branch-Rebased :
      (b : Str) (head : ℕ) (metadata : Option Json) (now : ℕ) (ix next : Index D)
      → IsValid ix
      → create_branch b head metadata now ix ≡ ok next
      → Rebased ix next b (some head)
  unfolding create_branch
  create_branch-Rebased b head metadata now ix next valid h =
      let (_, m1) = guard-eq-ok (is_branch_id b) (invalid_branch b) _ h in
      let (_, m2) = guard-eq-ok (not (has_key b ix.branches)) (branch_exists b) _ m1 in
      let (there, whole) =
        guard-eq-ok (is_some (value_at head ix.records)) (missing_record head) _ m2 in
      subst (λ (x : Index D). Rebased ix x b (some head)) (ok_injective whole)
        (rebase ix (create metadata) b (some head) now valid (is_some-Recorded ix head there))

  -- The same of a branch that is moved: a rewind forgets no record.
  pub move_branch-Rebased :
      (b : Str) (head : Option ℕ) (now : ℕ) (ix next : Index D)
      → IsValid ix
      → move_branch b head now ix ≡ ok next
      → Rebased ix next b head
  unfolding move_branch
  move_branch-Rebased b head now ix next valid h =
      let (_, m1) = guard-eq-ok (is_branch_id b) (invalid_branch b) _ h in
      let (before, _, m2) = >>=-eq-ok (branch_of ix b) _ m1 in
      let (there, whole) = guard-eq-ok (is_recorded ix head) (missing_record (or_zero head)) _ m2 in
      subst (λ (x : Index D). Rebased ix x b head) (ok_injective whole)
        (rebase ix move b head now valid (is_recorded-Recorded ix head there))

  any-reverse : (p : Stored D → Bool) (xs : List (Stored D)) → any p (reverse xs) ≡ any p xs
  any-reverse p [] = refl
  any-reverse p (x ∷ xs) =
      ap (any p) (reverse-cons x xs)
      ∙ any-append p (reverse xs) (x ∷ [])
      ∙ ap (λ (b : Bool). b || (p x || false)) (any-reverse p xs)
      ∙ by_tests (any p xs) (p x)
    where
      by_tests : (a b : Bool) → (a || (b || false)) ≡ (b || a)
      by_tests true true = refl
      by_tests true false = refl
      by_tests false true = refl
      by_tests false false = refl

  -- `containsInBranchHistory` walks the parents without building the history; in a well-formed journal it
  -- answers whether the branch's history has a record of that number.
  pub contains_in_branch_history-any :
      (ix : Index D) (b : Str) (target : ℕ) (hs : List (Stored D))
      → IsValid ix
      → materialize_branch_history ix b ≡ ok hs
      → contains_in_branch_history ix b target ≡ ok (any (numbered_as target) hs)
  unfolding contains_in_branch_history materialize_branch_history materialize_history_to_head
  contains_in_branch_history-any ix b target hs valid h =
      let (head, found, m1) = >>=-eq-ok (branch_of ix b) _ h in
      let (ws, walked, whole) = >>=-eq-ok (walk ix.next_seq_id ix head.head_seq_id) _ m1 in
      rw found (
        contains_from-walk ix.next_seq_id ix target head.head_seq_id ws valid walked
        ∙ ap ok (
            sym (any-reverse (numbered_as target) ws)
            ∙ ap (any (numbered_as target)) (ok_injective whole)))
