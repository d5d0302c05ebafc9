-- ===== src/Store/Valid.antt =====
-- The index of a journal is well formed, and every operation keeps it so: numbers of records are below
-- the next one, parents are older records, and heads are records.
use hyperchart.Prelude.{
  ==_refl, Bool, Bool-cases, Option, Option-cases, ap, arith, false, if◌then◌else◌, inl, inr, none,
  refl, some, subst, suc, sym, true, ℕ, ◌+◌, ◌<◌, ◌==◌, ◌∙◌, ◌≡◌, ◌≤◌, ◌⊎◌,
}
use hyperchart.Dict.{lookup}
use hyperchart.Dict.Laws.{lookup-put, lookup-put_self}
use hyperchart.Dict.Numbered.{value_at, value_at-set_at}
use hyperchart.Store.{
  BranchHead, Index, Mutation, Stored, apply_entry, branch_entry, create, durable, move, mutated,
  origin_of,
}
use hyperchart.Text.{Str, str_eq}

abbrev pub Older : ℕ → Option ℕ → Type 0
Older n none = Unit
Older n (some m) = m < n

pub head-mutated :
    (op : Mutation) (b : Str) (head : Option ℕ) (now : ℕ) (previous : Option BranchHead)
    → (mutated op b head now previous).head_seq_id ≡ head
head-mutated (create metadata) b head now previous = refl
head-mutated move b head now previous = refl

module _ {D : Type 0} where
  -- A number that is recorded, where there is one.
  abbrev pub Recorded : Index D → Option ℕ → Type 0
  Recorded ix none = Unit
  Recorded ix (some n) = (r : Stored D) × (value_at n ix.records ≡ some r)

  pub record IsValid (ix : Index D) : Type 0 where
    pub placed : (n : ℕ) (r : Stored D) → value_at n ix.records ≡ some r → r.seq_id ≡ n
    pub below : (n : ℕ) (r : Stored D) → value_at n ix.records ≡ some r → n < ix.next_seq_id
    pub older : (n : ℕ) (r : Stored D) → value_at n ix.records ≡ some r → Older n r.parent_id
    pub linked : (n : ℕ) (r : Stored D) → value_at n ix.records ≡ some r → Recorded ix r.parent_id
    pub headed :
        (b : Str) (h : BranchHead) → lookup b ix.branches ≡ some h → Recorded ix h.head_seq_id

  -- The records of one index are records of another, and its numbers go on.
  pub record Extends (ix next : Index D) : Type 0 where
    pub still :
        (n : ℕ) (r : Stored D) → value_at n ix.records ≡ some r → value_at n next.records ≡ some r
    pub grows : ix.next_seq_id ≤ next.next_seq_id

  pub same-Extends : (ix : Index D) → Extends ix ix
  same-Extends ix = record { still = λ n r e. e; grows = omega arith }

  pub joined-Extends : (a b c : Index D) → Extends a b → Extends b c → Extends a c
  joined-Extends a b c f g = record {
    still = λ n r e. g.still n r (f.still n r e);
    grows = let x = f.grows in let y = g.grows in omega arith;
  }

  pub Recorded-Extends :
      (ix next : Index D) (head : Option ℕ)
      → Extends ix next
      → Recorded ix head
      → Recorded next head
  Recorded-Extends ix next none e h = tt
  Recorded-Extends ix next (some n) e (r, found) = (r, e.still n r found)

  -- The next number is not recorded yet.
  pub next_is_new : (ix : Index D) → IsValid ix → value_at ix.next_seq_id ix.records ≡ none
  next_is_new ix valid = elim (Option-cases (value_at ix.next_seq_id ix.records)) [
    | inl new ↦ new
    | inr (r, found) ↦ let low = valid.below ix.next_seq_id r found in absurd (omega arith)
  ]

  next-Older :
      (ix : Index D) (head : Option ℕ) → IsValid ix → Recorded ix head → Older ix.next_seq_id head
  next-Older ix none valid h = tt
  next-Older ix (some n) valid (r, found) = valid.below n r found

  -- A record at the next number, whose parent is recorded.
  module _ (ix : Index D) (r : Stored D) (valid : IsValid ix) (at_next : r.seq_id ≡ ix.next_seq_id)
      (parent : Recorded ix r.parent_id) where
    is_next :
        (n : ℕ) (s : Stored D)
        → value_at n (apply_entry (durable r) ix).records ≡ some s
        → ((n ≡ ix.next_seq_id) × (s ≡ r)) ⊎ (value_at n ix.records ≡ some s)
    unfolding apply_entry
    is_next n s h =
        let k = sym (value_at-set_at r.seq_id n r ix.records) ∙ h in by_test (r.seq_id == n) refl k
      where
        by_test :
            (b : Bool)
            → (r.seq_id == n) ≡ b
            → (if b then some r else value_at n ix.records) ≡ some s
            → ((n ≡ ix.next_seq_id) × (s ≡ r)) ⊎ (value_at n ix.records ≡ some s)
        by_test true same k =
            let place : n ≡ ix.next_seq_id = let e = at_next in ground arith in
            let content : s ≡ r = cc in inl (place, content)
        by_test false other k = inr k

    pub durable-Extends : Extends ix (apply_entry (durable r) ix)
    unfolding apply_entry
    durable-Extends = record {
      still = λ n s found.
          value_at-set_at r.seq_id n r ix.records ∙ elim (Bool-cases (r.seq_id == n)) [
            | inl same ↦ let low = valid.below n s found in let e = at_next in absurd (ground arith)
            | inr other ↦ rw other found
          ];
      grows = let e = at_next in omega arith;
    }

    next_parent :
        (n : ℕ) (s : Stored D)
        → value_at n (apply_entry (durable r) ix).records ≡ some s
        → Older n s.parent_id
    next_parent n s h = elim (is_next n s h) [
      | inl (place, content) ↦
          subst (λ (m : ℕ). Older m s.parent_id) (sym place)
            (subst (λ (t : Stored D). Older ix.next_seq_id t.parent_id) (sym content)
              (next-Older ix r.parent_id valid parent))
      | inr before ↦ valid.older n s before
    ]

    linked_next :
        (n : ℕ) (s : Stored D)
        → value_at n (apply_entry (durable r) ix).records ≡ some s
        → Recorded (apply_entry (durable r) ix) s.parent_id
    linked_next n s h = elim (is_next n s h) [
      | inl (place, content) ↦
          subst (λ (t : Stored D). Recorded (apply_entry (durable r) ix) t.parent_id) (sym content)
            (Recorded-Extends ix (apply_entry (durable r) ix) r.parent_id durable-Extends parent)
      | inr before ↦
          Recorded-Extends ix (apply_entry (durable r) ix) s.parent_id durable-Extends
            (valid.linked n s before)
    ]

    pub durable_there : value_at r.seq_id (apply_entry (durable r) ix).records ≡ some r
    unfolding apply_entry
    durable_there = value_at-set_at r.seq_id r.seq_id r ix.records ∙ rw (==_refl r.seq_id) refl

    headed_next :
        (b : Str) (h : BranchHead)
        → lookup b (apply_entry (durable r) ix).branches ≡ some h
        → Recorded (apply_entry (durable r) ix) h.head_seq_id
    unfolding apply_entry
    headed_next b h found =
        by_test (str_eq r.branch_id b) (sym (lookup-put r.branch_id b moved ix.branches) ∙ found)
      where
        moved : BranchHead
        moved = record {
          origin = origin_of (lookup r.branch_id ix.branches);
          head_seq_id = some r.seq_id;
        }

        by_test :
            (t : Bool)
            → (if t then some moved else lookup b ix.branches) ≡ some h
            → Recorded (apply_entry (durable r) ix) h.head_seq_id
        by_test true k =
            let same : moved ≡ h = cc in
            subst (λ (x : BranchHead). Recorded (apply_entry (durable r) ix) x.head_seq_id) same
              (r, durable_there)
        by_test false k =
            Recorded-Extends ix (apply_entry (durable r) ix) h.head_seq_id durable-Extends
              (valid.headed b h k)

    placed_next :
        (n : ℕ) (s : Stored D)
        → value_at n (apply_entry (durable r) ix).records ≡ some s
        → (s.seq_id ≡ n) × (n < r.seq_id + 1)
    placed_next n s h = elim (is_next n s h) [
      | inl (place, content) ↦
          let e = at_next in (ap (λ (t : Stored D). t.seq_id) content ∙ e ∙ sym place, omega arith)
      | inr before ↦
          let e = at_next in
          let low = valid.below n s before in (valid.placed n s before, omega arith)
    ]

    pub durable-IsValid : IsValid (apply_entry (durable r) ix)
    unfolding apply_entry
    durable-IsValid = record {
      placed = λ n s h. (placed_next n s h).0;
      below = λ n s h. (placed_next n s h).1;
      older = next_parent;
      linked = linked_next;
      headed = headed_next;
    }

  -- The branch of a record rests on it, and the others stay.
  pub durable_branch :
      (ix : Index D) (r : Stored D)
      → lookup r.branch_id (apply_entry (durable r) ix).branches
        ≡ some (record {
          origin = origin_of (lookup r.branch_id ix.branches);
          head_seq_id = some r.seq_id;
        })
  unfolding apply_entry
  durable_branch ix r = lookup-put_self r.branch_id _ ix.branches

  pub durable_others :
      (ix : Index D) (r : Stored D) (i : Str)
      → str_eq r.branch_id i ≡ false
      → lookup i (apply_entry (durable r) ix).branches ≡ lookup i ix.branches
  unfolding apply_entry
  durable_others ix r i other = lookup-put r.branch_id i _ ix.branches ∙ rw other refl

  pub next_number :
      (ix : Index D) (r : Stored D)
      → r.seq_id ≡ ix.next_seq_id
      → (apply_entry (durable r) ix).next_seq_id ≡ suc ix.next_seq_id
  unfolding apply_entry
  next_number ix r place = let e = place in omega arith

  -- A branch entry at the next number, whose head is recorded.
  module _ (ix : Index D) (op : Mutation) (b : Str) (head : Option ℕ) (now : ℕ) where
    pub entered-Extends : Extends ix (apply_entry (branch_entry op ix.next_seq_id b head now) ix)
    unfolding apply_entry
    entered-Extends = record { still = λ n r e. e; grows = omega arith }

    entered_headed :
        IsValid ix
        → Recorded ix head
        → (i : Str) (h : BranchHead)
        → lookup i (apply_entry (branch_entry op ix.next_seq_id b head now) ix).branches ≡ some h
        → Recorded ix h.head_seq_id
    unfolding apply_entry
    entered_headed valid recorded i h found =
        by_test (str_eq b i)
          (sym (lookup-put b i (mutated op b head now (lookup b ix.branches)) ix.branches) ∙ found)
      where
        by_test :
            (t : Bool)
            → (if t
                then some (mutated op b head now (lookup b ix.branches))
                else lookup i ix.branches)
              ≡ some h
            → Recorded ix h.head_seq_id
        by_test true k =
            let same : mutated op b head now (lookup b ix.branches) ≡ h = cc in
            subst (Recorded ix)
              (sym (head-mutated op b head now (lookup b ix.branches))
                ∙ ap (λ (x : BranchHead). x.head_seq_id) same)
              recorded
        by_test false k = valid.headed i h k

    pub entered-IsValid :
        IsValid ix
        → Recorded ix head
        → IsValid (apply_entry (branch_entry op ix.next_seq_id b head now) ix)
    unfolding apply_entry
    entered-IsValid valid recorded = record {
      placed = valid.placed;
      below = λ n r e. let low = valid.below n r e in omega arith;
      older = valid.older;
      linked = λ n r e. onto r.parent_id (valid.linked n r e);
      headed = λ i h e. onto h.head_seq_id (entered_headed valid recorded i h e);
    }
      where
        onto :
            (m : Option ℕ)
            → Recorded ix m
            → Recorded (apply_entry (branch_entry op ix.next_seq_id b head now) ix) m
        onto none k = tt
        onto (some n) k = k
