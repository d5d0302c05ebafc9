-- ===== src/Store/Append.antt =====
-- What stamped drafts do to the index: they are the end of the history of their branch.
use hyperchart.Prelude.{
  Bool, List, [], ap, append-nil, append_assoc, arith, false, map, refl, reverse, reverse-cons,
  some, subst, suc, sym, ℕ, ◌++◌, ◌+◌, ◌∙◌, ◌∷◌, ◌≡◌,
}
use hyperchart.Dict.{lookup}
use hyperchart.Result.{>>=-eq-ok, guard-eq-ok, invalid_draft, ok, ok_injective, ◌>>=◌}
use hyperchart.Store.{
  BranchHead, Index, Stored, apply_entries, apply_entry, branch_of, durable,
  materialize_branch_history, materialize_history_to_head, origin_of, stamp_from, walk,
}
use hyperchart.Store.History.{walk-Extends}
use hyperchart.Store.Valid.{
  Extends, same-Extends, joined-Extends, IsValid, Recorded, durable-Extends, durable-IsValid,
  durable_branch, durable_others, durable_there, next_number,
}
use hyperchart.Text.{Str, str_eq}

module _ {D : Type 0} where
  -- A head that is recorded next: its history has the record at the end.
  next_history :
      (ix : Index D) (r : Stored D) (hs : List (Stored D))
      → IsValid ix
      → r.seq_id ≡ ix.next_seq_id
      → Recorded ix r.parent_id
      → materialize_history_to_head ix r.parent_id ≡ ok hs
      → materialize_history_to_head (apply_entry (durable r) ix) (some r.seq_id) ≡ ok (hs ++ r ∷ [])
  unfolding materialize_history_to_head walk
  next_history ix r hs valid place recorded h =
      let (ws, found, whole) = >>=-eq-ok (walk ix.next_seq_id ix r.parent_id) _ h in
      let deeper =
        walk-Extends ix.next_seq_id ix.next_seq_id ix (apply_entry (durable r) ix) r.parent_id ws
          (durable-Extends ix r valid place recorded) (omega arith) found in
      let top : walk (suc ix.next_seq_id) (apply_entry (durable r) ix) (some r.seq_id)
          ≡ ok (r ∷ ws) =
        rw (durable_there ix r valid place recorded, walk) (rw deeper refl) in
      ap (λ (n : ℕ). walk n (apply_entry (durable r) ix) (some r.seq_id) >>= λ rs. ok (reverse rs))
        (next_number ix r place)
      ∙ rw top (
          ap ok (reverse-cons r ws)
          ∙ ap (λ (rs : List (Stored D)). ok (rs ++ r ∷ [])) (ok_injective whole))

  -- What a run of stamped records does: the index stays well formed and grows, the branch has them at the
  -- end of its history, other branches stay, and the drafts are those that were given.
  pub record Appended (ix next : Index D) (b : Str) (hs rs : List (Stored D)) (ds : List D)
      : Type 0 where
    pub valid_after : IsValid next
    pub extends_to : Extends ix next
    pub at_the_end : materialize_branch_history next b ≡ ok (hs ++ rs)
    pub others_stay : (i : Str) → str_eq b i ≡ false → lookup i next.branches ≡ lookup i ix.branches
    pub as_given : map (λ (r : Stored D). r.draft) rs ≡ ds

  at_branch :
      (ix : Index D) (b : Str) (h : BranchHead) (hs : List (Stored D))
      → lookup b ix.branches ≡ some h
      → materialize_history_to_head ix h.head_seq_id ≡ ok hs
      → materialize_branch_history ix b ≡ ok hs
  unfolding materialize_branch_history branch_of
  at_branch ix b h hs found history = rw found history

  pub stamped-Appended :
      (is_draft : D → Bool) (b : Str) (now : ℕ) (ds : List D) (ix : Index D) (h : BranchHead)
      (hs rs : List (Stored D))
      → IsValid ix
      → lookup b ix.branches ≡ some h
      → materialize_history_to_head ix h.head_seq_id ≡ ok hs
      → stamp_from is_draft ix.next_seq_id h.head_seq_id b now ds ≡ ok rs
      → Appended ix (apply_entries (map durable rs) ix) b hs rs ds
  unfolding stamp_from apply_entries apply_entry
  stamped-Appended is_draft b now [] ix h hs rs valid found history e =
      subst (λ (x : List (Stored D)). Appended ix (apply_entries (map durable x) ix) b hs x [])
        (ok_injective e)
        (record {
          valid_after = valid;
          extends_to = same-Extends ix;
          at_the_end = at_branch ix b h hs found history ∙ ap ok (sym (append-nil hs));
          others_stay = λ i other. refl;
          as_given = refl;
        })
  stamped-Appended is_draft b now (d ∷ ds) ix h hs rs valid found history e =
      let r : Stored D = record {
        seq_id = ix.next_seq_id;
        parent_id = h.head_seq_id;
        branch_id = b;
        timestamp = now;
        draft = d;
      } in
      let (_, more) = guard-eq-ok (is_draft d) invalid_draft _ e in
      let (rest, later, whole) =
        >>=-eq-ok (stamp_from is_draft (ix.next_seq_id + 1) (some ix.next_seq_id) b now ds) _
          more in
      let recorded = valid.headed b h found in
      let next = apply_entry (durable r) ix in
      let moved : BranchHead = record {
        origin = origin_of (lookup b ix.branches);
        head_seq_id = some ix.next_seq_id;
      } in
      let tail : Appended next (apply_entries (map durable rest) next) b (hs ++ r ∷ []) rest ds =
        stamped-Appended is_draft b now ds next moved (hs ++ r ∷ []) rest
          (durable-IsValid ix r valid refl recorded) (durable_branch ix r)
          (next_history ix r hs valid refl recorded history) later in
      subst
        (λ (x : List (Stored D)). Appended ix (apply_entries (map durable x) ix) b hs x (d ∷ ds))
        (ok_injective whole)
        (record {
          valid_after = tail.valid_after;
          extends_to =
              joined-Extends ix next (apply_entries (map durable rest) next)
                (durable-Extends ix r valid refl recorded) tail.extends_to;
          at_the_end = tail.at_the_end ∙ ap ok (append_assoc hs (r ∷ []) rest);
          others_stay = λ i other. tail.others_stay i other ∙ durable_others ix r i other;
          as_given = ap (λ (xs : List D). d ∷ xs) tail.as_given;
        })
