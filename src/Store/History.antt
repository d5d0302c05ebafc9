-- ===== src/Store/History.antt =====
-- Histories: the walk up the parents of materializeHistoryToHead and containsInBranchHistory.
use hyperchart.Prelude.{
  Bool, List, Option, [], any, ap, arith, false, if◌then◌else◌, none, refl, reverse, some, suc, sym,
  true, zero, ℕ, ◌==◌, ◌||◌, ◌∙◌, ◌∷◌, ◌≡◌, ◌≤◌,
}
use hyperchart.Dict.Numbered.{value_at}
use hyperchart.Result.{>>=-eq-ok, missing_record, ok, ok_injective, require, require-eq-ok}
use hyperchart.Store.{Index, Stored, contains_from, materialize_history_to_head, walk}
use hyperchart.Store.Valid.{Extends, IsValid, Older, Recorded}

weaker-Older : (n m : ℕ) (head : Option ℕ) → Older n head → n ≤ m → Older m head
weaker-Older n m none h e = tt
weaker-Older n m (some k) h e = omega arith

module _ {D : Type 0} where
  -- More fuel, and more records, give the same walk.
  pub walk-Extends :
      (fuel more : ℕ) (ix next : Index D) (head : Option ℕ) (hs : List (Stored D))
      → Extends ix next
      → fuel ≤ more
      → walk fuel ix head ≡ ok hs
      → walk more next head ≡ ok hs
  unfolding walk
  walk-Extends fuel more ix next none hs e le h = h
  walk-Extends zero more ix next (some n) hs e le h = cc
  walk-Extends (suc fuel) zero ix next (some n) hs e le h = absurd (omega arith)
  walk-Extends (suc fuel) (suc more) ix next (some n) hs e le h =
      let (r, found, m1) = >>=-eq-ok (require (value_at n ix.records) (missing_record n)) _ h in
      let (rest, upper, whole) = >>=-eq-ok (walk fuel ix r.parent_id) _ m1 in
      let there = e.still n r (require-eq-ok (value_at n ix.records) (missing_record n) found) in
      let deeper = walk-Extends fuel more ix next r.parent_id rest e (omega arith) upper in
      rw (there, walk) (rw deeper whole)

  -- Enough fuel: a walk from a record below the fuel ends.
  walk_total :
      (fuel : ℕ) (ix : Index D) (head : Option ℕ)
      → IsValid ix
      → Recorded ix head
      → Older fuel head
      → (hs : List (Stored D)) × (walk fuel ix head ≡ ok hs)
  unfolding walk
  walk_total fuel ix none valid recorded low = ([], refl)
  walk_total zero ix (some n) valid recorded low = absurd (omega arith)
  walk_total (suc fuel) ix (some n) valid (r, found) low =
      let (rest, upper) =
        walk_total fuel ix r.parent_id valid (valid.linked n r found)
          (weaker-Older n fuel r.parent_id (valid.older n r found) (omega arith)) in
      (r ∷ rest, rw (found, walk) (rw upper refl))

  -- The history of every head of a well-formed journal is found: the walk up the parents ends, and meets
  -- no record that is missing.
  pub materialize_history_to_head_total :
      (ix : Index D) (head : Option ℕ)
      → IsValid ix
      → Recorded ix head
      → (hs : List (Stored D)) × (materialize_history_to_head ix head ≡ ok hs)
  unfolding materialize_history_to_head
  materialize_history_to_head_total ix head valid recorded =
      let (hs, found) = walk_total ix.next_seq_id ix head valid recorded (low head recorded) in
      (reverse hs, rw found refl)
    where
      low : (m : Option ℕ) → Recorded ix m → Older ix.next_seq_id m
      low none k = tt
      low (some n) (r, found) = valid.below n r found

  -- Histories are never rewritten: what a head had, it has in every later index.
  pub history-Extends :
      (ix next : Index D) (head : Option ℕ) (hs : List (Stored D))
      → Extends ix next
      → materialize_history_to_head ix head ≡ ok hs
      → materialize_history_to_head next head ≡ ok hs
  unfolding materialize_history_to_head
  history-Extends ix next head hs e h =
      let (ws, found, whole) = >>=-eq-ok (walk ix.next_seq_id ix head) _ h in
      rw (walk-Extends ix.next_seq_id next.next_seq_id ix next head ws e e.grows found) whole

  abbrev pub numbered_as : ℕ → Stored D → Bool
  numbered_as n r = r.seq_id == n

  pub contains_from-walk :
      (fuel : ℕ) (ix : Index D) (target : ℕ) (head : Option ℕ) (hs : List (Stored D))
      → IsValid ix
      → walk fuel ix head ≡ ok hs
      → contains_from fuel ix target head ≡ ok (any (numbered_as target) hs)
  unfolding walk contains_from
  contains_from-walk fuel ix target none hs valid h =
      ap (λ (rs : List (Stored D)). ok (any (numbered_as target) rs)) (ok_injective h)
  contains_from-walk zero ix target (some n) hs valid h = cc
  contains_from-walk (suc fuel) ix target (some n) hs valid h =
      let (r, found, m1) = >>=-eq-ok (require (value_at n ix.records) (missing_record n)) _ h in
      let (rest, upper, whole) = >>=-eq-ok (walk fuel ix r.parent_id) _ m1 in
      let there = require-eq-ok (value_at n ix.records) (missing_record n) found in
      let place = valid.placed n r there in
      let deeper = contains_from-walk fuel ix target r.parent_id rest valid upper in
      rw (there, contains_from)
        (rw deeper (
          by_test (n == target) (any (numbered_as target) rest)
          ∙ ap (λ (b : Bool). ok (b || any (numbered_as target) rest))
              (ap (λ (m : ℕ). m == target) (sym place))
          ∙ ap (λ (rs : List (Stored D)). ok (any (numbered_as target) rs)) (ok_injective whole)))
    where
      by_test : (a b : Bool) → (if a then ok true else ok b) ≡ ok (a || b)
      by_test true b = refl
      by_test false b = refl
