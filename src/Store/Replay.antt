-- ===== src/Store/Replay.antt =====
-- The journal and the projection together: a branch is replayed from its history, so that a commit
-- advances the projection by what it wrote. The stamps of `stampDrafts` are what replay reads.
use hyperchart.Prelude.{
  Bool, List, Option, [], ap, arith, map, max, none, refl, reverse, reverse-cons, some, suc, sym,
  zero, ℕ, ◌++◌, ◌∙◌, ◌∷◌, ◌≡◌,
}
use hyperchart.Chart.{Chart}
use hyperchart.Dict.{lookup}
use hyperchart.Dict.Numbered.{value_at}
use hyperchart.Projection.{ProvisionalPins, Run}
use hyperchart.Projection.Branch.{Logged, Record, complete, invoke, project_branch, validated}
use hyperchart.Projection.Branch.Replay.{project_branch-append}
use hyperchart.Projection.Branch.Sequence.{latest, project_branch-seq_id}
use hyperchart.Result.{
  >>=-eq-ok, Result, missing_record, ok, ok_injective, require, require-eq-ok, unknown_branch,
  ◌>>=◌,
}
use hyperchart.Store.{
  BranchHead, Index, Stored, branch_of, materialize_branch_history, materialize_history_to_head,
  or_zero, walk,
}
use hyperchart.Store.Commit.{commit-Appended}
use hyperchart.Store.Memory.{Compare, MemoryStore, Prepared, commit}
use hyperchart.Store.Valid.{IsValid, Older}
use hyperchart.Text.{Str}

abbrev pub on_branch : Str → Option ProvisionalPins → Option ProvisionalPins
on_branch branch none = none
on_branch branch (some a) = some (record a { branch_id = branch })

-- A draft with the stamps of its writer: the branch and the time stand over what the draft has.
abbrev pub stamped : Str → ℕ → Record → Record
stamped branch now (invoke u session d timestamp) = invoke u session d now
stamped branch now (complete u event artifacts) = complete u event (on_branch branch artifacts)
stamped branch now (validated u b outcome event) = validated u branch outcome event
stamped branch now r = r

abbrev pub logged : Stored Record → Logged
logged r = record { number = r.seq_id; record_of = stamped r.branch_id r.timestamp r.draft }

map-append_logged :
    (xs ys : List (Stored Record)) → map logged (xs ++ ys) ≡ map logged xs ++ map logged ys
map-append_logged [] ys = refl
map-append_logged (x ∷ xs) ys = ap (λ (ls : List Logged). logged x ∷ ls) (map-append_logged xs ys)

latest-last :
    (xs : List (Stored Record)) (x : Stored Record) (n : ℕ)
    → latest (map logged (xs ++ x ∷ [])) n ≡ max (latest (map logged xs) n) x.seq_id
latest-last [] x n = refl
latest-last (y ∷ xs) x n = latest-last xs x (max n y.seq_id)

max-Older : (n : ℕ) (o : Option ℕ) → Older n o → max (or_zero o) n ≡ n
max-Older n none h = ground arith
max-Older n (some m) h = ground arith

-- The walk from a head, turned round, ends at the head's number, which is its greatest.
latest-walk :
    (fuel : ℕ) (ix : Index Record) (head : Option ℕ) (ws : List (Stored Record))
    → IsValid ix
    → walk fuel ix head ≡ ok ws
    → latest (map logged (reverse ws)) 0 ≡ or_zero head
unfolding walk
latest-walk fuel ix none ws valid h =
    ap (λ (rs : List (Stored Record)). latest (map logged (reverse rs)) 0) (sym (ok_injective h))
latest-walk zero ix (some n) ws valid h = cc
latest-walk (suc fuel) ix (some n) ws valid h =
    let (r, found, m1) = >>=-eq-ok (require (value_at n ix.records) (missing_record n)) _ h in
    let (rest, upper, whole) = >>=-eq-ok (walk fuel ix r.parent_id) _ m1 in
    let there = require-eq-ok (value_at n ix.records) (missing_record n) found in
    let before = latest-walk fuel ix r.parent_id rest valid upper in
    ap (λ (rs : List (Stored Record)). latest (map logged (reverse rs)) 0)
      (sym (ok_injective whole))
    ∙ ap (λ (rs : List (Stored Record)). latest (map logged rs) 0) (reverse-cons r rest)
    ∙ latest-last (reverse rest) r 0
    ∙ ap (λ m. max m r.seq_id) before
    ∙ ap (max (or_zero r.parent_id)) (valid.placed n r there)
    ∙ max-Older n r.parent_id (valid.older n r there)

latest-history :
    (ix : Index Record) (b : Str) (hs : List (Stored Record))
    → IsValid ix
    → materialize_branch_history ix b ≡ ok hs
    → (h : BranchHead) × (lookup b ix.branches ≡ some h)
      × (latest (map logged hs) 0 ≡ or_zero h.head_seq_id)
unfolding materialize_branch_history branch_of materialize_history_to_head
latest-history ix b hs valid h =
    let (head, found, more) = >>=-eq-ok (require (lookup b ix.branches) (unknown_branch b)) _ h in
    let (ws, walked, whole) = >>=-eq-ok (walk ix.next_seq_id ix head.head_seq_id) _ more in
    (
      head,
      require-eq-ok (lookup b ix.branches) (unknown_branch b) found,
      ap (λ (rs : List (Stored Record)). latest (map logged rs) 0) (sym (ok_injective whole))
          ∙ latest-walk ix.next_seq_id ix head.head_seq_id ws valid walked,
    )

-- A projection that is kept beside a well-formed journal, and advanced by the records that a commit
-- returns, is the replay of the branch's new history, and its number is that of the branch's new head.
-- The condition: the replay starts from a projection with no record, and both replays succeed.
pub commit-project_branch :
    (ast : Chart) (fuel : ℕ) (start kept advanced : Run) (is_draft : Record → Bool)
    (compared : Compare) (ds : List Record) (prepare : List (Stored Record) → Result Prepared)
    (now : ℕ) (s t : MemoryStore Record) (hs rs : List (Stored Record))
    → IsValid s.index
    → materialize_branch_history s.index s.selected ≡ ok hs
    → start.projection.seq_id ≡ 0
    → project_branch ast fuel (map logged hs) start ≡ ok kept
    → commit is_draft compared ds prepare now s ≡ (t, ok rs)
    → project_branch ast fuel (map logged rs) kept ≡ ok advanced
    → ((materialize_branch_history t.index s.selected >>= λ whole.
          project_branch ast fuel (map logged whole) start)
        ≡ ok advanced)
      × ((b : BranchHead) × (lookup s.selected t.index.branches ≡ some b)
          × (advanced.projection.seq_id ≡ or_zero b.head_seq_id))
commit-project_branch ast fuel start kept advanced is_draft compared ds prepare now s t hs rs valid
      before fresh kept_is h advanced_is =
    let done = commit-Appended is_draft compared ds prepare now s t hs rs valid before h in
    let whole : project_branch ast fuel (map logged (hs ++ rs)) start ≡ ok advanced =
      ap (λ (log : List Logged). project_branch ast fuel log start) (map-append_logged hs rs)
      ∙ project_branch-append ast fuel (map logged hs) (map logged rs) start
      ∙ rw kept_is advanced_is in
    let (b, found, last) =
      latest-history t.index s.selected (hs ++ rs) done.valid_after done.at_the_end in
    (
      rw (done.at_the_end) whole,
      (
        b,
        found,
        project_branch-seq_id ast fuel (map logged (hs ++ rs)) start advanced whole
            ∙ ap (latest (map logged (hs ++ rs))) fresh
            ∙ last,
      ),
    )
