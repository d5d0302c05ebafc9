-- ===== src/Store/Pages.antt =====
-- Pages of a replay: `boundedForwardReplayPage` of runtime/generic/log_store.ts, which walks from the
-- head and holds one page of records.
pub mod Forward
use hyperchart.Prelude.{
  Bool, List, Option, [], drop, false, if◌then◌else◌, length, ltb, none, reverse, some, suc, true,
  zero, ℕ, ◌++◌, ◌+◌, ◌==◌, ◌∷◌,
}
use hyperchart.Dict.Numbered.{value_at}
use hyperchart.Result.{
  Result, err, foreign_boundary, guard, missing_record, ok, out_of_fuel, require, ◌>>=◌, ◌>>◌,
}
use hyperchart.Store.{Index, Stored, or_zero}

abbrev pub replay_page_records : ℕ
replay_page_records = 500

pub record ReplayPage (D : Type 0) : Type 0 where
  pub records : List (Stored D)
  pub next_after_seq_id : Option ℕ

pub record PageWalk (D : Type 0) : Type 0 where
  pub retained : List (Stored D)
  pub count : ℕ
  pub found : Bool

-- push, and shift where there are more than the limit
abbrev pub push_bounded {ℓ} : {A : Type ℓ} → ℕ → A → List A → List A
push_bounded limit r retained =
    let grown = retained ++ r ∷ [] in if ltb limit (length grown) then drop 1 grown else grown

abbrev pub is_absent : Option ℕ → Bool
is_absent none = true
is_absent (some n) = false

abbrev pub is_boundary : Option ℕ → ℕ → Bool
is_boundary none n = false
is_boundary (some m) n = n == m

module _ {D : Type 0} where
  unfoldable pub page_walk :
      ℕ → Index D → ℕ → Option ℕ → Option ℕ → List (Stored D) → ℕ → Result (PageWalk D)
  page_walk fuel ix limit after none retained count =
      ok (record { retained = retained; count = count; found = is_absent after })
  page_walk zero ix limit after (some n) retained count = err out_of_fuel
  page_walk (suc fuel) ix limit after (some n) retained count = do
    r ← require (value_at n ix.records) (missing_record n)
    let further =
        page_walk fuel ix limit after r.parent_id (push_bounded limit r retained) (count + 1)
    if is_boundary after r.seq_id
        then ok (record { retained = retained; count = count; found = true })
        else further

  -- records.at(-1)?.seqId
  abbrev pub last_seq_id : List (Stored D) → Option ℕ
  last_seq_id [] = none
  last_seq_id (r ∷ []) = some r.seq_id
  last_seq_id (r ∷ s ∷ rs) = last_seq_id (s ∷ rs)

  abbrev pub page_from : ℕ → List (Stored D) → ℕ → ReplayPage D
  page_from limit records count = record {
    records = records;
    next_after_seq_id = if ltb limit count then last_seq_id records else none;
  }

  unfoldable pub bounded_forward_replay_page : Index D → Option ℕ → Option ℕ → Result (ReplayPage D)
  bounded_forward_replay_page ix none after = ok (record { records = []; next_after_seq_id = none })
  bounded_forward_replay_page ix (some target) after = do
    w ← page_walk ix.next_seq_id ix replay_page_records after (some target) [] 0
    guard w.found (foreign_boundary (or_zero after))
    ok (page_from replay_page_records (reverse w.retained) w.count)
