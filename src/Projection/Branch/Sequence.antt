-- ===== src/Projection/Branch/Sequence.antt =====
-- The sequence number of a replay.
use hyperchart.Prelude.{List, [], ap, max, refl, sym, ℕ, ◌∙◌, ◌∷◌, ◌≡◌}
use hyperchart.Chart.{Chart}
use hyperchart.Projection.{Projection, Run}
use hyperchart.Projection.Branch.{Logged, Record, apply_logged, apply_record, project_branch}
use hyperchart.Projection.Branch.Endpoints.{ControlRule, control_Preserved, control_records}
use hyperchart.Projection.Branch.Every.{apply_record_keeps}
use hyperchart.Projection.Branch.Moved.{
  Kept, complete_parallels_kept, exit_and_enter_kept, spawn_map_kept,
}
use hyperchart.Result.{>>=-eq-ok, ok, ok_injective}
use hyperchart.Text.{Str}

-- A property of the number alone is kept on the chart.
numbered : (ast : Chart) (fuel n : ℕ) → ControlRule ast fuel (λ (p : Projection). p.seq_id ≡ n)
numbered ast fuel n = record {
  same_control = λ p q e at_n. sym (ap (λ (c : List Str × ℕ). c.1) e) ∙ at_n;
  joins = λ p q at_n h.
      sym (ap (λ (k : Kept). k.1) (complete_parallels_kept ast fuel fuel p q h)) ∙ at_n;
  exits = λ exit target r s at_n h.
      sym (ap (λ (k : Kept). k.1) (exit_and_enter_kept ast fuel exit target r s h)) ∙ at_n;
  spawns_map = λ path node instances p q at_n h.
      sym (ap (λ (k : Kept). k.1) (spawn_map_kept ast fuel path node instances p q h)) ∙ at_n;
}

-- No record by itself writes the number.
pub apply_record_seq_id :
    (ast : Chart) (fuel : ℕ) (record_of : Record) (seq : ℕ) (r s : Run)
    → apply_record ast fuel record_of seq r ≡ ok s
    → s.projection.seq_id ≡ r.projection.seq_id
apply_record_seq_id ast fuel record_of seq r s h =
    let n = r.projection.seq_id in
    apply_record_keeps ast fuel (λ _ p. p.seq_id ≡ n) (λ _ u. u)
      (λ _. control_Preserved ast fuel (λ p. p.seq_id ≡ n) (numbered ast fuel n))
      (control_records ast fuel (λ p. p.seq_id ≡ n) (numbered ast fuel n)) record_of seq tt r s refl
      h

-- The greatest number of a log, from a first one.
abbrev pub latest : List Logged → ℕ → ℕ
latest [] n = n
latest (l ∷ log) n = latest log (max n l.number)

-- A replay ends at the greatest of the numbers of its records and the number it started from, whatever
-- the records are and in whatever order: what is skipped counts too.
pub project_branch-seq_id :
    (ast : Chart) (fuel : ℕ) (log : List Logged) (r s : Run)
    → project_branch ast fuel log r ≡ ok s
    → s.projection.seq_id ≡ latest log r.projection.seq_id
unfolding project_branch apply_logged
project_branch-seq_id ast fuel [] r s h =
    ap (λ (x : Run). x.projection.seq_id) (sym (ok_injective h))
project_branch-seq_id ast fuel (l ∷ log) r s h =
    let (t, first, more) = >>=-eq-ok (apply_logged ast fuel l r) _ h in
    let (next, applied, whole) = >>=-eq-ok (apply_record ast fuel l.record_of l.number r) _ first in
    project_branch-seq_id ast fuel log t s more
    ∙ ap (latest log) (
        sym (ap (λ (x : Run). x.projection.seq_id) (ok_injective whole))
        ∙ ap (λ n. max n l.number)
            (apply_record_seq_id ast fuel l.record_of l.number r next applied))
