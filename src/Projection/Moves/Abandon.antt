-- ===== src/Projection/Moves/Abandon.antt =====
-- Pending work through `exitAndEnter`: what stays, what is abandoned, and the gates that go.
use hyperchart.Prelude.{
  Bool, List, Option, [], ap, false, keep, none, not, refl, some, sym, true, ℕ, ◌++◌, ◌==◌, ◌∙◌,
  ◌∷◌, ◌≡◌,
}
use hyperchart.Batch.{joined}
use hyperchart.Chart.{Chart}
use hyperchart.Entry.{enter_state}
use hyperchart.Projection.{PendingAction, Projection, Run}
use hyperchart.Projection.Joins.{complete_parallels}
use hyperchart.Projection.Moves.{
  Sorted, abandon_pending, exit_and_enter, is_action_active, move_leaves, settle_joins,
  sort_pending, sorted_in,
}
use hyperchart.Projection.Moves.Leaves.{complete_parallels-eq}
use hyperchart.Result.{>>=-eq-ok, Result, err, ok, ok_injective}
use hyperchart.Text.{Str}
use hyperchart.Text.Split.{split}

-- The test that the loop makes, with a failure of the test taken as false.
abbrev pub is_ok_true : Result Bool → Bool
is_ok_true (ok b) = b
is_ok_true (err e) = false

abbrev pub still_active : Chart → Projection → PendingAction → Bool
still_active ast p a = is_ok_true (is_action_active ast p a.uid.state)

abbrev pub not_active : Chart → Projection → PendingAction → Bool
not_active ast p a = not (still_active ast p a)

sort_pending_split :
    (ast : Chart) (p : Projection) (ps : List PendingAction) (s : Sorted)
    → sort_pending ast p ps ≡ ok s
    → (s.kept ≡ keep (still_active ast p) ps) × (s.gone ≡ keep (not_active ast p) ps)
unfolding sort_pending
sort_pending_split ast p [] s h = let e = ok_injective h in rw (sym e) (refl, refl)
sort_pending_split ast p (a ∷ ps) s h =
    let (active, now, more) = >>=-eq-ok (is_action_active ast p a.uid.state) _ h in
    let (rest, later, whole) = >>=-eq-ok (sort_pending ast p ps) _ more in
    let (kept, gone) = sort_pending_split ast p ps rest later in
    decided active now rest kept gone (ok_injective whole)
  where
    decided :
        (active : Bool)
        → is_action_active ast p a.uid.state ≡ ok active
        → (rest : Sorted) → rest.kept ≡ keep (still_active ast p) ps
        → rest.gone ≡ keep (not_active ast p) ps
        → sorted_in active a rest ≡ s
        → (s.kept ≡ keep (still_active ast p) (a ∷ ps))
          × (s.gone ≡ keep (not_active ast p) (a ∷ ps))
    decided true now rest kept gone e = rw (sym e, now) (rw kept refl, gone)
    decided false now rest kept gone e = rw (sym e, now) (kept, rw gone refl)

-- A move keeps the pending work whose action is still active once the leaves have moved, and
-- reports the rest as abandoned behind what was; both keep their order.
pub exit_and_enter_pending :
    (ast : Chart) (fuel : ℕ) (exit target : Str) (r s : Run)
    → exit_and_enter ast fuel exit target r ≡ ok s
    → (p : Projection) × (move_leaves ast fuel exit target r.projection ≡ ok p)
      × (s.projection.pending ≡ keep (still_active ast p) r.projection.pending)
      × (s.abandoned ≡ r.abandoned ++ keep (not_active ast p) r.projection.pending)
unfolding exit_and_enter move_leaves abandon_pending settle_joins
exit_and_enter_pending ast fuel exit target r s h =
    let (p, moved, more) = >>=-eq-ok (move_leaves ast fuel exit target r.projection) _ h in
    let (entered, _, built) = >>=-eq-ok (enter_state ast fuel target) _ moved in
    let same = ok_injective built in
    let (t, dropped, rest) = >>=-eq-ok (abandon_pending ast (record r { projection = p })) _ more in
    let (sorted, split, cleaned) = >>=-eq-ok (sort_pending ast p p.pending) _ dropped in
    let (kept, gone) = sort_pending_split ast p p.pending sorted split in
    let (q, joined, whole) = >>=-eq-ok (complete_parallels ast fuel fuel t.projection) _ rest in
    let joins = complete_parallels-eq ast fuel fuel t.projection q joined in
    let at_s = ok_injective whole in
    let at_t = ok_injective cleaned in
    let pending = ap (λ (x : Projection). x.pending) same in
    (
      p,
      moved,
      ap (λ (x : Run). x.projection.pending) (sym at_s)
          ∙ ap (λ (x : Projection). x.pending) joins
          ∙ ap (λ (x : Run). x.projection.pending) (sym at_t)
          ∙ kept
          ∙ ap (keep (still_active ast p)) (sym pending),
      ap (λ (x : Run). x.abandoned) (sym at_s)
          ∙ ap (λ (x : Run). x.abandoned) (sym at_t)
          ∙ ap (λ (x : List PendingAction). r.abandoned ++ x)
              (gone ∙ ap (keep (not_active ast p)) (sym pending)),
    )

abbrev pub names_gate : ℕ → Option ℕ → Bool
names_gate n none = false
names_gate n (some m) = m == n

abbrev pub holds_gate : ℕ → PendingAction → Bool
holds_gate n p = names_gate n p.gate_seq_id
