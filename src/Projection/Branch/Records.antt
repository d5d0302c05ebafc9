-- ===== src/Projection/Branch/Records.antt =====
-- The records of an action keep what the moves keep: `applyActionCompletion` and the `state_action`
-- records.
use hyperchart.Prelude.{
  Bool, Option, false, find, if◌then◌else◌, none, not, refl, some, subst, true, ℕ, ◌||◌, ◌∙◌, ◌≡◌,
}
use hyperchart.Chart.{Action, Chart}
use hyperchart.Json.{Json, arr, bool, null, num, obj, same_recorded_value, str, undefined}
use hyperchart.Projection.{
  ChartEvent, PendingAction, Phase, Projection, ProvisionalPins, Run, running, validating_phase,
}
use hyperchart.Projection.Branch.Control.{apply_after_transition_keeps, apply_transition_keeps}
use hyperchart.Projection.Branch.Frame.{Preserved, SameView}
use hyperchart.Projection.Moves.{apply_after_transition, assert_active_action_uid, is_action_active}
use hyperchart.Projection.Pending.{has_pending, pending_of, remove_pending_action}
use hyperchart.Projection.Records.{
  accept_completion, apply_action_completion, apply_invoke, apply_timer_fired, apply_validated,
  assign_pins, await_verdict, event_value, is_validating, needs_verdict, on_projection, pins_belong,
  record_output, record_result, record_skipped, reject_claim, start_visit, verdict_on,
  waits_for_verdict,
}
use hyperchart.Result.{
  >>=-eq-ok, Result, err, event_mismatch, foreign_artifacts, guard, guard-eq-ok, inactive_state,
  missing_provenance, no_pending, ok, ok_injective, pending_action, require, validating, ◌>>=◌,
  ◌>>◌,
}
use hyperchart.Text.{Str}
use hyperchart.Uid.{ActionUid}

record_result_view :
    (state : Str) (event : ChartEvent) (p : Projection) → SameView p (record_result state event p)
unfolding record_result
record_result_view state event p = by_output event.output
  where
    by_output : (o : Option Json) → SameView p (record_output state o p)
    by_output none = refl
    by_output (some null) = refl
    by_output (some undefined) = refl
    by_output (some (bool b)) = refl
    by_output (some (num n)) = refl
    by_output (some (str t)) = refl
    by_output (some (arr vs)) = refl
    by_output (some (obj fs)) = refl

assign_pins_view : (a : Option ProvisionalPins) (p : Projection) → SameView p (assign_pins a p)
assign_pins_view none p = refl
assign_pins_view (some a) p = refl

module _ {κ} (ast : Chart) (fuel : ℕ) (P : Projection → Type κ) (rule : Preserved ast fuel P) where
  -- A step that writes outside the view.
  quiet_step :
      (r t s : Run) → SameView r.projection t.projection → P r.projection → t ≡ s → P s.projection
  quiet_step r t s same holds e =
      subst (λ (x : Run). P x.projection) e (rule.quietly r.projection t.projection same holds)

  accept_completion_keeps :
      (u : ActionUid) (claimed event : ChartEvent) (artifacts : Option ProvisionalPins) (r s : Run)
      → P r.projection
      → accept_completion ast fuel u claimed event artifacts r ≡ ok s
      → P s.projection
  unfolding accept_completion remove_pending_action
  accept_completion_keeps u claimed event artifacts r s holds h =
      let before =
        assign_pins_view artifacts r.projection
        ∙ record_result_view u.state claimed (assign_pins artifacts r.projection) in
      let start =
        on_projection
          (λ (p : Projection).
            remove_pending_action u (record_result u.state claimed (assign_pins artifacts p)))
          r in
      apply_transition_keeps ast fuel P rule u.state event start s
        (rule.quietly r.projection start.projection before holds) h

  -- A completion, whether it is skipped, waits for a verdict, or is accepted.
  pub apply_action_completion_keeps :
      (u : ActionUid) (event : ChartEvent) (artifacts : Option ProvisionalPins) (seq : ℕ)
      (logged : Bool) (r s : Run)
      → P r.projection
      → apply_action_completion ast fuel u event artifacts seq logged r ≡ ok s
      → P s.projection
  unfolding apply_action_completion record_skipped await_verdict remove_pending_action
  apply_action_completion_keeps u event artifacts seq logged r s holds h =
      let (active, _, more) = >>=-eq-ok (is_action_active ast r.projection u.state) _ h in
      by_active active more
    where
      go : Result Run
      go = do
        assert_active_action_uid ast u.state u
        previous ← require (pending_of u r.projection.pending) (no_pending u.state)
        guard (not (is_validating previous.phase)) (validating u.state)
        if needs_verdict previous event
            then ok (on_projection (await_verdict u seq event artifacts previous) r)
            else accept_completion ast fuel u event event artifacts r

      by_need :
          (previous : PendingAction) (b : Bool)
          → (if b
              then ok (on_projection (await_verdict u seq event artifacts previous) r)
              else accept_completion ast fuel u event event artifacts r)
            ≡ ok s
          → P s.projection
      by_need previous true e =
          quiet_step r (on_projection (await_verdict u seq event artifacts previous) r) s refl holds
            (ok_injective e)
      by_need previous false e = accept_completion_keeps u event event artifacts r s holds e

      by_logged :
          (b : Bool)
          → (if b then ok (record_skipped seq u.state r) else err (inactive_state u.state)) ≡ ok s
          → P s.projection
      by_logged true e = subst (λ (x : Run). P x.projection) (ok_injective e) holds
      by_logged false e = cc

      by_active :
          (b : Bool)
          → (if not b
              then (if logged
                  then ok (record_skipped seq u.state r)
                  else err (inactive_state u.state))
              else go)
            ≡ ok s
          → P s.projection
      by_active false e = by_logged logged e
      by_active true e =
          let (_, _, more) = >>=-eq-ok (assert_active_action_uid ast u.state u) _ e in
          let (previous, _, rest) =
            >>=-eq-ok (require (pending_of u r.projection.pending) (no_pending u.state)) _ more in
          let (_, last) =
            guard-eq-ok (not (is_validating previous.phase)) (validating u.state) _ rest in
          by_need previous (needs_verdict previous event) last

  pub apply_invoke_keeps :
      (u : ActionUid) (session : Str) (definition : Option Action) (timestamp seq : ℕ) (r s : Run)
      → P r.projection
      → apply_invoke ast u session definition timestamp seq r ≡ ok s
      → P s.projection
  unfolding apply_invoke record_skipped start_visit
  apply_invoke_keeps u session definition timestamp seq r s holds h =
      let (d, _, more) = >>=-eq-ok (require definition (missing_provenance u.state)) _ h in
      let (active, _, rest) = >>=-eq-ok (is_action_active ast r.projection u.state) _ more in
      by_active d active rest
    where
      by_active :
          (d : Action) (b : Bool)
          → (if not b then ok (record_skipped seq u.state r) else (do
            assert_active_action_uid ast u.state u
            guard (not (has_pending u r.projection.pending)) (pending_action u.state)
            ok (on_projection (start_visit u session d timestamp seq) r)))
            ≡ ok s
          → P s.projection
      by_active d false e = subst (λ (x : Run). P x.projection) (ok_injective e) holds
      by_active d true e =
          let (_, _, more) = >>=-eq-ok (assert_active_action_uid ast u.state u) _ e in
          let (_, last) =
            guard-eq-ok (not (has_pending u r.projection.pending)) (pending_action u.state) _
              more in
          quiet_step r (on_projection (start_visit u session d timestamp seq) r) s refl holds
            (ok_injective last)

  pub apply_timer_fired_keeps :
      (u : ActionUid) (seq : ℕ) (r s : Run)
      → P r.projection
      → apply_timer_fired ast fuel u seq r ≡ ok s
      → P s.projection
  unfolding apply_timer_fired record_skipped remove_pending_action
  apply_timer_fired_keeps u seq r s holds h =
      let (active, _, more) = >>=-eq-ok (is_action_active ast r.projection u.state) _ h in
      by_active active more
    where
      by_active :
          (b : Bool)
          → (if not b then ok (record_skipped seq u.state r) else (do
            assert_active_action_uid ast u.state u
            apply_after_transition ast fuel u.state (on_projection (remove_pending_action u) r)))
            ≡ ok s
          → P s.projection
      by_active false e = subst (λ (x : Run). P x.projection) (ok_injective e) holds
      by_active true e =
          let (_, _, more) = >>=-eq-ok (assert_active_action_uid ast u.state u) _ e in
          apply_after_transition_keeps ast fuel P rule u.state
            (on_projection (remove_pending_action u) r) s
            (rule.quietly r.projection (remove_pending_action u r.projection) refl holds) more

  pub apply_validated_keeps :
      (u : ActionUid) (branch : Str) (outcome : Bool) (event : ChartEvent) (seq : ℕ) (r s : Run)
      → P r.projection
      → apply_validated ast fuel u branch outcome event seq r ≡ ok s
      → P s.projection
  unfolding apply_validated
  apply_validated_keeps u branch outcome event seq r s holds h =
      let (p, _, more) =
        >>=-eq-ok (require (find (waits_for_verdict u) r.projection.pending) (no_pending u.state)) _
          h in
      by_phase p p.phase more
    where
      by_outcome :
          (claimed : ChartEvent) (artifacts : Option ProvisionalPins) (p : PendingAction) (b : Bool)
          → (if b
              then accept_completion ast fuel u claimed event artifacts r
              else ok (on_projection (reject_claim u seq p) r))
            ≡ ok s
          → P s.projection
      by_outcome claimed artifacts p true e =
          accept_completion_keeps u claimed event artifacts r s holds e
      by_outcome claimed artifacts p false e =
          quiet_step r (on_projection (reject_claim u seq p) r) s refl holds (ok_injective e)

      by_phase :
          (p : PendingAction) (phase : Phase)
          → verdict_on ast fuel u branch outcome event seq p phase r ≡ ok s
          → P s.projection
      by_phase p running e = cc
      by_phase p (validating_phase claimed artifacts) e =
          let (_, more) =
            guard-eq-ok (not outcome || pins_belong artifacts branch) (foreign_artifacts u.state) _
              e in
          let (_, last) =
            guard-eq-ok (same_recorded_value (event_value event) (event_value claimed))
              (event_mismatch u.state) _ more in
          by_outcome claimed artifacts p outcome last
