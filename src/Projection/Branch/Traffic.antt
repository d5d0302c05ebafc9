-- ===== src/Projection/Branch/Traffic.antt =====
-- The messages of an actor over whole replays: what is posted to its mailbox and what is accepted from
-- it, in order.
use hyperchart.Prelude.{
  List, [], ap, append-nil, append_assoc, arith, drop, drop-length, false, length, length-append,
  max, refl, subst, sym, ℕ, ◌++◌, ◌+◌, ◌∙◌, ◌∷◌, ◌≡◌, ◌≤◌,
}
use hyperchart.Chart.{Chart}
use hyperchart.Projection.{Endpoint, Projection, Run}
use hyperchart.Projection.Branch.{
  Logged, Record, actor_created, message_accepted, message_settled, messages_enqueued,
  project_branch, scope_closing, scope_stopped,
}
use hyperchart.Projection.Branch.Delivery.{
  Behind, apply_accepted_mailbox, apply_closing_mailbox, apply_settled_mailbox,
  apply_stopped_mailbox, takes_from,
}
use hyperchart.Projection.Branch.Every.{
  EndpointRecords, history, project_branch_keeps, touches_endpoint,
}
use hyperchart.Projection.Branch.Frame.{Preserved}
use hyperchart.Projection.Branch.Mailbox.{
  actor_endpoint_view, actor_execution_found, apply_created_mailbox, mailbox_at, mailbox_at-kept,
  mailbox_at-view, mailbox_at_numbered, mailbox_at_same, post_mailbox, posted_by,
}
use hyperchart.Projection.Branch.Moved.{
  complete_parallels_kept, exit_and_enter_kept, spawn_map_kept,
}
use hyperchart.Projection.Endpoints.Enqueued.{Enqueue, assert_enqueued, post}
use hyperchart.Projection.Endpoints.Messages.{Acceptance, apply_accepted}
use hyperchart.Projection.Moves.{moved_to, set_execution_current_state}
use hyperchart.Result.{ok}
use hyperchart.Text.{Str}
use hyperchart.Text.Split.{split}

-- What one record posts to the actor at an occurrence, and how many messages of it are accepted.
abbrev pub posted_of : Str → Record → List Str
posted_of o (messages_enqueued m) = posted_by o m
posted_of o _ = []

abbrev pub accepted_of : Str → Record → ℕ
accepted_of o (message_accepted a) = takes_from o a
accepted_of o _ = 0

-- The same for a log.
abbrev pub posted_to : Str → List Logged → List Str
posted_to o [] = []
posted_to o (l ∷ log) = posted_of o l.record_of ++ posted_to o log

abbrev pub accepted_from : Str → List Logged → ℕ
accepted_from o [] = 0
accepted_from o (l ∷ log) = accepted_of o l.record_of + accepted_from o log

record Traffic : Type 0 where
  posted : List Str
  taken : ℕ

abbrev traffic : List Str → ℕ → Traffic
traffic ms n = record { posted = ms; taken = n }

abbrev step : Str → Record → Traffic → Traffic
step o r h = record { posted = h.posted ++ posted_of o r; taken = h.taken + accepted_of o r }

-- All that was there and was posted is what is gone, from the front, and what is there still.
abbrev InOrder : Str → List Str → Traffic → Projection → Type 0
InOrder o start h p = Behind h.taken (start ++ h.posted) (mailbox_at o p)

same-Behind :
    (n m : ℕ) (before later after next : List Str)
    → n ≡ m
    → before ≡ later
    → after ≡ next
    → Behind n before after
    → Behind m later next
same-Behind n m before later after next e f g (gone, count, split) =
    (gone, count ∙ e, sym f ∙ split ∙ ap (λ (ms : List Str). gone ++ ms) g)

-- What is gone grows at its end.
more-Behind :
    (n k : ℕ) (before after next : List Str)
    → Behind n before after
    → Behind k after next
    → Behind (n + k) before next
more-Behind n k before after next (gone, count, split) (more, extra, rest) = (
  gone ++ more,
  length-append gone more ∙ ap (λ m. m + length more) count ∙ ap (λ m. n + m) extra,
  split ∙ ap (λ (ms : List Str). gone ++ ms) rest ∙ sym (append_assoc gone more next),
)

module _ (ast : Chart) (fuel : ℕ) (o : Str) (start : List Str) where
  -- A record that neither posts nor accepts, and a mailbox that stays.
  unmoved :
      (r : Record) (h : Traffic) (p q : Projection)
      → posted_of o r ≡ []
      → accepted_of o r ≡ 0
      → mailbox_at o q ≡ mailbox_at o p
      → InOrder o start h p
      → InOrder o start (step o r h) q
  unmoved r h p q silent calm same holds =
      same-Behind h.taken (h.taken + accepted_of o r) (start ++ h.posted)
        (start ++ (h.posted ++ posted_of o r)) (mailbox_at o p) (mailbox_at o q)
        (rw calm (omega arith))
        (ap (λ (ms : List Str). start ++ ms)
          (sym (ap (λ (ms : List Str). h.posted ++ ms) silent ∙ append-nil h.posted)))
        (sym same) holds

  in_order : (h : Traffic) → Preserved ast fuel (InOrder o start h)
  unfolding set_execution_current_state
  in_order h = record {
    quietly = λ p q same holds. onto p q (mailbox_at-view o p q same) holds;
    by_joins = λ p q holds e.
        onto p q (mailbox_at-kept o p q (complete_parallels_kept ast fuel fuel p q e)) holds;
    by_exit = λ exit target r s holds e.
        onto r.projection s.projection
          (mailbox_at-kept o r.projection s.projection
            (exit_and_enter_kept ast fuel exit target r s e))
          holds;
    by_actor = λ c x target p q current same holds.
        onto q (set_execution_current_state c.endpoint_occurrence x target q)
          (sym (
            mailbox_at_same c.endpoint_occurrence o x.endpoint
              (record (x.endpoint) { execution = moved_to x target }) q
              (actor_endpoint_view p q c.endpoint_occurrence same
                ∙ actor_execution_found p c x current)
              refl))
          holds;
    by_spawn = λ path node instances p q holds e.
        onto p q (mailbox_at-kept o p q (spawn_map_kept ast fuel path node instances p q e)) holds;
  }
    where
      onto :
          (p q : Projection)
          → mailbox_at o p ≡ mailbox_at o q
          → InOrder o start h p
          → InOrder o start h q
      onto p q same holds =
          same-Behind h.taken h.taken (start ++ h.posted) (start ++ h.posted) (mailbox_at o p)
            (mailbox_at o q) refl refl same holds

  posts :
      (m : Enqueue) (actor : Endpoint) (h : Traffic) (p : Projection)
      → InOrder o start h p
      → assert_enqueued ast p m ≡ ok actor
      → InOrder o start (step o (messages_enqueued m) h) (post m actor p)
  posts m actor h p (gone, count, split) found = (
    gone,
    count ∙ omega arith,
    sym (append_assoc start h.posted (posted_by o m))
        ∙ ap (λ (ms : List Str). ms ++ posted_by o m) split
        ∙ append_assoc gone (mailbox_at o p) (posted_by o m)
        ∙ ap (λ (ms : List Str). gone ++ ms) (sym (post_mailbox ast m actor o p found)),
  )

  accepts :
      (a : Acceptance) (h : Traffic) (p q : Projection)
      → InOrder o start h p
      → apply_accepted ast a p ≡ ok q
      → InOrder o start (step o (message_accepted a) h) q
  accepts a h p q holds e =
      same-Behind (h.taken + takes_from o a) (h.taken + takes_from o a) (start ++ h.posted)
        (start ++ (h.posted ++ [])) (mailbox_at o q) (mailbox_at o q) refl
        (ap (λ (ms : List Str). start ++ ms) (sym (append-nil h.posted))) refl
        (more-Behind h.taken (takes_from o a) (start ++ h.posted) (mailbox_at o p) (mailbox_at o q)
          holds (apply_accepted_mailbox ast a o p q e))

  rests : (r : Record) (h : Traffic) → touches_endpoint r ≡ false → step o r h ≡ h
  rests (messages_enqueued m) h e = cc
  rests (message_accepted a) h e = cc
  rests _ h e =
      ap (λ (ms : List Str). traffic ms (h.taken + 0)) (append-nil h.posted)
      ∙ ap (traffic h.posted) (omega arith)

  order_records : EndpointRecords ast fuel (InOrder o start) (step o)
  order_records = record {
    by_creation = λ c h p q holds e.
        unmoved (actor_created c) h p q refl refl (apply_created_mailbox ast c o p q e) holds;
    by_post = posts;
    by_acceptance = accepts;
    by_settlement = λ m h p q holds e.
        unmoved (message_settled m) h p q refl refl (apply_settled_mailbox ast m o p q e) holds;
    by_closing = λ i h p q holds e.
        unmoved (scope_closing i) h p q refl refl (apply_closing_mailbox i o p q e) holds;
    by_stop = λ i h p q holds e.
        unmoved (scope_stopped i) h p q refl refl (apply_stopped_mailbox ast fuel i o p q e) holds;
    by_rest = rests;
  }

-- What a log adds to the traffic.
history_traffic :
    (o : Str) (log : List Logged) (h : Traffic)
    → history (step o) log h
      ≡ record { posted = h.posted ++ posted_to o log; taken = h.taken + accepted_from o log }
history_traffic o [] h =
    ap (λ (ms : List Str). traffic ms h.taken) (sym (append-nil h.posted))
    ∙ ap (traffic (h.posted ++ [])) (omega arith)
history_traffic o (l ∷ log) h =
    history_traffic o log (step o l.record_of h)
    ∙ ap (λ (ms : List Str). traffic ms (h.taken + accepted_of o l.record_of + accepted_from o log))
        (append_assoc h.posted (posted_of o l.record_of) (posted_to o log))
    ∙ ap (traffic (h.posted ++ (posted_of o l.record_of ++ posted_to o log))) (omega arith)

drop-Behind :
    (n : ℕ) (before after : List Str)
    → Behind n before after
    → (after ≡ drop n before) × (n ≤ length before)
drop-Behind n before after (gone, count, split) = (
  sym (ap (drop n) split ∙ ap (λ m. drop m (gone ++ after)) (sym count) ∙ drop-length gone after),
  let whole = ap length split ∙ length-append gone after in omega arith,
)

-- First in, first out, over a whole log: what the mailbox of an actor holds at the end is what it held
-- at first with what the log posted to it behind, in order, less as many from the front as the log has
-- acceptances of that actor; and it never has more of them than there were messages.
pub project_branch-mailbox_at :
    (ast : Chart) (fuel : ℕ) (o : Str) (log : List Logged) (r s : Run)
    → project_branch ast fuel log r ≡ ok s
    → (mailbox_at o s.projection
        ≡ drop (accepted_from o log) (mailbox_at o r.projection ++ posted_to o log))
      × (accepted_from o log ≤ length (mailbox_at o r.projection ++ posted_to o log))
project_branch-mailbox_at ast fuel o log r s h =
    let start = mailbox_at o r.projection in
    drop-Behind (accepted_from o log) (start ++ posted_to o log) (mailbox_at o s.projection) (
      subst (λ (t : Traffic). InOrder o start t s.projection)
        (history_traffic o log (traffic [] 0) ∙ ap (traffic (posted_to o log)) (omega arith))
        (project_branch_keeps ast fuel (InOrder o start) (step o) (in_order ast fuel o start)
          (order_records ast fuel o start)
          (λ t p n holds.
            same-Behind t.taken t.taken (start ++ t.posted) (start ++ t.posted) (mailbox_at o p)
              (mailbox_at o (record p { seq_id = max p.seq_id n })) refl refl
              (mailbox_at_numbered o p (max p.seq_id n)) holds)
          log (traffic [] 0) r s ([], refl, append-nil start) h))
