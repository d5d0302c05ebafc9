-- ===== src/Projection/Branch/Mailbox.antt =====
-- The mailbox of an actor under each of the actor records of projection.ts.
use hyperchart.Prelude.{
  Bool, Bool-cases, List, Option, [], all, ap, append-nil, false, if◌then◌else◌, inl, inr, map,
  none, not, refl, some, sym, true, ℕ, ◌&&◌, ◌++◌, ◌==◌, ◌∙◌, ◌≡◌,
}
use hyperchart.Actors.{ActorContext}
use hyperchart.Chart.{ActorDeclaration, Chart}
use hyperchart.Dict.{lookup}
use hyperchart.Entry.{is_some}
use hyperchart.Projection.{Endpoint, Projection, actor_endpoint}
use hyperchart.Projection.Branch.Frame.{SameView, View}
use hyperchart.Projection.Branch.Moved.{Kept, SameKept}
use hyperchart.Projection.Branch.Written.{
  actor_endpoint-put_endpoint, actor_endpoint-store_endpoint, actor_endpoint_lem, first_found,
}
use hyperchart.Projection.Endpoints.{is_closing, is_ended}
use hyperchart.Projection.Endpoints.Created.{Creation, apply_created, assert_created, new_endpoint}
use hyperchart.Projection.Endpoints.Enqueued.{
  Enqueue, assert_enqueued, assert_identity, assert_internal, assert_self_send, id_of_envelope,
  is_send, messages_of, post, same_event,
}
use hyperchart.Projection.Moves.{ActorExecution, actor_execution, put_endpoint}
use hyperchart.Result.{
  >>=-eq-ok, actor_generation, actor_missing, actor_status, actor_twice, guard-eq-ok,
  message_provenance, ok, ok_injective, require, require-eq-ok,
}
use hyperchart.Text.{Str, str_eq, str_eq→eq}

abbrev mail_of : Option Endpoint → List Str
mail_of none = []
mail_of (some e) = e.mailbox

-- The mailbox of the actor at an occurrence; empty where there is none.
unfoldable pub mailbox_at : Str → Projection → List Str
mailbox_at o p = mail_of (actor_endpoint p o)

pub actor_endpoint_view :
    (p q : Projection) (o : Str) → SameView p q → actor_endpoint q o ≡ actor_endpoint p o
actor_endpoint_view p q o same =
    actor_endpoint_lem q o
    ∙ ap (λ (v : View). first_found (lookup o v.singles) (lookup o v.pools)) (sym same)
    ∙ sym (actor_endpoint_lem p o)

-- The mailbox is read from the actors alone.
pub mailbox_at-view : (o : Str) (p q : Projection) → SameView p q → mailbox_at o p ≡ mailbox_at o q
unfolding mailbox_at
mailbox_at-view o p q same = ap mail_of (sym (actor_endpoint_view p q o same))

pub mailbox_at-kept : (o : Str) (p q : Projection) → SameKept p q → mailbox_at o p ≡ mailbox_at o q
unfolding mailbox_at
mailbox_at-kept o p q same = ap mail_of (
    actor_endpoint_lem p o
    ∙ ap (λ (k : Kept). first_found (lookup o k.0.0) (lookup o k.0.1)) same
    ∙ sym (actor_endpoint_lem q o))

pub mailbox_at_numbered :
    (o : Str) (p : Projection) (n : ℕ) → mailbox_at o p ≡ mailbox_at o (record p { seq_id = n })
unfolding mailbox_at actor_endpoint
mailbox_at_numbered o p n = refl

pub mailbox_at_found :
    (o : Str) (e : Endpoint) (p : Projection)
    → actor_endpoint p o ≡ some e
    → mailbox_at o p ≡ e.mailbox
unfolding mailbox_at
mailbox_at_found o e p found = ap mail_of found

-- A mailbox behind a write.
pub mailbox_at-put_endpoint :
    (o i : Str) (e : Endpoint) (p : Projection)
    → mailbox_at i (put_endpoint o e p) ≡ (if str_eq o i then e.mailbox else mailbox_at i p)
unfolding mailbox_at
mailbox_at-put_endpoint o i e p =
    ap mail_of (actor_endpoint-put_endpoint o i e p) ∙ by_test (str_eq o i)
  where
    by_test :
        (b : Bool)
        → mail_of (if b then some e else actor_endpoint p i)
          ≡ (if b then e.mailbox else mail_of (actor_endpoint p i))
    by_test true = refl
    by_test false = refl

-- The value that a test chooses, if both are the same.
if_same {ℓ} :
    {A : Type ℓ} (o i : Str) (f : Str → A) (a : A) → f o ≡ a → (if str_eq o i then a else f i) ≡ f i
if_same o i f a e = elim (Bool-cases (str_eq o i)) [
  | inl same ↦ rw same (sym e ∙ ap f (str_eq→eq o i same))
  | inr other ↦ rw other refl
]

-- A write that leaves the mailbox of the endpoint leaves every mailbox.
pub mailbox_at_same :
    (o i : Str) (e next : Endpoint) (p : Projection)
    → actor_endpoint p o ≡ some e
    → next.mailbox ≡ e.mailbox
    → mailbox_at i (put_endpoint o next p) ≡ mailbox_at i p
mailbox_at_same o i e next p found same =
    mailbox_at-put_endpoint o i next p
    ∙ if_same o i (λ (x : Str). mailbox_at x p) next.mailbox
        (mailbox_at_found o e p found ∙ sym same)

pub actor_execution_found :
    (p : Projection) (c : ActorContext) (x : ActorExecution)
    → actor_execution p c ≡ ok x
    → actor_endpoint p c.endpoint_occurrence ≡ some x.endpoint
unfolding actor_execution
actor_execution_found p c x h =
    let (e, found, more) =
      >>=-eq-ok
        (require (actor_endpoint p c.endpoint_occurrence) (actor_missing c.endpoint_occurrence)) _
        h in
    require-eq-ok (actor_endpoint p c.endpoint_occurrence) (actor_missing c.endpoint_occurrence)
      found
    ∙ ap (λ (y : ActorExecution). some y.endpoint) (ok_injective more)

-- A new actor has an empty mailbox, where none was before.
pub apply_created_mailbox :
    (ast : Chart) (c : Creation) (i : Str) (p q : Projection)
    → apply_created ast c p ≡ ok q
    → mailbox_at i q ≡ mailbox_at i p
unfolding apply_created assert_created mailbox_at new_endpoint
apply_created_mailbox ast c i p q h =
    let (live, asserted, more) = >>=-eq-ok (assert_created ast p c) _ h in
    let (free, _) =
      guard-eq-ok (not (is_some (actor_endpoint p c.occurrence))) (actor_twice c.occurrence) _
        asserted in
    let none_before = not_some (actor_endpoint p c.occurrence) free in
    sym (ap (λ (x : Projection). mail_of (actor_endpoint x i)) (ok_injective more))
    ∙ ap mail_of (actor_endpoint-store_endpoint live.kind i (new_endpoint c live) p none_before)
    ∙ by_test live (str_eq c.occurrence i)
    ∙ if_same c.occurrence i (λ (x : Str). mail_of (actor_endpoint p x)) [] (ap mail_of none_before)
  where
    not_some : (o : Option Endpoint) → not (is_some o) ≡ true → o ≡ none
    not_some none e = refl
    not_some (some a) e = cc

    by_test :
        (live : ActorDeclaration) (b : Bool)
        → mail_of (if b then some (new_endpoint c live) else actor_endpoint p i)
          ≡ (if b then [] else mail_of (actor_endpoint p i))
    by_test live true = refl
    by_test live false = refl

pub assert_enqueued_found :
    (ast : Chart) (m : Enqueue) (actor : Endpoint) (p : Projection)
    → assert_enqueued ast p m ≡ ok actor
    → actor_endpoint p m.occurrence ≡ some actor
unfolding assert_enqueued
assert_enqueued_found ast m actor p h =
    let (e, found, more) =
      >>=-eq-ok (require (actor_endpoint p m.occurrence) (actor_missing m.occurrence)) _ h in
    let (_, r1) =
      guard-eq-ok (m.generation == e.generation) (actor_generation m.occurrence) _ more in
    let (_, r2) =
      guard-eq-ok
        (str_eq m.source.target_declaration e.declaration && str_eq m.source.event m.first.event)
        (message_provenance m.occurrence) _ r1 in
    let (_, r3) =
      guard-eq-ok (all (same_event m.source) (messages_of m)) (message_provenance m.occurrence) _
        r2 in
    let (_, _, r4) =
      >>=-eq-ok
        (if is_send m.source.definition.kind && m.source.definition.to_self
          then assert_self_send ast p m
          else ok tt)
        _ r3 in
    let (_, r5) = guard-eq-ok (not (is_ended e.status)) (actor_status m.occurrence) _ r4 in
    let (_, _, r6) =
      >>=-eq-ok (if is_closing e.status then assert_internal ast p m else ok tt) _ r5 in
    let (_, _, whole) = >>=-eq-ok (assert_identity p m) _ r6 in
    require-eq-ok (actor_endpoint p m.occurrence) (actor_missing m.occurrence) found
    ∙ ap some (ok_injective whole)

-- The ids of a transaction, if it goes to this actor.
abbrev pub posted_by : Str → Enqueue → List Str
posted_by i m = if str_eq m.occurrence i then map id_of_envelope (messages_of m) else []

-- A transaction goes behind what the mailbox holds.
pub post_mailbox :
    (ast : Chart) (m : Enqueue) (actor : Endpoint) (i : Str) (p : Projection)
    → assert_enqueued ast p m ≡ ok actor
    → mailbox_at i (post m actor p) ≡ mailbox_at i p ++ posted_by i m
unfolding post
post_mailbox ast m actor i p h =
    mailbox_at-view i (post m actor p)
      (put_endpoint m.occurrence
        (record actor { mailbox = actor.mailbox ++ map id_of_envelope (messages_of m) }) p)
      refl
    ∙ mailbox_at-put_endpoint m.occurrence i
        (record actor { mailbox = actor.mailbox ++ map id_of_envelope (messages_of m) }) p
    ∙ elim (Bool-cases (str_eq m.occurrence i)) [
      | inl same ↦ rw same (
          ap (λ (ms : List Str). ms ++ map id_of_envelope (messages_of m))
            (sym (mailbox_at_found m.occurrence actor p (assert_enqueued_found ast m actor p h))
              ∙ ap (λ (x : Str). mailbox_at x p) (str_eq→eq m.occurrence i same)))
      | inr other ↦ rw other (sym (append-nil (mailbox_at i p)))
    ]
