-- ===== src/Machine/Mail/Accepts.antt =====
-- What the machine admits, replay accepts: `actorEndpointAdmission` of core/machine.ts for an actor by
-- itself, against `assertActorMessageAccepted` of core/projection.ts.
use hyperchart.Prelude.{
  All, Bool, List, Option, [], false, if◌then◌else◌, none, refl, some, subst, sym, true, ℕ, ◌||◌,
  ◌∙◌, ◌∷◌, ◌≡◌,
}
use hyperchart.Actors.{actor_state_path}
use hyperchart.Chart.{
  ActorDeclaration, ActorState, Chart, actor_action, actor_messaging, receive, reply,
}
use hyperchart.Dict.{Dict, lookup}
use hyperchart.Machine.Mail.{
  Admitted, Assignment, Reservation, acceptance_of, admit_actor, admit_endpoint, admits, fails,
  is_mailbox_empty, offer, offer_in,
}
use hyperchart.Projection.{Endpoint, Message, Projection, Worker, actor_endpoint, ordinary}
use hyperchart.Projection.Endpoints.{actor_message, is_ended}
use hyperchart.Projection.Endpoints.Messages.{
  Accepted, accept_itself, assert_accepted, head_message, head_of, itself,
}
use hyperchart.Result.{ok, ok_injective}
use hyperchart.Text.{Str, str_eq_refl}

-- What holds of every assignment that an endpoint gives.
abbrev pub EachAdmitted : (Assignment → Type 0) → Admitted → Type 0
EachAdmitted P (admits given) = All P given
EachAdmitted P (fails f) = Unit

-- The record of an assignment passes the assertions of replay, at this endpoint.
abbrev pub Acceptable : Chart → Projection → Endpoint → Assignment → Type 0
Acceptable ast p e a =
    (x : Accepted) × (assert_accepted ast p (acceptance_of a) ≡ ok x) × (x.endpoint ≡ e)

module _ (ast : Chart) (p : Projection) (e : Endpoint) (live : ActorDeclaration) (state : Str)
    (by_itself : e.execution ≡ ordinary state none) (there : actor_endpoint p e.occurrence ≡ some e)
    (declared : lookup e.declaration ast.actors ≡ some live) where
  accepted_at :
      (head : Message) (on : Dict Str) (target : Str)
      → actor_message p (head_of e.mailbox) ≡ some head
      → lookup state live.definition.states ≡ some (receive on)
      → lookup head.event on ≡ some target
      → All (Acceptable ast p e) (
          record {
            occurrence = e.occurrence;
            message_id = head.message_id;
            receive_state = actor_state_path e.occurrence state;
            worker_index = none;
          }
          ∷ [])
  unfolding assert_accepted head_message accept_itself
  accepted_at head on target first receives goes_on = (
    (
      record { endpoint = e; executor = itself state none; head = head; target = target },
      rw there (
          rw first (
            rw (str_eq_refl head.message_id) (
              rw declared (
                rw by_itself (
                  rw (str_eq_refl (actor_state_path e.occurrence state))
                    (rw receives (rw goes_on refl))))))),
      refl,
    ),
    tt,
  )

  offered :
      (head : Message) (on : Dict Str) (o : Option Str)
      → actor_message p (head_of e.mailbox) ≡ some head
      → lookup state live.definition.states ≡ some (receive on)
      → lookup head.event on ≡ o
      → EachAdmitted (Acceptable ast p e) (offer e state head o)
  offered head on none first receives goes_on = tt
  offered head on (some target) first receives goes_on =
      accepted_at head on target first receives goes_on

  offered_in :
      (m : Option Message) (s : Option ActorState)
      → actor_message p (head_of e.mailbox) ≡ m
      → lookup state live.definition.states ≡ s
      → EachAdmitted (Acceptable ast p e) (offer_in e state m s)
  offered_in (some head) (some (receive on)) first receives =
      offered head on (lookup head.event on) first receives refl
  offered_in none s first receives = tt
  offered_in (some head) none first receives = tt
  offered_in (some head) (some (actor_action s)) first receives = tt
  offered_in (some head) (some (actor_messaging m)) first receives = tt
  offered_in (some head) (some (reply target message)) first receives = tt

actor_assigned :
    (ast : Chart) (p : Projection) (e : Endpoint) (live : ActorDeclaration) (state : Str)
    (message : Option Str)
    → e.execution ≡ ordinary state message
    → actor_endpoint p e.occurrence ≡ some e
    → lookup e.declaration ast.actors ≡ some live
    → EachAdmitted (Acceptable ast p e) (admit_actor p e live.definition state message)
unfolding admit_actor
actor_assigned ast p e live state none by_itself there declared =
    offered_in ast p e live state by_itself there declared (actor_message p (head_of e.mailbox))
      (lookup state live.definition.states) refl refl
actor_assigned ast p e live state (some m) by_itself there declared = tt

endpoint_assigned :
    (select : List Worker → ℕ) (reservations : Dict (List Reservation)) (ast : Chart)
    (p : Projection) (e : Endpoint) (live : ActorDeclaration) (state : Str) (message : Option Str)
    → e.execution ≡ ordinary state message
    → lookup e.declaration ast.actors ≡ some live
    → admit_endpoint select reservations ast p e ≡ (
        if is_mailbox_empty e.mailbox || is_ended e.status
        then ok (admits [])
        else ok (admit_actor p e live.definition state message))
unfolding admit_endpoint
endpoint_assigned select reservations ast p e live state message by_itself declared =
    rw by_itself (rw declared refl)

-- An assignment that the machine gives to an actor by itself passes the assertions of replay, at this
-- very endpoint. The conditions: the endpoint is the one that the projection has under its occurrence,
-- and its declaration is one of the chart's.
pub admit_endpoint-assert_accepted :
    (select : List Worker → ℕ) (reservations : Dict (List Reservation)) (ast : Chart)
    (p : Projection) (e : Endpoint) (live : ActorDeclaration) (state : Str) (message : Option Str)
    (given : Admitted)
    → e.execution ≡ ordinary state message
    → actor_endpoint p e.occurrence ≡ some e
    → lookup e.declaration ast.actors ≡ some live
    → admit_endpoint select reservations ast p e ≡ ok given
    → EachAdmitted (Acceptable ast p e) given
admit_endpoint-assert_accepted select reservations ast p e live state message given by_itself there
      declared h =
    by_skip (is_mailbox_empty e.mailbox || is_ended e.status) (
      sym (endpoint_assigned select reservations ast p e live state message by_itself declared) ∙ h)
  where
    by_skip :
        (skipped : Bool)
        → (if skipped then ok (admits []) else ok (admit_actor p e live.definition state message))
          ≡ ok given
        → EachAdmitted (Acceptable ast p e) given
    by_skip true k = subst (EachAdmitted (Acceptable ast p e)) (ok_injective k) tt
    by_skip false k =
        subst (EachAdmitted (Acceptable ast p e)) (ok_injective k)
          (actor_assigned ast p e live state message by_itself there declared)
