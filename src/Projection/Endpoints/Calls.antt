-- ===== src/Projection/Endpoints/Calls.antt =====
-- The result of a call: the `actor_call_resolved` and `actor_batch_call_resolved` records, with their
-- assertions.
use hyperchart.Prelude.{Bool, List, Option, [], false, none, some, true, ℕ, ◌&&◌, ◌∷◌}
use hyperchart.Chart.{Chart}
use hyperchart.Dict.{Dict, lookup, put, remove}
use hyperchart.Entry.{is_some}
use hyperchart.Json.{Items, Json, arr, cons, nil, same_recorded_value}
use hyperchart.Projection.{CallKind, Message, Projection, Run, actor_endpoint, batch, singleton}
use hyperchart.Projection.Endpoints.{advance_after_reply, is_settled}
use hyperchart.Result.{Result, actor_missing, call_result, guard, ok, require, ◌>>=◌, ◌>>◌}
use hyperchart.Text.{Str, str_eq}

pub record CallResult : Type 0 where
  pub call_id : Str
  pub caller_state : Str
  pub message_id : Str
  pub reply_event : Option Str
  pub output : Option Json

pub record BatchResult : Type 0 where
  pub call_id : Str
  pub caller_state : Str
  pub message_ids : List Str

-- a === b on optional strings
abbrev pub same_option : Option Str → Option Str → Bool
same_option none none = true
same_option (some a) (some b) = str_eq a b
same_option _ _ = false

-- Both have an output and the outputs are deeply equal, or neither has one. On JSON values deepEqual
-- of core/assert.ts is the comparison of recorded values.
abbrev pub same_output : Option Json → Option Json → Bool
same_output none none = true
same_output (some a) (some b) = same_recorded_value a b
same_output _ _ = false

abbrev pub is_singleton_of : Str → CallKind → Bool
is_singleton_of id (singleton message_id) = str_eq message_id id
is_singleton_of id (batch message_ids) = false

-- assertActorCallResolved
unfoldable pub assert_call_resolved : Projection → CallResult → Result (Unit {0})
assert_call_resolved p r = do
  c ← require (lookup r.call_id p.calls) (call_result r.call_id)
  guard (is_singleton_of r.message_id c.kind && str_eq c.caller_state r.caller_state)
      (call_result r.call_id)
  m ← require (lookup r.message_id p.messages) (call_result r.call_id)
  guard (is_settled m.status) (call_result r.call_id)
  guard (same_option m.call_id (some r.call_id) && same_option m.reply_event r.reply_event)
      (call_result r.call_id)
  guard (same_output m.reply_output r.output) (call_result r.call_id)

-- results[state] = output, where the record has one
abbrev pub result_if : Str → Option Json → Dict Json → Dict Json
result_if state none d = d
result_if state (some v) d = put state v d

unfoldable pub close_call : CallResult → Projection → Projection
close_call r p = record p {
  calls = remove r.call_id p.calls;
  messages = remove r.message_id p.messages;
  results = result_if r.caller_state r.output p.results;
}

unfoldable pub apply_call_resolved : Chart → ℕ → CallResult → Run → Result Run
apply_call_resolved ast fuel r run = do
  assert_call_resolved run.projection r
  advance_after_reply ast fuel r.caller_state r.reply_event r.output
      (record run { projection = close_call r run.projection })

abbrev pub same_ids : List Str → List Str → Bool
same_ids [] [] = true
same_ids (a ∷ rest) (b ∷ more) = str_eq a b && same_ids rest more
same_ids _ _ = false

abbrev pub batch_ids : CallKind → Option (List Str)
batch_ids (singleton message_id) = none
batch_ids (batch message_ids) = some message_ids

-- The output of each message, all of which have settled.
unfoldable pub batch_outputs : Projection → Str → List Str → Result Items
batch_outputs p call_id [] = ok nil
batch_outputs p call_id (id ∷ ids) = do
  m ← require (lookup id p.messages) (call_result call_id)
  guard (is_settled m.status) (call_result call_id)
  v ← require m.reply_output (call_result call_id)
  rest ← batch_outputs p call_id ids
  ok (cons v rest)

-- assertActorBatchCallResolved
unfoldable pub assert_batch_resolved : Projection → BatchResult → Result Json
assert_batch_resolved p r = do
  c ← require (lookup r.call_id p.calls) (call_result r.call_id)
  ids ← require (batch_ids c.kind) (call_result r.call_id)
  guard (str_eq c.caller_state r.caller_state) (call_result r.call_id)
  guard (same_ids r.message_ids ids) (call_result r.call_id)
  guard (is_some (actor_endpoint p c.occurrence)) (actor_missing c.occurrence)
  outputs ← batch_outputs p r.call_id ids
  ok (arr outputs)

unfoldable pub remove_messages : List Str → Dict Message → Dict Message
remove_messages [] d = d
remove_messages (id ∷ ids) d = remove_messages ids (remove id d)

unfoldable pub close_batch : BatchResult → Json → Projection → Projection
close_batch r outputs p = record p {
  calls = remove r.call_id p.calls;
  messages = remove_messages r.message_ids p.messages;
  results = put r.caller_state outputs p.results;
}

unfoldable pub apply_batch_resolved : Chart → ℕ → BatchResult → Run → Result Run
apply_batch_resolved ast fuel r run = do
  outputs ← assert_batch_resolved run.projection r
  advance_after_reply ast fuel r.caller_state none (some outputs)
      (record run { projection = close_batch r outputs run.projection })
