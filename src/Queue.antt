-- ===== src/Queue.antt =====
-- The queue of packages/hyperchart/src/utils/async_queue.ts: one consumer, which takes the oldest
-- value or waits for the next one.
pub mod Order
use hyperchart.Prelude.{Bool, List, [], false, if◌then◌else◌, true, ◌++◌, ◌∷◌}

-- `waiting` is whether a read is pending.
pub record Queue {ℓ} (A : Type ℓ) : Type ℓ where
  pub buffer : List A
  pub closed : Bool
  pub waiting : Bool

abbrev pub empty_queue {ℓ} : {A : Type ℓ} → Queue A
empty_queue = record { buffer = []; closed = false; waiting = false }

pub data Call {ℓ} (A : Type ℓ) : Type ℓ where
  send_value : A → Call A
  close_queue next_value : Call A

-- What a call settles: nothing, a read with a value, a read with the end, or an error.
pub data Settles {ℓ} (A : Type ℓ) : Type ℓ where
  nothing ended failed_call : Settles A
  value : A → Settles A

module _ {ℓ} {A : Type ℓ} where
  unfoldable pub send_to : A → Queue A → Settles A × Queue A
  send_to a q =
      if q.closed
      then (failed_call, q)
      else if q.waiting
      then (value a, record q { waiting = false })
      else (nothing, record q { buffer = q.buffer ++ a ∷ [] })

  unfoldable pub close_on : Queue A → Settles A × Queue A
  close_on q =
      if q.closed
      then (nothing, q)
      else if q.waiting
      then (ended, record q { closed = true; waiting = false })
      else (nothing, record q { closed = true })

  unfoldable pub next_on : Queue A → Settles A × Queue A
  next_on q = elim q.buffer [
    | a ∷ rest ↦ (value a, record q { buffer = rest })
    | [] ↦
        if q.closed
        then (ended, q)
        else if q.waiting
        then (failed_call, q)
        else (nothing, record q { waiting = true })
  ]

  unfoldable pub call_on : Call A → Queue A → Settles A × Queue A
  call_on (send_value a) q = send_to a q
  call_on close_queue q = close_on q
  call_on next_value q = next_on q
