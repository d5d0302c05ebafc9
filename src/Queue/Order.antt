-- ===== src/Queue/Order.antt =====
-- Calls on a queue, one after the other: values come out in the order they went in.
use hyperchart.Prelude.{
  Bool, List, [], ap, append-nil, append_assoc, false, refl, sym, true, ◌++◌, ◌∙◌, ◌∷◌, ◌≡◌,
}
use hyperchart.Queue.{
  Call, Queue, Settles, call_on, close_on, close_queue, failed_call, next_on, next_value, send_to,
  send_value, value,
}

pub record Traffic {ℓ} (A : Type ℓ) : Type ℓ where
  pub delivered : List A
  pub sent : List A
  pub left : Queue A

module _ {ℓ} {A : Type ℓ} where
  -- The values that reads were settled with.
  abbrev value_of : Settles A → List A
  value_of (value a) = a ∷ []
  value_of _ = []

  -- The values that sends were accepted with.
  abbrev sent_of : Call A → Settles A → List A
  sent_of (send_value a) failed_call = []
  sent_of (send_value a) _ = a ∷ []
  sent_of _ _ = []

  abbrev pub traffic : List (Call A) → Queue A → Traffic A
  traffic [] q = record { delivered = []; sent = []; left = q }
  traffic (c ∷ cs) q =
      let (now, next) = call_on c q in
      let rest = traffic cs next in
      record {
        delivered = value_of now ++ rest.delivered;
        sent = sent_of c now ++ rest.sent;
        left = rest.left;
      }

  -- A read waits only at an empty queue that is not closed.
  pub data IsReady (q : Queue A) : Type ℓ where
    waits : q.buffer ≡ [] → q.closed ≡ false → IsReady q
    reads : q.waiting ≡ false → IsReady q

  -- What one call does: what comes out and what stays is what was there and what was sent.
  abbrev InOrder : Call A → Queue A → Settles A × Queue A → Type ℓ
  InOrder c q (now, next) = (value_of now ++ next.buffer ≡ q.buffer ++ sent_of c now) × IsReady next

  abbrev of_fields : List A → Bool → Bool → Queue A
  of_fields b c w = record { buffer = b; closed = c; waiting = w }

  InOrder-of_fields :
      (call : Call A) (b : List A) (c w : Bool)
      → IsReady (of_fields b c w)
      → InOrder call (of_fields b c w) (call_on call (of_fields b c w))
  unfolding call_on send_to close_on next_on
  InOrder-of_fields (send_value a) b true w h = (sym (append-nil b), h)
  InOrder-of_fields (send_value a) b false true (waits e f) = (rw e refl, reads refl)
  InOrder-of_fields (send_value a) b false true (reads n) = cc
  InOrder-of_fields (send_value a) b false false h = (refl, reads refl)
  InOrder-of_fields close_queue b true w h = (sym (append-nil b), h)
  InOrder-of_fields close_queue b false true h = (sym (append-nil b), reads refl)
  InOrder-of_fields close_queue b false false h = (sym (append-nil b), reads refl)
  InOrder-of_fields next_value (a ∷ b) c w (waits e f) = cc
  InOrder-of_fields next_value (a ∷ b) c w (reads n) =
      (ap (λ (x : List A). a ∷ x) (sym (append-nil b)), reads n)
  InOrder-of_fields next_value [] true w h = (refl, h)
  InOrder-of_fields next_value [] false true h = (refl, h)
  InOrder-of_fields next_value [] false false h = (refl, waits refl refl)

  call_on-InOrder : (c : Call A) (q : Queue A) → IsReady q → InOrder c q (call_on c q)
  call_on-InOrder c q h = InOrder-of_fields c q.buffer q.closed q.waiting h

  -- First in, first out: from a queue whose pending read, if it has one, found it empty and open, over
  -- any calls the values that reads were given, with those still buffered
  -- behind them, are those buffered at first with the accepted sends behind them.
  pub traffic_order :
      (cs : List (Call A)) (q : Queue A)
      → IsReady q
      → (traffic cs q).delivered ++ (traffic cs q).left.buffer ≡ q.buffer ++ (traffic cs q).sent
  traffic_order [] q h = sym (append-nil q.buffer)
  traffic_order (c ∷ cs) q h =
      step (call_on c q) (call_on-InOrder c q h) (λ next ready. traffic_order cs next ready)
    where
      step :
          (p : Settles A × Queue A)
          → InOrder c q p
          → ((next : Queue A)
              → IsReady next
              → (traffic cs next).delivered ++ (traffic cs next).left.buffer
                ≡ next.buffer ++ (traffic cs next).sent)
          → (value_of p.0 ++ (traffic cs p.1).delivered) ++ (traffic cs p.1).left.buffer
            ≡ q.buffer ++ (sent_of c p.0 ++ (traffic cs p.1).sent)
      step (now, next) (here, ready) ih =
          append_assoc (value_of now) (traffic cs next).delivered (traffic cs next).left.buffer
          ∙ rw (ih next ready) (
              sym (append_assoc (value_of now) next.buffer (traffic cs next).sent)
              ∙ rw here (append_assoc q.buffer (sent_of c now) (traffic cs next).sent))
