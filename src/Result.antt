-- ===== src/Result.antt =====
-- Code that throws: a result or the error. The loops that the sources bound by the shape of a chart
-- run on fuel here, and `out_of_fuel` is the one error that the sources do not have.
use hyperchart.Prelude.{
  All, All-append, Bool, List, Option, [], ap, false, inl, inr, none, refl, some, subst, true, ℕ,
  ◌++◌, ◌∷◌, ◌≡◌, ◌≢◌, ◌⊎◌,
}
use hyperchart.Text.{Str}

pub data Fault : Type 0 where
  out_of_fuel : Fault
  unknown_state broken_parent_chain no_transition inactive_state invalid_action : Str → Fault
  not_a_map missing_provenance pending_action no_pending validating : Str → Fault
  wrong_gate wrong_event foreign_artifacts event_mismatch : Str → Fault
  completion_endpoint completion_twice completion_source completion_claim : Str → Fault
  retry_session retry_kind retry_policy retry_counters retry_order : Str → Fault
  no_argument no_input no_result no_visit no_instance no_selection no_after : Str → Fault
  actor_missing actor_twice actor_provenance actor_owner actor_generation actor_status : Str → Fault
  message_provenance message_identity message_call message_head message_reply message_settle :
      Str → Fault
  call_result worker_index not_drained producer_kind second_failure : Str → Fault
  unknown_branch branch_exists invalid_branch branch_moved poisoned : Str → Fault
  missing_record foreign_boundary : ℕ → Fault
  invalid_draft invalid_checkpoint not_empty : Fault

pub data Result {ℓ} (A : Type ℓ) : Type ℓ where
  err : Fault → Result A
  ok : A → Result A

-- What is undefined is an error.
abbrev pub require {ℓ} : {A : Type ℓ} → Option A → Fault → Result A
require none e = err e
require (some a) e = ok a

-- What follows on a value; an error is passed on.
infixl 5 ◌>>=◌
abbrev pub ◌>>=◌ {μ ν} : {X : Type μ} {Y : Type ν} → Result X → (X → Result Y) → Result Y
err fault >>= next = err fault
ok x >>= next = next x

-- assert(condition, message)
abbrev pub guard : Bool → Fault → Result (Unit {0})
guard false fault = err fault
guard true fault = ok tt

-- What follows on an assertion.
infixl 5 ◌>>◌
abbrev pub ◌>>◌ {ν} : {Y : Type ν} → Result (Unit {0}) → Result Y → Result Y
first >> next = first >>= λ _. next

-- list.flatMap(f) where f may throw
unfoldable pub flat_map {ℓ κ} :
    {A : Type ℓ} {B : Type κ} → (A → Result (List B)) → List A → Result (List B)
flat_map f [] = ok []
flat_map f (x ∷ xs) = do ys ← f x; rest ← flat_map f xs; ok (ys ++ rest)

-- Inversion of a successful bind.
pub >>=-eq-ok {μ ν} :
    {X : Type μ} {Y : Type ν} (step : Result X) (next : X → Result Y) {y : Y}
    → step >>= next ≡ ok y
    → (x : X) × (step ≡ ok x) × (next x ≡ ok y)
>>=-eq-ok (err fault) next h = cc
>>=-eq-ok (ok x) next h = (x, refl, h)

-- A passed assertion.
pub guard-eq-ok {ℓ} :
    {B : Type ℓ} (b : Bool) (e : Fault) (k : Result B) {q : B}
    → (guard b e >> k) ≡ ok q
    → (b ≡ true) × (k ≡ ok q)
guard-eq-ok true e k h = (refl, h)
guard-eq-ok false e k h = cc

-- What was required is there.
pub require-eq-ok {ℓ} :
    {A : Type ℓ} (o : Option A) (e : Fault) {a : A} → require o e ≡ ok a → o ≡ some a
require-eq-ok none e h = cc
require-eq-ok (some b) e h = cc

pub ok_injective {ℓ} : {A : Type ℓ} {a b : A} → ok a ≡ ok b → a ≡ b
ok_injective {A} {a} e = ap (from a) e
  where
    from : A → Result A → A
    from d (ok x) = x
    from d (err x) = d

pub Result-cases {ℓ} :
    {A : Type ℓ} (m : Result A) → ((a : A) × (m ≡ ok a)) ⊎ ((e : Fault) × (m ≡ err e))
Result-cases (ok a) = inl (a, refl)
Result-cases (err e) = inr (e, refl)

-- A loop that did not run out of fuel.
abbrev pub Settled {ℓ} : {A : Type ℓ} → Result A → Type ℓ
Settled r = r ≢ err out_of_fuel

pub >>=-Settled {ℓ κ} :
    {A : Type ℓ} {B : Type κ} (m : Result A) (f : A → Result B)
    → Settled m
    → ((a : A) → m ≡ ok a → Settled (f a))
    → Settled (m >>= f)
>>=-Settled (ok a) f h k = k a refl
>>=-Settled (err e) f h k = λ q. h (cc)

pub flat_map-Settled {ℓ κ} :
    {A : Type ℓ} {B : Type κ} (f : A → Result (List B)) (xs : List A)
    → All (λ (x : A). Settled (f x)) xs
    → Settled (flat_map f xs)
unfolding flat_map
flat_map-Settled f [] h = λ e. cc
flat_map-Settled f (x ∷ xs) (here, later) =
    >>=-Settled (f x) _ here
      (λ ys _. >>=-Settled (flat_map f xs) _ (flat_map-Settled f xs later) (λ zs _ e. cc))

-- What holds of all parts of each result holds of all parts of the whole.
pub flat_map-All {ℓ κ μ} :
    {A : Type ℓ} {B : Type κ} (P : B → Type μ) (f : A → Result (List B)) (xs : List A) (ys : List B)
    → ((x : A) (zs : List B) → f x ≡ ok zs → All P zs)
    → flat_map f xs ≡ ok ys
    → All P ys
unfolding flat_map
flat_map-All P f [] ys each h = subst (All P) (ok_injective h) tt
flat_map-All P f (x ∷ xs) ys each h =
    let (zs, first, more) = >>=-eq-ok (f x) _ h in
    let (rest, later, whole) = >>=-eq-ok (flat_map f xs) _ more in
    subst (All P) (ok_injective whole)
      (All-append P zs rest (each x zs first) (flat_map-All P f xs rest each later))
