-- ===== src/Entry/Handlers.antt =====
-- The handler of an event, and the events that have one.
use hyperchart.Prelude.{
  Bool, Bool-cases, List, Option, Option-cases, [], any, ap, arith, false, inl, inr, length, none,
  refl, some, subst, suc, sym, true, zero, ℕ, ◌++◌, ◌<◌, ◌||◌, ◌∙◌, ◌∷◌, ◌≡◌, ◌⊎◌,
}
use hyperchart.Chart.{
  Chart, State, Transition, action_state, compound, final, map_state, messaging, node_at, parallel,
  region, transitions_of,
}
use hyperchart.Dict.{Dict, keys, lookup}
use hyperchart.Entry.{
  Handler, add_events, allowed_events, allowed_events_from, find_handler, find_handler_from,
  has_transition, inherits, is_some, read_transition, transition_at,
}
use hyperchart.Paths.{parent_path}
use hyperchart.Paths.Family.{length-parent_path}
use hyperchart.Result.{>>=-eq-ok, Settled, ok, ok_injective}
use hyperchart.Text.{Str, str_eq, str_eq_sym, str_eq→eq}

abbrev Within : ℕ → Option Str → Type 0
Within fuel none = Unit
Within fuel (some p) = length p < fuel

parent-Within : (fuel : ℕ) (p : Str) → length p < suc fuel → Within fuel (parent_path p)
parent-Within fuel p h = elim (Option-cases (parent_path p)) [
  | inl e ↦ rw e tt
  | inr (q, e) ↦ rw e (omega (arith, length-parent_path p q e))
]

find_handler_from-Settled :
    (ast : Chart) (event : Str) (fuel : ℕ) (p : Option Str)
    → Within fuel p
    → Settled (find_handler_from ast fuel p event)
unfolding find_handler_from
find_handler_from-Settled ast event fuel none h = λ e. cc
find_handler_from-Settled ast event zero (some p) h = absurd (omega arith)
find_handler_from-Settled ast event (suc fuel) (some p) h =
    let above = find_handler_from-Settled ast event fuel (parent_path p) (parent-Within fuel p h) in
    elim (Option-cases (node_at ast p)) [
      | inl e ↦ rw (e, find_handler_from) (λ q. cc)
      | inr (node, e) ↦ elim (Option-cases (transition_at node event)) [
        | inl f ↦ rw (e, find_handler_from) (rw f above)
        | inr (t, f) ↦ rw (e, find_handler_from) (rw f (λ q. cc))
      ]
    ]

allowed_events_from-Settled :
    (ast : Chart) (fuel : ℕ) (events : List Str) (p : Option Str)
    → Within fuel p
    → Settled (allowed_events_from ast fuel events p)
unfolding allowed_events_from
allowed_events_from-Settled ast fuel events none h = λ e. cc
allowed_events_from-Settled ast zero events (some p) h = absurd (omega arith)
allowed_events_from-Settled ast (suc fuel) events (some p) h = elim (Option-cases (node_at ast p)) [
  | inl e ↦ rw (e, allowed_events_from) (λ q. cc)
  | inr (node, e) ↦
      rw (e, allowed_events_from)
        (allowed_events_from-Settled ast fuel (add_events events (keys (transitions_of node)))
          (parent_path p) (parent-Within fuel p h))
]

-- The walks up the parents end on every path of every chart.
pub walks_up-Settled :
    (ast : Chart) (p event : Str)
    → Settled (find_handler ast p event) × Settled (allowed_events ast p)
unfolding find_handler allowed_events
walks_up-Settled ast p event = (
  find_handler_from-Settled ast event (suc (length p)) (some p) (omega arith),
  allowed_events_from-Settled ast (suc (length p)) [] (some p) (omega arith),
)

any-append_one :
    (e x : Str) (xs : List Str) → any (str_eq e) (xs ++ x ∷ []) ≡ (any (str_eq e) xs || str_eq e x)
any-append_one e x [] = ground arith
any-append_one e x (y ∷ xs) = ground (arith, any-append_one e x xs)

any-add_events :
    (e : Str) (seen es : List Str)
    → any (str_eq e) (add_events seen es) ≡ (any (str_eq e) seen || any (str_eq e) es)
unfolding add_events
any-add_events e seen [] = ground arith
any-add_events e seen (x ∷ es) = elim (Bool-cases (any (str_eq x) seen)) [
  | inl old ↦ rw old (any-add_events e seen es ∙ already (Bool-cases (str_eq e x)) old)
  | inr new ↦
      rw new (any-add_events e (seen ++ x ∷ []) es ∙ ground (arith, any-append_one e x seen))
]
  where
    already :
        (str_eq e x ≡ true) ⊎ (str_eq e x ≡ false)
        → any (str_eq x) seen ≡ true
        → (any (str_eq e) seen || any (str_eq e) es)
          ≡ (any (str_eq e) seen || (str_eq e x || any (str_eq e) es))
    already (inr other) old = ground arith
    already (inl same) old =
        let there : any (str_eq e) seen ≡ true =
          subst (λ y. any (str_eq y) seen ≡ true) (sym (str_eq→eq e x same)) old in
        ground arith

any-keys : {V : Type 0} (e : Str) (d : Dict V) → any (str_eq e) (keys d) ≡ is_some (lookup e d)
unfolding lookup
any-keys e [] = refl
any-keys e ((k, v) ∷ d) = ground (arith, str_eq_sym e k, any-keys e d)

-- What has been collected stays.
collected_stays :
    (ast : Chart) (e : Str) (fuel : ℕ) (seen : List Str) (p : Option Str) (events : List Str)
    → allowed_events_from ast fuel seen p ≡ ok events
    → any (str_eq e) seen ≡ true
    → any (str_eq e) events ≡ true
unfolding allowed_events_from
collected_stays ast e fuel seen none events h there =
    subst (λ t. any (str_eq e) t ≡ true) (ok_injective h) there
collected_stays ast e zero seen (some p) events h there = cc
collected_stays ast e (suc fuel) seen (some p) events h there =
    elim (Option-cases (node_at ast p)) [
      | inl q ↦ absurd (let k = rw (q, allowed_events_from) at h in cc)
      | inr (node, q) ↦
          let es = keys (transitions_of node) in
          let still : any (str_eq e) (add_events seen es) ≡ true =
            ground (arith, any-add_events e seen es) in
          collected_stays ast e fuel (add_events seen es) (parent_path p) events
            (rw (q, allowed_events_from) at h) still
    ]

read_transition-own :
    (e : Str) (ts : Dict Transition) → inherits e ≡ false → read_transition e ts ≡ lookup e ts
read_transition-own e ts own = elim (Option-cases (lookup e ts)) [
  | inl missing ↦ rw (missing, read_transition) (rw own refl)
  | inr (t, found) ↦ rw (found, read_transition) refl
]

transition_at-own :
    (node : State) (e : Str)
    → inherits e ≡ false
    → transition_at node e ≡ lookup e (transitions_of node)
unfolding lookup
transition_at-own (action_state s) e own = read_transition-own e s.transitions own
transition_at-own (final is_failed) e own = refl
transition_at-own (compound initial ts on_done) e own = read_transition-own e ts own
transition_at-own (region initial ts) e own = read_transition-own e ts own
transition_at-own (parallel regions ts on_done) e own = read_transition-own e ts own
transition_at-own (map_state m) e own = read_transition-own e m.transitions own
transition_at-own (messaging m) e own = read_transition-own e m.transitions own

allowed_agree :
    (ast : Chart) (e : Str) (fuel : ℕ) (seen : List Str) (p : Option Str) (events : List Str)
    (h : Option Handler)
    → inherits e ≡ false
    → allowed_events_from ast fuel seen p ≡ ok events
    → find_handler_from ast fuel p e ≡ ok h
    → any (str_eq e) events ≡ (any (str_eq e) seen || is_some h)
unfolding allowed_events_from find_handler_from
allowed_agree ast e fuel seen none events h own a f =
    let nothing : is_some h ≡ false = ap is_some (sym (ok_injective f)) in
    let same : any (str_eq e) events ≡ any (str_eq e) seen =
      ap (any (str_eq e)) (sym (ok_injective a)) in
    ground arith
allowed_agree ast e zero seen (some p) events h own a f = cc
allowed_agree ast e (suc fuel) seen (some p) events h own a f =
    elim (Option-cases (node_at ast p)) [
      | inl q ↦ absurd (let k = rw (q, allowed_events_from) at a in cc)
      | inr (node, q) ↦
          let es = keys (transitions_of node) in
          let a' : allowed_events_from ast fuel (add_events seen es) (parent_path p) ≡ ok events =
            rw (q, allowed_events_from) at a in
          elim (Option-cases (lookup e (transitions_of node))) [
            | inl missing ↦
                let f' : find_handler_from ast fuel (parent_path p) e ≡ ok h =
                  rw (transition_at-own node e own ∙ missing) at (rw (q, find_handler_from) at f) in
                let ih =
                  allowed_agree ast e fuel (add_events seen es) (parent_path p) events h own a'
                    f' in
                let k = any-keys e (transitions_of node) in ground (arith, any-add_events e seen es)
            | inr (t, found) ↦
                let f' =
                  ok_injective (
                    rw (transition_at-own node e own ∙ found) at
                      (rw (q, find_handler_from) at f)) in
                let k = any-keys e (transitions_of node) in
                let there : any (str_eq e) (add_events seen es) ≡ true =
                  ground (arith, any-add_events e seen es) in
                let handled : is_some h ≡ true = ap is_some (sym f') in
                let last =
                  collected_stays ast e fuel (add_events seen es) (parent_path p) events a' there in
                ground arith
          ]
    ]

-- Where both walks up the parents succeed, an action is told of an event exactly if the event has a
-- handler; the condition is that the event's name is none that plain objects inherit.
pub allowed_events-has_transition :
    (ast : Chart) (p e : Str) (events : List Str) (has : Bool)
    → inherits e ≡ false
    → allowed_events ast p ≡ ok events
    → has_transition ast p e ≡ ok has
    → any (str_eq e) events ≡ has
unfolding allowed_events has_transition find_handler
allowed_events-has_transition ast p e events has own a f =
    let (h, found, is) = >>=-eq-ok (find_handler_from ast (suc (length p)) (some p) e) _ f in
    allowed_agree ast e (suc (length p)) [] (some p) events h own a found ∙ ok_injective is
