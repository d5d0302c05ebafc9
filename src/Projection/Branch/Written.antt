-- ===== src/Projection/Branch/Written.antt =====
-- Endpoints read back after they are written: `projectedActorEndpoint` behind the writes of the actor
-- records.
use hyperchart.Prelude.{
  Bool, Bool-cases, Option, Option-cases, [], ap, arith, false, if◌then◌else◌, inl, inr, none, refl,
  some, subst, sym, true, ◌∙◌, ◌∷◌, ◌≡◌,
}
use hyperchart.Chart.{EndpointKind, pool, single}
use hyperchart.Dict.{Dict, has_key, lookup, put}
use hyperchart.Dict.Laws.{lookup-put}
use hyperchart.Projection.{Endpoint, Projection, actor_endpoint}
use hyperchart.Projection.Endpoints.Created.{store_endpoint}
use hyperchart.Projection.Moves.{put_endpoint}
use hyperchart.Text.{Str, str_eq, str_eq→eq}

lookup-has_key : {V : Type 0} (k : Str) (d : Dict V) → has_key k d ≡ false → lookup k d ≡ none
unfolding lookup has_key
lookup-has_key k [] h = refl
lookup-has_key k ((j, v) ∷ d) h = ground (arith, lookup-has_key k d)

-- The first of two lookups that finds something.
abbrev pub first_found : Option Endpoint → Option Endpoint → Option Endpoint
first_found (some a) b = some a
first_found none b = b

pub actor_endpoint_lem :
    (p : Projection) (o : Str)
    → actor_endpoint p o ≡ first_found (lookup o p.actors) (lookup o p.actor_pools)
unfolding actor_endpoint
actor_endpoint_lem p o = by_found (lookup o p.actors)
  where
    by_found :
        (a : Option Endpoint)
        → (elim a as (λ _. Option Endpoint) [ some e ↦ some e | none ↦ lookup o p.actor_pools ])
          ≡ first_found a (lookup o p.actor_pools)
    by_found none = refl
    by_found (some e) = refl

-- A write to the single actors stands in front.
behind_single :
    (b : Bool) (i : Str) (e : Endpoint) (p : Projection)
    → first_found (if b then some e else lookup i p.actors) (lookup i p.actor_pools)
      ≡ (if b then some e else actor_endpoint p i)
behind_single true i e p = refl
behind_single false i e p = sym (actor_endpoint_lem p i)

-- A write to the pools is read where no single actor is.
behind_pool :
    (o i : Str) (e : Endpoint) (p : Projection) (b : Bool)
    → lookup o p.actors ≡ none
    → str_eq o i ≡ b
    → first_found (lookup i p.actors) (if b then some e else lookup i p.actor_pools)
      ≡ (if b then some e else actor_endpoint p i)
behind_pool o i e p true free same =
    let at_i = subst (λ (x : Str). lookup x p.actors ≡ none) (str_eq→eq o i same) free in
    rw at_i refl
behind_pool o i e p false free other = sym (actor_endpoint_lem p i)

-- An endpoint that is written back is read at its occurrence, and the others stay.
pub actor_endpoint-put_endpoint :
    (o i : Str) (e : Endpoint) (p : Projection)
    → actor_endpoint (put_endpoint o e p) i ≡ (if str_eq o i then some e else actor_endpoint p i)
unfolding put_endpoint
actor_endpoint-put_endpoint o i e p = elim (Bool-cases (has_key o p.actors)) [
  | inl there ↦ rw there (
      actor_endpoint_lem (record p { actors = put o e p.actors }) i
      ∙ ap (λ a. first_found a (lookup i p.actor_pools)) (lookup-put o i e p.actors)
      ∙ behind_single (str_eq o i) i e p)
  | inr absent ↦ rw absent (
      actor_endpoint_lem (record p { actor_pools = put o e p.actor_pools }) i
      ∙ ap (first_found (lookup i p.actors)) (lookup-put o i e p.actor_pools)
      ∙ behind_pool o i e p (str_eq o i) (lookup-has_key o p.actors absent) refl)
]

-- No single actor is at a free occurrence.
no_single : (o : Str) (p : Projection) → actor_endpoint p o ≡ none → lookup o p.actors ≡ none
no_single o p free = elim (Option-cases (lookup o p.actors)) [
  | inl missing ↦ missing
  | inr (a, found) ↦ let k = sym (actor_endpoint_lem p o) ∙ free in let j = rw found at k in cc
]

-- A new endpoint is read at its occurrence, which was free.
pub actor_endpoint-store_endpoint :
    (k : EndpointKind) (i : Str) (e : Endpoint) (p : Projection)
    → actor_endpoint p e.occurrence ≡ none
    → actor_endpoint (store_endpoint k e p) i
      ≡ (if str_eq e.occurrence i then some e else actor_endpoint p i)
unfolding store_endpoint
actor_endpoint-store_endpoint single i e p free =
    actor_endpoint_lem (record p { actors = put e.occurrence e p.actors }) i
    ∙ ap (λ a. first_found a (lookup i p.actor_pools)) (lookup-put e.occurrence i e p.actors)
    ∙ behind_single (str_eq e.occurrence i) i e p
actor_endpoint-store_endpoint (pool n) i e p free =
    actor_endpoint_lem (record p { actor_pools = put e.occurrence e p.actor_pools }) i
    ∙ ap (first_found (lookup i p.actors)) (lookup-put e.occurrence i e p.actor_pools)
    ∙ behind_pool e.occurrence i e p (str_eq e.occurrence i) (no_single e.occurrence p free) refl
