-- ===== src/Batch/Order.antt =====
-- Grouping keeps the records and the effects, in their order, and bounds the commits.
use hyperchart.Prelude.{
  All, All-append, Bool, Bool-cases, List, Option, Option-cases, [], ap, append-nil, append_assoc,
  arith, if◌then◌else◌, inl, inr, length, ltb, map, none, refl, some, suc, sym, ℕ, ◌++◌, ◌<◌, ◌==◌,
  ◌∙◌, ◌∷◌, ◌≡◌, ◌≤◌, ◌⊎◌,
}
use hyperchart.Batch.{
  Commit, Invocation, append, batch_from, batch_invocation_appends, effect, flush, invocation_of,
  invoked_of, joined, max_invokes,
}
use hyperchart.Text.{Str}

-- What a commit writes or does, one part after the other.
length-map {ℓ κ} :
    {A : Type ℓ} {B : Type κ} (f : A → B) (xs : List A) → length (map f xs) ≡ length xs
length-map f [] = refl
length-map f (x ∷ xs) = ap suc (length-map f xs)

length-joined {ℓ} :
    {R : Type ℓ} (is : List (Invocation R)) (i : Invocation R)
    → length (joined is i) ≡ suc (length is)
length-joined [] i = refl
length-joined (j ∷ is) i = ap suc (length-joined is i)

module _ {ℓ κ} {R : Type ℓ} {E : Type κ} where
  abbrev pub parts_of_commit : Commit R E → List (R ⊎ E)
  parts_of_commit (append id rs) = map inl rs
  parts_of_commit (effect e) = inr e ∷ []

  abbrev pub parts : List (Commit R E) → List (R ⊎ E)
  parts [] = []
  parts (c ∷ cs) = parts_of_commit c ++ parts cs

  parts-append : (xs ys : List (Commit R E)) → parts (xs ++ ys) ≡ parts xs ++ parts ys
  parts-append [] ys = refl
  parts-append (x ∷ xs) ys =
      rw (parts-append xs ys) (sym (append_assoc (parts_of_commit x) (parts xs) (parts ys)))

  -- The parts of a batch of invocations.
  abbrev invoked_parts : List (Invocation R) → List (R ⊎ E)
  invoked_parts is = map inl (map invoked_of is)

  parts-flush :
      (batch_id : List Str → Str) (is : List (Invocation R))
      → parts (flush batch_id is) ≡ invoked_parts is
  unfolding flush
  parts-flush batch_id [] = refl
  parts-flush batch_id (i ∷ []) = refl
  parts-flush batch_id (i ∷ j ∷ is) = append-nil (invoked_parts (i ∷ j ∷ is))

  invoked_parts-joined :
      (is : List (Invocation R)) (i : Invocation R)
      → invoked_parts (joined is i) ≡ invoked_parts is ++ inl i.invoked ∷ []
  invoked_parts-joined [] i = refl
  invoked_parts-joined (j ∷ is) i = rw (invoked_parts-joined is i) refl

  invocation_of-parts :
      (is_invoke : R → Bool) (e : Commit R E) (i : Invocation R)
      → invocation_of is_invoke e ≡ some i
      → parts_of_commit e ≡ inl i.invoked ∷ []
  invocation_of-parts is_invoke (effect e) i h = cc
  invocation_of-parts is_invoke (append id []) i h = cc
  invocation_of-parts is_invoke (append id (r ∷ s ∷ rs)) i h = cc
  invocation_of-parts is_invoke (append id (r ∷ [])) i h = elim (Bool-cases (is_invoke r)) [
    | inl t ↦
        let e : some (record { id = id; invoked = r }) ≡ some i = rw t at h in
        ap (λ (x : Option (Invocation R)). from x) e
    | inr f ↦ absurd (let k = rw f at h in cc)
  ]
    where
      from : Option (Invocation R) → List (R ⊎ E)
      from none = []
      from (some j) = inl j.invoked ∷ []

  parts-batch_from :
      (is_invoke : R → Bool) (batch_id : List Str → Str) (is : List (Invocation R))
      (es : List (Commit R E))
      → parts (batch_from is_invoke batch_id is es) ≡ invoked_parts is ++ parts es
  unfolding batch_from
  parts-batch_from is_invoke batch_id is [] =
      parts-flush batch_id is ∙ sym (append-nil (invoked_parts is))
  parts-batch_from is_invoke batch_id is (e ∷ es) =
      elim (Option-cases (invocation_of is_invoke e)) [
        | inl other ↦
            rw (other, batch_from)
              (parts-append (flush batch_id is) (e ∷ batch_from is_invoke batch_id [] es)
                ∙ rw (parts-flush batch_id is, parts-batch_from is_invoke batch_id [] es) refl)
        | inr (i, found) ↦
            rw (found, batch_from)
              (elim (Bool-cases (length (joined is i) == max_invokes)) [
                | inl full ↦ rw full (
                    parts-append (flush batch_id (joined is i))
                      (batch_from is_invoke batch_id [] es)
                    ∙ rw
                        (
                          parts-flush batch_id (joined is i),
                          parts-batch_from is_invoke batch_id [] es,
                        )
                        (grown i found))
                | inr room ↦
                    rw room (parts-batch_from is_invoke batch_id (joined is i) es ∙ grown i found)
              ])
      ]
    where
      grown :
          (i : Invocation R)
          → invocation_of is_invoke e ≡ some i
          → invoked_parts (joined is i) ++ parts es
            ≡ invoked_parts is ++ (parts_of_commit e ++ parts es)
      grown i found =
          rw (invoked_parts-joined is i, invocation_of-parts is_invoke e i found)
            (append_assoc (invoked_parts is) (inl i.invoked ∷ []) (parts es))

  -- Grouping keeps every record and every effect, in their order.
  pub parts-batch_invocation_appends :
      (is_invoke : R → Bool) (batch_id : List Str → Str) (entries : List (Commit R E))
      → parts (batch_invocation_appends is_invoke batch_id entries) ≡ parts entries
  unfolding batch_invocation_appends
  parts-batch_invocation_appends is_invoke batch_id entries =
      elim (Bool-cases (ltb (length entries) 2)) [
        | inl t ↦ rw t refl
        | inr f ↦ rw f (parts-batch_from is_invoke batch_id [] entries)
      ]

  -- A commit of no more than `n` records; an effect has none.
  abbrev pub Fits : ℕ → Commit R E → Type 0
  Fits n (append id rs) = length rs ≤ n
  Fits n (effect e) = Unit

flush-Fits {ℓ κ} :
    {R : Type ℓ} (E : Type κ) (n : ℕ) (batch_id : List Str → Str) (is : List (Invocation R))
    → length is ≤ n
    → All (Fits n) (flush {E = E} batch_id is)
unfolding flush
flush-Fits E n batch_id [] h = tt
flush-Fits E n batch_id (i ∷ []) h = (h, tt)
flush-Fits E n batch_id (i ∷ j ∷ is) h = (rw (length-map invoked_of is) h, tt)

module _ {ℓ κ} {R : Type ℓ} {E : Type κ} where
  batch_from-Fits :
      (n : ℕ) (is_invoke : R → Bool) (batch_id : List Str → Str) (is : List (Invocation R))
      (es : List (Commit R E))
      → max_invokes ≤ n
      → length is < max_invokes
      → All (Fits n) es
      → All (Fits n) (batch_from is_invoke batch_id is es)
  unfolding batch_from
  batch_from-Fits n is_invoke batch_id is [] big small h = flush-Fits E n batch_id is (omega arith)
  batch_from-Fits n is_invoke batch_id is (e ∷ es) big small (here, later) =
      let alone = batch_from-Fits n is_invoke batch_id [] es big (omega arith) later in
      elim (Option-cases (invocation_of is_invoke e)) [
        | inl other ↦
            rw (other, batch_from)
              (All-append (Fits n) (flush batch_id is) (e ∷ batch_from is_invoke batch_id [] es)
                (flush-Fits E n batch_id is (omega arith)) (here, alone))
        | inr (i, found) ↦
            rw (found, batch_from)
              (let size = length-joined is i in
                elim (Bool-cases (length (joined is i) == max_invokes)) [
                  | inl full ↦ rw full (
                      All-append (Fits n) (flush batch_id (joined is i))
                        (batch_from is_invoke batch_id [] es)
                        (flush-Fits E n batch_id (joined is i) (omega arith)) alone)
                  | inr room ↦ rw room (
                      batch_from-Fits n is_invoke batch_id (joined is i) es big (ground arith)
                        later)
                ])
      ]

  -- Grouping writes no commit of more than 32 records, unless an entry was larger: a bound of 32 or
  -- more on the entries' records bounds those of the commits.
  pub batch_invocation_appends-Fits :
      (n : ℕ) (is_invoke : R → Bool) (batch_id : List Str → Str) (entries : List (Commit R E))
      → max_invokes ≤ n
      → All (Fits n) entries
      → All (Fits n) (batch_invocation_appends is_invoke batch_id entries)
  unfolding batch_invocation_appends
  batch_invocation_appends-Fits n is_invoke batch_id entries big h =
      elim (Bool-cases (ltb (length entries) 2)) [
        | inl t ↦ rw t h
        | inr f ↦
            rw (f, if◌then◌else◌)
              (batch_from-Fits n is_invoke batch_id [] entries big (omega arith) h)
      ]
