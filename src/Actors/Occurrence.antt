-- ===== src/Actors/Occurrence.antt =====
-- Occurrence paths read back: a generation's logical path, and the worker of a pool.
use hyperchart.Prelude.{
  Bool-cases, [], all, any, ap, append_assoc, arith, drop, drop-suc-length, false, inl, inr, leb,
  length, length-append, ltb, refl, reverse, reverse-append, some, suc, take, take-length, true,
  zero, ℕ, ◌%◌, ◌++◌, ◌+◌, ◌-◌, ◌/◌, ◌<◌, ◌==◌, ◌∙◌, ◌∷◌, ◌≡◌, ◌≤◌,
}
use hyperchart.Actors.{
  actor_generation_path, actor_logical_occurrence_path, actor_pool_worker_occurrence_path,
  ends_with, is_line_end, max_safe_integer, parse_actor_pool_worker_occurrence, worker_of_segment,
}
use hyperchart.Paths.{is_decimal, is_digit, worker_prefix}
use hyperchart.Text.{Str, last_index_of, text}
use hyperchart.Text.Decimal.{decimal, decimal-Lacks, decimal_from, number_of-decimal}
use hyperchart.Text.Search.{last_index_of_last, starts_with-append}

-- The logical occurrence of a generation's path is the one that it was made from.
pub actor_logical_occurrence_path-actor_generation_path :
    (logical : Str) (generation : ℕ)
    → actor_logical_occurrence_path (actor_generation_path logical generation) generation ≡ logical
unfolding actor_logical_occurrence_path actor_generation_path
actor_logical_occurrence_path-actor_generation_path logical generation =
    elim (Bool-cases (generation == 1)) [
      | inl first ↦ rw first refl
      | inr later ↦
          rw (later, ends_with_suffix logical (b'~' ∷ decimal generation))
            (cut logical (b'~' ∷ decimal generation))
    ]
  where
    ends_with_suffix : (l s : Str) → ends_with s (l ++ s) ≡ true
    ends_with_suffix l s = rw (reverse-append l s) (starts_with-append (reverse s) (reverse l))

    cut : (l s : Str) → take (length (l ++ s) - length s) (l ++ s) ≡ l
    cut l s =
        let n : length (l ++ s) - length s ≡ length l = omega (arith, length-append l s) in
        rw n (take-length l s)

all-digit-concat :
    (s : Str) (d : ℕ) → d < 10 → all is_digit s ≡ true → all is_digit (s ++ (48 + d) ∷ []) ≡ true
all-digit-concat [] d h a = ground arith
all-digit-concat (c ∷ s) d h a = ground (arith, all-digit-concat s d h)

is_decimal-concat :
    (s : Str) (d : ℕ) → d < 10 → is_decimal s ≡ true → is_decimal (s ++ (48 + d) ∷ []) ≡ true
is_decimal-concat [] d h a = cc
is_decimal-concat (c ∷ s) d h a = ground (arith, all-digit-concat s d h)

is_decimal-decimal_from : (fuel n : ℕ) → n < fuel → is_decimal (decimal_from fuel n) ≡ true
is_decimal-decimal_from zero n h = absurd (omega arith)
is_decimal-decimal_from (suc fuel) n h = elim (Bool-cases (ltb n 10)) [
  | inl small ↦ rw small (ground arith)
  | inr big ↦ rw big (
      is_decimal-concat (decimal_from fuel (n / 10)) (n % 10) (omega arith)
        (is_decimal-decimal_from fuel (n / 10) (ground arith)))
]

is_decimal-decimal : (n : ℕ) → is_decimal (decimal n) ≡ true
unfolding decimal
is_decimal-decimal n = is_decimal-decimal_from (suc n) n (omega arith)

leb_of : (a b : ℕ) → a ≤ b → leb a b ≡ true
leb_of a b h = ground arith

parse_at_dot :
    (p : Str) (dot : ℕ)
    → last_index_of b'.' p ≡ some dot
    → any is_line_end (take dot p) ≡ false
    → parse_actor_pool_worker_occurrence p ≡ worker_of_segment (take dot p) (drop (suc dot) p)
unfolding parse_actor_pool_worker_occurrence
parse_at_dot p dot h one_line = rw (h, parse_actor_pool_worker_occurrence) (rw one_line refl)

-- A worker's path gives back the pool and the index, if the index is a safe integer and the pool's path
-- holds no line end.
pub parse_actor_pool_worker_occurrence-actor_pool_worker_occurrence_path :
    (occurrence : Str) (index : ℕ)
    → index ≤ max_safe_integer
    → any is_line_end occurrence ≡ false
    → parse_actor_pool_worker_occurrence (actor_pool_worker_occurrence_path occurrence index)
      ≡ some (record { endpoint = occurrence; index = index })
unfolding actor_pool_worker_occurrence_path
parse_actor_pool_worker_occurrence-actor_pool_worker_occurrence_path occurrence index safe
      one_line =
    ap parse_actor_pool_worker_occurrence
      (append_assoc occurrence (text ".$worker-") (decimal index))
    ∙ parse_at_dot path (length occurrence) last_dot
        (ap (any is_line_end) (take-length occurrence (b'.' ∷ segment)) ∙ one_line)
    ∙ ap (λ (t : Str). worker_of_segment t (drop (suc (length occurrence)) path))
        (take-length occurrence (b'.' ∷ segment))
    ∙ ap (worker_of_segment occurrence) (drop-suc-length occurrence segment b'.')
    ∙ of_segment
  where
    segment : Str
    segment = worker_prefix ++ decimal index

    path : Str
    path = occurrence ++ b'.' ∷ segment

    last_dot : last_index_of b'.' path ≡ some (length occurrence)
    last_dot = last_index_of_last b'.' occurrence segment (decimal-Lacks b'.' index refl)

    of_segment :
        worker_of_segment occurrence segment
        ≡ some (record { endpoint = occurrence; index = index })
    of_segment =
        rw
          (
            worker_of_segment,
            number_of-decimal index,
            is_decimal-decimal index,
            leb_of index max_safe_integer safe,
          )
          refl
