-- ===== src/Store/Pages/Forward.antt =====
-- A page is the first records behind its boundary, though the walk meets them last.
use hyperchart.Prelude.{
  Bool, Bool-cases, List, Option, [], ap, append-nil, append_assoc, arith, drop, drop-append,
  drop-drop_one, false, if◌then◌else◌, inl, inr, length, length-append, length-drop, length-reverse,
  ltb, ltb→lt, none, refl, reverse, reverse-append, reverse-reverse, some, suc, sym, take, take-all,
  take-drop, take-length, true, zero, ℕ, ◌++◌, ◌+◌, ◌-◌, ◌∙◌, ◌∷◌, ◌≡◌,
}
use hyperchart.Dict.Numbered.{value_at}
use hyperchart.Result.{
  >>=-eq-ok, Result, foreign_boundary, guard, missing_record, ok, ok_injective, require,
  require-eq-ok, ◌>>=◌, ◌>>◌,
}
use hyperchart.Store.{Index, Stored, materialize_history_to_head, or_zero, walk}
use hyperchart.Store.Pages.{
  PageWalk, ReplayPage, bounded_forward_replay_page, is_absent, is_boundary, page_from, page_walk,
  push_bounded, replay_page_records,
}

-- The last elements of a list, as many as the limit.
abbrev keep_last {ℓ} : {A : Type ℓ} → ℕ → List A → List A
keep_last limit xs = drop (length xs - limit) xs

module _ {ℓ} {A : Type ℓ} where
  -- A bounded push keeps the last ones of all that was pushed.
  push_bounded-keep_last :
      (limit : ℕ) (r : A) (seen : List A)
      → push_bounded limit r (keep_last limit seen) ≡ keep_last limit (seen ++ r ∷ [])
  push_bounded-keep_last limit r seen =
      by_size (ltb limit (length (keep_last limit seen ++ r ∷ []))) refl
    where
      size : length (keep_last limit seen ++ r ∷ []) ≡ length seen - (length seen - limit) + 1
      size =
          length-append (keep_last limit seen) (r ∷ [])
          ∙ ap (λ (n : ℕ). n + 1) (length-drop (length seen - limit) seen)

      whole : length (seen ++ r ∷ []) ≡ length seen + 1
      whole = length-append seen (r ∷ [])

      inside : keep_last limit seen ++ r ∷ [] ≡ drop (length seen - limit) (seen ++ r ∷ [])
      inside = sym (drop-append (length seen - limit) seen (r ∷ []) (omega arith))

      by_size :
          (b : Bool)
          → ltb limit (length (keep_last limit seen ++ r ∷ [])) ≡ b
          → (if b then drop 1 (keep_last limit seen ++ r ∷ []) else keep_last limit seen ++ r ∷ [])
            ≡ keep_last limit (seen ++ r ∷ [])
      by_size true more =
          let above = ltb→lt limit (length (keep_last limit seen ++ r ∷ [])) more in
          let e = size in
          let f = whole in
          let same : suc (length seen - limit) ≡ length (seen ++ r ∷ []) - limit = omega arith in
          ap (drop 1) inside
          ∙ drop-drop_one (length seen - limit) (seen ++ r ∷ [])
          ∙ ap (λ (n : ℕ). drop n (seen ++ r ∷ [])) same
      by_size false few =
          let e = size in
          let f = whole in
          let same : length seen - limit ≡ length (seen ++ r ∷ []) - limit = ground arith in
          inside ∙ ap (λ (n : ℕ). drop n (seen ++ r ∷ [])) same

  reverse-keep_last :
      (limit : ℕ) (xs : List A) → reverse (keep_last limit xs) ≡ take limit (reverse xs)
  reverse-keep_last limit xs = elim (Bool-cases (ltb limit (length xs))) [
    | inl more ↦
        let above = ltb→lt limit (length xs) more in
        let k = length xs - limit in
        let size : length (reverse (drop k xs)) ≡ length xs - (length xs - limit) =
          length-reverse (drop k xs) ∙ length-drop k xs in
        let whole : limit ≡ length (reverse (drop k xs)) = omega arith in
        sym (
          ap (λ (ys : List A). take limit (reverse ys)) (sym (take-drop k xs))
          ∙ ap (take limit) (reverse-append (take k xs) (drop k xs))
          ∙ ap (λ (n : ℕ). take n (reverse (drop k xs) ++ reverse (take k xs))) whole
          ∙ take-length (reverse (drop k xs)) (reverse (take k xs)))
    | inr few ↦
        let size = length-reverse xs in
        let none_dropped : length xs - limit ≡ 0 = ground arith in
        ap (λ (n : ℕ). reverse (drop n xs)) none_dropped
        ∙ sym (take-all limit (reverse xs) (ground arith))
  ]

module _ {D : Type 0} where
  abbrev pub ahead : Stored D → Option (List (Stored D)) → Option (List (Stored D))
  ahead r none = none
  ahead r (some rs) = some (r ∷ rs)

  -- The records behind a boundary, of a walk from the newest on; none if the boundary is not met.
  abbrev pub newer_than : Option ℕ → List (Stored D) → Option (List (Stored D))
  newer_than after [] = if is_absent after then some [] else none
  newer_than after (r ∷ rs) =
      let further = ahead r (newer_than after rs) in
      if is_boundary after r.seq_id then some [] else further

  -- What the walk makes of the records that it met before, and of those that it meets.
  unfoldable walked : ℕ → Option ℕ → List (Stored D) → List (Stored D) → PageWalk D
  walked limit after seen [] = record {
    retained = keep_last limit seen;
    count = length seen;
    found = is_absent after;
  }
  walked limit after seen (r ∷ rs) =
      let further = walked limit after (seen ++ r ∷ []) rs in
      if is_boundary after r.seq_id
      then record { retained = keep_last limit seen; count = length seen; found = true }
      else further

  page_walk-walked :
      (fuel : ℕ) (ix : Index D) (limit : ℕ) (after head : Option ℕ) (seen ws : List (Stored D))
      → walk fuel ix head ≡ ok ws
      → page_walk fuel ix limit after head (keep_last limit seen) (length seen)
        ≡ ok (walked limit after seen ws)
  unfolding walk page_walk walked
  page_walk-walked fuel ix limit after none seen ws h =
      ap (λ (rs : List (Stored D)). ok (walked limit after seen rs)) (ok_injective h)
  page_walk-walked zero ix limit after (some n) seen ws h = cc
  page_walk-walked (suc fuel) ix limit after (some n) seen ws h =
      let (r, found, m1) = >>=-eq-ok (require (value_at n ix.records) (missing_record n)) _ h in
      let (rest, upper, whole) = >>=-eq-ok (walk fuel ix r.parent_id) _ m1 in
      let there = require-eq-ok (value_at n ix.records) (missing_record n) found in
      let later = page_walk-walked fuel ix limit after r.parent_id (seen ++ r ∷ []) rest upper in
      rw (there, page_walk)
        (ap
            (λ (x : Result (PageWalk D)).
              if is_boundary after r.seq_id
              then ok
                  (record { retained = keep_last limit seen; count = length seen; found = true })
              else x)
            (ap
                (λ (ys : List (Stored D)).
                  page_walk fuel ix limit after r.parent_id ys (length seen + 1))
                (push_bounded-keep_last limit r seen)
              ∙ ap (page_walk fuel ix limit after r.parent_id (keep_last limit (seen ++ r ∷ [])))
                  (sym (length-append seen (r ∷ [])))
              ∙ later)
          ∙ by_test (is_boundary after r.seq_id)
              (record { retained = keep_last limit seen; count = length seen; found = true })
              (walked limit after (seen ++ r ∷ []) rest)
          ∙ ap (λ (rs : List (Stored D)). ok (walked limit after seen rs)) (ok_injective whole))
    where
      by_test : (b : Bool) (x y : PageWalk D) → (if b then ok x else ok y) ≡ ok (if b then x else y)
      by_test true x y = refl
      by_test false x y = refl

  -- The page of a segment, oldest first: its first records, with a cursor if there are more.
  abbrev pub page_of : ℕ → List (Stored D) → ReplayPage D
  page_of limit rs = page_from limit (take limit rs) (length rs)

  abbrev answer : ℕ → Option ℕ → PageWalk D → Result (ReplayPage D)
  answer limit after w =
      guard w.found (foreign_boundary (or_zero after))
      >> ok (page_from limit (reverse w.retained) w.count)

  whole_page :
      (limit : ℕ) (after : Option ℕ) (seen : List (Stored D))
      → answer limit after
          (record { retained = keep_last limit seen; count = length seen; found = true })
        ≡ ok (page_of limit (reverse seen))
  whole_page limit after seen =
      ap (λ (rs : List (Stored D)). ok (page_from limit rs (length seen)))
        (reverse-keep_last limit seen)
      ∙ ap (λ (n : ℕ). ok (page_from limit (take limit (reverse seen)) n))
          (sym (length-reverse seen))

  walked-newer_than :
      (limit : ℕ) (after : Option ℕ) (seen ws : List (Stored D))
      → answer limit after (walked limit after seen ws) ≡ (
          require (newer_than after ws) (foreign_boundary (or_zero after)) >>= λ newest_first.
          ok (page_of limit (reverse (seen ++ newest_first))))
  unfolding walked
  walked-newer_than limit none seen [] =
      whole_page limit none seen
      ∙ ap (λ (rs : List (Stored D)). ok (page_of limit (reverse rs))) (sym (append-nil seen))
  walked-newer_than limit (some n) seen [] = refl
  walked-newer_than limit after seen (r ∷ rs) =
      by_test (is_boundary after r.seq_id) (newer_than after rs)
        (walked-newer_than limit after (seen ++ r ∷ []) rs)
    where
      page_if : Option (List (Stored D)) → List (Stored D) → Result (ReplayPage D)
      page_if o before = require o (foreign_boundary (or_zero after)) >>= λ newest_first.
          ok (page_of limit (reverse (before ++ newest_first)))

      by_more :
          (o : Option (List (Stored D))) → page_if o (seen ++ r ∷ []) ≡ page_if (ahead r o) seen
      by_more none = refl
      by_more (some ss) =
          ap (λ (x : List (Stored D)). ok (page_of limit (reverse x)))
            (append_assoc seen (r ∷ []) ss)

      by_test :
          (b : Bool) (o : Option (List (Stored D)))
          → answer limit after (walked limit after (seen ++ r ∷ []) rs) ≡ page_if o (seen ++ r ∷ [])
          → answer limit after (
              if b
              then record { retained = keep_last limit seen; count = length seen; found = true }
              else walked limit after (seen ++ r ∷ []) rs)
            ≡ page_if (if b then some [] else ahead r o) seen
      by_test true o ih =
          whole_page limit after seen
          ∙ ap (λ (x : List (Stored D)). ok (page_of limit (reverse x))) (sym (append-nil seen))
      by_test false o ih = ih ∙ by_more o

  -- A page of a replay holds the first 500 of the records of the head's history behind the boundary, in
  -- their order, with a cursor at its last one exactly if there are more; a boundary that is not in the
  -- history is an error.
  pub bounded_forward_replay_page-history :
      (ix : Index D) (target : ℕ) (after : Option ℕ) (hs : List (Stored D))
      → materialize_history_to_head ix (some target) ≡ ok hs
      → bounded_forward_replay_page ix (some target) after ≡ (
          require (newer_than after (reverse hs)) (foreign_boundary (or_zero after))
          >>= λ newest_first. ok (page_of replay_page_records (reverse newest_first)))
  unfolding bounded_forward_replay_page materialize_history_to_head
  bounded_forward_replay_page-history ix target after hs h =
      let (ws, found, whole) = >>=-eq-ok (walk ix.next_seq_id ix (some target)) _ h in
      let newest : ws ≡ reverse hs =
        sym (reverse-reverse ws) ∙ ap (λ (rs : List (Stored D)). reverse rs) (ok_injective whole) in
      rw (page_walk-walked ix.next_seq_id ix replay_page_records after (some target) [] ws found) (
        walked-newer_than replay_page_records after [] ws
        ∙ ap
            (λ (rs : List (Stored D)).
              require (newer_than after rs) (foreign_boundary (or_zero after)) >>= λ newest_first.
              ok (page_of replay_page_records (reverse newest_first)))
            newest)
