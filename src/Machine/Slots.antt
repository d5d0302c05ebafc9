-- ===== src/Machine/Slots.antt =====
-- The concurrency of maps: how many instances of a map run, and which wait.
use hyperchart.Prelude.{
  Bool, Bool-cases, List, Option, [], any, any-append, ap, arith, false, if◌then◌else◌, inl, inr,
  leb, leb→le, length, length-append, max, none, refl, some, subst, sym, true, ℕ, ◌+◌, ◌<◌, ◌||◌,
  ◌∙◌, ◌∷◌, ◌≡◌, ◌≤◌,
}
use hyperchart.Chart.{Chart, node_at}
use hyperchart.Dict.{Dict, lookup}
use hyperchart.Dict.Laws.{lookup-put}
use hyperchart.Machine.{
  Admission, add_key, admission, admit_at, admit_in, admit_leaf, admit_leaves,
  concurrency_blocked_action_leaves, is_action_node, keys_at, limit_of, occupy, or_no_keys,
  slots_held,
}
use hyperchart.Paths.{Instance, nearest_instance}
use hyperchart.Projection.{Projection}
use hyperchart.Projection.Endpoints.{quiet}
use hyperchart.Text.{Str, str_eq, str_eq→eq}

length-add_key : (k : Str) (ks : List Str) → length (add_key k ks) ≤ length ks + 1
length-add_key k ks = elim (Bool-cases (any (str_eq k) ks)) [
  | inl there ↦ rw there (omega arith)
  | inr new ↦ let n = length-append ks (k ∷ []) in rw new (omega arith)
]

add_key_grows : (k : Str) (ks : List Str) → length ks ≤ length (add_key k ks)
add_key_grows k ks = elim (Bool-cases (any (str_eq k) ks)) [
  | inl there ↦ rw there (omega arith)
  | inr new ↦ let n = length-append ks (k ∷ []) in rw new (omega arith)
]

-- What is in a set after an addition.
pub has-add_key :
    (k j : Str) (ks : List Str) → any (str_eq j) (add_key k ks) ≡ (any (str_eq j) ks || str_eq j k)
has-add_key k j ks = elim (Bool-cases (any (str_eq k) ks)) [
  | inl there ↦ rw there (elim (Bool-cases (str_eq j k)) [
    | inl same ↦
        let e = str_eq→eq j k same in
        rw same (
          subst (λ (x : Str). any (str_eq x) ks ≡ (any (str_eq x) ks || true)) (sym e)
            (rw there refl))
    | inr other ↦ rw other (by_or (any (str_eq j) ks))
  ])
  | inr new ↦ rw new (
      any-append (str_eq j) ks (k ∷ [])
      ∙ ap (λ b. any (str_eq j) ks || b) (sym (by_or (str_eq j k))))
]
  where
    by_or : (b : Bool) → b ≡ (b || false)
    by_or true = refl
    by_or false = refl

-- The keys of a container after an instance took a slot.
pub keys_at-occupy :
    (c : Str) (i : Instance) (slots : Dict (List Str))
    → keys_at c (occupy i slots) ≡ (
        if str_eq i.container c then add_key i.key (keys_at i.container slots) else keys_at c slots)
keys_at-occupy c i slots =
    ap or_no_keys (lookup-put i.container c (add_key i.key (keys_at i.container slots)) slots)
    ∙ by_test (str_eq i.container c)
  where
    by_test :
        (b : Bool)
        → or_no_keys
            (if b then some (add_key i.key (keys_at i.container slots)) else lookup c slots)
          ≡ (if b then add_key i.key (keys_at i.container slots) else keys_at c slots)
    by_test true = refl
    by_test false = refl

occupy_grows :
    (c : Str) (i : Instance) (slots : Dict (List Str))
    → length (keys_at c slots) ≤ length (keys_at c (occupy i slots))
occupy_grows c i slots = elim (Bool-cases (str_eq i.container c)) [
  | inl same ↦
      let now : keys_at c (occupy i slots) ≡ add_key i.key (keys_at i.container slots) =
        keys_at-occupy c i slots ∙ rw same refl in
      let more = add_key_grows i.key (keys_at i.container slots) in
      let here : length (keys_at i.container slots) ≡ length (keys_at c slots) =
        ap (λ (x : Str). length (keys_at x slots)) (str_eq→eq i.container c same) in
      rw now (omega arith)
  | inr other ↦
      let now : keys_at c (occupy i slots) ≡ keys_at c slots =
        keys_at-occupy c i slots ∙ rw other refl in
      rw now (omega arith)
]

-- An action in an instance of a limited map has a slot.
abbrev pub Seated : Chart → Str → Admission → Type 0
Seated ast leaf a =
    (i : Instance) (limit : ℕ)
    → is_action_node (node_at ast leaf) ≡ true
    → nearest_instance leaf none ≡ some i
    → limit_of (node_at ast i.container) ≡ some limit
    → any (str_eq i.key) (keys_at i.container a.slots) ≡ true

-- What one leaf does to the admission: nothing, it waits behind a full map, or it takes a free slot.
pub data Admits (ast : Chart) (leaf : Str) (a b : Admission) : Type 0 where
  stays : Seated ast leaf a → b ≡ a → Admits ast leaf a b
  waits :
      (i : Instance) (limit : ℕ)
      → nearest_instance leaf none ≡ some i
      → limit_of (node_at ast i.container) ≡ some limit
      → limit ≤ length (keys_at i.container a.slots)
      → b ≡ record a { blocked = add_key leaf a.blocked }
      → Admits ast leaf a b
  enters :
      (i : Instance) (limit : ℕ)
      → nearest_instance leaf none ≡ some i
      → limit_of (node_at ast i.container) ≡ some limit
      → length (keys_at i.container a.slots) < limit
      → b ≡ record a { slots = occupy i a.slots }
      → Admits ast leaf a b

pub admit_leaf-Admits :
    (ast : Chart) (leaf : Str) (a : Admission) → Admits ast leaf a (admit_leaf ast leaf a)
admit_leaf-Admits ast leaf a = by_action (is_action_node (node_at ast leaf)) refl
  where
    by_room :
        (i : Instance) (limit : ℕ) (b : Bool)
        → nearest_instance leaf none ≡ some i
        → limit_of (node_at ast i.container) ≡ some limit
        → leb limit (length (keys_at i.container a.slots)) ≡ b
        → Admits ast leaf a (
            if b
            then record a { blocked = add_key leaf a.blocked }
            else record a { slots = occupy i a.slots })
    by_room i limit true near limited full =
        waits i limit near limited (leb→le limit (length (keys_at i.container a.slots)) full) refl
    by_room i limit false near limited free = enters i limit near limited (ground arith) refl

    by_key :
        (i : Instance) (limit : ℕ) (b : Bool)
        → nearest_instance leaf none ≡ some i
        → limit_of (node_at ast i.container) ≡ some limit
        → any (str_eq i.key) (keys_at i.container a.slots) ≡ b
        → Admits ast leaf a (
            if b
            then a
            else if leb limit (length (keys_at i.container a.slots))
            then record a { blocked = add_key leaf a.blocked }
            else record a { slots = occupy i a.slots })
    by_key i limit true near limited there =
        stays
          (λ j bound acts close bounded.
            let both : some i ≡ some j = sym near ∙ close in
            let one : i ≡ j = cc in
            subst (λ (x : Instance). any (str_eq x.key) (keys_at x.container a.slots) ≡ true) one
              there)
          refl
    by_key i limit false near limited there =
        by_room i limit (leb limit (length (keys_at i.container a.slots))) near limited refl

    by_limit :
        (i : Instance) (o : Option ℕ)
        → nearest_instance leaf none ≡ some i
        → limit_of (node_at ast i.container) ≡ o
        → Admits ast leaf a
            (elim o as (λ _. Admission) [ none ↦ a | some limit ↦ admit_in leaf i limit a ])
    by_limit i none near limited =
        stays
          (λ j bound acts close bounded.
            let both : some i ≡ some j = sym near ∙ close in
            let one : i ≡ j = cc in
            let limits : none ≡ some bound =
              sym limited
              ∙ ap (λ (x : Instance). limit_of (node_at ast x.container)) one
              ∙ bounded in
            cc)
          refl
    by_limit i (some limit) near limited =
        by_key i limit (any (str_eq i.key) (keys_at i.container a.slots)) near limited refl

    by_instance :
        (o : Option Instance)
        → nearest_instance leaf none ≡ o
        → Admits ast leaf a (admit_at ast leaf o a)
    by_instance none near =
        stays (λ j bound acts close bounded. let both : none ≡ some j = sym near ∙ close in cc) refl
    by_instance (some i) near = by_limit i (limit_of (node_at ast i.container)) near refl

    by_action :
        (b : Bool)
        → is_action_node (node_at ast leaf) ≡ b
        → Admits ast leaf a (if b then admit_at ast leaf (nearest_instance leaf none) a else a)
    by_action false quiet =
        stays (λ j bound acts close bounded. let both : false ≡ true = sym quiet ∙ acts in cc) refl
    by_action true acts = by_instance (nearest_instance leaf none) refl

-- The slots of a map stay within its limit, or within those that pending work held; and whoever waits,
-- waits behind a full map.
record IsFair (ast : Chart) (held : Dict (List Str)) (a : Admission) : Type 0 where
  within :
      (c : Str) (limit : ℕ)
      → limit_of (node_at ast c) ≡ some limit
      → length (keys_at c a.slots) ≤ max limit (length (keys_at c held))
  full :
      (leaf : Str) (i : Instance) (limit : ℕ)
      → any (str_eq leaf) a.blocked ≡ true
      → nearest_instance leaf none ≡ some i
      → limit_of (node_at ast i.container) ≡ some limit
      → limit ≤ length (keys_at i.container a.slots)

module _ (ast : Chart) (held : Dict (List Str)) where
  after_entry :
      (a : Admission) (i : Instance) (limit : ℕ)
      → IsFair ast held a
      → limit_of (node_at ast i.container) ≡ some limit
      → length (keys_at i.container a.slots) < limit
      → IsFair ast held (record a { slots = occupy i a.slots })
  after_entry a i limit fair limited free = record {
    within = λ c bound bounded. elim (Bool-cases (str_eq i.container c)) [
      | inl same ↦
          let now : keys_at c (occupy i a.slots) ≡ add_key i.key (keys_at i.container a.slots) =
            keys_at-occupy c i a.slots ∙ rw same refl in
          let one = length-add_key i.key (keys_at i.container a.slots) in
          let both : some limit ≡ some bound =
            sym limited
            ∙ ap (λ (x : Str). limit_of (node_at ast x)) (str_eq→eq i.container c same)
            ∙ bounded in
          let equal : limit ≡ bound = cc in rw now (omega arith)
      | inr other ↦
          let now : keys_at c (occupy i a.slots) ≡ keys_at c a.slots =
            keys_at-occupy c i a.slots ∙ rw other refl in
          rw now (fair.within c bound bounded)
    ];
    full = λ leaf j bound waiting near bounded.
        let before = fair.full leaf j bound waiting near bounded in
        let more = occupy_grows j.container i a.slots in omega arith;
  }

  after_wait :
      (a : Admission) (leaf : Str) (i : Instance) (limit : ℕ)
      → IsFair ast held a
      → nearest_instance leaf none ≡ some i
      → limit_of (node_at ast i.container) ≡ some limit
      → limit ≤ length (keys_at i.container a.slots)
      → IsFair ast held (record a { blocked = add_key leaf a.blocked })
  after_wait a leaf i limit fair near limited taken = record {
    within = fair.within;
    full = λ other j bound waiting close bounded.
        by_place other j bound (str_eq other leaf) refl close bounded
          (sym (has-add_key leaf other a.blocked) ∙ waiting);
  }
    where
      or_left : (b : Bool) → (b || false) ≡ true → b ≡ true
      or_left true h = refl
      or_left false h = cc

      by_place :
          (other : Str) (j : Instance) (bound : ℕ) (b : Bool)
          → str_eq other leaf ≡ b
          → nearest_instance other none ≡ some j
          → limit_of (node_at ast j.container) ≡ some bound
          → (any (str_eq other) a.blocked || b) ≡ true
          → bound ≤ length (keys_at j.container a.slots)
      by_place other j bound true same close bounded there =
          let at_leaf : nearest_instance leaf none ≡ some j =
            ap (λ (x : Str). nearest_instance x none) (sym (str_eq→eq other leaf same)) ∙ close in
          let both : some i ≡ some j = sym near ∙ at_leaf in
          let one : i ≡ j = cc in
          let limits : some limit ≡ some bound =
            sym limited ∙ ap (λ (x : Instance). limit_of (node_at ast x.container)) one ∙ bounded in
          let equal : limit ≡ bound = cc in
          subst (λ (n : ℕ). n ≤ length (keys_at j.container a.slots)) equal
            (subst (λ (x : Instance). limit ≤ length (keys_at x.container a.slots)) one taken)
      by_place other j bound false different close bounded there =
          fair.full other j bound (or_left (any (str_eq other) a.blocked) there) close bounded

  admit_leaves-IsFair :
      (leaves : List Str) (a : Admission)
      → IsFair ast held a
      → IsFair ast held (admit_leaves ast leaves a)
  unfolding admit_leaves
  admit_leaves-IsFair [] a fair = fair
  admit_leaves-IsFair (leaf ∷ leaves) a fair =
      admit_leaves-IsFair leaves (admit_leaf ast leaf a) (elim (admit_leaf-Admits ast leaf a) [
        | stays seated same ↦ subst (IsFair ast held) (sym same) fair
        | waits i limit near limited taken same ↦
            subst (IsFair ast held) (sym same) (after_wait a leaf i limit fair near limited taken)
        | enters i limit near limited free same ↦
            subst (IsFair ast held) (sym same) (after_entry a i limit fair limited free)
      ])

admission-IsFair :
    (ast : Chart) (p : Projection) → IsFair ast (slots_held p.pending []) (admission ast p)
unfolding admission
admission-IsFair ast p =
    admit_leaves-IsFair ast (slots_held p.pending []) p.active_leaves _ (record {
      within = λ c limit limited. omega arith;
      full = λ leaf i limit waiting near bounded. cc;
    })

-- The machine never gives out more slots of a map than its concurrency, unless pending work held more
-- already: then it gives out none.
pub admission_bounded :
    (ast : Chart) (p : Projection) (container : Str) (limit : ℕ)
    → limit_of (node_at ast container) ≡ some limit
    → length (keys_at container (admission ast p).slots)
      ≤ max limit (length (keys_at container (slots_held p.pending [])))
admission_bounded ast p container limit limited =
    (admission-IsFair ast p).within container limit limited

-- Whoever waits, waits behind a full map: as long as a map has a free slot, no action in an instance of
-- it is held back.
pub blocked_behind_full :
    (ast : Chart) (p : Projection) (leaf : Str) (i : Instance) (limit : ℕ)
    → any (str_eq leaf) (concurrency_blocked_action_leaves ast p) ≡ true
    → nearest_instance leaf none ≡ some i
    → limit_of (node_at ast i.container) ≡ some limit
    → limit ≤ length (keys_at i.container (admission ast p).slots)
blocked_behind_full ast p leaf i limit waiting near limited =
    (admission-IsFair ast p).full leaf i limit waiting near limited
