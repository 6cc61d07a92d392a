-- ===== src/Engine/PipelineResults/Declared.antt =====
-- What a declared result of a pipeline resolves to.
use tkn_act.Base.{
  String, ◌≡◌, refl, sym, ap, ◌∙◌, subst, arith, Bool, true, false, Option, none, some, List, [],
  ◌∷◌, ◌++◌, if◌then◌else◌, eq_iff, mem, all, concat, or_else, Bool-cases, Map, lookup, insert,
  keys, lookup-insert, Result, ok, err, is_ok, Result-cases, ok_inj, bind_parts, bind_stops,
  Pairwise, ◌⊎◌, inl, inr, ◌>>=◌,
}
use tkn_act.Base.Order.{sort}
use tkn_act.Tekton.{ParamType, ParamValue, unset, string, array, object}
use tkn_act.Resolver.Scope.{Json, LookupError}
use tkn_act.Resolver.{strict, substitute, substitute_args}
use tkn_act.Engine.PipelineResults.{
  ResultValue, text_value, list_value, map_value, results_scope, is_sole_array_star_ref,
  resolve_items, resolve_fields, resolve_text,
}

abbrev pub is_text : ParamType → Bool
is_text unset = true
is_text string = true
is_text array = false
is_text object = false

abbrev pub value_of : Result LookupError String → Option String
value_of (ok s) = some s
value_of (err _) = none

module _ (json : Json) (results : Map (Map String)) where
  -- a text against the results of the tasks, where every reference must resolve
  abbrev pub reads : String → Result LookupError String
  reads s = substitute json (results_scope results) strict s

  -- the list that a text which is one `$(...[*])` stands for
  abbrev pub spreads : String → Result LookupError (List String)
  spreads s = substitute_args json (results_scope results) strict (s ∷ [])

  -- What one element of a list comes to: a sole `[*]` reference its elements, and any other its text.
  pub data Item (item : String) : List String → Type 0 where
    spread :
        {part : List String}
        → is_sole_array_star_ref item ≡ true
        → spreads item ≡ ok part
        → Item item part
    single :
        {s : String} → is_sole_array_star_ref item ≡ false → reads item ≡ ok s → Item item (s ∷ [])

  abbrev pub ItemFails : String → LookupError → Type 0
  ItemFails item x =
      ((is_sole_array_star_ref item ≡ true) × (spreads item ≡ err x))
      ⊎ ((is_sole_array_star_ref item ≡ false) × (reads item ≡ err x))

  -- The first element that fails has this error.
  abbrev pub ItemsFail : List String → LookupError → Type 0
  ItemsFail [] x = ⊥
  ItemsFail (item ∷ items) x =
      ItemFails item x ⊎ ((part : List String) × Item item part × ItemsFail items x)

  abbrev pub field : Map String → String → Result LookupError String
  field fields key = reads (or_else (lookup key fields) "")

  -- The first of these keys whose text fails has this error.
  abbrev pub FieldsFail : Map String → List String → LookupError → Type 0
  FieldsFail fields [] x = ⊥
  FieldsFail fields (key ∷ ks) x =
      (field fields key ≡ err x)
      ⊎ ((s : String) × (field fields key ≡ ok s) × FieldsFail fields ks x)

  pub data Means (v : ParamValue) : Result LookupError ResultValue → Type 0 where
    text :
        {s : String}
        → is_text v.type ≡ true
        → is_sole_array_star_ref v.string_val ≡ false
        → reads v.string_val ≡ ok s
        → Means v (ok (text_value s))
    promoted :
        {l : List String}
        → is_text v.type ≡ true
        → is_sole_array_star_ref v.string_val ≡ true
        → spreads v.string_val ≡ ok l
        → Means v (ok (list_value l))
    no_text : {x : LookupError} → is_text v.type ≡ true → ItemFails v.string_val x → Means v (err x)
    list :
        (parts : List (List String))
        → v.type ≡ array
        → Pairwise Item v.array_val parts
        → Means v (ok (list_value (concat parts)))
    no_list : {x : LookupError} → v.type ≡ array → ItemsFail v.array_val x → Means v (err x)
    map_of :
        {m : Map String}
        → v.type ≡ object
        → all (λ key. is_ok (field v.object_val key)) (keys v.object_val) ≡ true
        → ((key : String)
            → lookup key m
              ≡ (if mem key (keys v.object_val) then value_of (field v.object_val key) else none))
        → Means v (ok (map_value m))
    no_map :
        {x : LookupError}
        → v.type ≡ object
        → FieldsFail v.object_val (sort (keys v.object_val)) x
        → Means v (err x)

  pub text-Means :
      (v : ParamValue) (r : Result LookupError ResultValue)
      → is_text v.type ≡ true
      → resolve_text json results v.string_val ≡ r
      → Means v r
  unfolding resolve_text
  text-Means v r t h = elim (Bool-cases (is_sole_array_star_ref v.string_val)) [
    | inl sole ↦ elim (Result-cases (spreads v.string_val)) [
      | inl (l, e) ↦ subst (Means v) (ground (arith, h, sole, e)) (promoted t sole e)
      | inr (x, e) ↦ subst (Means v) (ground (arith, h, sole, e)) (no_text t (inl (sole, e)))
    ]
    | inr mixed ↦ elim (Result-cases (reads v.string_val)) [
      | inl (s, e) ↦ subst (Means v) (ground (arith, h, mixed, e)) (text t mixed e)
      | inr (x, e) ↦ subst (Means v) (ground (arith, h, mixed, e)) (no_text t (inr (mixed, e)))
    ]
  ]

  -- the first half of a round of the loop over the elements
  abbrev here : String → Result LookupError (List String)
  here item =
      if is_sole_array_star_ref item then spreads item else (reads item >>= λ s. ok (s ∷ []))

  here-Item : (item : String) (part : List String) → here item ≡ ok part → Item item part
  here-Item item part h = elim (Bool-cases (is_sole_array_star_ref item)) [
    | inl sole ↦ spread sole (ground (arith, h, sole))
    | inr mixed ↦ elim (Result-cases (reads item)) [
      | inl (s, e) ↦ subst (Item item) (ground (arith, h, mixed, e)) (single mixed e)
      | inr (x, e) ↦ absurd (ground (arith, h, mixed, e))
    ]
  ]

  here-fails : (item : String) (x : LookupError) → here item ≡ err x → ItemFails item x
  here-fails item x h = elim (Bool-cases (is_sole_array_star_ref item)) [
    | inl sole ↦ inl (sole, ground (arith, h, sole))
    | inr mixed ↦ elim (Result-cases (reads item)) [
      | inl (s, e) ↦ absurd (ground (arith, h, mixed, e))
      | inr (y, e) ↦ inr (mixed, ground (arith, h, mixed, e))
    ]
  ]

  pub resolve_items-parts :
      (items l : List String)
      → resolve_items json results items ≡ ok l
      → (parts : List (List String)) × Pairwise Item items parts × (concat parts ≡ l)
  unfolding resolve_items
  resolve_items-parts [] l h = ([], tt, ok_inj _ _ h)
  resolve_items-parts (item ∷ items) l h =
      let (part, e, h1) = bind_parts (here item) _ l h in
      let (rest, f, h2) = bind_parts (resolve_items json results items) _ l h1 in
      let (parts, are, same) = resolve_items-parts items rest f in
      (part ∷ parts, (here-Item item part e, are), ap (λ r. part ++ r) same ∙ ok_inj _ _ h2)

  pub resolve_items-fails :
      (items : List String) (x : LookupError)
      → resolve_items json results items ≡ err x
      → ItemsFail items x
  unfolding resolve_items
  resolve_items-fails [] x h = absurd (cc)
  resolve_items-fails (item ∷ items) x h = elim (bind_stops (here item) _ x h) [
    | inl bad ↦ inl (here-fails item x bad)
    | inr (part, e, h1) ↦ elim (bind_stops (resolve_items json results items) _ x h1) [
      | inl bad ↦ inr (part, here-Item item part e, resolve_items-fails items x bad)
      | inr (_, _, h2) ↦ absurd (cc)
    ]
  ]

  pub resolve_fields-parts :
      (fields : Map String) (ks : List String) (obj m : Map String)
      → resolve_fields json results fields ks obj ≡ ok m
      → (all (λ key. is_ok (field fields key)) ks ≡ true)
        × ((key : String)
            → lookup key m ≡ (if mem key ks then value_of (field fields key) else lookup key obj))
  unfolding resolve_fields
  resolve_fields-parts fields [] obj m h = (refl, λ key. ap (lookup key) (sym (ok_inj _ _ h)))
  resolve_fields-parts fields (k ∷ ks) obj m h =
      let (s, e, h1) = bind_parts (field fields k) _ m h in
      let (every, at) = resolve_fields-parts fields ks (insert k s obj) m h1 in
      (
        ground (arith, e, every),
        λ key. ground (arith, e, at key, lookup-insert k key s obj, eq_iff k key),
      )

  pub resolve_fields-fails :
      (fields : Map String) (ks : List String) (obj : Map String) (x : LookupError)
      → resolve_fields json results fields ks obj ≡ err x
      → FieldsFail fields ks x
  unfolding resolve_fields
  resolve_fields-fails fields [] obj x h = absurd (cc)
  resolve_fields-fails fields (k ∷ ks) obj x h = elim (bind_stops (field fields k) _ x h) [
    | inl bad ↦ inl bad
    | inr (s, e, h1) ↦ inr (s, e, resolve_fields-fails fields ks (insert k s obj) x h1)
  ]
