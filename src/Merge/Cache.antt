-- ===== src/Merge/Cache.antt =====
-- src/resultset_merge.c, field_offsets_cache: is_prior_to is the same with the cache and without it.
use cetus.Common.{
  ℕ, suc, ◌≡◌, ◌≢◌, refl, sym, arith, ◌∙◌, Bool, true, false, ◌||◌, Option, none, some, List, [],
  ◌∷◌, ◌==◌, ==_iff, Bool-cases, ◌⊎◌, inl, inr,
}
use cetus.Common.Int.{ℤ, pos}
use cetus.Merge.Columns.{OrderBy, TimeReaders, compare_value_from_records}
use cetus.Merge.Order.{
  get_field_offsets, Cache, cache_set, stored, cached_offsets, str_columns, compare_records_by_str,
  compare_field, FieldOrder, Comparison, as_value, as_str, returns_1, comparison, after_field,
  prior_loop, is_prior_to, of_columns, ◌>>=◌, keep, unfailing_with,
}

-- What the cache has of the two rows is right.
abbrev pub Remembers : List OrderBy → Cache → ℕ → List ℕ → Type 0
Remembers order_array cache index row =
    (cache index ≡ 0) ⊎ (get_field_offsets row order_array ≡ some (cache index))

module _ (readers : TimeReaders) (order_array : List OrderBy) (rows : ℕ → List ℕ) where
  -- For every server the cache is empty or has the offsets of its next row.
  abbrev pub IsCoherent : Cache → Type 0
  IsCoherent cache = (index : ℕ) → Remembers order_array cache index (rows index)

  -- The offsets are those of the row, and the cache stays right.
  abbrev pub IsRight : ℕ → Option (ℕ × Cache) → Type 0
  IsRight index none = get_field_offsets (rows index) order_array ≡ none
  IsRight index (some (offsets, cache)) =
      (get_field_offsets (rows index) order_array ≡ some offsets) × IsCoherent cache

  stored-IsRight :
      (cache : Cache) (index : ℕ) (r : Option ℕ)
      → IsCoherent cache
      → get_field_offsets (rows index) order_array ≡ r
      → IsRight index (stored cache index r)
  stored-IsRight cache index none h e = e
  stored-IsRight cache index (some offsets) h e = (
    e,
    λ i. elim (Bool-cases (index == i)) [
      | inl hit ↦ let same : index ≡ i = (==_iff index i).0 hit in rw hit (inr (rw (sym same) e))
      | inr miss ↦ rw miss (h i)
    ],
  )

  cached_offsets-IsRight :
      (cache : Cache) (index : ℕ)
      → IsCoherent cache
      → IsRight index (cached_offsets order_array cache index (rows index))
  unfolding cached_offsets
  cached_offsets-IsRight cache index h = elim (Bool-cases (cache index == 0)) [
    | inl empty ↦
        rw empty (stored-IsRight cache index (get_field_offsets (rows index) order_array) h refl)
    | inr full ↦
        rw full (elim (h index) [ inl none_there ↦ absurd (ground arith) | inr there ↦ there ], h)
  ]

  -- The same result from two caches, each right afterwards.
  abbrev pub Same : {A : Type 0} → Option (A × Cache) → Option (A × Cache) → Type 0
  Same none none = Unit
  Same (some (a, cache)) (some (a', cache')) = (a ≡ a') × IsCoherent cache × IsCoherent cache'
  Same none (some r) = ⊥
  Same (some r) none = ⊥

  offsets-Same :
      (index : ℕ) (r r' : Option (ℕ × Cache)) → IsRight index r → IsRight index r' → Same r r'
  offsets-Same index none none h k = tt
  offsets-Same index none (some (o, cache)) h k = absurd (ground (arith, sym h ∙ k.0))
  offsets-Same index (some (o, cache)) none h k = absurd (ground (arith, sym h.0 ∙ k))
  offsets-Same index (some (o, cache)) (some (o', cache')) h k =
      (ground (arith, sym h.0 ∙ k.0), h.1, k.1)

  -- Steps that give the same from the same, with any caches that are right.
  bind-Same :
      {A B : Type 0} (r r' : Option (A × Cache)) (f : A × Cache → Option (B × Cache))
      → Same r r'
      → ((a : A) (cache cache' : Cache)
          → IsCoherent cache
          → IsCoherent cache'
          → Same (f (a, cache)) (f (a, cache')))
      → Same (r >>= f) (r' >>= f)
  bind-Same none none f h k = tt
  bind-Same none (some r) f h k = absurd h
  bind-Same (some r) none f h k = absurd h
  bind-Same (some (a, cache)) (some (a', cache')) f (e, c, c') k =
      rw (sym e) (k a cache cache' c c')

  module _ (index1 index2 : ℕ) where
    str_columns-Same :
        (cache cache' : Cache)
        → IsCoherent cache
        → IsCoherent cache'
        → (i : ℕ)
        → Same
            (str_columns order_array cache index1 index2 (rows index1) (rows index2) i)
            (str_columns order_array cache' index1 index2 (rows index1) (rows index2) i)
    unfolding str_columns
    str_columns-Same cache cache' c c' i =
        bind-Same _ _ _
          (offsets-Same index1 _ _ (cached_offsets-IsRight cache index1 c)
            (cached_offsets-IsRight cache' index1 c'))
          (λ offsets1 d d' e e'.
            bind-Same _ _ _
              (offsets-Same index2 _ _ (cached_offsets-IsRight d index2 e)
                (cached_offsets-IsRight d' index2 e'))
              (λ offsets2 g g' f f'. (refl, f, f')))

    keep-Same :
        (r : Option (Bool × ℤ × Bool)) (cache cache' : Cache)
        → IsCoherent cache
        → IsCoherent cache'
        → Same (keep cache r) (keep cache' r)
    keep-Same none cache cache' c c' = tt
    keep-Same (some r) cache cache' c c' = (refl, c, c')

    unfailing_with-Same :
        (r : Option (Bool × ℤ)) (cache cache' : Cache)
        → IsCoherent cache
        → IsCoherent cache'
        → Same (unfailing_with cache r) (unfailing_with cache' r)
    unfailing_with-Same none cache cache' c c' = tt
    unfailing_with-Same (some r) cache cache' c c' = (refl, c, c')

    abbrev field : Comparison → Cache → ℕ → OrderBy → Option FieldOrder
    field = compare_field readers order_array index1 index2 (rows index1) (rows index2)

    compare_field-Same :
        (type : Comparison) (cache cache' : Cache) (i : ℕ) (order : OrderBy)
        → IsCoherent cache
        → IsCoherent cache'
        → Same (field type cache i order) (field type cache' i order)
    unfolding compare_field compare_records_by_str
    compare_field-Same (as_value type) cache cache' i order c c' =
        keep-Same
          (compare_value_from_records readers (rows index1) (rows index2) order type (pos 0)) cache
          cache' c c'
    compare_field-Same as_str cache cache' i order c c' =
        bind-Same _ _ (of_columns order.desc) (str_columns-Same cache cache' c c' i)
          (λ columns d d' e e'. unfailing_with-Same _ d d' e e')
    compare_field-Same (returns_1 failed) cache cache' i order c c' = (refl, c, c')

    abbrev loop : List OrderBy → ℕ → Bool → Cache → Option ((Bool × Bool × Bool) × Cache)
    loop = prior_loop readers order_array index1 index2 (rows index1) (rows index2)

    after_field-Same :
        (next : Bool → Cache → Option ((Bool × Bool × Bool) × Cache)) (failed : Bool)
        → ((failed : Bool) (cache cache' : Cache)
            → IsCoherent cache
            → IsCoherent cache'
            → Same (next failed cache) (next failed cache'))
        → (r : Bool × ℤ × Bool) (cache cache' : Cache) → IsCoherent cache
        → IsCoherent cache'
        → Same
            (after_field readers order_array index1 index2
              (rows index1)
              (rows index2)
              next
              failed
              (r, cache))
            (after_field readers order_array index1 index2
              (rows index1)
              (rows index2)
              next
              failed
              (r, cache'))
    unfolding after_field
    after_field-Same next failed k (true, result, failed') cache cache' c c' =
        k (failed || failed') cache cache' c c'
    after_field-Same next failed k (false, result, failed') cache cache' c c' = (refl, c, c')

    prior_loop-Same :
        (orders : List OrderBy) (i : ℕ) (failed : Bool) (cache cache' : Cache)
        → IsCoherent cache
        → IsCoherent cache'
        → Same (loop orders i failed cache) (loop orders i failed cache')
    unfolding prior_loop
    prior_loop-Same [] i failed cache cache' c c' = (refl, c, c')
    prior_loop-Same (order ∷ orders) i failed cache cache' c c' =
        bind-Same _ _ _ (compare_field-Same (comparison order.type) cache cache' i order c c')
          (after_field-Same _ failed (prior_loop-Same orders (suc i)))

    -- If field_offsets_cache has for every server nothing or the offsets of its next row, then for the
    -- next rows of two servers is_prior_to gives the same result, `is_record_equal` and failure with this
    -- cache as with an empty one, or fails an assertion with both, and the cache stays as said.
    pub is_prior_to-Same :
        (cache : Cache)
        → IsCoherent cache
        → Same
            (is_prior_to readers order_array index1 index2 (rows index1) (rows index2) cache)
            (is_prior_to readers order_array index1 index2 (rows index1) (rows index2) (λ _. 0))
    unfolding is_prior_to
    is_prior_to-Same cache c =
        prior_loop-Same order_array 0 false cache (λ _. 0) c (λ index. inl refl)

-- A server whose offsets are forgotten may go on to another row.
pub forget-IsCoherent :
    (readers : TimeReaders) (order_array : List OrderBy) (rows rows' : ℕ → List ℕ) (cache : Cache)
    (index : ℕ)
    → IsCoherent readers order_array rows cache
    → ((i : ℕ) → i ≢ index → rows' i ≡ rows i)
    → IsCoherent readers order_array rows' (cache_set cache index 0)
forget-IsCoherent readers order_array rows rows' cache index h same i =
    elim (Bool-cases (index == i)) [
      | inl hit ↦ rw hit (inl refl)
      | inr miss ↦ let ne : i ≢ index = λ e. absurd (ground arith) in rw (miss, same i ne) (h i)
    ]
