-- ===== src/Base/Dict/Nested.antt =====
-- Dicts of containers, where a missing container reads as an empty one and an empty one is popped.
use community_overview.Base.{
  ◌≡◌, Option, none, some, List, [], ◌∷◌, arith, Eq, ◌==◌, is_empty, if◌then◌else◌,
}
use community_overview.Base.Dict.{Dict, get, put, remove, get-put, get-remove}

-- `o.get(k, {})`
abbrev pub or_empty {ℓ} : {A : Type ℓ} → Option (List A) → List A
or_empty none = []
or_empty (some xs) = xs

module _ {ℓ κ} {K : Type ℓ} {A : Type κ} ⦃e : Eq K⦄ where
  unfoldable pub inner : K → Dict K (List A) → List A
  inner k o = or_empty (get k o)

  -- What is left of an inner container: it stands in the outer dict, or is popped.
  unfoldable pub store_or_pop : K → List A → Dict K (List A) → Dict K (List A)
  store_or_pop k xs o = if is_empty xs then remove k o else put k xs o

  pub inner-put :
      (j k : K) (xs : List A) (o : Dict K (List A))
      → inner j (put k xs o) ≡ (if j == k then xs else inner j o)
  unfolding inner
  inner-put j k xs o = ground (arith, get-put j k xs o)

  pub inner-remove :
      (j k : K) (o : Dict K (List A)) → inner j (remove k o) ≡ (if j == k then [] else inner j o)
  unfolding inner
  inner-remove j k o = ground (arith, get-remove j k o)

  pub inner-store_or_pop :
      (j k : K) (xs : List A) (o : Dict K (List A))
      → inner j (store_or_pop k xs o) ≡ (if j == k then xs else inner j o)
  unfolding store_or_pop
  inner-store_or_pop j k [] o = inner-remove j k o
  inner-store_or_pop j k (x ∷ xs) o = inner-put j k (x ∷ xs) o
