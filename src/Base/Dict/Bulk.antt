-- ===== src/Base/Dict/Bulk.antt =====
-- Deletions in a loop over keys that a comprehension has collected.
use community_overview.Base.{
  ◌≡◌, refl, Bool, false, Option, none, some, List, [], ◌∷◌, arith, Eq, contains, if◌then◌else◌,
}
use community_overview.Base.Distinct.{Distinct}
use community_overview.Base.Dict.{Dict, get, remove, NodupKeys, get-remove, remove-NodupKeys}

-- The value, unless it meets the test.
abbrev pub unless {κ} : {V : Type κ} → (V → Bool) → Option V → Option V
unless p none = none
unless p (some v) = if p v then none else some v

abbrev pub holds {κ} : {V : Type κ} → (V → Bool) → Option V → Bool
holds p none = false
holds p (some v) = p v

pub unless-some {κ} :
    {V : Type κ} (p : V → Bool) (o : Option V) (v : V)
    → unless p o ≡ some v
    → (o ≡ some v) × (p v ≡ false)
unless-some p none v h = ground (arith, h)
unless-some p (some w) v h = ground (arith, h)

module _ {ℓ κ} {K : Type ℓ} {V : Type κ} where
  -- `[k for k, v in d.items() if p(k, v)]`
  abbrev pub keys_where : (V → Bool) → Dict K V → List K
  keys_where p [] = []
  keys_where p ((k, v) ∷ d) = let rest = keys_where p d in if p v then k ∷ rest else rest

module _ {ℓ κ} {K : Type ℓ} {V : Type κ} ⦃e : Eq K⦄ where
  -- `for k in ks: del d[k]`
  unfoldable pub remove_all : List K → Dict K V → Dict K V
  remove_all [] d = d
  remove_all (k ∷ ks) d = remove_all ks (remove k d)

  pub get-remove_all :
      (j : K) (ks : List K) (d : Dict K V)
      → get j (remove_all ks d) ≡ (if contains ks j then none else get j d)
  unfolding remove_all
  get-remove_all j [] d = refl
  get-remove_all j (k ∷ ks) d = ground (arith, get-remove_all j ks (remove k d), get-remove j k d)

  pub remove_all-NodupKeys :
      (ks : List K) (d : Dict K V) → NodupKeys d → NodupKeys (remove_all ks d)
  unfolding remove_all
  remove_all-NodupKeys [] d h = h
  remove_all-NodupKeys (k ∷ ks) d h = remove_all-NodupKeys ks (remove k d) (remove-NodupKeys k d h)

  pub contains-keys_where :
      (p : V → Bool) (k : K) (d : Dict K V)
      → NodupKeys d
      → contains (keys_where p d) k ≡ holds p (get k d)
  unfolding get
  contains-keys_where p k [] h = refl
  contains-keys_where p k ((j, v) ∷ d) h = ground (arith, contains-keys_where p k d h.1)

  pub keys_where-Distinct : (p : V → Bool) (d : Dict K V) → NodupKeys d → Distinct (keys_where p d)
  keys_where-Distinct p [] h = tt
  keys_where-Distinct p ((k, v) ∷ d) h =
      ground (arith, contains-keys_where p k d h.1, h.0, keys_where-Distinct p d h.1)

  -- The loop drops exactly the entries that meet the test.
  pub get-drop_where :
      (p : V → Bool) (k : K) (d : Dict K V)
      → NodupKeys d
      → get k (remove_all (keys_where p d) d) ≡ unless p (get k d)
  get-drop_where p k d h =
      ground (arith, get-remove_all k (keys_where p d) d, contains-keys_where p k d h)
