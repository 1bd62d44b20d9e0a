-- ===== src/Graph/Integrity/Membership.antt =====
-- What stands in lists that comprehensions over dicts make.
use community_overview.Base.{
  ℕ, String, ◌≡◌, refl, ap, sym, ◌∙◌, ◌↔◌, Bool, true, Bool-cases, some, Option-cases, inl, inr,
  List, [], ◌∷◌, arith, ◌==◌, string_eq, nat_eq, keep,
}
use mathlib.Core.List.{Memᴰ}
use mathlib.Core.List.Memᴰ
use community_overview.Base.Dict
use community_overview.Base.Dict.{Dict, NodupKeys}
use community_overview.Graph.Models.{Edge}
use community_overview.Graph.Storage.{deref}

-- A value of a dict stands under a key.
module _ {ℓ} {V : Type ℓ} where
  pub values-get :
      (v : V) (d : Dict String V)
      → NodupKeys d
      → Memᴰ v (Dict.values d)
      → (k : String) × (Dict.get k d ≡ some v)
  unfolding Dict.get
  values-get v [] h m = elim m [ ]
  values-get v ((j, w) ∷ d) h (Memᴰ.head e) = (j, ground (arith, e))
  values-get v ((j, w) ∷ d) h (Memᴰ.tail m) =
      let (k, at) = values-get v d h.1 m in (k, ground (arith, at, h.0))

  pub get-values :
      (v : V) (k : String) (d : Dict String V) → Dict.get k d ≡ some v → Memᴰ v (Dict.values d)
  unfolding Dict.get
  get-values v k [] h = cc h
  get-values v k ((j, w) ∷ d) h = elim (Bool-cases (k == j)) [
    | inl same ↦ Memᴰ.head (ground (arith, h, same))
    | inr other ↦ Memᴰ.tail (get-values v k d (ground (arith, h, other)))
  ]

  pub Memᴰ-keep :
      (p : V → Bool) (v : V) (vs : List V) → Memᴰ v (keep p vs) ↔ (Memᴰ v vs × (p v ≡ true))
  Memᴰ-keep p v [] = (λ m. absurd (Memᴰ.not-nil m), λ w. absurd (Memᴰ.not-nil w.0))
  Memᴰ-keep p v (w ∷ vs) =
      let (to, from) = Memᴰ-keep p v vs in
      elim (Bool-cases (p w)) [
        | inl t ↦ rw t (
          λ m. elim (Memᴰ.cases_cons m) [
            | inl e ↦ (Memᴰ.head e, ap p e ∙ t)
            | inr n ↦ (Memᴰ.tail (to n).0, (to n).1)
          ],
          λ c. elim (Memᴰ.cases_cons c.0) [
            | inl e ↦ Memᴰ.head e
            | inr n ↦ Memᴰ.tail (from (n, c.1))
          ],
        )
        | inr t ↦ rw t (
          λ m. (Memᴰ.tail (to m).0, (to m).1),
          λ c. elim (Memᴰ.cases_cons c.0) [
            | inl e ↦ ground (arith, ap p e, t, c.1)
            | inr n ↦ from (n, c.1)
          ],
        )
      ]

pub deref-get :
    (os : Dict ℕ Edge) (e : Edge) (rs : List ℕ)
    → Memᴰ e (deref os rs)
    → (r : ℕ) × Memᴰ r rs × (Dict.get r os ≡ some e)
unfolding deref
deref-get os e [] m = elim m [ ]
deref-get os e (q ∷ rs) m = elim (Option-cases (Dict.get q os)) [
  | inl z ↦ let (r, at, h) = deref-get os e rs (rw (deref, z) at m) in (r, Memᴰ.tail at, h)
  | inr (f, z) ↦ elim (Memᴰ.cases_cons (rw (deref, z) at m)) [
    | inl same ↦ (q, Memᴰ.head refl, z ∙ ap some (sym same))
    | inr later ↦ let (r, at, h) = deref-get os e rs later in (r, Memᴰ.tail at, h)
  ]
]

pub get-deref :
    (os : Dict ℕ Edge) (e : Edge) (r : ℕ) (rs : List ℕ)
    → Memᴰ r rs
    → Dict.get r os ≡ some e
    → Memᴰ e (deref os rs)
unfolding deref
get-deref os e r [] m h = elim m [ ]
get-deref os e r (q ∷ rs) (Memᴰ.head same) h = rw (deref, sym same, h) (Memᴰ.head refl)
get-deref os e r (q ∷ rs) (Memᴰ.tail m) h = elim (Option-cases (Dict.get q os)) [
  | inl z ↦ rw (deref, z) (get-deref os e r rs m h)
  | inr (f, z) ↦ rw (deref, z) (Memᴰ.tail (get-deref os e r rs m h))
]
