-- ===== src/Base/Distinct.antt =====
-- Lists that hold each element once, and lists contained in others.
use community_overview.Base.{
  ◌+◌, ◌≤◌, ◌≡◌, ◌≢◌, refl, Bool, true, false, ◌&&◌, List, [], ◌∷◌, ◌++◌, arith, Eq, ◌==◌, contains,
  contains-append, keep, length, if◌then◌else◌,
}

module _ {ℓ} {A : Type ℓ} ⦃e : Eq A⦄ where
  abbrev pub Distinct : List A → Type 0
  Distinct [] = Unit
  Distinct (x ∷ xs) = (contains xs x ≡ false) × Distinct xs

  abbrev pub AllIn : List A → List A → Type 0
  AllIn [] ys = Unit
  AllIn (x ∷ xs) ys = (contains ys x ≡ true) × AllIn xs ys

  pub contains-keep :
      (p : A → Bool) (a : A) (xs : List A) → contains (keep p xs) a ≡ (contains xs a && p a)
  contains-keep p a [] = refl
  contains-keep p a (x ∷ xs) = ground (arith, contains-keep p a xs)

  pub keep-Distinct : (p : A → Bool) (xs : List A) → Distinct xs → Distinct (keep p xs)
  keep-Distinct p [] h = tt
  keep-Distinct p (x ∷ xs) h = ground (arith, contains-keep p x xs, keep-Distinct p xs h.1)

  pub append_new-Distinct :
      (xs : List A) (a : A) → Distinct xs → contains xs a ≡ false → Distinct (xs ++ (a ∷ []))
  append_new-Distinct [] a h n = (refl, tt)
  append_new-Distinct (x ∷ xs) a h n =
      ground (arith, contains-append x xs (a ∷ []), append_new-Distinct xs a h.1)

  -- The list without one occurrence of an element.
  erase_one : A → List A → List A
  erase_one x [] = []
  erase_one x (y ∷ ys) = if x == y then ys else y ∷ erase_one x ys

  length-erase_one :
      (x : A) (ys : List A) → contains ys x ≡ true → length (erase_one x ys) + 1 ≡ length ys
  unfolding erase_one
  length-erase_one x [] h = cc
  length-erase_one x (y ∷ ys) h = ground (arith, length-erase_one x ys)

  contains-erase_one :
      (x y : A) (ys : List A) → x ≢ y → contains ys y ≡ true → contains (erase_one x ys) y ≡ true
  unfolding erase_one
  contains-erase_one x y [] n h = h
  contains-erase_one x y (z ∷ ys) n h = ground (arith, contains-erase_one x y ys n)

  AllIn-erase_one :
      (x : A) (xs ys : List A) → contains xs x ≡ false → AllIn xs ys → AllIn xs (erase_one x ys)
  AllIn-erase_one x [] ys n h = tt
  AllIn-erase_one x (z ∷ xs) ys n h =
      ground (arith, contains-erase_one x z ys, AllIn-erase_one x xs ys)

  -- Distinct elements that all stand in a list are no more than its length.
  pub pigeonhole : (xs ys : List A) → Distinct xs → AllIn xs ys → length xs ≤ length ys
  pigeonhole [] ys d h = omega arith
  pigeonhole (x ∷ xs) ys d h =
      let ih = pigeonhole xs (erase_one x ys) d.1 (AllIn-erase_one x xs ys d.0 h.1) in
      omega (arith, ih, length-erase_one x ys h.0)
