-- ===== src/Session/Ring/Newest.antt =====
-- What a bounded ring keeps of a sequence of ops: `deque(maxlen=...)` as
-- backend/core/session_store.py uses it.
use community_overview.Base.{
  ℕ, zero, suc, ◌-◌, ◌≤◌, min, ◌≡◌, refl, ap, List, [], ◌∷◌, ◌++◌, arith, length, length-append,
}
use mathlib.Core.List.{append_assoc}
use community_overview.Session.State.{drop, push_bounded}

module _ {A : Type 0} where
  -- The second list is the end of the first: all of it, or its last `m` elements.
  pub record IsNewest (m : ℕ) (all ring : List A) : Type 0 where
    pub older : List A
    pub split : older ++ ring ≡ all
    pub size : length ring ≡ min m (length all)

  pub all-IsNewest : (m : ℕ) (ring : List A) → length ring ≤ m → IsNewest m ring ring
  all-IsNewest m ring h = record { older = []; split = refl; size = omega arith }

  taken : ℕ → List A → List A
  taken zero xs = []
  taken (suc n) [] = []
  taken (suc n) (x ∷ xs) = x ∷ taken n xs

  taken-drop : (n : ℕ) (xs : List A) → taken n xs ++ drop n xs ≡ xs
  unfolding taken
  taken-drop zero xs = refl
  taken-drop (suc n) [] = refl
  taken-drop (suc n) (x ∷ xs) = ap (◌∷◌ x) (taken-drop n xs)

  length-drop : (n : ℕ) (xs : List A) → length (drop n xs) ≡ length xs - n
  length-drop zero xs = omega arith
  length-drop (suc n) [] = omega arith
  length-drop (suc n) (x ∷ xs) = omega (arith, length-drop n xs)

  -- A ring with the newest ops has the newest ones again when the next op is pushed onto it.
  pub push_bounded-IsNewest :
      (m : ℕ) (all ring : List A) (a : A)
      → IsNewest m all ring
      → IsNewest m (all ++ (a ∷ [])) (push_bounded m ring a)
  unfolding push_bounded
  push_bounded-IsNewest m all ring a r =
      let n = length (ring ++ (a ∷ [])) - m in
      record {
        older = r.older ++ taken n (ring ++ (a ∷ []));
        split = rw (append_assoc, taken-drop, ← append_assoc, r.split) refl;
        size = omega (
          arith,
          length-drop n (ring ++ (a ∷ [])),
          length-append ring (a ∷ []),
          length-append all (a ∷ []),
          r.size,
        );
      }
