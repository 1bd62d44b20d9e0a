-- ===== src/Session/Ids.antt =====
-- `SESSION_ID_RE` and `is_valid_session_id` of backend/core/session_store.py. Which characters `\d`
-- matches is the regular expression library's knowledge, an argument here.
use Prim.Native.Char.{code}
use community_overview.Base.{
  ℕ, ◌≡◌, ◌⊎◌, inl, inr, String, Bool, true, false, ◌&&◌, ◌||◌, List, [], ◌∷◌, arith, ◌==◌, nat_eq,
  All, Bool-cases,
}

-- The code points of a text.
unfoldable pub codes : String → List ℕ
codes String.[] = []
codes (String.◌∷◌ c s) = code c ∷ codes s

module _ (is_digit : ℕ → Bool) where
  -- `\d{4}` and then the rest of the pattern.
  unfoldable pub four_digits : (List ℕ → Bool) → List ℕ → Bool
  four_digits rest (a ∷ b ∷ c ∷ d ∷ s) =
      is_digit a && (is_digit b && (is_digit c && (is_digit d && rest s)))
  four_digits rest _ = false

  unfoldable pub dash : (List ℕ → Bool) → List ℕ → Bool
  dash rest [] = false
  dash rest (c ∷ s) = c == b'-' && rest s

  -- `$` matches at the end, and before a newline at the end.
  unfoldable pub at_end : List ℕ → Bool
  at_end [] = true
  at_end (c ∷ []) = c == 10
  at_end (c ∷ d ∷ s) = false

  -- `(?:-\d{4}-\d{4})?$`
  unfoldable pub tail_groups : List ℕ → Bool
  tail_groups s = at_end s || dash (four_digits (dash (four_digits at_end))) s

  -- `^\d{4}-\d{4}(?:-\d{4}-\d{4})?$`
  unfoldable pub matches : List ℕ → Bool
  matches = four_digits (dash (four_digits tail_groups))

  unfoldable pub is_valid_session_id : String → Bool
  is_valid_session_id s = matches (codes s)

  -- What a session id can hold: digits, dashes, and a newline.
  abbrev pub IsPlain : ℕ → Type 0
  IsPlain c = (is_digit c ≡ true) ⊎ (c ≡ b'-') ⊎ (c ≡ 10)

  -- A pattern whose matches hold nothing else.
  abbrev Plain : (List ℕ → Bool) → Type 0
  Plain p = (s : List ℕ) → p s ≡ true → All IsPlain s

  four_digits-Plain : (rest : List ℕ → Bool) → Plain rest → Plain (four_digits rest)
  unfolding four_digits
  four_digits-Plain rest h (a ∷ b ∷ c ∷ d ∷ s) e = (
    inl (ground arith),
    (inl (ground arith), (inl (ground arith), (inl (ground arith), h s (ground arith)))),
  )
  four_digits-Plain rest h _ e = cc

  dash-Plain : (rest : List ℕ → Bool) → Plain rest → Plain (dash rest)
  unfolding dash
  dash-Plain rest h [] e = cc
  dash-Plain rest h (c ∷ s) e = (inr (inl (ground arith)), h s (ground arith))

  at_end-Plain : Plain at_end
  unfolding at_end
  at_end-Plain [] e = tt
  at_end-Plain (c ∷ []) e = (inr (inr (ground arith)), tt)
  at_end-Plain (c ∷ d ∷ s) e = cc

  tail_groups-Plain : Plain tail_groups
  unfolding tail_groups
  tail_groups-Plain s e = elim (Bool-cases (at_end s)) [
    | inl here ↦ at_end-Plain s here
    | inr there ↦
        dash-Plain _ (four_digits-Plain _ (dash-Plain _ (four_digits-Plain at_end at_end-Plain))) s
          (ground arith)
  ]

  -- A valid session id holds digits, dashes and newlines, and no other character.
  pub is_valid_session_id-IsPlain :
      (s : String) → is_valid_session_id s ≡ true → All IsPlain (codes s)
  unfolding is_valid_session_id matches
  is_valid_session_id-IsPlain s e =
      four_digits-Plain _ (dash-Plain _ (four_digits-Plain tail_groups tail_groups-Plain)) (codes s)
        e
