-- ===== src/Json.antt =====
-- What `json.loads` gives: the values that arrive in requests and stand in sessions.
use community_overview.Base.{
  string_eq, ℕ, zero, suc, ◌^◌, String, Bool, true, false, not, Option, none, some, List, [], ◌∷◌,
  ◌==◌,
}
use community_overview.Base.Dict
use community_overview.Base.Dict.{Dict}

-- `negsuc n` is -(n + 1).
pub data ℤ : Type 0 where
  pos : ℕ → ℤ
  negsuc : ℕ → ℤ

-- A number is a multiple of 2^-1074, of which every finite double is one.
mutual
  pub data Json : Type 0 where
    null : Json
    boolean : Bool → Json
    number : ℤ → Json
    text : String → Json
    array : Items → Json
    object : Fields → Json

  pub data Items : Type 0 where
    nil : Items
    cons : Json → Items → Items

  pub data Fields : Type 0 where
    end : Fields
    field : String → Json → Fields → Fields

abbrev pub Object : Type 0
Object = Dict String Json

-- 1.0
pub one : ℤ
one = pos (2 ^ 1074)

unfoldable pub to_list : Items → List Json
to_list nil = []
to_list (cons x xs) = x ∷ to_list xs

unfoldable pub of_list : List Json → Items
of_list [] = nil
of_list (x ∷ xs) = cons x (of_list xs)

unfoldable pub to_object : Fields → Object
to_object end = []
to_object (field k v fs) = (k, v) ∷ to_object fs

unfoldable pub of_object : Object → Fields
of_object [] = end
of_object ((k, v) ∷ o) = field k v (of_object o)

-- `o.get(key)`, where a missing key reads as `None`.
unfoldable pub item : String → Object → Json
item key o = elim (Dict.get key o) [ none ↦ null | some v ↦ v ]

-- `isinstance(v, str)`, with the string.
unfoldable pub as_text : Json → Option String
as_text (text s) = some s
as_text _ = none

-- `isinstance(v, (int, float))`, with `float(v)`: a `bool` is an `int`.
unfoldable pub as_number : Json → Option ℤ
as_number (number n) = some n
as_number (boolean true) = some one
as_number (boolean false) = some (pos 0)
as_number _ = none

-- `isinstance(v, dict)`
unfoldable pub as_object : Json → Option Object
as_object (object fs) = some (to_object fs)
as_object _ = none

-- `isinstance(v, list) and all(isinstance(e, str) for e in v)`
unfoldable pub as_texts : List Json → Option (List String)
as_texts [] = some []
as_texts (text s ∷ xs) = elim (as_texts xs) [ none ↦ none | some rest ↦ some (s ∷ rest) ]
as_texts (_ ∷ xs) = none

unfoldable pub as_text_list : Json → Option (List String)
as_text_list (array xs) = as_texts (to_list xs)
as_text_list _ = none

unfoldable pub of_texts : List String → Items
of_texts [] = nil
of_texts (s ∷ ss) = cons (text s) (of_texts ss)

-- `bool(v)`
unfoldable pub is_truthy : Json → Bool
is_truthy null = false
is_truthy (boolean b) = b
is_truthy (number (pos zero)) = false
is_truthy (number (pos (suc n))) = true
is_truthy (number (negsuc n)) = true
is_truthy (text s) = not (s == "")
is_truthy (array nil) = false
is_truthy (array (cons x xs)) = true
is_truthy (object end) = false
is_truthy (object (field k v fs)) = true
