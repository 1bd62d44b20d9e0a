-- ===== src/Text.antt =====
-- Texts as Python's `str` methods treat them, and what can be gone through in a loop.
use Prim.Native.Char.{code}
use community_overview.Base.{
  String, ◌<>◌, Bool, true, false, ◌&&◌, ◌||◌, Option, none, some, List, [], ◌∷◌, ◌==◌, nat_eq,
}
use community_overview.Json.{Json, text, array, object, Fields, field, end, to_list, as_texts}

-- `s.startswith(k)`
unfoldable pub is_prefix : String → String → Bool
is_prefix String.[] s = true
is_prefix (String.◌∷◌ c k) String.[] = false
is_prefix (String.◌∷◌ c k) (String.◌∷◌ d s) = code c == code d && is_prefix k s

-- `k in s`
unfoldable pub is_infix : String → String → Bool
is_infix k String.[] = is_prefix k String.[]
is_infix k (String.◌∷◌ d s) = is_prefix k (String.◌∷◌ d s) || is_infix k s

-- `" ".join(parts)`
unfoldable pub join : List String → String
join [] = ""
join (s ∷ []) = s
join (s ∷ t ∷ ts) = s <> (" " <> join (t ∷ ts))

unfoldable pub characters : String → List String
characters String.[] = []
characters (String.◌∷◌ c s) = String.◌∷◌ c String.[] ∷ characters s

unfoldable pub keys : Fields → List String
keys end = []
keys (field k v fs) = k ∷ keys fs

-- The texts that a loop takes from a value: from a list of texts, a text, or a dict. Otherwise
-- `none`, for the exception that such a loop or its `join` raises.
unfoldable pub elements : Json → Option (List String)
elements (array xs) = as_texts (to_list xs)
elements (text s) = some (characters s)
elements (object fs) = some (keys fs)
elements _ = none
