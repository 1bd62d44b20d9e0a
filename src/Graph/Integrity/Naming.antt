-- ===== src/Graph/Integrity/Naming.antt =====
-- The names by which `add_nodes` and `add_edge` find the ends of edges are names of nodes.
use community_overview.Base.{String, ◌≡◌, true, none, some, [], ◌∷◌, arith, string_eq}
use community_overview.Base.Dict
use community_overview.Base.Dict.{Dict, get-put}
use community_overview.Json.{Json, null, boolean, number, text, array, object}
use community_overview.Graph.Models.{Node}
use community_overview.Graph.Storage.{has_key}
use community_overview.Graph.Insertion.{name_to_id, resolve}

-- Every id that a name stands for is the id of a node.
abbrev pub IsNaming : Dict String String → Dict String Node → Type 0
IsNaming names nodes = (s id : String) → Dict.get s names ≡ some id → has_key id nodes ≡ true

pub IsNaming-put :
    (names : Dict String String) (nodes : Dict String Node) (s id : String)
    → IsNaming names nodes
    → has_key id nodes ≡ true
    → IsNaming (Dict.put s id names) nodes
IsNaming-put names nodes s id h k t j g = ground (arith, get-put t s id names, k, h t j, g)

pub name_to_id-IsNaming :
    (ns all : Dict String Node) (names out : Dict String String)
    → ((id : String) → has_key id ns ≡ true → has_key id all ≡ true)
    → IsNaming names all
    → name_to_id ns names ≡ some out
    → IsNaming out all
unfolding name_to_id Dict.get
name_to_id-IsNaming [] all names out sub h e = ground (arith, e, h)
name_to_id-IsNaming ((k, n) ∷ ns) all names out sub h e =
    named n.name (λ names' h' g. name_to_id-IsNaming ns all names' out later h' g) e
  where
    later : (id : String) → has_key id ns ≡ true → has_key id all ≡ true
    later id g = sub id (ground (arith, g))

    first : has_key k all ≡ true
    first = sub k (ground arith)

    Later : Type 0
    Later =
        (names' : Dict String String)
        → IsNaming names' all
        → name_to_id ns names' ≡ some out
        → IsNaming out all

    named :
        (v : Json)
        → Later
        → (elim v [
          | text s ↦ name_to_id ns (Dict.put s k names)
          | array xs ↦ none
          | object fs ↦ none
          | _ ↦ name_to_id ns names
        ])
          ≡ some out
        → IsNaming out all
    named (text s) go g = go (Dict.put s k names) (IsNaming-put names all s k h first) g
    named (array xs) go g = cc g
    named (object fs) go g = cc g
    named null go g = go names h g
    named (boolean b) go g = go names h g
    named (number z) go g = go names h g

pub names-IsNaming :
    (nodes : Dict String Node) (names : Dict String String)
    → name_to_id nodes [] ≡ some names
    → IsNaming names nodes
unfolding Dict.get
names-IsNaming nodes names e =
    name_to_id-IsNaming nodes nodes [] names (λ id h. h) (λ s id h. cc h) e

pub resolve-has_key :
    (nodes : Dict String Node) (names : Dict String String) (s t : String)
    → IsNaming names nodes
    → resolve nodes names s ≡ some t
    → has_key t nodes ≡ true
unfolding resolve
resolve-has_key nodes names s t h e = ground (arith, e, h s t)
