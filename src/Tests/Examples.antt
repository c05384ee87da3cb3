-- ===== src/Tests/Examples.antt =====
-- A JSON library and services, concrete ones, that the examples run on.
use langgraph_cpp.Prelude.{
  ℕ, String, ◌≡◌, refl, ap, Bool, List, [], ◌∷◌, Result, ok, fail, invalid_argument,
}
use langgraph_cpp.Prelude.Map.{Map}
use langgraph_cpp.Json.{JsonLib, View, null, boolean, unsigned, text, array, object, other}
use langgraph_cpp.State.{Services}

mutual
  pub data Tree : Type 0 where
    t_null : Tree
    t_boolean : Bool → Tree
    t_unsigned : ℕ → Tree
    t_text : String → Tree
    t_array : Trees → Tree
    t_object : Members → Tree
    t_other : ℕ → Tree

  pub data Trees : Type 0 where
    no_trees : Trees
    a_tree : Tree → Trees → Trees

  pub data Members : Type 0 where
    no_members : Members
    a_member : String → Tree → Members → Members

abbrev list_of : Trees → List Tree
list_of no_trees = []
list_of (a_tree t ts) = t ∷ list_of ts

abbrev trees_of : List Tree → Trees
trees_of [] = no_trees
trees_of (t ∷ ts) = a_tree t (trees_of ts)

abbrev map_of : Members → Map String Tree
map_of no_members = []
map_of (a_member k t ms) = (k, t) ∷ map_of ms

abbrev members_of : Map String Tree → Members
members_of [] = no_members
members_of ((k, t) ∷ ms) = a_member k t (members_of ms)

list_of-trees_of : (ts : List Tree) → list_of (trees_of ts) ≡ ts
list_of-trees_of [] = refl
list_of-trees_of (t ∷ ts) = ap (λ us. t ∷ us) (list_of-trees_of ts)

map_of-members_of : (ms : Map String Tree) → map_of (members_of ms) ≡ ms
map_of-members_of [] = refl
map_of-members_of ((k, t) ∷ ms) = ap (λ ns. (k, t) ∷ ns) (map_of-members_of ms)

abbrev view_tree : Tree → View Tree ℕ
view_tree t_null = null
view_tree (t_boolean b) = boolean b
view_tree (t_unsigned n) = unsigned n
view_tree (t_text s) = text s
view_tree (t_array ts) = array (list_of ts)
view_tree (t_object ms) = object (map_of ms)
view_tree (t_other n) = other n

abbrev make_tree : View Tree ℕ → Tree
make_tree null = t_null
make_tree (boolean b) = t_boolean b
make_tree (unsigned n) = t_unsigned n
make_tree (text s) = t_text s
make_tree (array ts) = t_array (trees_of ts)
make_tree (object ms) = t_object (members_of ms)
make_tree (other n) = t_other n

pub view_tree-make_tree : (v : View Tree ℕ) → view_tree (make_tree v) ≡ v
view_tree-make_tree null = refl
view_tree-make_tree (boolean b) = refl
view_tree-make_tree (unsigned n) = refl
view_tree-make_tree (text s) = refl
view_tree-make_tree (array ts) = ap array (list_of-trees_of ts)
view_tree-make_tree (object ms) = ap object (map_of-members_of ms)
view_tree-make_tree (other n) = refl

instance abbrev pub tree_json : JsonLib
tree_json = record {
  Value = Tree;
  Other = ℕ;
  view = view_tree;
  make = make_tree;
  view-make = view_tree-make_tree;
}

-- A message is its id.
abbrev message_of : Tree → Result String
message_of (t_text s) = ok s
message_of _ = fail invalid_argument "not a message"

abbrev texts_of : List String → Trees
texts_of [] = no_trees
texts_of (s ∷ ss) = a_tree (t_text s) (texts_of ss)

instance abbrev pub plain_services : Services
plain_services = record {
  check_limits = λ what j. ok tt;
  Message = String;
  message_id = λ s. s;
  message_from_json = message_of;
  messages_from_json = λ j. ok [];
  messages_to_json = λ ms. t_array (texts_of ms);
  Schema = Unit {0};
  check_schema = λ j s. ok tt;
}
