-- ===== src/Json.antt =====
-- `serde_json::Value` and the accessors that the source calls. `serde_json` is built without
-- `preserve_order`, so an object is a map in the order of its keys (`Prelude/Tree.antt`). A number
-- is kept as its text: the source only asks whether a value is one, and prints it.
use npmfilter.Prelude.{String, Bool, List, [], ◌∷◌, Option, none, some, ◌≡◌, refl, ap, ◌>>=◌}
use npmfilter.Prelude.Tree

mutual
  pub data Value : Type 0 where
    null : Value
    boolean : Bool → Value
    number : String → Value
    string : String → Value
    array : Items → Value
    object : Fields → Value

  pub data Items : Type 0 where
    nil : Items
    cons : Value → Items → Items

  pub data Fields : Type 0 where
    end : Fields
    field : String → Value → Fields → Fields

-- The entries of an object as a list, and back.
abbrev pub entries : Fields → List (String × Value)
entries end = []
entries (field k v fs) = (k, v) ∷ entries fs

abbrev pub fields : List (String × Value) → Fields
fields [] = end
fields ((k, v) ∷ m) = field k v (fields m)

abbrev pub elements : Items → List Value
elements nil = []
elements (cons v vs) = v ∷ elements vs

abbrev pub items : List Value → Items
items [] = nil
items (v ∷ vs) = cons v (items vs)

pub entries-fields : (m : List (String × Value)) → entries (fields m) ≡ m
entries-fields [] = refl
entries-fields ((k, v) ∷ m) = ap (◌∷◌ (k, v)) (entries-fields m)

-- `Value::Object`.
abbrev pub of_map : List (String × Value) → Value
of_map m = object (fields m)

abbrev pub as_object : Value → Option (List (String × Value))
as_object (object fs) = some (entries fs)
as_object _ = none

abbrev pub as_str : Value → Option String
as_str (string s) = some s
as_str _ = none

abbrev pub as_bool : Value → Option Bool
as_bool (boolean b) = some b
as_bool _ = none

-- `Value::get` by a key: `None` on anything but an object.
abbrev pub get : String → Value → Option Value
get k v = as_object v >>= Tree.get k

pub as_object-of_map : (m : List (String × Value)) → as_object (of_map m) ≡ some m
as_object-of_map m = ap some (entries-fields m)

pub get-of_map : (k : String) (m : List (String × Value)) → get k (of_map m) ≡ Tree.get k m
get-of_map k m = ap (Tree.get k) (entries-fields m)
