-- ===== src/Proxy/Size.antt =====
-- `estimate_size` of src/proxy/cache.rs: the retained size of a parsed document, with a stack in
-- place of recursion. The fuel is the number of nodes of the document, one for each round.
pub mod Sound
use Prim.Native.String.{len}
use npmfilter.Prelude.{ℕ, zero, suc, ◌+◌, ◌*◌, String, List, [], ◌∷◌, length}
use npmfilter.Prelude.Word.{saturating_add}
use npmfilter.Json.{
  Value, Items, Fields, null, boolean, number, string, array, object, nil, cons, end, field,
  elements, entries,
}

-- `NODE`.
abbrev pub node_bytes : ℕ
node_bytes = 24

-- `stack.extend`, and one push after the other: the last that is pushed is the first that is popped.
abbrev pub push_all : List Value → List Value → List Value
push_all [] stack = stack
push_all (v ∷ vs) stack = push_all vs (v ∷ stack)

abbrev pub push_fields : List (String × Value) → List Value → List Value
push_fields [] stack = stack
push_fields ((k, v) ∷ m) stack = push_fields m (v ∷ stack)

abbrev pub add_keys : List (String × Value) → ℕ → ℕ
add_keys [] total = total
add_keys ((k, v) ∷ m) total = add_keys m (saturating_add total (len k + node_bytes + 8))

-- One round of the loop: what the node at the top adds, and the stack after it.
abbrev pub visit : Value → ℕ → ℕ
visit (string text) total = saturating_add total (len text)
visit (array vs) total = saturating_add total (length (elements vs) * 8)
visit (object fs) total = add_keys (entries fs) total
visit _ total = total

abbrev pub push_children : Value → List Value → List Value
push_children (array vs) stack = push_all (elements vs) stack
push_children (object fs) stack = push_fields (entries fs) stack
push_children _ stack = stack

unfoldable pub walk : ℕ → List Value → ℕ → ℕ
walk zero stack total = total
walk (suc fuel) [] total = total
walk (suc fuel) (value ∷ stack) total =
    walk fuel (push_children value stack) (visit value (saturating_add total node_bytes))

-- The number of nodes.
unfoldable mutual
  pub nodes : Value → ℕ
  nodes (array vs) = suc (nodes_items vs)
  nodes (object fs) = suc (nodes_fields fs)
  nodes null = 1
  nodes (boolean b) = 1
  nodes (number n) = 1
  nodes (string s) = 1

  pub nodes_items : Items → ℕ
  nodes_items nil = 0
  nodes_items (cons v vs) = nodes v + nodes_items vs

  pub nodes_fields : Fields → ℕ
  nodes_fields end = 0
  nodes_fields (field k v fs) = nodes v + nodes_fields fs

unfoldable pub estimate_size : Value → ℕ
unfolding walk nodes
estimate_size document = walk (nodes document) (document ∷ []) 0
