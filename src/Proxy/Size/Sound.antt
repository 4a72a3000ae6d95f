-- ===== src/Proxy/Size/Sound.antt =====
-- `estimate_size` of src/proxy/cache.rs against the size by recursion.
use Prim.Native.String.{len}
use npmfilter.Prelude.{ℕ, zero, suc, ◌+◌, ◌*◌, ◌≤◌, min, String, List, [], ◌∷◌, length, ◌≡◌, arith}
use npmfilter.Prelude.Word.{u64_max, saturating_add, saturating_add_capped}
use npmfilter.Json.{
  Value, Items, Fields, null, boolean, number, string, array, object, nil, cons, end, field,
  elements, entries,
}
use npmfilter.Proxy.Size.{
  push_all, push_fields, add_keys, visit, push_children, walk, nodes, nodes_items, nodes_fields,
  estimate_size,
}

-- The size without a bound: 24 bytes for each node, the bytes of each text, 8 for each element of an
-- array, and the bytes of the key and 32 for each field.
unfoldable mutual
  pub size : Value → ℕ
  size null = 24
  size (boolean b) = 24
  size (number n) = 24
  size (string s) = 24 + len s
  size (array vs) = 24 + size_items vs
  size (object fs) = 24 + size_fields fs

  pub size_items : Items → ℕ
  size_items nil = 0
  size_items (cons v vs) = 8 + size v + size_items vs

  pub size_fields : Fields → ℕ
  size_fields end = 0
  size_fields (field k v fs) = len k + 32 + size v + size_fields fs

nodes_all : List Value → ℕ
nodes_all [] = 0
nodes_all (v ∷ vs) = nodes v + nodes_all vs

size_all : List Value → ℕ
size_all [] = 0
size_all (v ∷ vs) = size v + size_all vs

values_size : Items → ℕ
values_size nil = 0
values_size (cons v vs) = size v + values_size vs

nodes-push_all :
    (vs : Items) (stack : List Value)
    → nodes_all (push_all (elements vs) stack) ≡ nodes_items vs + nodes_all stack
unfolding nodes nodes_all
nodes-push_all nil stack = omega arith
nodes-push_all (cons v vs) stack = omega (arith, nodes-push_all vs (v ∷ stack))

nodes-push_fields :
    (fs : Fields) (stack : List Value)
    → nodes_all (push_fields (entries fs) stack) ≡ nodes_fields fs + nodes_all stack
unfolding nodes nodes_all
nodes-push_fields end stack = omega arith
nodes-push_fields (field k v fs) stack = omega (arith, nodes-push_fields fs (v ∷ stack))

size-push_all :
    (vs : Items) (stack : List Value)
    → size_all (push_all (elements vs) stack) + length (elements vs) * 8
      ≡ size_items vs + size_all stack
unfolding size size_all
size-push_all nil stack = omega arith
size-push_all (cons v vs) stack = omega (arith, size-push_all vs (v ∷ stack))

keys_size : List (String × Value) → ℕ
keys_size [] = 0
keys_size ((k, v) ∷ m) = len k + 32 + keys_size m

size-push_fields :
    (fs : Fields) (stack : List Value)
    → size_all (push_fields (entries fs) stack) + keys_size (entries fs)
      ≡ size_fields fs + size_all stack
unfolding size size_all keys_size
size-push_fields end stack = omega arith
size-push_fields (field k v fs) stack = omega (arith, size-push_fields fs (v ∷ stack))

add_keys_capped :
    (m : List (String × Value)) (total n : ℕ)
    → total ≡ min n u64_max
    → add_keys m total ≡ min (n + keys_size m) u64_max
unfolding keys_size
add_keys_capped [] total n h = omega arith
add_keys_capped ((k, v) ∷ m) total n h = omega (
  arith,
  add_keys_capped m (saturating_add total (len k + 24 + 8)) (n + (len k + 24 + 8))
      (saturating_add_capped total (len k + 24 + 8) n h),
)

nodes_pos : (v : Value) → 1 ≤ nodes v
unfolding nodes
nodes_pos null = omega arith
nodes_pos (boolean b) = omega arith
nodes_pos (number b) = omega arith
nodes_pos (string b) = omega arith
nodes_pos (array b) = omega arith
nodes_pos (object b) = omega arith

-- What a node adds besides its own bytes.
added : Value → ℕ
added (string text) = len text
added (array vs) = length (elements vs) * 8
added (object fs) = keys_size (entries fs)
added _ = 0

visit_lem :
    (v : Value) (total n : ℕ) → total ≡ min n u64_max → visit v total ≡ min (n + added v) u64_max
unfolding added
visit_lem null total n h = omega arith
visit_lem (boolean b) total n h = omega arith
visit_lem (number b) total n h = omega arith
visit_lem (string text) total n h = saturating_add_capped total (len text) n h
visit_lem (array vs) total n h = saturating_add_capped total (length (elements vs) * 8) n h
visit_lem (object fs) total n h = add_keys_capped (entries fs) total n h

pushed :
    (v : Value) (stack : List Value)
    → (1 + nodes_all (push_children v stack) ≡ nodes v + nodes_all stack)
      × (24 + added v + size_all (push_children v stack) ≡ size v + size_all stack)
unfolding nodes size added
pushed null stack = (omega arith, omega arith)
pushed (boolean b) stack = (omega arith, omega arith)
pushed (number b) stack = (omega arith, omega arith)
pushed (string text) stack = (omega arith, omega arith)
pushed (array vs) stack =
    (omega (arith, nodes-push_all vs stack), omega (arith, size-push_all vs stack))
pushed (object fs) stack =
    (omega (arith, nodes-push_fields fs stack), omega (arith, size-push_fields fs stack))

-- With a round for each node that is on the stack or below it, the loop adds up all their sizes.
walk_lem :
    (fuel : ℕ) (stack : List Value) (total n : ℕ)
    → nodes_all stack ≤ fuel
    → total ≡ min n u64_max
    → walk fuel stack total ≡ min (n + size_all stack) u64_max
unfolding walk nodes_all size_all
walk_lem zero [] total n h e = omega arith
walk_lem zero (v ∷ stack) total n h e = omega (arith, nodes_pos v)
walk_lem (suc fuel) [] total n h e = omega arith
walk_lem (suc fuel) (v ∷ stack) total n h e =
    let p = pushed v stack in
    omega (
      arith,
      p.0,
      p.1,
      walk_lem fuel (push_children v stack) (visit v (saturating_add total 24)) (n + 24 + added v)
          (omega (arith, p.0))
          (visit_lem v (saturating_add total 24) (n + 24) (saturating_add_capped total 24 n e)),
    )

-- The estimate is the size by recursion, held at `usize::MAX`.
pub estimate_size_lem : (v : Value) → estimate_size v ≡ min (size v) u64_max
unfolding estimate_size nodes_all size_all
estimate_size_lem v = omega (arith, walk_lem (nodes v) (v ∷ []) 0 0 (omega arith) (omega arith))
