-- ===== src/Trie/Examples.antt =====
-- The theorems on src/xnet/xtree.h at an empty tree and a key of one byte.
use wenas.Base.{◌≡◌, refl, [], ◌∷◌, none, arith}
use wenas.Trie.{null, blank, nibbles, add, find}
use wenas.Trie.Adding.{is_node, Inserted, add-Inserted}
use wenas.Trie.Undoing.{at_null, at_node, Undone, del-add}

-- The key is the byte 0x2A.
key_parts : nibbles (0x2A ∷ []) ≡ 2 ∷ 10 ∷ []
unfolding nibbles
key_parts = refl

add-Inserted_example : Inserted (2 ∷ 10 ∷ []) 5 (blank 0) (add 2 (2 ∷ 10 ∷ []) 5 (blank 0))
add-Inserted_example = add-Inserted 2 2 (10 ∷ []) 5 (blank 0) is_node (omega arith)

del-add_example : Undone (2 ∷ 10 ∷ []) 5 (blank 0) (add 2 (2 ∷ 10 ∷ []) 5 (blank 0))
unfolding find
del-add_example =
    del-add 2 2 (10 ∷ []) 5 none 0 0 0 (λ i. null) (omega arith)
      (at_node (omega arith) (omega arith) (λ i. tt) (λ i. at_null)) (omega arith) refl
