-- ===== src/Tests/Trees.antt =====
-- The tree of red_black_tree.c at small trees.
use band_width_limiter.Base.{ℕ, ◌≡◌, refl, Option, none, some, [], ◌∷◌, ◌++◌, arith}
use band_width_limiter.Tree.Order.{port_ord, uint32_comp}
use band_width_limiter.Tree.Shape.{
  red, black, Tree, leaf, node, left_of, Pointer, whole, plug, frame, inorder, around, map_tree,
  map_frame,
}
use band_width_limiter.Base.{false}
use band_width_limiter.Tree.Traverse.{traverse}
use band_width_limiter.Tree.Traverse.Laws.{flagged, traverse-inorder}
use band_width_limiter.Tree.Sorted.{IsSorted, place}
use band_width_limiter.Tree.Balance.{IsRedBlack, nil, red_node, black_node}
use band_width_limiter.Tree.Query.{rb_exact_query, query_from, tree_successor}
use band_width_limiter.Tree.Query.Neighbour.{tree_successor-IsNext, IsNext, after_entry}
use band_width_limiter.Tree.Insert.{rb_tree_insert}
use band_width_limiter.Tree.Insert.Content.{inorder-rb_tree_insert}
use band_width_limiter.Tree.Insert.Balance.{rb_tree_insert-IsRedBlack}
use band_width_limiter.Tree.Delete.{rb_delete}
use band_width_limiter.Tree.Delete.Content.{inorder-rb_delete}
use band_width_limiter.Tree.Delete.Balance.{rb_delete-IsRedBlack}
use band_width_limiter.Tree.Table.Keys.{update}
use band_width_limiter.Tree.Table.Laws.{IsTable, find, find-insert, find-delete}

abbrev Ports : Type 0
Ports = Tree (ℕ × ℕ)

-- 80 above 22 and 443, of which 22 is red.
abbrev ports : Ports
ports = node black (node red leaf (22, 1) leaf) (80, 2) (node red leaf (443, 3) leaf)

-- The pointer to 22.
abbrev ssh : Pointer (ℕ × ℕ)
ssh = record {
  color = red;
  left = leaf;
  entry = (22, 1);
  right = leaf;
  above = left_of black (80, 2) (node red leaf (443, 3) leaf) ∷ [];
}

abbrev without_ssh : Ports
without_ssh = node black leaf (80, 2) (node red leaf (443, 3) leaf)

-- The red node 8080 goes below 443, and the three are painted.
abbrev with_proxy : Ports
with_proxy =
    node black (node black leaf (22, 1) leaf) (80, 2)
      (node black leaf (443, 3) (node red leaf (8080, 4) leaf))

insert_run : rb_tree_insert ports 8080 4 ≡ some with_proxy
unfolding rb_tree_insert uint32_comp port_ord
insert_run = refl

delete_run : rb_delete ssh ≡ some without_ssh
unfolding rb_delete plug frame map_tree map_frame
delete_run = refl

ports-IsRedBlack : IsRedBlack ports
ports-IsRedBlack = (_, black_node (red_node nil nil) (red_node nil nil))

ssh-IsRedBlack : IsRedBlack (whole ssh)
unfolding whole plug frame
ssh-IsRedBlack = ports-IsRedBlack

ports-IsSorted : IsSorted (inorder ports)
unfolding inorder uint32_comp port_ord
ports-IsSorted = ground arith

ports-IsTable : IsTable ports
unfolding inorder uint32_comp port_ord
ports-IsTable = record { increasing = ground arith; balanced = ports-IsRedBlack }

query_run : rb_exact_query ports 22 ≡ some ssh
unfolding rb_exact_query query_from uint32_comp port_ord
query_run = refl

query_miss : rb_exact_query ports 8080 ≡ none
unfolding rb_exact_query query_from uint32_comp port_ord
query_miss = refl

successor_run :
    Path (Option ℕ) (elim (tree_successor ssh) [ none ↦ none | some p ↦ some p.entry.0 ]) (some 80)
unfolding tree_successor
successor_run = refl

insert_order_example : inorder with_proxy ≡ place 8080 4 (inorder ports)
insert_order_example = inorder-rb_tree_insert ports with_proxy 8080 4 ports-IsSorted insert_run

insert_balance_example : (u : Ports) × (rb_tree_insert ports 8080 4 ≡ some u) × IsRedBlack u
insert_balance_example = rb_tree_insert-IsRedBlack ports 8080 4 ports-IsRedBlack

delete_order_example :
    inorder without_ssh ≡ around ssh.above (inorder ssh.left ++ inorder ssh.right)
delete_order_example = inorder-rb_delete ssh without_ssh delete_run

delete_balance_example : (u : Ports) × (rb_delete ssh ≡ some u) × IsRedBlack u
delete_balance_example = rb_delete-IsRedBlack ssh ssh-IsRedBlack

successor_example : IsNext (whole ssh) (after_entry ssh) (tree_successor ssh)
successor_example = tree_successor-IsNext ssh

find_insert_example :
    (u : Ports) × (rb_tree_insert ports 8080 4 ≡ some u)
    × IsTable u
    × ((q : ℕ) → find u q ≡ update (find ports) 8080 (some 4) q)
find_insert_example = find-insert ports 8080 4 ports-IsTable query_miss

find_delete_example :
    (u : Ports) × (rb_delete ssh ≡ some u)
    × IsTable u
    × ((q : ℕ) → find u q ≡ update (find ports) 22 none q)
find_delete_example = find-delete ports 22 ssh ports-IsTable query_run

traverse_example : traverse 9 (flagged false ports) ≡ some (inorder ports)
unfolding inorder
traverse_example = traverse-inorder ports 9 (omega arith)
