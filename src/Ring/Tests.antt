-- ===== src/Ring/Tests.antt =====
-- A ring of include/lib/list.h with the nodes 1 and 2 at the head 0.
use geek_toy_os.Base.{◌≡◌, refl, arith, ◌==◌, if◌then◌else◌, false, [], ◌∷◌}
use geek_toy_os.Ring.{Nodes, list_add_first, list_add_last, list_remove, list_move, list_for_each}
use geek_toy_os.Ring.Chain.{Chain, is_in, is_distinct}
use geek_toy_os.Ring.Refine.{IsRing, list_ops-IsRing}

abbrev two_nodes : Nodes
two_nodes = record {
  prev = λ a. if a == 0 then 2 else if a == 1 then 0 else 1;
  next = λ a. if a == 0 then 1 else if a == 1 then 2 else 0;
}

two_nodes-IsRing : IsRing two_nodes 0 (1 ∷ 2 ∷ [])
unfolding Chain is_distinct is_in
two_nodes-IsRing = record { chain = (refl, refl, (refl, refl, (refl, refl))); once = refl }

fresh : is_in 3 (0 ∷ 1 ∷ 2 ∷ []) ≡ false
unfolding is_in
fresh = refl

list_ops_example :
    (list_for_each 5 0 two_nodes ≡ 1 ∷ 2 ∷ [])
    × IsRing (list_remove 2 two_nodes) 0 (1 ∷ [])
    × IsRing (list_add_first 3 0 two_nodes) 0 (3 ∷ 1 ∷ 2 ∷ [])
    × IsRing (list_add_last 3 0 two_nodes) 0 (1 ∷ 2 ∷ 3 ∷ [])
    × IsRing (list_move 2 0 two_nodes) 0 (2 ∷ 1 ∷ [])
list_ops_example =
    list_ops-IsRing two_nodes 0 2 3 5 (1 ∷ []) [] two_nodes-IsRing fresh (omega arith)
