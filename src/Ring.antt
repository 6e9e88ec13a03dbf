-- ===== src/Ring.antt =====
-- include/lib/list.h: the circular doubly linked lists of the kernel. A node is its address, and the
-- two pointers of the nodes are functions from addresses; an entry stands for its node.
pub mod Chain
pub mod Refine
mod Tests
use geek_toy_os.Base.{
  ℕ, zero, suc, Bool, ◌==◌, if◌then◌else◌, update, Option, none, some, List, [], ◌∷◌,
}

-- `struct list_node`, of all nodes.
pub record Nodes : Type 0 where
  pub prev : ℕ → ℕ
  pub next : ℕ → ℕ

pub list_init : (node : ℕ) → Nodes → Nodes
list_init node h = record { prev = update h.prev node node; next = update h.next node node }

pub list_empty : (head : ℕ) → Nodes → Bool
list_empty head h = h.next head == head

pub list_insert : (node prev next : ℕ) → Nodes → Nodes
list_insert node prev next h = record {
  prev = update (update h.prev next node) node prev;
  next = update (update h.next prev node) node next;
}

-- Also `list_add_after`, and `list_add_before` below.
pub list_add_first : (node list : ℕ) → Nodes → Nodes
list_add_first node list h = list_insert node list (h.next list) h

pub list_add_last : (node list : ℕ) → Nodes → Nodes
list_add_last node list h = list_insert node (h.prev list) list h

-- `_list_remove`; the pointers of the node are read before.
pub list_unlink : (self prev next : ℕ) → Nodes → Nodes
list_unlink self prev next h = record {
  prev = update (update h.prev next prev) self self;
  next = update (update h.next prev next) self self;
}

pub list_remove : (node : ℕ) → Nodes → Nodes
list_remove node h = list_unlink node (h.prev node) (h.next node) h

pub list_move : (node list : ℕ) → Nodes → Nodes
list_move node list h = list_add_first node list (list_remove node h)

-- `list_next`, `list_prev`, `list_front` and `list_back` as nodes; NULL is `none`.
pub list_next : (head node : ℕ) → Nodes → Option ℕ
list_next head node h = if h.next node == head then none else some (h.next node)

pub list_prev : (head node : ℕ) → Nodes → Option ℕ
list_prev head node h = if h.prev node == head then none else some (h.prev node)

pub list_front : (head : ℕ) → Nodes → Option ℕ
list_front head h = if list_empty head h then none else some (h.next head)

pub list_back : (head : ℕ) → Nodes → Option ℕ
list_back head h = if list_empty head h then none else some (h.prev head)

-- The nodes that `list_for_each` visits from `entry` on; the fuel bounds their number.
pub each_loop : (fuel head : ℕ) → (entry : Option ℕ) → Nodes → List ℕ
each_loop zero head entry h = []
each_loop (suc fuel) head none h = []
each_loop (suc fuel) head (some node) h = node ∷ each_loop fuel head (list_next head node h) h

pub list_for_each : (fuel head : ℕ) → Nodes → List ℕ
list_for_each fuel head h = each_loop fuel head (list_front head h) h

-- `list_find_key`, for the key of the entry of each node; NULL is `none`.
pub find_loop : (key : ℕ → ℕ) → (value : ℕ) → List ℕ → Option ℕ
find_loop key value [] = none
find_loop key value (node ∷ rest) =
    let later = find_loop key value rest in if key node == value then some node else later

pub list_find_key : (fuel head : ℕ) → (key : ℕ → ℕ) → (value : ℕ) → Nodes → Option ℕ
list_find_key fuel head key value h = find_loop key value (list_for_each fuel head h)
