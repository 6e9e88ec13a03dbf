-- ===== src/Ring/Refine.antt =====
-- The operations of include/lib/list.h on the lists that the rings stand for.
use geek_toy_os.Base.{
  ℕ, zero, suc, ◌≤◌, ◌≡◌, refl, ap, arith, ◌∙◌, true, false, ◌==◌, if-eq_of_true, if-eq_of_false,
  none, some, List, [], ◌∷◌, ◌++◌, length,
}
use geek_toy_os.Ring.{
  Nodes, list_init, list_insert, list_add_first, list_add_last, list_remove, list_empty, list_next,
  list_move, list_front, each_loop, list_for_each,
}
use geek_toy_os.Ring.Chain.{Chain, is_in, is_distinct, is_in_append, framed, prev-is_in, unlinked}

-- The ring at `head` stands for the list, and no node is in it twice.
pub record IsRing (h : Nodes) (head : ℕ) (xs : List ℕ) : Type 0 where
  pub chain : Chain h head xs head
  pub once : is_distinct (head ∷ xs) ≡ true

list_init-IsRing : (head : ℕ) (h : Nodes) → IsRing (list_init head h) head []
unfolding list_init Chain is_distinct is_in
list_init-IsRing head h = record { chain = (ground arith, ground arith); once = refl }

first_chain :
    (h : Nodes) (head node : ℕ) (xs : List ℕ)
    → is_distinct (head ∷ xs) ≡ true
    → is_in node (head ∷ xs) ≡ false
    → Chain h head xs head
    → Chain (list_insert node head (h.next head) h) head (node ∷ xs) head
unfolding Chain is_in is_distinct list_insert
first_chain h head node [] once new (f, g) = (
  ground (arith, new, f, g),
  ground (arith, new, f, g),
  (ground (arith, new, f, g), ground (arith, new, f, g)),
)
first_chain h head node (x ∷ xs) once new (f, g, rest) = (
  ground (arith, new, f, g),
  ground (arith, new, f, g),
  (
    ground (arith, new, once, f, g),
    ground (arith, new, once, f, g),
    framed h _ x xs head (λ z p. ground (arith, p, once, new, f, g))
        (λ z p. ground (arith, p, once, new, f, g)) rest,
  ),
)

last_chain :
    (h : Nodes) (a node : ℕ) (xs : List ℕ) (b : ℕ)
    → is_distinct (a ∷ xs) ≡ true
    → is_in b xs ≡ false
    → is_in node (a ∷ b ∷ xs) ≡ false
    → Chain h a xs b
    → Chain (list_insert node (h.prev b) b h) a (xs ++ node ∷ []) b
unfolding Chain is_in is_distinct list_insert
last_chain h a node [] b once off new (f, g) = (
  ground (arith, new, f, g),
  ground (arith, new, f, g),
  (ground (arith, new, f, g), ground (arith, new, f, g)),
)
last_chain h a node (x ∷ xs) b once off new (f, g, rest) =
    let left = prev-is_in h x xs b rest in
    (
      ground (arith, once, off, new, f, g, left),
      ground (arith, once, off, new, f, g, left),
      last_chain h x node xs b (ground (arith, once)) (ground (arith, off)) (ground (arith, new))
          rest,
    )

is_distinct_append :
    (xs : List ℕ) (node : ℕ)
    → is_distinct xs ≡ true
    → is_in node xs ≡ false
    → is_distinct (xs ++ node ∷ []) ≡ true
unfolding is_in is_distinct
is_distinct_append [] node once new = refl
is_distinct_append (x ∷ xs) node once new = ground (
  arith,
  once,
  new,
  is_distinct_append xs node (ground (arith, once)) (ground (arith, new)),
  is_in_append x xs (node ∷ []),
)

is_distinct_drop :
    (xs : List ℕ) (node : ℕ) (ys : List ℕ)
    → is_distinct (xs ++ node ∷ ys) ≡ true
    → is_distinct (xs ++ ys) ≡ true
unfolding is_in is_distinct
is_distinct_drop [] node ys once = ground (arith, once)
is_distinct_drop (x ∷ xs) node ys once = ground (
  arith,
  once,
  is_distinct_drop xs node ys (ground (arith, once)),
  is_in_append x xs (node ∷ ys),
  is_in_append x xs ys,
)

-- The node between the two parts is in neither.
not_in_parts :
    (xs : List ℕ) (node : ℕ) (ys : List ℕ)
    → is_distinct (xs ++ node ∷ ys) ≡ true
    → is_in node (xs ++ ys) ≡ false
unfolding is_in is_distinct
not_in_parts [] node ys once = ground (arith, once)
not_in_parts (x ∷ xs) node ys once =
    ground
      (arith, once, not_in_parts xs node ys (ground (arith, once)), is_in_append x xs (node ∷ ys))

list_remove-IsRing :
    (h : Nodes) (head node : ℕ) (xs ys : List ℕ)
    → IsRing h head (xs ++ node ∷ ys)
    → IsRing (list_remove node h) head (xs ++ ys)
unfolding list_remove is_distinct
list_remove-IsRing h head node xs ys ring = record {
  chain = unlinked h head xs node ys head ring.once (ground (arith, ring.once)) ring.chain;
  once = is_distinct_drop (head ∷ xs) node ys ring.once;
}

list_add_first-IsRing :
    (h : Nodes) (head node : ℕ) (xs : List ℕ)
    → IsRing h head xs
    → is_in node (head ∷ xs) ≡ false
    → IsRing (list_add_first node head h) head (node ∷ xs)
unfolding list_add_first is_in is_distinct
list_add_first-IsRing h head node xs ring new = record {
  chain = first_chain h head node xs ring.once new ring.chain;
  once = ground (arith, ring.once, new);
}

list_add_last-IsRing :
    (h : Nodes) (head node : ℕ) (xs : List ℕ)
    → IsRing h head xs
    → is_in node (head ∷ xs) ≡ false
    → IsRing (list_add_last node head h) head (xs ++ node ∷ [])
unfolding list_add_last is_in is_distinct
list_add_last-IsRing h head node xs ring new = record {
  chain =
      last_chain h head node xs head ring.once (ground (arith, ring.once)) (ground (arith, new))
        ring.chain;
  once = ground (
    arith,
    ring.once,
    new,
    is_distinct_append xs node (ground (arith, ring.once)) (ground (arith, new)),
    is_in_append head xs (node ∷ []),
  );
}

no_visit : (h : Nodes) (head fuel : ℕ) → each_loop fuel head none h ≡ []
unfolding each_loop
no_visit h head zero = refl
no_visit h head (suc fuel) = refl

-- The visits from a node of a chain on.
visits :
    (h : Nodes) (head fuel x : ℕ) (xs : List ℕ)
    → Chain h x xs head
    → is_in head (x ∷ xs) ≡ false
    → length (x ∷ xs) ≤ fuel
    → each_loop fuel head (some x) h ≡ x ∷ xs
unfolding Chain is_in each_loop list_next
visits h head zero x xs c off long = absurd (omega (arith, long))
visits h head (suc fuel) x [] (f, g) off long =
    let last : (h.next x == head) ≡ true = ground (arith, f) in
    ap (λ rest. x ∷ rest)
      (ap (λ e. each_loop fuel head e h) (if-eq_of_true _ _ last) ∙ no_visit h head fuel)
visits h head (suc fuel) x (y ∷ ys) (f, g, rest) off long =
    let more : (h.next x == head) ≡ false = ground (arith, f, off) in
    ap (λ out. x ∷ out)
      (ap (λ e. each_loop fuel head e h) (if-eq_of_false _ _ more ∙ ap some f)
        ∙ visits h head fuel y ys rest (ground (arith, off)) (omega (arith, long)))

list_for_each-IsRing :
    (h : Nodes) (head fuel : ℕ) (xs : List ℕ)
    → IsRing h head xs
    → length xs ≤ fuel
    → list_for_each fuel head h ≡ xs
unfolding list_for_each list_front list_empty Chain is_in is_distinct
list_for_each-IsRing h head fuel [] ring long =
    let (f, g) = ring.chain in
    let bare : (h.next head == head) ≡ true = ground (arith, f) in
    ap (λ e. each_loop fuel head e h) (if-eq_of_true _ _ bare) ∙ no_visit h head fuel
list_for_each-IsRing h head fuel (x ∷ xs) ring long =
    let (f, g, rest) = ring.chain in
    let more : (h.next head == head) ≡ false = ground (arith, ring.once, f) in
    ap (λ e. each_loop fuel head e h) (if-eq_of_false _ _ more ∙ ap some f)
    ∙ visits h head fuel x xs rest (ground (arith, ring.once)) long

-- On a ring that stands for a list, in which `node` is somewhere and `new` is not,
-- `list_for_each` visits the list in order and ends, `list_remove` takes `node` out of the list,
-- `list_add_first` and `list_add_last` put `new` in front and at the end, and `list_move` brings
-- `node` to the front.
pub list_ops-IsRing :
    (h : Nodes) (head node new fuel : ℕ) (xs ys : List ℕ)
    → IsRing h head (xs ++ node ∷ ys)
    → is_in new (head ∷ (xs ++ node ∷ ys)) ≡ false
    → length (xs ++ node ∷ ys) ≤ fuel
    → (list_for_each fuel head h ≡ xs ++ node ∷ ys)
      × IsRing (list_remove node h) head (xs ++ ys)
      × IsRing (list_add_first new head h) head (new ∷ (xs ++ node ∷ ys))
      × IsRing (list_add_last new head h) head ((xs ++ node ∷ ys) ++ new ∷ [])
      × IsRing (list_move node head h) head (node ∷ (xs ++ ys))
unfolding list_move is_in is_distinct
list_ops-IsRing h head node new fuel xs ys ring fresh long =
    let removed = list_remove-IsRing h head node xs ys ring in
    let apart : is_in node (head ∷ (xs ++ ys)) ≡ false = ground (
      arith,
      ring.once,
      not_in_parts xs node ys (ground (arith, ring.once)),
      is_in_append head xs (node ∷ ys),
    ) in
    (
      list_for_each-IsRing h head fuel (xs ++ node ∷ ys) ring long,
      removed,
      list_add_first-IsRing h head new (xs ++ node ∷ ys) ring fresh,
      list_add_last-IsRing h head new (xs ++ node ∷ ys) ring fresh,
      list_add_first-IsRing (list_remove node h) head node (xs ++ ys) removed apart,
    )
