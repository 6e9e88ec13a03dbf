-- ===== src/Ring/Chain.antt =====
-- The rings of include/lib/list.h stand for lists.
use geek_toy_os.Base.{
  ℕ, ◌≡◌, refl, arith, ◌∙◌, Bool, true, false, not, ◌&&◌, ◌||◌, ◌==◌, List, [], ◌∷◌, ◌++◌,
}
use geek_toy_os.Ring.{Nodes, list_unlink}

-- The number is in the list.
unfoldable pub is_in : ℕ → List ℕ → Bool
is_in a [] = false
is_in a (x ∷ xs) = a == x || is_in a xs

-- No number is in the list twice.
unfoldable pub is_distinct : List ℕ → Bool
is_distinct [] = true
is_distinct (x ∷ xs) = not (is_in x xs) && is_distinct xs

-- From `a` the pointers lead through `xs` to `b`, and back.
unfoldable pub Chain : Nodes → (a : ℕ) → List ℕ → (b : ℕ) → Type 0
Chain h a [] b = (h.next a ≡ b) × (h.prev b ≡ a)
Chain h a (x ∷ xs) b = (h.next a ≡ x) × (h.prev x ≡ a) × Chain h x xs b

pub is_in_append : (y : ℕ) (xs ys : List ℕ) → is_in y (xs ++ ys) ≡ (is_in y xs || is_in y ys)
unfolding is_in
is_in_append y [] ys = refl
is_in_append y (x ∷ xs) ys = ground (arith, is_in_append y xs ys)

-- A chain whose pointers have not changed.
pub framed :
    (h k : Nodes) (a : ℕ) (xs : List ℕ) (b : ℕ)
    → ((y : ℕ) → is_in y (a ∷ xs) ≡ true → k.next y ≡ h.next y)
    → ((y : ℕ) → is_in y (b ∷ xs) ≡ true → k.prev y ≡ h.prev y)
    → Chain h a xs b
    → Chain k a xs b
unfolding Chain is_in
framed h k a [] b nexts prevs (f, g) = (nexts a (ground arith) ∙ f, prevs b (ground arith) ∙ g)
framed h k a (x ∷ xs) b nexts prevs (f, g, rest) = (
  nexts a (ground arith) ∙ f,
  prevs x (ground arith) ∙ g,
  framed h k x xs b (λ y p. nexts y (ground (arith, p))) (λ y p. prevs y (ground (arith, p))) rest,
)

-- The last node of a chain lies in it.
pub prev-is_in :
    (h : Nodes) (a : ℕ) (xs : List ℕ) (b : ℕ) → Chain h a xs b → is_in (h.prev b) (a ∷ xs) ≡ true
unfolding Chain is_in
prev-is_in h a [] b (f, g) = ground (arith, g)
prev-is_in h a (x ∷ xs) b (f, g, rest) = ground (arith, prev-is_in h x xs b rest)

pub next-is_in :
    (h : Nodes) (a : ℕ) (xs : List ℕ) (b : ℕ) → Chain h a xs b → is_in (h.next a) (b ∷ xs) ≡ true
unfolding Chain is_in
next-is_in h a [] b (f, g) = ground (arith, f)
next-is_in h a (x ∷ xs) b (f, g, rest) = ground (arith, f)

-- A chain split at a node.
chain_split :
    (h : Nodes) (a : ℕ) (xs : List ℕ) (node : ℕ) (ys : List ℕ) (b : ℕ)
    → Chain h a (xs ++ node ∷ ys) b
    → Chain h a xs node × Chain h node ys b
unfolding Chain
chain_split h a [] node ys b (f, g, rest) = ((f, g), rest)
chain_split h a (x ∷ xs) node ys b (f, g, rest) =
    let (front, back) = chain_split h x xs node ys b rest in ((f, g, front), back)

-- A node taken out of a chain with no node twice.
pub unlinked :
    (h : Nodes) (a : ℕ) (xs : List ℕ) (node : ℕ) (ys : List ℕ) (b : ℕ)
    → is_distinct (a ∷ (xs ++ node ∷ ys)) ≡ true
    → is_in b (xs ++ node ∷ ys) ≡ false
    → Chain h a (xs ++ node ∷ ys) b
    → Chain (list_unlink node (h.prev node) (h.next node) h) a (xs ++ ys) b
unfolding Chain is_in is_distinct list_unlink
unlinked h a [] node [] b once off (f, g, (f', g')) =
    (ground (arith, once, off, f, g, f', g'), ground (arith, once, off, f, g, f', g'))
unlinked h a [] node (y ∷ ys) b once off (f, g, (f', g', rest)) = (
  ground (arith, once, off, f, g, f', g'),
  ground (arith, once, off, f, g, f', g'),
  framed h _ y ys b (λ z p. (ground (arith, p, once, off, f, g, f', g')))
      (λ z p. ground (arith, p, once, off, f, g, f', g')) rest,
)
unlinked h a (x ∷ xs) node ys b once off (f, g, rest) =
    let (front, back) = chain_split h x xs node ys b rest in
    let left = prev-is_in h x xs node front in
    let right = next-is_in h node ys b back in
    let within = is_in_append (h.prev node) xs (node ∷ ys) in
    let within_a = is_in_append a xs (node ∷ ys) in
    let within_x = is_in_append x xs (node ∷ ys) in
    (
      ground (arith, once, off, f, g, left, right, within, within_a),
      ground (
        arith,
        once,
        off,
        f,
        g,
        left,
        right,
        within,
        within_x,
        is_in_append (h.next node) xs (node ∷ ys),
      ),
      unlinked h x xs node ys b (ground (arith, once)) (ground (arith, off)) rest,
    )
