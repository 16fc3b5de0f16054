-- ===== src/Stack/Linked.antt =====
-- The invariant of the stack: its nodes are linked from `_Top` on, and each thread knows what it has
-- to know about the nodes it uses.
use iocp_model_server.Base.{
  ℕ, ◌%◌, ◌^◌, ◌≤◌, ◌<◌, ◌≡◌, ◌≢◌, refl, sym, subst, ◌∙◌, List, [], ◌∷◌, length, arith, set,
  set_all,
}
use iocp_model_server.Stack.{
  mine, stacked, Memory, Thread, idle, pushing, push_swap, popping, pop_read, pop_swap, popped,
  System, get_pointer, get_tag,
}

-- `xs` are the values of the nodes from the address `a` on.
unfoldable pub Holds : Memory → ℕ → List ℕ → Type 0
Holds m a [] = a ≡ 0
Holds m a (x ∷ xs) =
    (a ≢ 0)
    × (a < 2 ^ 47)
    × (m.spot a ≡ stacked (length xs))
    × (m.value_at a ≡ x)
    × Holds m (m.next a) xs

-- What a thread read from `_Top` after `v` exchanges.
unfoldable pub Seen : Memory → ℕ → ℕ → Type 0
Seen m tagged v = (v ≤ m.version) × (get_tag tagged ≡ v % 2 ^ 17) × (v ≡ m.version → m.top ≡ tagged)

-- A node of the thread that holds the value of its call.
unfoldable pub Owns : Memory → ℕ → ℕ → ℕ → Type 0
Owns m t node value =
    (m.spot node ≡ mine t) × (node ≢ 0) × (node < 2 ^ 47) × (m.value_at node ≡ value)

unfoldable pub Local : Memory → ℕ → Thread → Type 0
Local m t idle = t ≡ t
Local m t (pushing node value) = Owns m t node value
Local m t (push_swap node value tagged) = Owns m t node value × (m.next node ≡ get_pointer tagged)
Local m t popping = t ≡ t
Local m t (pop_read tagged v) = (get_pointer tagged ≢ 0) × Seen m tagged v
Local m t (pop_swap tagged v next) =
    (get_pointer tagged ≢ 0)
    × Seen m tagged v
    × (v ≡ m.version → next ≡ m.next (get_pointer tagged))
Local m t (popped node value) = Owns m t node value

pub record IsLinked (s : System) (xs : List ℕ) : Type 0 where
  pub holds : Holds s.memory (get_pointer s.memory.top) xs
  pub high : s.memory.size ≡ length xs
  pub tag : get_tag s.memory.top ≡ s.memory.version % 2 ^ 17
  pub local : (t : ℕ) → Local s.memory t (s.threads t)

-- A step that leaves the nodes of the stack alone leaves what it holds.
pub Holds-frame :
    (m m' : Memory) (a : ℕ) (xs : List ℕ)
    → ((j k : ℕ)
        → k < length xs
        → m.spot j ≡ stacked k
        → (m'.spot j ≡ stacked k) × (m'.next j ≡ m.next j) × (m'.value_at j ≡ m.value_at j))
    → Holds m a xs
    → Holds m' a xs
unfolding Holds
Holds-frame m m' a [] keep h = h
Holds-frame m m' a (x ∷ xs) keep (some_node, small, here, value, rest) =
    let now = keep a (length xs) (omega arith) here in
    (
      some_node,
      small,
      now.0,
      now.2 ∙ value,
      subst (λ b. Holds m' b xs) (sym now.1)
          (Holds-frame m m' (m.next a) xs (λ j k lt. keep j k (omega arith)) rest),
    )

-- What a thread knows outlasts the steps of the others, which leave its nodes alone, and either leave
-- `_Top` and the node there as they are, or count an exchange.
module _ (m m' : Memory) (u : ℕ)
    (own : (j : ℕ)
      → m.spot j ≡ mine u
      → (m'.spot j ≡ mine u) × (m'.next j ≡ m.next j) × (m'.value_at j ≡ m.value_at j))
    (later : m.version ≤ m'.version)
    (still : m'.version ≡ m.version
      → (m'.top ≡ m.top)
        × (get_pointer m.top ≢ 0 → m'.next (get_pointer m.top) ≡ m.next (get_pointer m.top))) where
  Owns-frame : (node value : ℕ) → Owns m u node value → Owns m' u node value
  unfolding Owns
  Owns-frame node value (here, some_node, small, holds) =
      let now = own node here in (now.0, some_node, small, now.2 ∙ holds)

  Seen-frame : (tagged v : ℕ) → Seen m tagged v → Seen m' tagged v
  unfolding Seen
  Seen-frame tagged v (early, tag, same) = (
    omega (arith, early, later),
    tag,
    λ e. (still (omega (arith, e, early, later))).0 ∙ same (omega (arith, e, early, later)),
  )

  Owns-spot : (node value : ℕ) → Owns m u node value → m.spot node ≡ mine u
  unfolding Owns
  Owns-spot node value h = h.0

  link_frame :
      (tagged v next : ℕ)
      → get_pointer tagged ≢ 0
      → Seen m tagged v
      → (v ≡ m.version → next ≡ m.next (get_pointer tagged))
      → v ≡ m'.version
      → next ≡ m'.next (get_pointer tagged)
  unfolding Seen
  link_frame tagged v next some_node (early, tag, same) link e =
      let now : v ≡ m.version = omega (arith, e, early, later) in
      let top = same now in
      let kept =
        (still (omega (arith, e, early, later))).1
          (subst (λ w. get_pointer w ≢ 0) (sym top) some_node) in
      link now ∙ sym (subst (λ w. m'.next (get_pointer w) ≡ m.next (get_pointer w)) top kept)

  pub Local-frame : (pc : Thread) → Local m u pc → Local m' u pc
  unfolding Local
  Local-frame idle h = h
  Local-frame (pushing node value) h = Owns-frame node value h
  Local-frame (push_swap node value tagged) (owns, link) =
      (Owns-frame node value owns, (own node (Owns-spot node value owns)).1 ∙ link)
  Local-frame popping h = h
  Local-frame (pop_read tagged v) (some_node, seen) = (some_node, Seen-frame tagged v seen)
  Local-frame (pop_swap tagged v next) (some_node, seen, link) =
      (some_node, Seen-frame tagged v seen, λ e. link_frame tagged v next some_node seen link e)
  Local-frame (popped node value) h = Owns-frame node value h

-- The invariant after a step of thread `t`, from what the step does to the memory.
pub stepped-IsLinked :
    (s : System) (xs ys : List ℕ) (t : ℕ) (pc : Thread) (m' : Memory)
    → IsLinked s xs
    → ((u j : ℕ)
        → u ≢ t
        → s.memory.spot j ≡ mine u
        → (m'.spot j ≡ mine u)
          × (m'.next j ≡ s.memory.next j)
          × (m'.value_at j ≡ s.memory.value_at j))
    → s.memory.version ≤ m'.version
    → (m'.version ≡ s.memory.version
        → (m'.top ≡ s.memory.top)
          × (get_pointer s.memory.top ≢ 0
              → m'.next (get_pointer s.memory.top) ≡ s.memory.next (get_pointer s.memory.top)))
    → Local m' t pc
    → Holds m' (get_pointer m'.top) ys
    → m'.size ≡ length ys
    → get_tag m'.top ≡ m'.version % 2 ^ 17
    → IsLinked (record { memory = m'; threads = set s.threads t pc }) ys
stepped-IsLinked s xs ys t pc m' h own later still here holds high tag = record {
  holds = holds;
  high = high;
  tag = tag;
  local = set_all (Local m') s.threads t pc here (λ u differ.
      Local-frame s.memory m' u (λ j. own u j differ) later still (s.threads u) (h.local u));
}

-- A step that only the thread itself sees.
pub unseen-IsLinked :
    (s : System) (xs : List ℕ) (t : ℕ) (pc : Thread)
    → IsLinked s xs
    → Local s.memory t pc
    → IsLinked (record s { threads = set s.threads t pc }) xs
unseen-IsLinked s xs t pc h here =
    stepped-IsLinked s xs xs t pc s.memory h (λ u j differ e. (e, refl, refl)) (omega arith)
      (λ e. (refl, λ z. refl)) here h.holds h.high h.tag
