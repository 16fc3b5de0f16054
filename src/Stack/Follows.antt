-- ===== src/Stack/Follows.antt =====
-- Each step of a thread is a step of a stack of values.
use iocp_model_server.Base.{ℕ, refl, subst, List, [], arith}
use iocp_model_server.Stack.{
  popping, pop_read, pop_swap, System, get_pointer, get_tag, empty, begin_pop, next_pop, Event,
  Step, Reach, begins_push, reads_push, swaps_push, begins_pop, reads_pop, nexts_pop, swaps_pop,
  returns_pop, initially, later,
}
use iocp_model_server.Stack.Linked.{Holds, Local, IsLinked, unseen-IsLinked}
use iocp_model_server.Stack.Spots.{Follows}
use iocp_model_server.Stack.Push.{begin_push-IsLinked, read_push-IsLinked, swap_push-Follows}
use iocp_model_server.Stack.Pop.{return_pop-IsLinked, read_pop-Follows, swap_pop-Follows}

Step-Follows :
    {s s' : System} {e : Event} (xs : List ℕ)
    → IsLinked s xs
    → Step s e s'
    → (ys : List ℕ) × Follows e xs ys × IsLinked s' ys
unfolding Follows Local next_pop begin_pop
Step-Follows {s} xs h (begins_push t node value at_start here some_node small) =
    (xs, refl, begin_push-IsLinked s xs t node value h here some_node small)
Step-Follows {s} xs h (reads_push t node value at_loop) =
    (xs, refl, read_push-IsLinked s xs t node value h at_loop)
Step-Follows {s} xs h (swaps_push t node value tagged at_swap) =
    swap_push-Follows s xs t node value tagged h at_swap
Step-Follows {s} xs h (begins_pop t at_start) = (xs, refl, unseen-IsLinked s xs t popping h refl)
Step-Follows {s} xs h (reads_pop t at_loop) = read_pop-Follows s xs t h
Step-Follows {s} xs h (nexts_pop t tagged seen at_next) =
    let held : Local s.memory t (pop_read tagged seen) =
      subst (Local s.memory t) at_next (h.local t) in
    (
      xs,
      refl,
      unseen-IsLinked s xs t (pop_swap tagged seen (s.memory.next (get_pointer tagged))) h
          (held.0, held.1, λ e. refl),
    )
Step-Follows {s} xs h (swaps_pop t tagged seen next at_swap few) =
    swap_pop-Follows s xs t tagged seen next h at_swap few
Step-Follows {s} xs h (returns_pop t node value at_end) =
    let done = return_pop-IsLinked s xs t node value h at_end in (xs, (done.0, refl), done.1)

empty-IsLinked : (next value_at : ℕ → ℕ) → IsLinked (empty next value_at) []
unfolding Holds Local get_pointer get_tag
empty-IsLinked next value_at = record {
  holds = omega arith;
  high = refl;
  tag = omega arith;
  local = λ t. refl;
}

-- In every state that the threads come to, the nodes from `_Top` on are a list that ends, every node
-- is at one place only, and each thread's node is its own.
pub Reach-IsLinked :
    {next value_at : ℕ → ℕ} {s : System} → Reach next value_at s → (xs : List ℕ) × IsLinked s xs
Reach-IsLinked {next} {value_at} initially = ([], empty-IsLinked next value_at)
Reach-IsLinked (later before step) =
    let held = Reach-IsLinked before in
    let after = Step-Follows held.0 held.1 step in (after.0, after.2)

-- In every order of the threads' steps, and if fewer than 2^17 exchanges succeed between the look of
-- a `Pop` at `_Top` and its own exchange: a push puts its value on top of the stack at its exchange,
-- a pop takes the top value at its exchange and returns that value, a pop finds nothing only if the
-- stack is empty, and no other step changes what the stack holds.
pub Reach-Follows :
    {next value_at : ℕ → ℕ} {s s' : System} {e : Event}
    → Reach next value_at s
    → Step s e s'
    → (xs : List ℕ) × (ys : List ℕ) × IsLinked s xs × Follows e xs ys × IsLinked s' ys
Reach-Follows before step =
    let held = Reach-IsLinked before in
    let after = Step-Follows held.0 held.1 step in (held.0, after.0, held.1, after.1, after.2)
