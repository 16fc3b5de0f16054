-- ===== src/Stack/Tests.antt =====
-- A value that one thread pushes and another pops.
use iocp_model_server.Base.{ℕ, refl, List, arith, set}
use iocp_model_server.Stack.{
  System, get_pointer, get_tag, make_tagged, empty, begin_push, read_push, swap_push, begin_pop,
  read_pop, next_pop, swap_pop, took, Reach, begins_push, reads_push, swaps_push, begins_pop,
  reads_pop, nexts_pop, swaps_pop, initially, later,
}
use iocp_model_server.Stack.Linked.{IsLinked}
use iocp_model_server.Stack.Spots.{Follows}
use iocp_model_server.Stack.Follows.{Reach-IsLinked, Reach-Follows}

abbrev nothing : ℕ → ℕ
nothing n = 0

-- Thread 0 has pushed 5 on node 9, and thread 1 is about to take it.
pushed_five : System
pushed_five = swap_push 0 9 5 0 (read_push 0 9 5 (begin_push 0 9 5 (empty nothing nothing)))

about_to_pop : System
about_to_pop = next_pop 1 140737488355337 1 (read_pop 1 (begin_pop 1 pushed_five))

about_to_pop-Reach : Reach nothing nothing about_to_pop
unfolding about_to_pop pushed_five swap_push read_push begin_push next_pop read_pop begin_pop
    get_pointer get_tag make_tagged set
about_to_pop-Reach =
    later
      (later
        (later
          (later
            (later (later initially (begins_push 0 9 5 refl refl (omega arith) (omega arith)))
              (reads_push 0 9 5 refl))
            (swaps_push 0 9 5 0 refl))
          (begins_pop 1 refl))
        (reads_pop 1 refl))
      (nexts_pop 1 140737488355337 1 refl)

Reach-IsLinked_example : (xs : List ℕ) × IsLinked about_to_pop xs
Reach-IsLinked_example = Reach-IsLinked about_to_pop-Reach

Reach-Follows_example :
    (xs : List ℕ) × (ys : List ℕ) × IsLinked about_to_pop xs
    × Follows (took 5) xs ys
    × IsLinked (swap_pop 1 140737488355337 0 about_to_pop) ys
unfolding about_to_pop pushed_five swap_push read_push begin_push next_pop read_pop begin_pop
    get_pointer get_tag make_tagged set
Reach-Follows_example =
    Reach-Follows about_to_pop-Reach (swaps_pop 1 140737488355337 1 0 refl (omega arith))
