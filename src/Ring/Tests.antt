-- ===== src/Ring/Tests.antt =====
-- Runs of the ring of RingBuffer.cpp, and its properties at concrete rings.
use iocp_model_server.Base.{
  ℕ, zero, suc, get_or, ◌⊎◌, ◌+◌, ◌≤◌, ◌<◌, ◌≡◌, refl, List, [], ◌∷◌, some, arith, read_bytes,
  write_bytes, add_int,
}
use iocp_model_server.Fifo
use iocp_model_server.Fifo.{Op, enqueues, dequeues, peeks, skips, clears, uses, frees}
use iocp_model_server.Ring.{
  Ring, create, get_use_size, get_free_size, get_buffer_size, copy_in, copy_out, enqueue, dequeue,
  peek, move_front, move_rear, direct_enqueue_size,
}
use iocp_model_server.Ring.Contents.{IsValid, contents}
use iocp_model_server.Ring.Valid.{use_size-add-free_size}
use iocp_model_server.Ring.Write.{Enqueued, enqueue-Enqueued}
use iocp_model_server.Ring.Read.{Dequeued, dequeue-Dequeued}
use iocp_model_server.Ring.Direct.{Received, move_rear-contents}
use iocp_model_server.Ring.Run.{run, step, run_refines, create_refines}

-- Four bytes, of which 8 and 9 stand at the end of the array and 7 at its start.
abbrev wrapped : Ring
wrapped = record { buf = 7 ∷ 0 ∷ 0 ∷ 8 ∷ 9 ∷ []; capacity = 5; front = 3; rear = 1 }

abbrev level : Ring
level = record { buf = 0 ∷ 0 ∷ 5 ∷ 6 ∷ 0 ∷ []; capacity = 5; front = 2; rear = 4 }

abbrev script : List Op
script =
    enqueues (1 ∷ 2 ∷ 3 ∷ [])
    ∷ peeks 2
    ∷ dequeues 4
    ∷ skips 1
    ∷ enqueues (4 ∷ 5 ∷ 6 ∷ [])
    ∷ uses
    ∷ frees
    ∷ []

wrapped-IsValid : IsValid wrapped
wrapped-IsValid = omega arith

level-IsValid : IsValid level
level-IsValid = omega arith

contents-wrapped : contents wrapped ≡ 8 ∷ 9 ∷ 7 ∷ []
unfolding get_use_size
contents-wrapped = refl

run-wrapped :
    run wrapped script
    ≡ some (
        (1, [])
        ∷ (2, 8 ∷ 9 ∷ [])
        ∷ (4, 8 ∷ 9 ∷ 7 ∷ 1 ∷ [])
        ∷ (0, [])
        ∷ (3, [])
        ∷ (3, [])
        ∷ (1, [])
        ∷ [])
unfolding run step enqueue dequeue peek move_front copy_in copy_out get_use_size get_free_size
    read_bytes write_bytes add_int
run-wrapped = refl

create_refines_example : run (create 0 4) script ≡ some (Fifo.run 4 [] script)
create_refines_example = create_refines 0 4 script (omega arith)

run_refines_example :
    run wrapped script ≡ some (Fifo.run (get_buffer_size wrapped) (contents wrapped) script)
run_refines_example = run_refines script wrapped-IsValid

enqueue-Enqueued_example : Enqueued level (1 ∷ 2 ∷ 3 ∷ []) 3
enqueue-Enqueued_example = enqueue-Enqueued (1 ∷ 2 ∷ 3 ∷ []) 3 level-IsValid (omega arith)

dequeue-Dequeued_example : Dequeued wrapped 3 3
unfolding get_use_size
dequeue-Dequeued_example = dequeue-Dequeued 3 3 wrapped-IsValid (omega arith) (omega arith)

use_size-add-free_size_example :
    get_use_size wrapped + get_free_size wrapped ≡ get_buffer_size wrapped
use_size-add-free_size_example = use_size-add-free_size wrapped-IsValid

-- The system has put 1 at the end of the array and 2 at its start.
abbrev refilled : List ℕ
refilled = 2 ∷ 0 ∷ 5 ∷ 6 ∷ 1 ∷ []

refilled_elsewhere :
    (j : ℕ) → (j < 4) ⊎ (5 ≤ j) → 1 ≤ j → get_or refilled j 0 ≡ get_or level.buf j 0
refilled_elsewhere zero h k = absurd (omega arith)
refilled_elsewhere (suc zero) h k = refl
refilled_elsewhere (suc (suc zero)) h k = refl
refilled_elsewhere (suc (suc (suc zero))) h k = refl
refilled_elsewhere (suc (suc (suc (suc zero)))) h k = absurd (omega arith)
refilled_elsewhere (suc (suc (suc (suc (suc j))))) h k = refl

refilled-Received : Received level (1 ∷ 2 ∷ []) refilled
unfolding direct_enqueue_size get_free_size get_use_size
refilled-Received = record {
  kept_length = refl;
  first = λ i h k. rw (let zero_i : i ≡ 0 = omega arith in zero_i);
  second = λ i h. rw (let zero_i : i ≡ 0 = omega arith in zero_i);
  elsewhere = refilled_elsewhere;
}

move_rear-contents_example :
    (r' : Ring) × (move_rear (record level { buf = refilled }) 2 ≡ some (2, r'))
    × (contents r' ≡ 5 ∷ 6 ∷ 1 ∷ 2 ∷ [])
    × IsValid r'
    × (r'.capacity ≡ 5)
unfolding get_use_size get_free_size
move_rear-contents_example =
    move_rear-contents level-IsValid (1 ∷ 2 ∷ []) refilled refilled-Received (omega arith)
