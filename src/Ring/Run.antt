-- ===== src/Ring/Run.antt =====
-- A ring under any sequence of calls is the queue of the bytes that it holds.
use iocp_model_server.Base.{
  ℕ, ◌+◌, ◌-◌, ◌^◌, ◌<◌, min, ◌≡◌, refl, sym, ap, ◌∙◌, List, [], ◌∷◌, ◌++◌, Option, some, arith,
  inl, inr, leb, ◌>>=◌, length, take, drop, Bool-cases, length-replicate,
}
use iocp_model_server.Fifo
use iocp_model_server.Fifo.{Op, enqueues, dequeues, peeks, skips, clears, uses, frees, Reply}
use iocp_model_server.Ring.{
  Ring, create, get_use_size, get_free_size, get_buffer_size, enqueue, dequeue, peek, move_front,
  clear_buffer,
}
use iocp_model_server.Ring.Contents.{IsValid, contents, length-contents}
use iocp_model_server.Ring.Write.{enqueue-Enqueued}
use iocp_model_server.Ring.Read.{
  peek-contents, dequeue-Dequeued, dequeue_short, move_front-contents,
}

-- One call; sources and destinations have the size that the call names.
unfoldable pub step : Ring → Op → Option (Reply × Ring)
step r (enqueues d) = do (n, r') ← enqueue r (some d) (length d); some ((n, []), r')
step r (dequeues n) = do (k, out, r') ← dequeue r (some n) n; some ((k, out), r')
step r (peeks n) = do (k, out) ← peek r (some n) n; some ((k, out), r)
step r (skips n) = do (k, r') ← move_front r n; some ((k, []), r')
step r clears = some ((0, []), clear_buffer r)
step r uses = some ((get_use_size r, []), r)
step r frees = some ((get_free_size r, []), r)

unfoldable pub run : Ring → List Op → Option (List Reply)
run r [] = some []
run r (op ∷ ops) = do (reply, r') ← step r op; replies ← run r' ops; some (reply ∷ replies)

-- What a call does to a valid ring, seen through its contents.
record Stepped (r : Ring) (op : Op) : Type 0 where
  ring : Ring
  result : step r op ≡ some ((Fifo.step (get_buffer_size r) (contents r) op).0, ring)
  holds : contents ring ≡ (Fifo.step (get_buffer_size r) (contents r) op).1
  valid : IsValid ring
  same_size : get_buffer_size ring ≡ get_buffer_size r

free_size-contents : (r : Ring) → get_free_size r ≡ get_buffer_size r - length (contents r)
unfolding get_free_size get_buffer_size
free_size-contents r = omega (arith, length-contents r)

size_of_capacity : (r r' : Ring) → r'.capacity ≡ r.capacity → get_buffer_size r' ≡ get_buffer_size r
unfolding get_buffer_size
size_of_capacity r r' e = ap (λ c. c - 1) e

enqueues-Stepped : {r : Ring} (d : List ℕ) → IsValid r → Stepped r (enqueues d)
unfolding step Fifo.step
enqueues-Stepped {r} d v =
    let e = enqueue-Enqueued d (length d) v (omega arith) in
    record {
      ring = e.ring;
      result = rw (e.result, free_size-contents r);
      holds = e.holds ∙ ap (λ k. contents r ++ take (min (length d) k) d) (free_size-contents r);
      valid = e.valid;
      same_size = size_of_capacity r e.ring e.same_capacity;
    }

dequeues-Stepped : {r : Ring} (n : ℕ) → IsValid r → Stepped r (dequeues n)
unfolding step Fifo.step
dequeues-Stepped {r} n v = elim (Bool-cases (leb n (length (contents r)))) [
  | inl enough ↦
      let d = dequeue-Dequeued n n v (omega arith) (ground (arith, length-contents r)) in
      record {
        ring = d.ring;
        result = rw (d.result, enough);
        holds = rw enough d.holds;
        valid = d.valid;
        same_size = size_of_capacity r d.ring d.same_capacity;
      }
  | inr short ↦ record {
    ring = r;
    result = rw (short, dequeue_short r n n (ground (arith, length-contents r)));
    holds = rw short;
    valid = v;
    same_size = refl;
  }
]

peeks-Stepped : {r : Ring} (n : ℕ) → IsValid r → Stepped r (peeks n)
unfolding step Fifo.step
peeks-Stepped {r} n v = record {
  ring = r;
  result = ground (arith, peek-contents n n v, length-contents r);
  holds = ground arith;
  valid = v;
  same_size = refl;
}

skips-Stepped : {r : Ring} (n : ℕ) → IsValid r → Stepped r (skips n)
unfolding step Fifo.step
skips-Stepped {r} n v =
    let (r', moved, holds, valid, same) = move_front-contents n v in
    record {
      ring = r';
      result = rw (moved, length-contents r);
      holds = holds ∙ ap (λ k. drop (min n k) (contents r)) (sym (length-contents r));
      valid = valid;
      same_size = size_of_capacity r r' same;
    }

clears-Stepped : {r : Ring} → IsValid r → Stepped r clears
unfolding step Fifo.step clear_buffer get_use_size get_buffer_size
clears-Stepped {r} v = record {
  ring = clear_buffer r;
  result = refl;
  holds = refl;
  valid = ground arith;
  same_size = refl;
}

step-Stepped : {r : Ring} (op : Op) → IsValid r → Stepped r op
unfolding step Fifo.step
step-Stepped (enqueues d) v = enqueues-Stepped d v
step-Stepped (dequeues n) v = dequeues-Stepped n v
step-Stepped (peeks n) v = peeks-Stepped n v
step-Stepped (skips n) v = skips-Stepped n v
step-Stepped clears v = clears-Stepped v
step-Stepped {r} uses v = record {
  ring = r;
  result = ground (arith, length-contents r);
  holds = refl;
  valid = v;
  same_size = refl;
}
step-Stepped {r} frees v = record {
  ring = r;
  result = ground (arith, free_size-contents r);
  holds = refl;
  valid = v;
  same_size = refl;
}

-- Any sequence of calls of a valid ring runs without a fault, and returns what the bounded queue
-- of the ring's contents returns.
pub run_refines :
    (ops : List Op) {r : Ring}
    → IsValid r
    → run r ops ≡ some (Fifo.run (get_buffer_size r) (contents r) ops)
unfolding run Fifo.run
run_refines [] v = refl
run_refines (op ∷ ops) {r} v =
    let s = step-Stepped op v in rw (s.result, run_refines ops s.valid, s.holds, s.same_size)

pub create-IsValid : (fill size : ℕ) → size < 2 ^ 30 → IsValid (create fill size)
unfolding create
create-IsValid fill size h = ground (arith, length-replicate (size + 1) fill)

-- A new ring of `size` bytes, for every size below 2^30, behaves as the empty queue of that limit.
pub create_refines :
    (fill size : ℕ) (ops : List Op)
    → size < 2 ^ 30
    → run (create fill size) ops ≡ some (Fifo.run size [] ops)
unfolding create get_use_size get_buffer_size
create_refines fill size ops h =
    run_refines ops (create-IsValid fill size h)
    ∙ ap (λ k. some (Fifo.run k [] ops)) {x = size + 1 - 1} {y = size} (omega arith)
