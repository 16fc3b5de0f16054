-- ===== src/Fifo.antt =====
-- The promise of a byte ring: a queue of at most `limit` bytes, and what its client sees.
use iocp_model_server.Base.{
  ℕ, ◌-◌, min, List, [], ◌∷◌, ◌++◌, if◌then◌else◌, leb, length, take, drop,
}

pub data Op : Type 0 where
  enqueues : List ℕ → Op
  dequeues : ℕ → Op
  peeks : ℕ → Op
  skips : ℕ → Op
  clears : Op
  uses : Op
  frees : Op

-- A returned number, and the bytes that a call wrote to its destination.
abbrev pub Reply : Type 0
Reply = ℕ × List ℕ

module _ (limit : ℕ) where
  unfoldable pub step : List ℕ → Op → Reply × List ℕ
  step q (enqueues d) = let n = min (length d) (limit - length q) in ((n, []), q ++ take n d)
  step q (dequeues n) = if leb n (length q) then ((n, take n q), drop n q) else ((0, []), q)
  step q (peeks n) = if leb n (length q) then ((n, take n q), q) else ((0, []), q)
  step q (skips n) = let k = min n (length q) in ((k, []), drop k q)
  step q clears = ((0, []), [])
  step q uses = ((length q, []), q)
  step q frees = ((limit - length q, []), q)

  unfoldable pub run : List ℕ → List Op → List Reply
  run q [] = []
  run q (op ∷ ops) = let (reply, q') = step q op in reply ∷ run q' ops
