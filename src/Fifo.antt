-- ===== src/Fifo.antt =====
-- The contract of the program's queues: what a queue of at most `cap` items holds, oldest first.
use xiaozhi.Base.{
  ℕ, List, [], ◌∷◌, ◌++◌, Option, none, some, Status, ok, failed, ◌==◌, if◌then◌else◌, length,
}

pub data Op {ℓ} (A : Type ℓ) : Type ℓ where
  put : A → Op A
  get : Op A

pub data Reply {ℓ} (A : Type ℓ) : Type ℓ where
  answered : Status → Reply A
  received : Option A → Reply A

module _ {ℓ} {A : Type ℓ} where
  unfoldable pub push : ℕ → List A → A → Status × List A
  push cap q a = if length q == cap then (failed, q) else (ok, q ++ a ∷ [])

  unfoldable pub pop : List A → Option A × List A
  pop [] = (none, [])
  pop (a ∷ q) = (some a, q)

  unfoldable pub run : ℕ → List A → List (Op A) → List (Reply A)
  run cap q [] = []
  run cap q (put a ∷ ops) = let (s, q') = push cap q a in answered s ∷ run cap q' ops
  run cap q (get ∷ ops) = let (a, q') = pop q in received a ∷ run cap q' ops
