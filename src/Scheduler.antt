-- ===== src/Scheduler.antt =====
-- src/scheduler.cpp and include/airuntime/scheduler.hpp: the scheduler interface, and the
-- first-in first-out scheduler over a bounded queue of requests.
pub mod Fifo
mod Tests
use adaptive_ai_inference_ru.Prelude.{ℕ, suc, Bool, true, false, Option, none, some, List, [], ◌∷◌}
use adaptive_ai_inference_ru.Status.{Status}
use adaptive_ai_inference_ru.BoundedQueue.{BoundedQueue, make, try_push, close, size}
use adaptive_ai_inference_ru.Store.{Ref, RequestPtr, Store, is_dead_request}

-- What a call of `next` comes to: a request, the end, or it still waits.
pub data Next : Type 0 where
  item : RequestPtr → Next
  finished : Next
  waiting : Next

-- The interface over a scheduler's state. `next` may time requests out: it is given the readings of
-- the clock, in the order in which it makes them.
pub record IRequestScheduler (S : Type 0) : Type 0 where
  pub enqueue : RequestPtr → Store → S → Status × S
  pub next : (ℕ → ℕ) → Store → S → Next × Store × S
  pub close : S → S
  pub size : S → ℕ
  pub capacity : S → ℕ

abbrev pub FifoScheduler : Type 0
FifoScheduler = BoundedQueue RequestPtr

-- `next` on the values in the queue, with no other thread's call in between: it pops until it finds
-- a request that is not dead. With none left it ends if the queue is closed, and waits otherwise.
unfoldable pub next_from :
    (ℕ → ℕ) → List RequestPtr → Store → FifoScheduler → Next × Store × FifoScheduler
next_from clock [] st q =
    (elim (q.closed) [ true ↦ finished | false ↦ waiting ], st, record q { queue = [] })
next_from clock (p ∷ ps) st q = elim ((is_dead_request (clock 0) p st).0) [
  | true ↦ next_from (λ i. clock (suc i)) ps (is_dead_request (clock 0) p st).1 q
  | false ↦ (item p, (is_dead_request (clock 0) p st).1, record q { queue = ps })
]

unfoldable pub fifo_next : (ℕ → ℕ) → Store → FifoScheduler → Next × Store × FifoScheduler
fifo_next clock st q = next_from clock q.queue st q

-- `FifoScheduler`
abbrev pub fifo : IRequestScheduler FifoScheduler
fifo = record {
  enqueue = λ p st q. try_push p q;
  next = fifo_next;
  close = close;
  size = size;
  capacity = λ q. q.capacity;
}
