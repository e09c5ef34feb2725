-- ===== src/Buffers/Tests.antt =====
-- Runs of the buffers, and the theorems at a concrete pool and a concrete stream.
use leactor.Prelude.{
  ℕ, zero, suc, ◌≤◌, ◌≡◌, refl, ap, arith, Ptr, none, some, if◌then◌else◌, ◌==◌, List, [], ◌∷◌,
  ◌++◌, length, take, drop, ok, Distinct,
}
use leactor.Pool
use leactor.Pool.Bounds.{IsFilled, IsSized, filled_pool}
use leactor.Buffers.{Allocator, State}
use leactor.Buffers.Chain.{Supplies}
use leactor.Buffers.Pooled.{pool_allocator, elements, elements-Supplies}
use leactor.Buffers.Recv.{Received, got, would_block, Socket, IsStream, Done, recv}
use leactor.Buffers.Recv.Stream.{IsReceived, recv-IsReceived}

-- sizeof(lt_buffer_t)
abbrev sizeof_buffer : ℕ
sizeof_buffer = 16432

-- A pool at 160 for four buffers, none handed out.
abbrev pool : Pool.State
pool = record {
  manager = record {
    cur = 160;
    one_element_size = sizeof_buffer;
    element_count = 4;
    head = 160;
    tail = 160;
  };
  pools = λ p. if p == 160 then some (filled_pool 160 sizeof_buffer 4 0) else none;
}

pool-IsFilled : IsFilled pool 160 sizeof_buffer 4 0
pool-IsFilled = record { tail = refl; element_size = refl; element_count = refl; pool = refl }

sized : IsSized 160 sizeof_buffer 4
sized = record {
  not_null = omega arith;
  start_aligned = refl;
  size_aligned = refl;
  no_wrap = omega arith;
}

abbrev no_memory : Pool.State → Ptr
no_memory s = 0

instance abbrev from_pool : Allocator Pool.State
from_pool = pool_allocator no_memory

elements-Supplies_example :
    Supplies ⦃a = from_pool⦄ pool (elements 160 sizeof_buffer 0 3)
    × Distinct (elements 160 sizeof_buffer 0 3)
elements-Supplies_example =
    elements-Supplies no_memory 160 sizeof_buffer 4 0 3 pool sized (omega arith) pool-IsFilled
      (omega arith)

-- Buffers that hold four bytes less than their room.
abbrev start : State Pool.State
start = record {
  manager = pool;
  bufs = λ p. record {
    text = λ i. 7;
    pos = 16379;
    last = 16380;
    end = 16384;
    head = 0;
    written = 0;
    next = 0;
  };
}

-- A socket with bytes to come, which would block behind them.
abbrev next_bytes : List ℕ → ℕ → Received × List ℕ
next_bytes [] n = (would_block, [])
next_bytes (x ∷ xs) n = (got (take n (x ∷ xs)), drop n (x ∷ xs))

instance abbrev pending : Socket (List ℕ)
pending = record { recv = next_bytes }

take_le : (n : ℕ) (xs : List ℕ) → length (take n xs) ≤ n
take_le zero xs = omega arith
take_le (suc n) [] = omega arith
take_le (suc n) (x ∷ xs) = omega (arith, take_le n xs)

take-drop : (n : ℕ) (xs : List ℕ) → xs ≡ take n xs ++ drop n xs
take-drop zero xs = refl
take-drop (suc n) [] = refl
take-drop (suc n) (x ∷ xs) = ap (λ (ys : List ℕ). x ∷ ys) (take-drop n xs)

pending-IsStream : IsStream (λ (xs : List ℕ). xs)
pending-IsStream [] n = refl
pending-IsStream (x ∷ xs) n = (take_le n (x ∷ xs), take-drop n (x ∷ xs))

-- Six bytes for the four that are free: the pool's first buffer takes the rest.
recv-IsReceived_example :
    (d : Done Pool.State (List ℕ)) × (recv 7 start 500 (1 ∷ 2 ∷ 3 ∷ 4 ∷ 5 ∷ 6 ∷ []) ≡ ok d)
    × IsReceived (λ (xs : List ℕ). xs) 0 start 500 (1 ∷ 2 ∷ 3 ∷ 4 ∷ 5 ∷ 6 ∷ []) (200 ∷ []) d
recv-IsReceived_example =
    recv-IsReceived (λ (xs : List ℕ). xs) pending-IsStream start 500 (1 ∷ 2 ∷ 3 ∷ 4 ∷ 5 ∷ 6 ∷ [])
      (200 ∷ []) (omega arith) (omega arith)
      (record { begun = omega arith; bounded = omega arith; ended = refl }) (omega arith)
      (omega arith)
      (elements-Supplies no_memory 160 sizeof_buffer 4 0 1 pool sized (omega arith) pool-IsFilled
        (omega arith)).0
