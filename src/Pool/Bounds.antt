-- ===== src/Pool/Bounds.antt =====
-- Where lt_alloc puts the elements, and up to which count they lie in the pool's block.
use leactor.Prelude.{
  ℕ, ◌+◌, ◌*◌, ◌/◌, ◌%◌, ◌^◌, ◌≤◌, ◌<◌, ◌≡◌, ◌≢◌, refl, sym, ap, ◌∙◌, Ptr, null, Option, some,
  arith, ltb, ◌==◌, update, update_self, update_ne, Run, ok, ◌>>=◌, true, false, Bool-cases, inl,
  inr,
}
use leactor.Pool.{
  Pool, State, sizeof_pool, sizeof_manager, alignment_ptr, block_size, new_memory_pool,
  new_memory_pool_manager, alloc, Manager,
}

-- A pool at `start` that has handed out `k` elements.
abbrev pub filled_pool : (start size count k : ℕ) → Pool
filled_pool start size count k = record {
  start = start;
  end = start + sizeof_manager + count * size;
  pos = start + sizeof_pool + k * size;
  next = null;
}

-- The tail pool at `start` has handed out `k` elements of a size that is a multiple of 8.
pub record IsFilled (s : State) (start size count k : ℕ) : Type 0 where
  pub tail : s.manager.tail ≡ start
  pub element_size : s.manager.one_element_size ≡ size
  pub element_count : s.manager.element_count ≡ count
  pub pool : s.pools start ≡ some (filled_pool start size count k)

-- What is asked of the sizes: the block is aligned and does not wrap round, nor does one more element.
pub record IsSized (start size count : ℕ) : Type 0 where
  pub not_null : start ≢ null
  pub start_aligned : start % 16 ≡ 0
  pub size_aligned : size % 8 ≡ 0
  pub no_wrap : start + sizeof_manager + (count + 1) * size + 8 < 2 ^ 64

-- The arithmetic of multiples of the element size.
module _ (start size count : ℕ) (z : IsSized start size count) where
  multiple-mod : (k : ℕ) → k * size % 8 ≡ 0
  multiple-mod k =
      let e : size ≡ 8 * (size / 8) = omega (arith, z.size_aligned) in
      omega (arith, ap (λ (x : ℕ). k * x) e)

  multiple-le : (k : ℕ) → k ≤ count → k * size ≤ count * size
  multiple-le k h = grind arith

  -- The position behind the element number `k`, as the code computes it.
  next_pos :
      (k : ℕ)
      → k ≤ count
      → alignment_ptr ((start + sizeof_pool + k * size + size) % 2 ^ 64) 8
        ≡ start + sizeof_pool + (k + 1) * size
  next_pos k h =
      omega (arith, multiple-le k h, multiple-mod k, z.no_wrap, z.start_aligned, z.size_aligned)

  first_pos : alignment_ptr ((start + sizeof_pool) % 2 ^ 64) 8 ≡ start + sizeof_pool + 0 * size
  first_pos = omega (arith, z.no_wrap, z.start_aligned)

  block_end :
      (start + (sizeof_manager + count * size) % 2 ^ 64) % 2 ^ 64
      ≡ start + sizeof_manager + count * size
  block_end = omega (arith, z.no_wrap)

-- lt_new_memory_pool_manager returns, also where aligned_alloc fails.
pub new_manager-returns :
    (pools : Ptr → Option Pool) (head tail fresh size count : ℕ)
    → (s : State) × (new_memory_pool_manager fresh pools head tail size count ≡ ok s)
unfolding new_memory_pool_manager
new_manager-returns pools head tail fresh size count = elim (Bool-cases (fresh == null)) [
  | inl failed ↦ (
    record {
      manager = record {
        cur = null;
        one_element_size = size;
        element_count = count;
        head = null;
        tail = null;
      };
      pools = pools;
    },
    rw failed refl,
  )
  | inr block ↦
      (let blank : Manager = record {
        cur = null;
        one_element_size = size;
        element_count = count;
        head = head;
        tail = tail;
      } in
        (
          record {
            manager = record blank { cur = fresh; head = fresh; tail = fresh };
            pools = update pools fresh (
                some (record {
                  start = fresh;
                  pos = alignment_ptr ((fresh + sizeof_pool) % 2 ^ 64) 8;
                  end = (fresh + block_size blank) % 2 ^ 64;
                  next = null;
                }));
          },
          rw block refl,
        ))
]

-- lt_new_memory_pool_manager, where aligned_alloc gives a block and the sizes are aligned and do not
-- wrap round, leaves a manager whose pool has handed out nothing.
pub new_manager-IsFilled :
    (pools : Ptr → Option Pool) (head tail start size count : ℕ)
    → IsSized start size count
    → (s : State) × (new_memory_pool_manager start pools head tail size count ≡ ok s)
      × IsFilled s start size count 0
unfolding new_memory_pool_manager
new_manager-IsFilled pools head tail start size count z =
    let real : (start == 0) ≡ false = ground (arith, z.not_null) in
    let s : State = record {
      manager = record {
        cur = start;
        one_element_size = size;
        element_count = count;
        head = start;
        tail = start;
      };
      pools = update pools start (some (filled_pool start size count 0));
    } in
    (
      s,
      rw (real, first_pos start size count z, block_end start size count z) refl,
      record {
        tail = refl;
        element_size = refl;
        element_count = refl;
        pool = update_self pools start (some (filled_pool start size count 0));
      },
    )

-- An allocation after which the position is still inside the pool, and one after which it is not.
module _ (fresh : Ptr) (s : State) (p : Pool) (pos : ℕ) (there : s.pools s.manager.tail ≡ some p)
    (next : alignment_ptr ((p.pos + s.manager.one_element_size) % 2 ^ 64) 8 ≡ pos) where
  abbrev advanced : State
  advanced = record s { pools = update s.pools s.manager.tail (some (record p { pos = pos })) }

  alloc-inside : pos ≤ p.end → alloc fresh s ≡ ok (advanced, p.pos)
  unfolding alloc
  alloc-inside h = let test : ltb p.end pos ≡ false = ground arith in rw (there, next, test) refl

  alloc-beyond :
      p.end < pos → alloc fresh s ≡ (new_memory_pool fresh advanced >>= λ (u, _). ok (u, p.pos))
  unfolding alloc
  alloc-beyond h = let test : ltb p.end pos ≡ true = ground arith in rw (there, next, test) refl

-- For element sizes that are multiples of 8 and do not wrap round: as long as fewer than
-- `element_count` elements are handed out, lt_alloc returns the next one behind the others, wholly
-- inside the pool's block, and takes no new pool.
pub alloc-IsFilled :
    (fresh start size count k : ℕ) (s : State)
    → IsSized start size count
    → IsFilled s start size count k
    → k < count
    → (t : State) × (alloc fresh s ≡ ok (t, start + sizeof_pool + k * size))
      × IsFilled t start size count (k + 1)
      × (start + sizeof_pool + k * size + size ≤ start + sizeof_manager + count * size)
alloc-IsFilled fresh start size count k s z v h =
    let more = multiple-le start size count z (k + 1) (omega arith) in
    let p = filled_pool start size count k in
    let after = filled_pool start size count (k + 1) in
    let there = ap s.pools v.tail ∙ v.pool in
    let next : alignment_ptr ((p.pos + s.manager.one_element_size) % 2 ^ 64) 8 ≡ after.pos =
      rw v.element_size (next_pos start size count z k (omega arith)) in
    (
      advanced fresh s p after.pos there next,
      alloc-inside fresh s p (start + sizeof_pool + (k + 1) * size) there next
          (omega (arith, more)),
      record {
        tail = v.tail;
        element_size = v.element_size;
        element_count = v.element_count;
        pool = rw v.tail (update_self s.pools start (some after));
      },
      omega (arith, more),
    )

-- A further pool of the manager, linked behind its tail `q`.
module _ (fresh size count : ℕ) (s : State) (q : Pool) (z : IsSized fresh size count)
    (sized : s.manager.one_element_size ≡ size) (counted : s.manager.element_count ≡ count)
    (more : s.manager.cur ≢ null) (there : s.pools s.manager.tail ≡ some q)
    (ne : fresh ≢ s.manager.tail) where
  abbrev linked : State
  linked = record {
    manager = record (s.manager) { cur = fresh; tail = fresh };
    pools =
        update (update s.pools fresh (some (filled_pool fresh size count 0))) s.manager.tail
          (some (record q { next = fresh }));
  }

  new_memory_pool-linked : new_memory_pool fresh s ≡ ok (linked, fresh)
  unfolding new_memory_pool
  new_memory_pool-linked =
      let real : (fresh == 0) ≡ false = ground (arith, z.not_null) in
      let used : (s.manager.cur == 0) ≡ false = ground arith in
      let last : (fresh + block_size s.manager) % 2 ^ 64 ≡ fresh + sizeof_manager + count * size =
        rw (sized, counted) (block_end fresh size count z) in
      let behind =
        update_ne s.pools fresh s.manager.tail (some (filled_pool fresh size count 0)) ne in
      rw (real, used, first_pos fresh size count z, last, behind, there) refl

  linked-IsFilled : IsFilled linked fresh size count 0
  linked-IsFilled = record {
    tail = refl;
    element_size = sized;
    element_count = counted;
    pool =
        update_ne _ s.manager.tail fresh _ (λ e. ne (sym e))
        ∙ update_self s.pools fresh (some (filled_pool fresh size count 0));
  }

-- With all `element_count` elements handed out, sizes as before and elements larger than 8 bytes, lt_alloc still
-- returns the position behind them: the element's end lies past the end of the pool's block. Only then
-- it takes a new pool, at an address that is not NULL and not the old pool's, for the next call.
pub alloc-overflows :
    (fresh start size count : ℕ) (s : State)
    → IsSized start size count
    → IsSized fresh size count
    → IsFilled s start size count count
    → s.manager.cur ≢ null
    → fresh ≢ start
    → 8 < size
    → (t : State) × (alloc fresh s ≡ ok (t, start + sizeof_pool + count * size))
      × (start + sizeof_manager + count * size < start + sizeof_pool + count * size + size)
      × IsFilled t fresh size count 0
alloc-overflows fresh start size count s z z' v c ne h =
    let p = filled_pool start size count count in
    let after = filled_pool start size count (count + 1) in
    let there = ap s.pools v.tail ∙ v.pool in
    let next : alignment_ptr ((p.pos + s.manager.one_element_size) % 2 ^ 64) 8 ≡ after.pos =
      rw v.element_size (next_pos start size count z count (omega arith)) in
    let u = advanced fresh s p after.pos there next in
    let kept : u.pools u.manager.tail ≡ some after =
      update_self s.pools s.manager.tail (some after) in
    let ne' : fresh ≢ u.manager.tail = λ e. ne (e ∙ v.tail) in
    (
      linked fresh size count u after z' v.element_size v.element_count c kept ne',
      alloc-beyond fresh s p after.pos there next (omega arith)
          ∙ ap (λ (r : Run (State × Ptr)). r >>= λ (w, _). ok (w, p.pos))
              (new_memory_pool-linked fresh size count u after z' v.element_size v.element_count c
                kept ne'),
      omega arith,
      linked-IsFilled fresh size count u after z' v.element_size v.element_count c kept ne',
    )
