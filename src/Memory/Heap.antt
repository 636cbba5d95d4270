-- ===== src/Memory/Heap.antt =====
-- malloc of kernel/memory.c: a bump allocator between heap_base and heap_limit.
use glass_os.Prelude.{
  ℕ, ◌+◌, ◌-◌, ◌%◌, ◌^◌, ◌≤◌, ◌<◌, ◌≡◌, ◌≢◌, refl, ◌⊎◌, inl, inr, Bool, true, false, ◌||◌,
  Bool-cases, List, [], ◌∷◌, ltb, ◌==◌, arith, if◌then◌else◌,
}
use glass_os.Kernel.{Kernel, Memory, M, pure, ◌>>=◌}
use glass_os.Event.Frame.{memory-event_record_kind}
use glass_os.Event.{event_record}
use glass_os.Memory.{malloc, heap_remaining, round_up_16}

-- A heap that memory_init set up, and on which malloc ran since.
pub record IsHeap (m : Memory) : Type 0 where
  pub based : 0 < m.heap_base
  pub low : m.heap_base ≤ m.heap_ptr
  pub high : m.heap_ptr ≤ m.heap_limit
  pub word : m.heap_limit < 2 ^ 64
  pub aligned : m.heap_ptr % 16 ≡ 0

abbrev pub moved : ℕ → Memory → Memory
moved size m = record m { heap_ptr = m.heap_ptr + round_up_16 size }

module _ (size : ℕ) (k : Kernel) where
  abbrev unready : Bool
  unready =
      size == 0
      || k.memory.heap_base == 0
      || k.memory.heap_limit == 0
      || ltb k.memory.heap_ptr k.memory.heap_base
      || ltb k.memory.heap_limit k.memory.heap_ptr

  abbrev no_room : Bool
  no_room = ltb (k.memory.heap_limit - k.memory.heap_ptr) (round_up_16 size)

  refused_unready : unready ≡ true → ((malloc size k).0 ≡ 0) × ((malloc size k).1.memory ≡ k.memory)
  unfolding event_record malloc
  refused_unready h = rw (malloc, h) (refl, rw memory-event_record_kind)

  refused_word :
      unready ≡ false
      → ltb (2 ^ 64 - 1 - 15) size ≡ true
      → ((malloc size k).0 ≡ 0) × ((malloc size k).1.memory ≡ k.memory)
  unfolding event_record malloc
  refused_word h h' = rw (malloc, h, h') (refl, rw memory-event_record_kind)

  refused_room :
      unready ≡ false
      → ltb (2 ^ 64 - 1 - 15) size ≡ false
      → no_room ≡ true
      → ((malloc size k).0 ≡ 0) × ((malloc size k).1.memory ≡ k.memory)
  unfolding event_record malloc
  refused_room h h' h'' = rw (malloc, h, h', h'') (refl, rw memory-event_record_kind)

  granted :
      unready ≡ false
      → ltb (2 ^ 64 - 1 - 15) size ≡ false
      → no_room ≡ false
      → ((malloc size k).0 ≡ k.memory.heap_ptr) × ((malloc size k).1.memory ≡ moved size k.memory)
  unfolding event_record malloc
  granted h h' h'' = rw (malloc, h, h', h'') (refl, rw memory-event_record_kind)

-- On a heap in order, malloc returns 0 and changes nothing of the memory state, and then the size
-- is 0 or exceeds what remains once it is rounded up to a multiple of 16; or it returns the old
-- heap_ptr, a multiple of 16 other than 0, from which the whole rounded block lies below
-- heap_limit, and moves heap_ptr behind that block, so that the rest shrinks by just that.
pub malloc_lem :
    (size : ℕ) (k : Kernel)
    → IsHeap k.memory
    → let (p, k') = malloc size k in
      ((p ≡ 0)
        × (k'.memory ≡ k.memory)
        × ((size ≡ 0) ⊎ (heap_remaining k.memory < round_up_16 size)))
      ⊎ ((p ≡ k.memory.heap_ptr)
          × (p ≢ 0)
          × (p % 16 ≡ 0)
          × (0 < size)
          × (p + round_up_16 size ≤ k.memory.heap_limit)
          × (k'.memory ≡ moved size k.memory)
          × (heap_remaining k'.memory + round_up_16 size ≡ heap_remaining k.memory))
malloc_lem size k v = elim (Bool-cases (unready size k)) [
  | inl h ↦ inl (
    (refused_unready size k h).0,
    (refused_unready size k h).1,
    inl (ground (arith, v.based, v.low, v.high)),
  )
  | inr h ↦ elim (Bool-cases (ltb (2 ^ 64 - 1 - 15) size)) [
    | inl h' ↦ inl (
      (refused_word size k h h').0,
      (refused_word size k h h').1,
      inr (unfold heap_remaining in ground (arith, v.word)),
    )
    | inr h' ↦ elim (Bool-cases (no_room size k)) [
      | inl h'' ↦ inl (
        (refused_room size k h h' h'').0,
        (refused_room size k h h' h'').1,
        inr (unfold heap_remaining in ground (arith, v.high)),
      )
      | inr h'' ↦
          let (address, memory) = granted size k h h' h'' in
          inr (
            address,
            rw address (omega (arith, v.based, v.low)),
            rw address v.aligned,
            ground arith,
            rw address (ground (arith, v.high)),
            memory,
            rw memory (unfold heap_remaining in ground (arith, v.high)),
          )
    ]
  ]
]

-- malloc keeps the heap in order.
pub malloc-IsHeap : (size : ℕ) (k : Kernel) → IsHeap k.memory → IsHeap (malloc size k).1.memory
malloc-IsHeap size k v = elim (malloc_lem size k v) [
  | inl (zero_address, same, why) ↦ rw same v
  | inr (address, nonzero, aligned, some_size, fits, eq, rest) ↦ rw eq (record {
    based = v.based;
    low = omega (arith, v.low);
    high = omega (arith, fits, address);
    word = v.word;
    aligned = omega (arith, v.aligned);
  })
]

-- One call for each size in turn: the sizes that were granted, with their addresses.
pub malloc_all : List ℕ → M (List (ℕ × ℕ))
malloc_all [] = pure []
malloc_all (size ∷ sizes) = do
  p ← malloc size
  blocks ← malloc_all sizes
  pure (if p == 0 then blocks else (p, size) ∷ blocks)

-- Blocks one behind the other between `low` and `high`, so that no two of them share a byte.
abbrev pub Apart : ℕ → ℕ → List (ℕ × ℕ) → Type 0
Apart low high [] = low ≤ high
Apart low high ((p, size) ∷ blocks) = (low ≤ p) × Apart (p + size) high blocks

Apart-weaken :
    (low low' high : ℕ) (blocks : List (ℕ × ℕ))
    → low' ≤ low
    → Apart low high blocks
    → Apart low' high blocks
Apart-weaken low low' high [] le h = omega arith
Apart-weaken low low' high ((p, size) ∷ blocks) le h = (omega (arith, h.0), h.1)

-- On a heap in order, the blocks that a series of malloc calls grants do not overlap, and all lie
-- between the old heap_ptr and heap_limit.
pub malloc_all-Apart :
    (sizes : List ℕ) (k : Kernel)
    → IsHeap k.memory
    → Apart k.memory.heap_ptr k.memory.heap_limit (malloc_all sizes k).0
unfolding malloc_all
malloc_all-Apart [] k v = v.high
malloc_all-Apart (size ∷ sizes) k v =
    let k' = (malloc size k).1 in
    let later = malloc_all-Apart sizes k' (malloc-IsHeap size k v) in
    elim (malloc_lem size k v) [
      | inl (zero_address, same, why) ↦ rw zero_address (rw same at later)
      | inr (address, nonzero, aligned, some_size, fits, eq, rest) ↦
          let further = rw eq at later in
          let taken : ((malloc size k).0 == 0) ≡ false = ground (arith, nonzero) in
          rw taken (
            rw address (
              omega arith,
              Apart-weaken (k.memory.heap_ptr + round_up_16 size) (k.memory.heap_ptr + size)
                  k.memory.heap_limit (malloc_all sizes k').0 (omega arith) further,
            ))
    ]
