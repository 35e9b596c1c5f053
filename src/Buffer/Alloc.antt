-- ===== src/Buffer/Alloc.antt =====
-- buffer_allocate() hands out the available buffer with the lowest index.
use udipe.Prelude.{
  ℕ, ◌+◌, ◌-◌, ◌*◌, ◌%◌, ◌^◌, ◌<◌, ◌≡◌, ◌⊎◌, inl, inr, Bool-cases, lt→ltb, refl, ◌∙◌, Bool, true,
  false, not, Option, some, arith, ltb, ◌==◌, if◌then◌else◌,
}
use udipe.Words.Ops.{size_max}
use udipe.BitArray.Defs.{BitPos, bit_pos_to_index, bit_array_set, bit_array_find_first}
use udipe.BitArray.Bits.{bit_at, IsPos, bit_pos_to_index_lem}
use udipe.BitArray.Access.{bit_array_set_lem, bit_array_set-IsBitArray}
use udipe.BitArray.Alleq.{linear}
use udipe.BitArray.Find.{IsFirst, FindsFirst, bit_array_find_first_lem}
use udipe.Buffer.{BufferAllocator, udipe_max_buffers, buffer_allocate}
use udipe.Buffer.Invariant.{is_free, buffer_address, IsAllocator, Changes, buffer_in_pool}

-- Flipping the bit of a buffer of the pool.
pub set-Changes :
    (a : BufferAllocator) (bit : BitPos) (value : Bool)
    → IsAllocator a
    → bit.offset < 64
    → linear bit < a.config.buffer_count
    → Changes a (linear bit) value (record a {
      buffer_availability = bit_array_set a.buffer_availability udipe_max_buffers bit value;
    })
set-Changes a bit value v o h = record {
  valid = record {
    bits = bit_array_set-IsBitArray a.buffer_availability 64 bit value v.bits pos (omega arith);
    padding = λ i p q. bits i ∙ ground (arith, v.padding i p q);
    count_pos = v.count_pos;
    count_max = v.count_max;
    size_pos = v.size_pos;
    pool_pos = v.pool_pos;
    room = v.room;
  };
  same_pool = refl;
  same_config = refl;
  bits = bits;
}
  where
    pos : IsPos bit (64 - 1)
    pos = record { inside = o; before = omega (arith, v.count_max) }

    bits :
        (j : ℕ)
        → bit_at (bit_array_set a.buffer_availability 64 bit value) j
          ≡ (if j == linear bit then value else bit_at a.buffer_availability j)
    bits j =
        bit_array_set_lem a.buffer_availability 64 bit value j v.bits pos (omega arith)
        ∙ rw (bit_pos_to_index_lem bit 63 (omega arith) pos) refl

-- What a successful allocation does.
pub record Allocates (a : BufferAllocator) (i : ℕ) (result : Option (ℕ × BufferAllocator))
    : Type 0 where
  pub next : BufferAllocator
  pub returns : result ≡ some (buffer_address a i, next)
  pub in_pool : i < a.config.buffer_count
  pub was_free : is_free a i ≡ true
  pub lowest : (j : ℕ) → j < i → is_free a j ≡ false
  pub change : Changes a i false next

buffer_allocate_at :
    (a : BufferAllocator) (bit : BitPos)
    → IsAllocator a
    → bit_array_find_first a.buffer_availability udipe_max_buffers true ≡ bit
    → IsFirst a.buffer_availability udipe_max_buffers true bit
    → Allocates a (linear bit) (buffer_allocate a)
buffer_allocate_at a bit v e f = record {
  next = record a {
    buffer_availability = bit_array_set a.buffer_availability udipe_max_buffers bit false;
  };
  returns = unfold buffer_allocate in rw (e, count_ok, real, pool_ok, address);
  in_pool = inside;
  was_free = f.found;
  lowest = f.first;
  change = set-Changes a bit false v f.inside inside;
}
  where
    inside : linear bit < a.config.buffer_count
    inside = elim (Bool-cases (ltb (linear bit) a.config.buffer_count)) [
      | inl lower ↦ ground arith
      | inr beyond ↦ absurd (ground (arith, f.found, v.padding (linear bit), f.before))
    ]

    count_ok : ltb 0 a.config.buffer_count ≡ true
    count_ok = lt→ltb 0 a.config.buffer_count v.count_pos

    real : (bit.word == size_max) ≡ false
    real = ground (arith, f.before)

    pool_ok : not (a.memory_pool == 0) ≡ true
    pool_ok = ground (arith, v.pool_pos)

    address :
        (a.memory_pool + bit_pos_to_index bit * a.config.buffer_size % 2 ^ 64) % 2 ^ 64
        ≡ buffer_address a (linear bit)
    address =
        rw
          (bit_pos_to_index_lem bit 63 (omega arith)
            (record { inside = f.inside; before = omega (arith, f.before) }))
          (omega (arith, buffer_in_pool a (linear bit) inside, v.room))

-- On a well-formed allocator buffer_allocate() passes its assertions. It returns NULL and changes
-- nothing exactly where no buffer is available; else it returns the address of the available
-- buffer with the lowest index, which is then no longer available, and changes nothing else.
pub buffer_allocate_lem :
    (a : BufferAllocator)
    → IsAllocator a
    → (((i : ℕ) → i < a.config.buffer_count → is_free a i ≡ false)
        × (buffer_allocate a ≡ some (0, a)))
      ⊎ ((i : ℕ) × Allocates a i (buffer_allocate a))
buffer_allocate_lem a v = go _ refl (bit_array_find_first_lem a.buffer_availability 64 true v.bits)
  where
    go :
        (bit : BitPos)
        → bit_array_find_first a.buffer_availability 64 true ≡ bit
        → FindsFirst a.buffer_availability 64 true bit
        → (((i : ℕ) → i < a.config.buffer_count → is_free a i ≡ false)
            × (buffer_allocate a ≡ some (0, a)))
          ⊎ ((i : ℕ) × Allocates a i (buffer_allocate a))
    go bit e (inl (missing, none_set)) = inl (
      λ i h. none_set i (omega (arith, v.count_max)),
      unfold buffer_allocate in rw (e, missing, lt→ltb 0 a.config.buffer_count v.count_pos),
    )
    go bit e (inr f) = inr (linear bit, buffer_allocate_at a bit v e f)
