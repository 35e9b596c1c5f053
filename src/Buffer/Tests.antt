-- ===== src/Buffer/Tests.antt =====
-- A pool of three buffers.
use udipe.Prelude.{
  ℕ, ◌+◌, ◌*◌, ◌^◌, ◌<◌, ◌≡◌, ◌⊎◌, ◌↔◌, refl, arith, true, false, Option, some, none, [], ◌∷◌, ltb,
  ◌==◌, if◌then◌else◌,
}
use udipe.Words.Ops.{count_trailing_zeros, shift_left, bit_not, low_mask, bit_broadcast, div_ceil}
use udipe.Words.Rounding.{round_up}
use udipe.BitArray.Defs.{
  bit_pos_to_index, bit_array_find_first, skip_words, first_in_word, index_to_bit_pos,
  bit_array_end, bit_array_get, bit_array_set, bit_array_range_set, range_set_from, masked_fill,
}
use udipe.BitArray.Bits.{bit_at}
use udipe.Buffer.{
  Config, Topology, Configurator, BufferAllocator, Memory, memset, min_capacity,
  smallest_cache_capacity, finish_size, finish_count, finish_configuration, obtain_config,
  initial_availability, buffer_allocator_initialize, buffer_allocator_finalize, buffer_allocate,
  buffer_liberate,
}
use udipe.Buffer.Invariant.{is_free, buffer_address, IsAllocator}
use udipe.Buffer.Alloc.{set-Changes, Allocates, buffer_allocate_lem}
use udipe.Buffer.Liberate.{Liberates, buffer_liberate_lem}
use udipe.Buffer.Initialize.{AllocatesPages, buffer_allocator_initialize_lem}
use udipe.Buffer.Finalize.{buffer_allocator_finalize_lem}

abbrev three_buffers : Config
three_buffers = record { buffer_size = 4096; buffer_count = 3 }

-- The buffers 0 and 2 are available.
abbrev pool : BufferAllocator
pool = record { memory_pool = 8192; config = three_buffers; buffer_availability = 5 ∷ [] }

abbrev full_pool : BufferAllocator
full_pool = record { memory_pool = 8192; config = three_buffers; buffer_availability = 7 ∷ [] }

abbrev no_memory : Memory
no_memory address = 0

abbrev realtime_allocate : ℕ → Option ℕ
realtime_allocate size =
    if size == 0 then none else if ltb (8192 + size) (2 ^ 64) then some 8192 else none

realtime_allocate-AllocatesPages : AllocatesPages realtime_allocate
realtime_allocate-AllocatesPages = record { refuses_zero = refl; placed = λ size p e. ground arith }

abbrev one_cpu : Topology
one_cpu = record {
  l1 = some (record { size = 49152; weight = 1 }) ∷ [];
  l2 = some (record { size = 1048576; weight = 2 }) ∷ [];
}

abbrev asks_for_three : Configurator
asks_for_three = record {
  callback = some λ context. record { buffer_size = context; buffer_count = 3 };
  context = 4000;
}

l1_capacity : smallest_cache_capacity one_cpu.l1 ≡ some 39321
unfolding smallest_cache_capacity min_capacity
l1_capacity = refl

initial_three : initial_availability 3 ≡ 7 ∷ []
unfolding initial_availability bit_array_range_set range_set_from masked_fill bit_array_end low_mask
    shift_left bit_broadcast bit_not index_to_bit_pos div_ceil
initial_three = refl

starts :
    buffer_allocator_initialize realtime_allocate 4096 asks_for_three one_cpu no_memory
    ≡ some (full_pool, memset no_memory 8192 0 12288)
unfolding buffer_allocator_initialize obtain_config finish_configuration finish_size finish_count
    round_up
starts = rw (initial_three) refl

full_pool-IsAllocator : IsAllocator full_pool
full_pool-IsAllocator =
    let initialized =
      buffer_allocator_initialize_lem realtime_allocate 4096 asks_for_three one_cpu no_memory
        (memset no_memory 8192 0 12288) full_pool realtime_allocate-AllocatesPages starts
        (omega arith) in
    initialized.0

pool-IsAllocator : IsAllocator pool
unfolding bit_array_set shift_left bit_not
pool-IsAllocator =
    let taken =
      set-Changes full_pool (record { word = 0; offset = 1 }) false full_pool-IsAllocator
        (omega arith) (omega arith) in
    taken.valid

allocates_first : buffer_allocate pool ≡ some (8192, record pool { buffer_availability = 4 ∷ [] })
unfolding buffer_allocate bit_array_find_first skip_words first_in_word div_ceil
    count_trailing_zeros bit_broadcast bit_pos_to_index bit_array_set shift_left bit_not low_mask
allocates_first = refl

finish_size_run : finish_size 4096 one_cpu 5000 ≡ some 8192
unfolding finish_size round_up
finish_size_run = refl

buffer_allocate_example :
    (((i : ℕ) → i < 3 → is_free pool i ≡ false) × (buffer_allocate pool ≡ some (0, pool)))
    ⊎ ((i : ℕ) × Allocates pool i (buffer_allocate pool))
buffer_allocate_example = buffer_allocate_lem pool pool-IsAllocator

one_used : is_free pool 1 ≡ false
unfolding bit_at
one_used = refl

buffer_liberate_example :
    Liberates pool no_memory 1 (buffer_liberate pool no_memory (buffer_address pool 1))
buffer_liberate_example =
    buffer_liberate_lem pool no_memory 1 pool-IsAllocator (omega arith) one_used

liberates_one :
    buffer_liberate pool no_memory 12288 ≡ some (full_pool, memset no_memory 12288 0 4096)
unfolding buffer_liberate bit_array_get bit_array_set index_to_bit_pos shift_left
liberates_one = refl

buffer_allocator_initialize_example :
    IsAllocator full_pool
    × ((i : ℕ) → is_free full_pool i ≡ ltb i 3)
    × (memset no_memory 8192 0 12288 ≡ memset no_memory 8192 0 (4096 * 3))
buffer_allocator_initialize_example =
    buffer_allocator_initialize_lem realtime_allocate 4096 asks_for_three one_cpu no_memory
      (memset no_memory 8192 0 12288) full_pool realtime_allocate-AllocatesPages starts
      (omega arith)

buffer_allocator_finalize_example : ((i : ℕ) → i < 3 → is_free full_pool i ≡ true) ↔ (
    (b : BufferAllocator) × (buffer_allocator_finalize full_pool ≡ some (b, 8192, 12288))
    × (b.memory_pool ≡ 0)
    × (b.config.buffer_count ≡ 0)
    × (b.config.buffer_size ≡ 0)
    × ((i : ℕ) → i < 64 → is_free b i ≡ false))
buffer_allocator_finalize_example = buffer_allocator_finalize_lem full_pool full_pool-IsAllocator
