-- ===== src/Buffer.antt =====
-- src/buffer.c: the pool of network buffers over a bit array of availability.
-- Addresses are numbers, NULL is 0, and memory maps an address to its byte. The build is one
-- with assertions, so that buffer_liberate() clears the buffer.
pub mod Tuning
pub mod Invariant
pub mod Alloc
pub mod Liberate
pub mod Initialize
pub mod Finalize
mod Tests
use udipe.Prelude.{
  ℕ, ◌+◌, ◌-◌, ◌*◌, ◌/◌, ◌%◌, ◌^◌, Bool, true, false, not, ◌&&◌, Option, none, some, ltb, leb, ◌==◌,
  if◌then◌else◌, List, [], ◌∷◌, replicate,
}
use udipe.Prelude.Abort.{◌>>=◌, ◌>>◌, require}
use udipe.Words.Ops.{size_max, sub_size}
use udipe.Words.Rounding.{round_up}
use udipe.BitArray.Defs.{
  BitPos, bit_array_start, bit_array_words, bit_pos_to_index, index_to_bit_pos, bit_array_end,
  bit_array_get, bit_array_set, bit_array_range_set, bit_array_range_alleq, bit_array_find_first,
}

abbrev pub udipe_max_buffers : ℕ
udipe_max_buffers = 64

-- `udipe_buffer_config_t`, where 0 asks for a default.
pub record Config : Type 0 where
  pub buffer_size : ℕ
  pub buffer_count : ℕ

-- What hwloc says of the cache above one CPU of the thread's binding: its size, and the number of
-- cores that share it.
pub record CpuCache : Type 0 where
  pub size : ℕ
  pub weight : ℕ

-- The L1 and L2 caches, one entry for each CPU that the thread is bound to; `none` where hwloc
-- finds no such cache.
pub record Topology : Type 0 where
  pub l1 : List (Option CpuCache)
  pub l2 : List (Option CpuCache)

-- The loop of smallest_cache_capacity().
unfoldable pub min_capacity : List (Option CpuCache) → ℕ → Option ℕ
min_capacity [] min_size = some min_size
min_capacity (none ∷ cpus) min_size = none
min_capacity (some c ∷ cpus) min_size =
    let share = c.size / c.weight in
    let rest = min_capacity cpus (if ltb share min_size then share else min_size) in
    do require (ltb c.size size_max); require (leb 1 c.weight); rest

unfoldable pub smallest_cache_capacity : List (Option CpuCache) → Option ℕ
unfolding min_capacity
smallest_cache_capacity cpus = do
  min_size ← min_capacity cpus size_max
  require (ltb min_size size_max)
  some (8 * min_size % 2 ^ 64 / 10)

-- The buffer size that finish_configuration() settles on.
unfoldable pub finish_size : ℕ → Topology → ℕ → Option ℕ
finish_size page_size topology buffer_size = do
  size ← if buffer_size == 0 then smallest_cache_capacity topology.l1 else some buffer_size
  some (round_up page_size size)

-- The count that fits the L2 cache. Division by a size of 0 is a fault.
unfoldable pub tune_count : Topology → ℕ → Option ℕ
tune_count topology size = do
  pool_size ← smallest_cache_capacity topology.l2
  require (ltb 0 size)
  let tuned = pool_size / size + (if pool_size % size == 0 then 0 else 1)
  some (if leb tuned udipe_max_buffers then tuned else udipe_max_buffers)

-- The buffer count that it settles on for that size.
unfoldable pub finish_count : Topology → ℕ → ℕ → Option ℕ
unfolding tune_count
finish_count topology size buffer_count =
    if buffer_count == 0
    then tune_count topology size
    else if ltb udipe_max_buffers buffer_count
    then none
    else some buffer_count

unfoldable pub finish_configuration : ℕ → Topology → Config → Option Config
finish_configuration page_size topology config = do
  size ← finish_size page_size topology config.buffer_size
  count ← finish_count topology size config.buffer_count
  some (record { buffer_size = size; buffer_count = count })

-- `udipe_buffer_configurator_t`; a callback is a function of its context.
pub record Configurator : Type 0 where
  pub callback : Option (ℕ → Config)
  pub context : ℕ

-- `buffer_allocator_t`
pub record BufferAllocator : Type 0 where
  pub memory_pool : ℕ
  pub config : Config
  pub buffer_availability : List ℕ

abbrev pub Memory : Type 0
Memory = ℕ → ℕ

abbrev pub memset : Memory → ℕ → ℕ → ℕ → Memory
memset mem start value count =
    λ address. if leb start address && ltb address (start + count) then value else mem address

-- The configuration that buffer_allocator_initialize() starts from.
unfoldable pub obtain_config : Configurator → Option Config
obtain_config configurator = elim configurator.callback [
  | some callback ↦ some (callback configurator.context)
  | none ↦
      if configurator.context == 0
      then some (record { buffer_size = 0; buffer_count = 0 })
      else none
]

-- The availability array that buffer_allocator_initialize() sets up.
unfoldable pub initial_availability : ℕ → List ℕ
initial_availability count =
    bit_array_range_set
      (bit_array_range_set (replicate (bit_array_words udipe_max_buffers) 0) udipe_max_buffers
        bit_array_start (index_to_bit_pos count) true)
      udipe_max_buffers (index_to_bit_pos count) (bit_array_end udipe_max_buffers) false

-- `realtime_allocate` is the allocation of locked pages: it ends the process or returns an address.
unfoldable pub buffer_allocator_initialize :
    (ℕ → Option ℕ) → ℕ → Configurator → Topology → Memory → Option (BufferAllocator × Memory)
buffer_allocator_initialize realtime_allocate page_size configurator topology mem = do
  requested ← obtain_config configurator
  config ← finish_configuration page_size topology requested
  let pool_size = config.buffer_size * config.buffer_count % 2 ^ 64
  pool ← realtime_allocate pool_size
  require (not (pool == 0))
  some (
    record {
      memory_pool = pool;
      config = config;
      buffer_availability = initial_availability config.buffer_count;
    },
    memset mem pool 0 pool_size,
  )

-- With the allocator: the address and the size that realtime_liberate() is given.
unfoldable pub buffer_allocator_finalize : BufferAllocator → Option (BufferAllocator × ℕ × ℕ)
buffer_allocator_finalize a = do
  let buffers_end = index_to_bit_pos a.config.buffer_count
  require (
      bit_array_range_alleq a.buffer_availability udipe_max_buffers bit_array_start buffers_end
        true)
  some (
    record {
      memory_pool = 0;
      config = record { buffer_size = 0; buffer_count = 0 };
      buffer_availability =
          bit_array_range_set a.buffer_availability udipe_max_buffers bit_array_start buffers_end
            false;
    },
    a.memory_pool,
    a.config.buffer_size * a.config.buffer_count % 2 ^ 64,
  )

unfoldable pub buffer_liberate : BufferAllocator → Memory → ℕ → Option (BufferAllocator × Memory)
buffer_liberate a mem buffer = do
  require (not (a.memory_pool == 0))
  require (leb a.memory_pool buffer)
  let buffer_offset = sub_size buffer a.memory_pool
  require (ltb 0 a.config.buffer_size)
  require (buffer_offset % a.config.buffer_size == 0)
  let buffer_idx = buffer_offset / a.config.buffer_size
  require (ltb 0 a.config.buffer_count)
  require (ltb buffer_idx a.config.buffer_count)
  let buffer_bit = index_to_bit_pos buffer_idx
  require (not (bit_array_get a.buffer_availability udipe_max_buffers buffer_bit))
  some (
    record a {
      buffer_availability = bit_array_set a.buffer_availability udipe_max_buffers buffer_bit true;
    },
    memset mem buffer 0 a.config.buffer_size,
  )

-- The address is 0, which is NULL, where no buffer is available.
unfoldable pub buffer_allocate : BufferAllocator → Option (ℕ × BufferAllocator)
buffer_allocate a = do
  require (ltb 0 a.config.buffer_count)
  let buffer_bit = bit_array_find_first a.buffer_availability udipe_max_buffers true
  let buffer_idx = bit_pos_to_index buffer_bit
  let buffer_offset = buffer_idx * a.config.buffer_size % 2 ^ 64
  if buffer_bit.word == size_max
      then some (0, a)
      else require (not (a.memory_pool == 0))
        >> some (
          (a.memory_pool + buffer_offset) % 2 ^ 64,
          record a {
            buffer_availability =
                bit_array_set a.buffer_availability udipe_max_buffers buffer_bit false;
          },
        )
