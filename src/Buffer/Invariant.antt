-- ===== src/Buffer/Invariant.antt =====
-- When a buffer allocator is well formed, and which buffers it holds.
use udipe.Prelude.{ℕ, ◌+◌, ◌*◌, ◌^◌, ◌≤◌, ◌<◌, ◌≡◌, Bool, false, arith, if◌then◌else◌, ◌==◌}
use udipe.BitArray.Bits.{bit_at, IsBitArray}
use udipe.Buffer.{BufferAllocator, udipe_max_buffers}

-- Whether buffer `i` is available.
abbrev pub is_free : BufferAllocator → ℕ → Bool
is_free a i = bit_at a.buffer_availability i

abbrev pub buffer_address : BufferAllocator → ℕ → ℕ
buffer_address a i = a.memory_pool + i * a.config.buffer_size

pub record IsAllocator (a : BufferAllocator) : Type 0 where
  pub bits : IsBitArray a.buffer_availability udipe_max_buffers
  pub padding : (i : ℕ) → a.config.buffer_count ≤ i → i < udipe_max_buffers → is_free a i ≡ false
  pub count_pos : 0 < a.config.buffer_count
  pub count_max : a.config.buffer_count ≤ udipe_max_buffers
  pub size_pos : 0 < a.config.buffer_size
  pub pool_pos : 0 < a.memory_pool
  pub room : a.memory_pool + a.config.buffer_count * a.config.buffer_size < 2 ^ 64

-- `b` is `a` with the availability of buffer `i` set to `value`, and no other change.
pub record Changes (a : BufferAllocator) (i : ℕ) (value : Bool) (b : BufferAllocator) : Type 0 where
  pub valid : IsAllocator b
  pub same_pool : b.memory_pool ≡ a.memory_pool
  pub same_config : b.config ≡ a.config
  pub bits : (j : ℕ) → is_free b j ≡ (if j == i then value else is_free a j)

-- Each buffer lies inside the pool.
pub buffer_in_pool :
    (a : BufferAllocator) (i : ℕ)
    → i < a.config.buffer_count
    → i * a.config.buffer_size + a.config.buffer_size ≤ a.config.buffer_count * a.config.buffer_size
buffer_in_pool a i h = grind arith
