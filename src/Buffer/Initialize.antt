-- ===== src/Buffer/Initialize.antt =====
-- buffer_allocator_initialize(): a new allocator is well formed and all its buffers are available.
use native.Mathlib.Nat.{mul-zero, zero-mul}
use udipe.Prelude.{
  ℕ, zero, suc, ◌+◌, ◌*◌, ◌/◌, ◌%◌, ◌^◌, ◌≤◌, ◌<◌, ◌≡◌, ◌≢◌, refl, sym, ap, ◌∙◌, true, false, not,
  ◌&&◌, Option, some, none, List, arith, ltb, leb, ◌==◌, if◌then◌else◌, get_or, replicate,
}
use udipe.Prelude.Abort.{>>=-eq-some, require-eq-some}
use udipe.Words.Ops.{div_ceil}
use udipe.Words.Bit.{test_bit-zero}
use udipe.BitArray.Defs.{
  bit_array_words, index_to_bit_pos, bit_array_start, bit_array_end, bit_array_range_set,
}
use udipe.BitArray.Bits.{bit_at, IsBitArray, IsPos}
use udipe.BitArray.Alleq.{linear}
use udipe.BitArray.RangeSet.{bit_array_range_set_lem}
use udipe.Buffer.{
  BufferAllocator, Config, Configurator, Topology, Memory, memset, udipe_max_buffers,
  initial_availability, obtain_config, finish_configuration, finish_size, finish_count,
  buffer_allocator_initialize,
}
use udipe.Buffer.Invariant.{is_free, IsAllocator}
use udipe.Buffer.Tuning.{finish_count_lem}

get_or-replicate : (n i : ℕ) → get_or {A = ℕ} (replicate n 0) i 0 ≡ 0
get_or-replicate zero i = refl
get_or-replicate (suc n) zero = refl
get_or-replicate (suc n) (suc i) = get_or-replicate n i

blank : List ℕ
blank = replicate (bit_array_words udipe_max_buffers) 0

blank-IsBitArray : IsBitArray blank 64
unfolding blank div_ceil
blank-IsBitArray = record {
  fits = omega arith;
  small = omega arith;
  bounded = λ w. omega (arith, get_or-replicate 1 w);
}

blank_bit : (j : ℕ) → bit_at blank j ≡ false
unfolding blank bit_at
blank_bit j =
    rw (get_or-replicate (bit_array_words udipe_max_buffers) (j / 64)) (test_bit-zero (j % 64))

pub index-IsPos : (count : ℕ) → count ≤ 64 → IsPos (index_to_bit_pos count) 64
unfolding index_to_bit_pos
index-IsPos count h = record { inside = omega arith; before = omega arith }

pub linear-index : (count : ℕ) → linear (index_to_bit_pos count) ≡ count
unfolding index_to_bit_pos
linear-index count = omega arith

-- Initially the first `count` buffers are available, and the padding is not.
initial_availability_lem :
    (count : ℕ)
    → count ≤ 64
    → IsBitArray (initial_availability count) 64
      × ((j : ℕ) → bit_at (initial_availability count) j ≡ ltb j count)
unfolding initial_availability bit_array_end div_ceil blank
initial_availability_lem count h = (
  (second 0).0,
  λ j. (second j).1 ∙ ground (arith, (first j).1, blank_bit j, linear-index count, linear-index 64),
)
  where
    filled : List ℕ
    filled = bit_array_range_set blank 64 bit_array_start (index_to_bit_pos count) true

    first :
        (j : ℕ)
        → IsBitArray filled 64
          × (bit_at filled j ≡ (
              if leb (linear bit_array_start) j && ltb j (linear (index_to_bit_pos count))
              then true
              else bit_at blank j))
    first j =
        bit_array_range_set_lem blank 64 bit_array_start (index_to_bit_pos count) true j
          blank-IsBitArray (omega arith) (index-IsPos count h)

    second :
        (j : ℕ)
        → IsBitArray
            (bit_array_range_set filled 64 (index_to_bit_pos count) (index_to_bit_pos 64) false)
            64
          × (bit_at
                (bit_array_range_set filled 64 (index_to_bit_pos count) (index_to_bit_pos 64) false)
                j
              ≡ (if leb (linear (index_to_bit_pos count)) j && ltb j (linear (index_to_bit_pos 64))
                  then false
                  else bit_at filled j))
    second j =
        bit_array_range_set_lem filled 64 (index_to_bit_pos count) (index_to_bit_pos 64) false j
          (first 0).0 (index-IsPos count h).inside (index-IsPos 64 (omega arith))

-- What realtime_allocate() promises: it refuses a size of 0, and the pages that it returns are
-- not at address 0 and lie within the address space.
pub record AllocatesPages (realtime_allocate : ℕ → Option ℕ) : Type 0 where
  pub refuses_zero : realtime_allocate 0 ≡ none
  pub placed : (size p : ℕ) → realtime_allocate size ≡ some p → (0 < p) × (p + size < 2 ^ 64)

-- The parts of an initialisation that returns.
record Initialized (realtime_allocate : ℕ → Option ℕ) (page_size : ℕ) (topology : Topology)
    (requested : Config) (mem mem' : Memory) (a : BufferAllocator) : Type 0 where
  configured : finish_configuration page_size topology requested ≡ some a.config
  allocated :
      realtime_allocate (a.config.buffer_size * a.config.buffer_count % 2 ^ 64) ≡ some a.memory_pool
  available : a.buffer_availability ≡ initial_availability a.config.buffer_count
  cleared :
      mem' ≡ memset mem a.memory_pool 0 (a.config.buffer_size * a.config.buffer_count % 2 ^ 64)

initialize-Initialized :
    (realtime_allocate : ℕ → Option ℕ) (page_size : ℕ) (configurator : Configurator)
    (topology : Topology) (mem mem' : Memory) (a : BufferAllocator)
    → buffer_allocator_initialize realtime_allocate page_size configurator topology mem
      ≡ some (a, mem')
    → (requested : Config) × (obtain_config configurator ≡ some requested)
      × Initialized realtime_allocate page_size topology requested mem mem' a
unfolding buffer_allocator_initialize
initialize-Initialized alloc page_size configurator topology mem mem' a e =
    let (requested, p, rest) = >>=-eq-some (obtain_config configurator) _ e in
    let (config, q, more) =
      >>=-eq-some (finish_configuration page_size topology requested) _ rest in
    let (pool, r, last) =
      >>=-eq-some (alloc (config.buffer_size * config.buffer_count % 2 ^ 64)) _ more in
    let (t, done) = require-eq-some (not (pool == 0)) _ last in (requested, p, ground arith)

finish_configuration-count :
    (page_size : ℕ) (topology : Topology) (requested config : Config)
    → finish_configuration page_size topology requested ≡ some config
    → (config.buffer_count ≤ udipe_max_buffers)
      × (requested.buffer_count ≢ 0 → config.buffer_count ≡ requested.buffer_count)
unfolding finish_configuration
finish_configuration-count page_size topology requested config e =
    let (size, p, rest) = >>=-eq-some (finish_size page_size topology requested.buffer_size) _ e in
    let (count, q, same) = >>=-eq-some (finish_count topology size requested.buffer_count) _ rest in
    let bounds = finish_count_lem topology size requested.buffer_count q in ground arith

nonzero-factor : (m n : ℕ) → m * n ≢ 0 → (0 < m) × (0 < n)
nonzero-factor zero n h = absurd (h (zero-mul n))
nonzero-factor (suc m) zero h = absurd (h (mul-zero (suc m)))
nonzero-factor (suc m) (suc n) h = (omega arith, omega arith)

initialize_from :
    (realtime_allocate : ℕ → Option ℕ) (page_size : ℕ) (topology : Topology) (requested : Config)
    (mem mem' : Memory) (a : BufferAllocator)
    → AllocatesPages realtime_allocate
    → Initialized realtime_allocate page_size topology requested mem mem' a
    → a.config.buffer_size * a.config.buffer_count < 2 ^ 64
    → IsAllocator a
      × ((i : ℕ) → is_free a i ≡ ltb i a.config.buffer_count)
      × (mem' ≡ memset mem a.memory_pool 0 (a.config.buffer_size * a.config.buffer_count))
initialize_from alloc page_size topology requested mem mem' a pages parts fits = (
  record {
    bits = rw (parts.available) setup.0;
    padding = λ i p q. free i ∙ ground arith;
    count_pos = (nonzero-factor a.config.buffer_size a.config.buffer_count nonzero).1;
    count_max = count_max;
    size_pos = (nonzero-factor a.config.buffer_size a.config.buffer_count nonzero).0;
    pool_pos = place.0;
    room = omega (arith, place.1);
  },
  free,
  parts.cleared ∙ rw (whole) refl,
)
  where
    count_max : a.config.buffer_count ≤ 64
    count_max =
        (finish_configuration-count page_size topology requested a.config parts.configured).0

    setup :
        IsBitArray (initial_availability a.config.buffer_count) 64
        × ((j : ℕ)
            → bit_at (initial_availability a.config.buffer_count) j ≡ ltb j a.config.buffer_count)
    setup = initial_availability_lem a.config.buffer_count count_max

    free : (i : ℕ) → is_free a i ≡ ltb i a.config.buffer_count
    free i = rw (parts.available) (setup.1 i)

    whole :
        a.config.buffer_size * a.config.buffer_count % 2 ^ 64
        ≡ a.config.buffer_size * a.config.buffer_count
    whole = omega arith

    got : alloc (a.config.buffer_size * a.config.buffer_count) ≡ some a.memory_pool
    got = rw (sym whole) parts.allocated

    place :
        (0 < a.memory_pool)
        × (a.memory_pool + a.config.buffer_size * a.config.buffer_count < 2 ^ 64)
    place = pages.placed (a.config.buffer_size * a.config.buffer_count) a.memory_pool got

    nonzero : a.config.buffer_size * a.config.buffer_count ≢ 0
    nonzero z = let clash = sym got ∙ ap alloc z ∙ pages.refuses_zero in ground arith

-- Where buffer_allocator_initialize() returns, with pages that lie in the address space and a pool
-- whose size does not wrap, the allocator is well formed, all its buffers are available and no
-- others, and exactly the bytes of the pool are cleared.
pub buffer_allocator_initialize_lem :
    (realtime_allocate : ℕ → Option ℕ) (page_size : ℕ) (configurator : Configurator)
    (topology : Topology) (mem mem' : Memory) (a : BufferAllocator)
    → AllocatesPages realtime_allocate
    → buffer_allocator_initialize realtime_allocate page_size configurator topology mem
      ≡ some (a, mem')
    → a.config.buffer_size * a.config.buffer_count < 2 ^ 64
    → IsAllocator a
      × ((i : ℕ) → is_free a i ≡ ltb i a.config.buffer_count)
      × (mem' ≡ memset mem a.memory_pool 0 (a.config.buffer_size * a.config.buffer_count))
buffer_allocator_initialize_lem alloc page_size configurator topology mem mem' a pages e fits =
    let (requested, p, parts) =
      initialize-Initialized alloc page_size configurator topology mem mem' a e in
    initialize_from alloc page_size topology requested mem mem' a pages parts fits
