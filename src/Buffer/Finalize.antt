-- ===== src/Buffer/Finalize.antt =====
-- buffer_allocator_finalize() only destroys an allocator that has all its buffers back.
use udipe.Prelude.{
  ◌*◌, ◌%◌, ◌^◌, ℕ, ◌≤◌, ◌<◌, ◌≡◌, ◌↔◌, refl, ◌∙◌, true, false, ◌&&◌, some, arith, ltb, leb,
  if◌then◌else◌,
}
use udipe.Prelude.Abort.{require-eq-some}
use udipe.BitArray.Defs.{
  index_to_bit_pos, bit_array_start, bit_array_range_set, bit_array_range_alleq,
}
use udipe.BitArray.Bits.{IsBitArray, IsPos}
use udipe.BitArray.Alleq.{linear, bit_array_range_alleq_lem}
use udipe.BitArray.RangeSet.{bit_array_range_set_lem}
use udipe.Buffer.{BufferAllocator, udipe_max_buffers, buffer_allocator_finalize}
use udipe.Buffer.Invariant.{is_free, IsAllocator}
use udipe.Buffer.Initialize.{index-IsPos, linear-index}

abbrev finalized : BufferAllocator → BufferAllocator
finalized a = record {
  memory_pool = 0;
  config = record { buffer_size = 0; buffer_count = 0 };
  buffer_availability =
      bit_array_range_set a.buffer_availability udipe_max_buffers bit_array_start
        (index_to_bit_pos a.config.buffer_count) false;
}

finalize-alleq :
    (a : BufferAllocator) {b : BufferAllocator × ℕ × ℕ}
    → buffer_allocator_finalize a ≡ some b
    → bit_array_range_alleq a.buffer_availability udipe_max_buffers bit_array_start
        (index_to_bit_pos a.config.buffer_count)
        true
      ≡ true
unfolding buffer_allocator_finalize
finalize-alleq a e = (require-eq-some _ _ e).0

-- On a well-formed allocator buffer_allocator_finalize() returns exactly where every buffer is
-- available; then it gives back the whole pool, drops it and the configuration, and leaves no
-- buffer available.
pub buffer_allocator_finalize_lem :
    (a : BufferAllocator)
    → IsAllocator a
    → ((i : ℕ) → i < a.config.buffer_count → is_free a i ≡ true) ↔ (
        (b : BufferAllocator) × (buffer_allocator_finalize a
          ≡ some (b, a.memory_pool, a.config.buffer_size * a.config.buffer_count))
        × (b.memory_pool ≡ 0)
        × (b.config.buffer_count ≡ 0)
        × (b.config.buffer_size ≡ 0)
        × ((i : ℕ) → i < udipe_max_buffers → is_free b i ≡ false))
buffer_allocator_finalize_lem a v = (
  λ all. (
    finalized a,
    unfold buffer_allocator_finalize in rw (all_set all, whole) refl,
    refl,
    refl,
    refl,
    λ i h. (cleared i).1 ∙ ground (arith, linear-index a.config.buffer_count, v.padding i),
  ),
  λ r i h. used r.1 i h,
)
  where
    whole :
        a.config.buffer_size * a.config.buffer_count % 2 ^ 64
        ≡ a.config.buffer_size * a.config.buffer_count
    whole = omega (arith, v.room)

    end_pos : IsPos (index_to_bit_pos a.config.buffer_count) 64
    end_pos = index-IsPos a.config.buffer_count v.count_max

    tested :
        (bit_array_range_alleq a.buffer_availability 64 bit_array_start
            (index_to_bit_pos a.config.buffer_count)
            true
          ≡ true)
        ↔ ((i : ℕ)
            → linear bit_array_start ≤ i
            → i < linear (index_to_bit_pos a.config.buffer_count)
            → is_free a i ≡ true)
    tested =
        bit_array_range_alleq_lem a.buffer_availability 64 bit_array_start
          (index_to_bit_pos a.config.buffer_count) true v.bits (omega arith) end_pos

    all_set :
        ((i : ℕ) → i < a.config.buffer_count → is_free a i ≡ true)
        → bit_array_range_alleq a.buffer_availability 64 bit_array_start
            (index_to_bit_pos a.config.buffer_count)
            true
          ≡ true
    all_set all = tested.1 λ i u w. all i (omega (arith, linear-index a.config.buffer_count))

    used :
        {b : BufferAllocator × ℕ × ℕ}
        → buffer_allocator_finalize a ≡ some b
        → (i : ℕ) → i < a.config.buffer_count
        → is_free a i ≡ true
    used e i h =
        tested.0 (finalize-alleq a e) i (omega arith)
          (omega (arith, linear-index a.config.buffer_count))

    cleared :
        (j : ℕ)
        → IsBitArray (finalized a).buffer_availability 64
          × (is_free (finalized a) j ≡ (
              if leb (linear bit_array_start) j
                && ltb j (linear (index_to_bit_pos a.config.buffer_count))
              then false
              else is_free a j))
    cleared j =
        bit_array_range_set_lem a.buffer_availability 64 bit_array_start
          (index_to_bit_pos a.config.buffer_count) false j v.bits (omega arith) end_pos
