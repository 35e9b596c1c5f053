-- ===== src/Buffer/Liberate.antt =====
-- buffer_liberate() takes back exactly the buffers that are in use.
use native.Mathlib.Nat.{mul-mod_left, mul-div_cancel, div-add-mod'}
use udipe.Prelude.{
  ℕ, ◌*◌, ◌/◌, ◌%◌, ◌^◌, ◌≤◌, ◌<◌, ◌≡◌, sym, ap, ◌∙◌, lt→ltb, true, false, not, Option, some, arith,
  leb, ◌==◌,
}
use udipe.Words.Ops.{sub_size}
use udipe.BitArray.Defs.{index_to_bit_pos, bit_array_set, bit_array_get}
use udipe.BitArray.Bits.{bit_at, index_to_bit_pos-IsPos, bit_pos_to_index-index_to_bit_pos}
use udipe.BitArray.Access.{bit_array_get_lem}
use udipe.BitArray.Alleq.{linear}
use udipe.Buffer.{BufferAllocator, Memory, memset, udipe_max_buffers, buffer_liberate}
use udipe.Buffer.Invariant.{is_free, buffer_address, IsAllocator, Changes, buffer_in_pool}
use udipe.Buffer.Alloc.{set-Changes}

-- What a successful liberation does.
pub record Liberates (a : BufferAllocator) (mem : Memory) (i : ℕ)
    (result : Option (BufferAllocator × Memory)) : Type 0 where
  pub next : BufferAllocator
  pub returns : result ≡ some (next, memset mem (buffer_address a i) 0 a.config.buffer_size)
  pub change : Changes a i true next

linear-index_to_bit_pos : (i : ℕ) → linear (index_to_bit_pos i) ≡ i
unfolding index_to_bit_pos
linear-index_to_bit_pos i = omega arith

-- The availability that buffer_liberate() reads.
get_free :
    (a : BufferAllocator) (i : ℕ)
    → i < 64
    → bit_array_get a.buffer_availability udipe_max_buffers (index_to_bit_pos i) ≡ is_free a i
get_free a i h =
    bit_array_get_lem a.buffer_availability 64 (index_to_bit_pos i) (omega arith) (record {
      inside = (index_to_bit_pos-IsPos i).inside;
      before = omega (arith, (index_to_bit_pos-IsPos i).before);
    })
    ∙ ap (bit_at a.buffer_availability) (bit_pos_to_index-index_to_bit_pos i (omega arith))

-- On a well-formed allocator, liberating the address of a buffer of the pool that is in use
-- succeeds: it makes that buffer available, changes nothing else of the allocator, and clears the
-- bytes of the buffer and no others.
pub buffer_liberate_lem :
    (a : BufferAllocator) (mem : Memory) (i : ℕ)
    → IsAllocator a
    → i < a.config.buffer_count
    → is_free a i ≡ false
    → Liberates a mem i (buffer_liberate a mem (buffer_address a i))
buffer_liberate_lem a mem i v h used = record {
  next = record a {
    buffer_availability =
        bit_array_set a.buffer_availability udipe_max_buffers (index_to_bit_pos i) true;
  };
  returns =
      unfold buffer_liberate in
      rw (
        pool_ok,
        above,
        lt→ltb 0 a.config.buffer_size v.size_pos,
        offset,
        mul-mod_left i a.config.buffer_size,
        index,
        lt→ltb 0 a.config.buffer_count v.count_pos,
        lt→ltb i a.config.buffer_count h,
        get_free a i (omega (arith, v.count_max)),
        used,
      );
  change = rw (linear-index_to_bit_pos i) at (
      set-Changes a (index_to_bit_pos i) true v (index_to_bit_pos-IsPos i).inside
        (rw (linear-index_to_bit_pos i) h));
}
  where
    pool_ok : not (a.memory_pool == 0) ≡ true
    pool_ok = ground (arith, v.pool_pos)

    above : leb a.memory_pool (buffer_address a i) ≡ true
    above = ground arith

    offset : sub_size (buffer_address a i) a.memory_pool ≡ i * a.config.buffer_size
    offset = omega (arith, buffer_in_pool a i h, v.room)

    index : i * a.config.buffer_size / a.config.buffer_size ≡ i
    index = mul-div_cancel i v.size_pos

-- The tests that an address has passed once buffer_liberate() returns.
buffer_liberate_tests :
    (a : BufferAllocator) (mem : Memory) (buffer : ℕ) {b : BufferAllocator} {mem' : Memory}
    → buffer_liberate a mem buffer ≡ some (b, mem')
    → let offset = sub_size buffer a.memory_pool in
      (a.memory_pool ≤ buffer)
      × (offset % a.config.buffer_size ≡ 0)
      × (offset / a.config.buffer_size < a.config.buffer_count)
      × (bit_array_get a.buffer_availability udipe_max_buffers
            (index_to_bit_pos (offset / a.config.buffer_size))
          ≡ false)
unfolding buffer_liberate
buffer_liberate_tests a mem buffer e = ground arith

-- On a well-formed allocator buffer_liberate() returns only for the address of a buffer of the
-- pool that is in use: with any other address, also one that was already liberated, it ends the
-- process.
pub buffer_liberate_only :
    (a : BufferAllocator) (mem : Memory) (buffer : ℕ) {b : BufferAllocator} {mem' : Memory}
    → IsAllocator a
    → buffer < 2 ^ 64
    → buffer_liberate a mem buffer ≡ some (b, mem')
    → (i : ℕ) × (i < a.config.buffer_count) × (buffer ≡ buffer_address a i) × (is_free a i ≡ false)
buffer_liberate_only a mem buffer v word e =
    let t = buffer_liberate_tests a mem buffer e in
    let i = sub_size buffer a.memory_pool / a.config.buffer_size in
    (
      i,
      t.2,
      omega (arith, div-add-mod' (sub_size buffer a.memory_pool) a.config.buffer_size, t.0, t.1),
      sym (get_free a i (omega (arith, t.2, v.count_max))) ∙ t.3,
    )
