-- ===== src/Buffer/Tuning.antt =====
-- smallest_cache_capacity() and finish_configuration(): the sizes and counts that they settle on.
use udipe.Prelude.{
  ℕ, ◌+◌, ◌*◌, ◌/◌, ◌%◌, ◌^◌, ◌≤◌, ◌<◌, ◌≡◌, ◌≢◌, ◌⊎◌, inl, Option, some, none, List, [], ◌∷◌,
  arith, ltb, leb,
}
use udipe.Prelude.Abort.{require, >>=-eq-some}
use udipe.Words.Rounding.{round_up_lem}
use udipe.Words.Ops.{size_max}
use udipe.Buffer.{
  CpuCache, Topology, udipe_max_buffers, min_capacity, smallest_cache_capacity, finish_size,
  finish_count,
}

-- `limit` is at most the fair share of each CPU.
abbrev pub WithinShares : ℕ → List (Option CpuCache) → Type 0
WithinShares limit [] = Unit {0}
WithinShares limit (none ∷ cpus) = ⊥
WithinShares limit (some c ∷ cpus) = (limit ≤ c.size / c.weight) × WithinShares limit cpus

-- `share` is the fair share of one CPU.
abbrev pub IsShare : ℕ → List (Option CpuCache) → Type 0
IsShare share [] = ⊥
IsShare share (none ∷ cpus) = IsShare share cpus
IsShare share (some c ∷ cpus) = (share ≡ c.size / c.weight) ⊎ IsShare share cpus

-- The loop returns the least of the shares and the number that it starts from.
min_capacity_lem :
    (cpus : List (Option CpuCache)) (min_size : ℕ) {r : ℕ}
    → min_capacity cpus min_size ≡ some r
    → (r ≤ min_size) × WithinShares r cpus × ((r ≡ min_size) ⊎ IsShare r cpus)
unfolding min_capacity
min_capacity_lem [] min_size e = (ground arith, tt, inl (ground arith))
min_capacity_lem (none ∷ cpus) min_size e = cc
min_capacity_lem (some c ∷ cpus) min_size e =
    let (t, p, rest) = >>=-eq-some (require (ltb c.size size_max)) _ e in
    let (u, q, more) = >>=-eq-some (require (leb 1 c.weight)) _ rest in
    let (below, within, least) = min_capacity_lem cpus _ more in
    (ground arith, (ground arith, within), ground arith)

-- Where smallest_cache_capacity() returns, the result is 80% of the least fair share `m` among the
-- CPUs of the thread, computed in 64 bits, and so never more than 80% of it.
pub smallest_cache_capacity_lem :
    (cpus : List (Option CpuCache)) {r : ℕ}
    → smallest_cache_capacity cpus ≡ some r
    → (m : ℕ) × WithinShares m cpus × IsShare m cpus × (10 * r ≤ 8 * m) × (r ≡ 8 * m % 2 ^ 64 / 10)
unfolding smallest_cache_capacity
smallest_cache_capacity_lem cpus e =
    let (m, found, rest) = >>=-eq-some (min_capacity cpus size_max) _ e in
    let (t, p, last) = >>=-eq-some (require (ltb m size_max)) _ rest in
    let (below, within, least) = min_capacity_lem cpus size_max found in
    (m, within, ground arith, ground arith, ground arith)

-- A requested buffer size above 0 is rounded up to the least multiple of the page size that is not
-- below it, where the request and one more page fit a `size_t`.
pub finish_size_lem :
    (page_size : ℕ) (topology : Topology) (buffer_size : ℕ) {size : ℕ}
    → 0 < page_size
    → buffer_size + page_size < 2 ^ 64
    → buffer_size ≢ 0
    → finish_size page_size topology buffer_size ≡ some size
    → (size % page_size ≡ 0) × (buffer_size ≤ size) × (size < buffer_size + page_size)
unfolding finish_size
finish_size_lem page_size topology buffer_size pos fits nz e =
    ground (arith, round_up_lem page_size buffer_size pos fits)

-- The buffer count never exceeds the number of buffers that the bit array tracks, and is the
-- requested one if there is one.
pub finish_count_lem :
    (topology : Topology) (size buffer_count : ℕ) {count : ℕ}
    → finish_count topology size buffer_count ≡ some count
    → (count ≤ udipe_max_buffers) × (buffer_count ≢ 0 → count ≡ buffer_count)
unfolding finish_count
finish_count_lem topology size buffer_count e = (ground arith, λ h. ground arith)
