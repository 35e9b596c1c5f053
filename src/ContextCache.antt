-- ===== src/ContextCache.antt =====
-- src/future/allocator/context_cache.c and .h: the list of the thread caches that a context knows.
-- Caches are numbers, realloc() is a parameter, and `none` is a failed assertion, an access out of
-- bounds, or the end of the process without memory. The mutex is held for all of a registration.
mod Registry
mod Finalize
mod Tests
use udipe.Prelude.{
  ℕ, zero, suc, ◌+◌, ◌*◌, ◌/◌, ◌%◌, ◌^◌, List, [], ◌∷◌, Option, none, some, ◌==◌, leb,
  if◌then◌else◌,
}
use udipe.Prelude.Abort.{◌>>=◌, ◌>>◌, require}
use udipe.Prelude.Access.{read, write}

-- The members of future_context_cache_t about thread caches; a NULL array is `none`.
pub record ContextCache : Type 0 where
  pub thread_caches : Option (List ℕ)
  pub thread_caches_length : ℕ
  pub thread_caches_capacity : ℕ

-- malloc() is given the number of bytes.
unfoldable pub future_context_cache_initialize : (ℕ → Option (List ℕ)) → ℕ → Option ContextCache
future_context_cache_initialize malloc page_size = malloc (page_size / 8 * 8) >>= λ array.
    some (record {
      thread_caches = some array;
      thread_caches_length = 0;
      thread_caches_capacity = page_size / 8;
    })

-- The doubling of a full list.
unfoldable pub grow : (List ℕ → ℕ → Option (List ℕ)) → List ℕ → ContextCache → Option ContextCache
grow realloc array cache =
    let capacity = cache.thread_caches_capacity * 2 % 2 ^ 64 in
    realloc array (capacity * 8 % 2 ^ 64) >>= λ grown. some (record {
      thread_caches = some grown;
      thread_caches_length = cache.thread_caches_length;
      thread_caches_capacity = capacity;
    })

unfoldable pub future_context_cache_register_thread :
    (List ℕ → ℕ → Option (List ℕ)) → ContextCache → ℕ → Option ContextCache
future_context_cache_register_thread realloc cache thread_cache = cache.thread_caches >>= λ array.
    require (leb cache.thread_caches_length cache.thread_caches_capacity)
    >> (if cache.thread_caches_length == cache.thread_caches_capacity
        then grow realloc array cache
        else some cache)
    >>= λ roomy. roomy.thread_caches >>= λ slots.
        write slots roomy.thread_caches_length thread_cache >>= λ written. some (record {
          thread_caches = some written;
          thread_caches_length = roomy.thread_caches_length + 1;
          thread_caches_capacity = roomy.thread_caches_capacity;
        })

-- The loop of future_context_cache_finalize_threads(), from index `i` on for `n` caches: the caches
-- that it finalizes.
unfoldable pub finalize_each : ℕ → ℕ → List ℕ → Option (List ℕ)
finalize_each zero i array = some []
finalize_each (suc n) i array = read array i >>= λ thread_cache.
    finalize_each n (i + 1) array >>= λ rest. some (thread_cache ∷ rest)

unfoldable pub future_context_cache_finalize_threads : ContextCache → Option (List ℕ × ContextCache)
future_context_cache_finalize_threads cache = cache.thread_caches >>= λ array.
    require (leb cache.thread_caches_length cache.thread_caches_capacity)
    >> finalize_each cache.thread_caches_length 0 array
    >>= λ finalized. some (
      finalized,
      record { thread_caches = none; thread_caches_length = 0; thread_caches_capacity = 0 },
    )
