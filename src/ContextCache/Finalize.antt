-- ===== src/ContextCache/Finalize.antt =====
-- The end of a context visits every registered thread cache.
use udipe.Prelude.{
  ℕ, suc, ◌+◌, ◌≤◌, ◌<◌, ◌≡◌, refl, ◌∙◌, ap, List, [], ◌∷◌, none, some, arith, le→leb, length,
  get_or,
}
use udipe.Prelude.Access.{read-eq}
use udipe.ContextCache.{ContextCache, finalize_each, future_context_cache_finalize_threads}
use udipe.ContextCache.Registry.{IsRegistry}

finalize_each-eq :
    (array threads : List ℕ) (i : ℕ)
    → i + length threads ≤ length array
    → ((k : ℕ) → k < length threads → get_or array (i + k) 0 ≡ get_or threads k 0)
    → finalize_each (length threads) i array ≡ some threads
unfolding finalize_each
finalize_each-eq array [] i room entries = refl
finalize_each-eq array (thread ∷ threads) i room entries =
    rw
      (
        read-eq array i 0 (omega arith),
        here,
        finalize_each-eq array threads (i + 1) (omega arith)
            (λ k lt. ap (λ j. get_or array j 0) (next i k) ∙ entries (suc k) (omega arith)),
      )
      refl
  where
    at_start : (n : ℕ) → n ≡ n + 0
    at_start n = omega arith

    next : (n k : ℕ) → n + 1 + k ≡ n + suc k
    next n k = omega arith

    here : get_or array i 0 ≡ thread
    here = ap (λ j. get_or array j 0) (at_start i) ∙ entries 0 (omega arith)

-- Finalizing the threads of a context cache succeeds, finalizes every registered thread cache
-- exactly once, in the order of registration, and leaves no list.
pub future_context_cache_finalize_threads_lem :
    (cache : ContextCache) (array threads : List ℕ)
    → IsRegistry cache array threads
    → future_context_cache_finalize_threads cache
      ≡ some (
        threads,
        record { thread_caches = none; thread_caches_length = 0; thread_caches_capacity = 0 },
      )
unfolding future_context_cache_finalize_threads
future_context_cache_finalize_threads_lem cache array threads valid =
    rw
      (
        future_context_cache_finalize_threads,
        valid.stored,
        le→leb cache.thread_caches_length cache.thread_caches_capacity valid.within,
        valid.counted,
        finalize_each-eq array threads 0 (omega (arith, valid.counted, valid.within, valid.room))
            (λ k lt. ap (λ j. get_or array j 0) (from_zero k) ∙ valid.entries k lt),
      )
      refl
  where
    from_zero : (k : ℕ) → 0 + k ≡ k
    from_zero k = omega arith
