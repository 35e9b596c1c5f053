-- ===== src/Allocator/Liberate.antt =====
-- Giving a future back always succeeds, and loses no future.
use mathlib.Core.Path.{subst}
use udipe.Prelude.{
  ℕ, ◌^◌, ◌<◌, ◌≡◌, ◌≢◌, inl, inr, sym, some, List, [], ◌∷◌, arith, true, false, length,
}
use udipe.Prelude.Abort.{>>=-some}
use udipe.PointerCache.{Heap, PointerCache}
use udipe.PointerCache.Local.{future_pointer_cache_liberate_local}
use udipe.PointerCache.Links.{append_nil, Outside}
use udipe.PointerCache.Order.{Disjoint}
use udipe.PointerCache.Contents.{Chain, page, stack, onto}
use udipe.PointerCache.Splice.{IsCache-Frames}
use udipe.PointerCache.Liberate.{future_pointer_cache_liberate_local_lem}
use udipe.Allocator.{Caches, future_liberate_uninitialized, spill_page}
use udipe.Allocator.Spill.{GivesBack, spilled}
use udipe.Allocator.Disjoint.{Disjoint-sym, IsAllocator}

module _ (capacity : ℕ) (pos : 0 < capacity) (small : capacity < 2 ^ 63) (fresh : ℕ)
    (state : Caches) (future : ℕ) (real : future ≢ 0) where
  fits :
      (heap : Heap) (local : PointerCache)
      → future_pointer_cache_liberate_local capacity state.heap state.local future
        ≡ some (true, heap, local)
      → future_liberate_uninitialized capacity (some fresh) state future
        ≡ some
            (record { heap = heap; local = local; global = state.global; storage = state.storage })
  unfolding future_liberate_uninitialized
  fits heap local call =
      >>=-some (future_pointer_cache_liberate_local capacity state.heap state.local future) _ call

  overflows :
      future_pointer_cache_liberate_local capacity state.heap state.local future
        ≡ some (false, state.heap, state.local)
      → future_liberate_uninitialized capacity (some fresh) state future
        ≡ spill_page capacity (some fresh) state.heap state.local state future
  unfolding future_liberate_uninitialized
  overflows call =
      >>=-some (future_pointer_cache_liberate_local capacity state.heap state.local future) _ call

  -- Where the thread has a page, pages have at least one and fewer than 2^63 slots, the caches are
  -- well-formed and share no page, the future is not NULL, and malloc() would give a new address,
  -- future_liberate_uninitialized() succeeds. It resets the future and puts it on top of the
  -- thread's stack. It may move a lower part of that stack to the bottom of the context's stack,
  -- in the same order, and no future is lost or doubled. The caches stay well-formed and apart.
  pub future_liberate_uninitialized_lem :
      (a : ℕ) (held : List ℕ) (below : Chain) (la : List ℕ) (gu : Chain) (ga : List ℕ)
      → IsAllocator capacity state (page a held below) la gu ga
      → Outside fresh (onto (page a held below) la)
      → Outside fresh (onto gu ga)
      → GivesBack capacity
          (future_liberate_uninitialized capacity (some fresh) state future)
          future
          (stack (page a held below))
          (stack gu)
  future_liberate_uninitialized_lem a held below la gu ga v out_local out_global =
      elim (future_pointer_cache_liberate_local_lem capacity pos state.heap state.local future real
        a held below la v.local_cache) [
          | inl (heap, local, used, above, call, cache, top, reset, same, frames) ↦ (
            record { heap = heap; local = local; global = state.global; storage = state.storage },
            used,
            above,
            gu,
            ga,
            fits heap local call,
            record {
              local_cache = cache;
              global_cache =
                  IsCache-Frames capacity state.heap heap state.global gu ga
                    (onto (page a held below) la) frames
                    (Disjoint-sym (onto (page a held below) la) (onto gu ga) v.apart)
                    v.global_cache;
              apart = subst (λ p. Disjoint p (onto gu ga)) (sym same) v.apart;
            },
            (
              stack (page a held below),
              [],
              sym (append_nil (stack (page a held below))),
              top,
              sym (append_nil (stack gu)),
            ),
            reset,
          )
          | inr refused ↦
              subst (λ r. GivesBack capacity r future (stack (page a held below)) (stack gu))
                (sym (overflows (refused.0))) (at_full held v out_local (refused.1))
        ]
    where
      at_full :
          (h : List ℕ)
          → IsAllocator capacity state (page a h below) la gu ga
          → Outside fresh (onto (page a h below) la)
          → length h ≡ capacity
          → GivesBack capacity
              (spill_page capacity (some fresh) state.heap state.local state future)
              future
              (stack (page a h below))
              (stack gu)
      at_full [] w out full = absurd (omega arith)
      at_full (g ∷ h) w out full =
          spilled capacity pos small fresh state future real a g h below la gu ga full w out
            out_global
