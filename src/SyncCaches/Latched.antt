-- ===== src/SyncCaches/Latched.antt =====
-- The cache of latched inpolls is a stack of four pairs that forgets the oldest one.
use udipe.Prelude.{
  ℕ, zero, suc, ◌≤◌, ◌≡◌, refl, ◌∙◌, ap, lt→ltb, List, [], ◌∷◌, none, some, arith, length,
  replicate, drop,
}
use udipe.Prelude.Access.{read, write}
use udipe.SyncCaches.{
  event_cache_capacity, event_cache_liberate, finalize_loop, LatchedInpollCache,
  latched_inpoll_cache_allocate, latched_inpoll_cache_liberate, latched_inpoll_cache_finalize,
}
use udipe.SyncCaches.Stack.{
  IsStack, ring, below, above, take, oldest, ring-Pops, ring-Pushes, ring-empty, oldest-drop,
  above-inside, finalize_loop-eq, Pops, Pushes, first, popped, pushed, pushed-IsStack,
  popped-IsStack, event_cache_allocate-eq, event_cache_liberate-eq, event_cache_finalize-IsStack,
}

-- A cache that holds the pairs of the inpolls and the events of two lists, in their order.
pub record IsLatched (cache : LatchedInpollCache) (inpolls events : List ℕ) : Type 0 where
  pub event_stack : IsStack cache.event_cache events
  pub together : length inpolls ≡ length events
  pub stored : cache.inpolls ≡ ring cache.event_cache.latest inpolls

length-same_take :
    (n : ℕ) (xs ys : List ℕ) → length xs ≡ length ys → length (take n xs) ≡ length (take n ys)
length-same_take zero xs ys e = refl
length-same_take (suc n) [] [] e = refl
length-same_take (suc n) [] (y ∷ ys) e = absurd (omega (arith, e))
length-same_take (suc n) (x ∷ xs) [] e = absurd (omega (arith, e))
length-same_take (suc n) (x ∷ xs) (y ∷ ys) e = ap suc (length-same_take n xs ys (omega (arith, e)))

-- Liberating a pair into a cache makes it the latest one; of four pairs that the cache held before,
-- the event and the inpoll of the oldest are closed, and else none.
pub latched_inpoll_cache_liberate-IsLatched :
    (cache : LatchedInpollCache) (inpolls events : List ℕ) (inpoll event : ℕ)
    → IsLatched cache inpolls events
    → (after : LatchedInpollCache) × (latched_inpoll_cache_liberate cache (inpoll, event)
        ≡ some (
          (
            drop event_cache_capacity (event ∷ events),
            drop event_cache_capacity (inpoll ∷ inpolls),
          ),
          after,
        ))
      × IsLatched after
          (take event_cache_capacity (inpoll ∷ inpolls))
          (take event_cache_capacity (event ∷ events))
unfolding latched_inpoll_cache_liberate event_cache_liberate
latched_inpoll_cache_liberate-IsLatched cache inpolls events inpoll event valid = (
  record {
    inpolls = ring (above cache.event_cache.latest) (take event_cache_capacity (inpoll ∷ inpolls));
    event_cache = pushed cache.event_cache (event ∷ events);
  },
  rw
      (
        latched_inpoll_cache_liberate,
        event_cache_liberate-eq cache.event_cache events event valid.event_stack,
        lt→ltb (above cache.event_cache.latest) 4
            (above-inside cache.event_cache.latest valid.event_stack.inside),
        taken,
        written,
        oldest-drop inpolls short,
      )
      refl,
  record {
    event_stack = pushed-IsStack cache.event_cache events event valid.event_stack;
    together =
        length-same_take 4 (inpoll ∷ inpolls) (event ∷ events) (omega (arith, valid.together));
    stored = refl;
  },
)
  where
    short : length inpolls ≤ 4
    short = omega (arith, valid.together, valid.event_stack.fits)

    pushes : Pushes inpoll inpolls cache.event_cache.latest
    pushes = ring-Pushes inpoll inpolls cache.event_cache.latest valid.event_stack.inside short

    taken : read cache.inpolls (above cache.event_cache.latest) ≡ some (oldest inpolls)
    taken = ap (λ slots. read slots (above cache.event_cache.latest)) valid.stored ∙ pushes.0

    written :
        write cache.inpolls (above cache.event_cache.latest) (some inpoll)
        ≡ some
            (ring (above cache.event_cache.latest) (take event_cache_capacity (inpoll ∷ inpolls)))
    written =
        ap (λ slots. write slots (above cache.event_cache.latest) (some inpoll)) valid.stored
        ∙ pushes.1

-- A cache that holds a pair hands out the latest one and passes its assertion; it then holds the
-- others. An empty cache hands out a fresh pair and stays empty.
pub latched_inpoll_cache_allocate-IsLatched :
    (cache : LatchedInpollCache) (inpolls events : List ℕ) (fresh : ℕ × ℕ)
    → IsLatched cache inpolls events
    → (after : LatchedInpollCache) × (latched_inpoll_cache_allocate cache fresh
        ≡ some ((first inpolls (fresh.0), first events (fresh.1)), after))
      × IsLatched after (drop 1 inpolls) (drop 1 events)
unfolding latched_inpoll_cache_allocate
latched_inpoll_cache_allocate-IsLatched cache [] [] fresh valid =
    (cache, rw (latched_inpoll_cache_allocate, nothing) refl, valid)
  where
    nothing : read cache.inpolls cache.event_cache.latest ≡ some none
    nothing =
        ap (λ slots. read slots cache.event_cache.latest) valid.stored
        ∙ ring-empty cache.event_cache.latest valid.event_stack.inside
latched_inpoll_cache_allocate-IsLatched cache [] (event ∷ events) fresh valid =
    absurd (omega (arith, valid.together))
latched_inpoll_cache_allocate-IsLatched cache (inpoll ∷ inpolls) [] fresh valid =
    absurd (omega (arith, valid.together))
latched_inpoll_cache_allocate-IsLatched cache (inpoll ∷ inpolls) (event ∷ events) fresh valid = (
  record {
    inpolls = ring (below cache.event_cache.latest) inpolls;
    event_cache = popped cache.event_cache events;
  },
  rw
      (
        latched_inpoll_cache_allocate,
        taken,
        cleared,
        event_taken,
        event_cache_allocate-eq cache.event_cache event events (fresh.1) valid.event_stack,
      )
      refl,
  record {
    event_stack = popped-IsStack cache.event_cache event events valid.event_stack;
    together = omega (arith, valid.together);
    stored = refl;
  },
)
  where
    pops : Pops inpoll inpolls cache.event_cache.latest
    pops =
        ring-Pops inpoll inpolls cache.event_cache.latest valid.event_stack.inside
          (omega (arith, valid.together, valid.event_stack.fits))

    taken : read cache.inpolls cache.event_cache.latest ≡ some (some inpoll)
    taken = ap (λ slots. read slots cache.event_cache.latest) valid.stored ∙ pops.0

    cleared :
        write cache.inpolls cache.event_cache.latest none
        ≡ some (ring (below cache.event_cache.latest) inpolls)
    cleared = ap (λ slots. write slots cache.event_cache.latest none) valid.stored ∙ pops.1

    event_pops : Pops event events cache.event_cache.latest
    event_pops =
        ring-Pops event events cache.event_cache.latest valid.event_stack.inside
          (omega (arith, valid.event_stack.fits))

    event_taken : read cache.event_cache.events cache.event_cache.latest ≡ some (some event)
    event_taken =
        ap (λ slots. read slots cache.event_cache.latest) valid.event_stack.stored ∙ event_pops.0

-- Destroying a cache closes all the events and inpolls that it holds, and leaves it empty.
pub latched_inpoll_cache_finalize-IsLatched :
    (cache : LatchedInpollCache) (inpolls events : List ℕ)
    → IsLatched cache inpolls events
    → (after : LatchedInpollCache) × (latched_inpoll_cache_finalize cache
        ≡ some ((events, inpolls), after))
      × IsLatched after [] []
unfolding latched_inpoll_cache_finalize
latched_inpoll_cache_finalize-IsLatched cache inpolls events valid =
    let (after, reached, empty) =
      event_cache_finalize-IsStack cache.event_cache events valid.event_stack in
    (
      record { inpolls = replicate 4 none; event_cache = after },
      rw (latched_inpoll_cache_finalize, emptied, reached) refl,
      record { event_stack = empty; together = refl; stored = refl },
    )
  where
    emptied :
        finalize_loop 5 cache.inpolls cache.event_cache.latest ≡ some (inpolls, replicate 4 none)
    emptied =
        ap (λ slots. finalize_loop 5 slots cache.event_cache.latest) valid.stored
        ∙ finalize_loop-eq 5 inpolls cache.event_cache.latest
            (omega (arith, valid.together, valid.event_stack.fits))
            (omega (arith, valid.together, valid.event_stack.fits)) valid.event_stack.inside
