-- ===== src/ContextCache/Registry.antt =====
-- Every thread cache that was registered is finalized, once and in the order of registration.
use udipe.Prelude.{
  ℕ, zero, suc, ◌+◌, ◌*◌, ◌%◌, ◌^◌, ◌≤◌, ◌<◌, ◌≡◌, refl, ◌∙◌, sym, ap, List, [], ◌∷◌, true, Option,
  none, some, arith, ◌==◌, ==→eq, leb, le→leb, Bool-cases, ◌⊎◌, inl, inr, length, get_or, set,
  length-set, get_or-set_self, get_or-set_ne,
}
use udipe.Prelude.Abort.{Option-cases}
use udipe.Prelude.Access.{write-eq}
use udipe.ContextCache.{ContextCache, grow, future_context_cache_register_thread}

-- What realloc() documents: the size asked for, at most PTRDIFF_MAX, with the old contents.
pub record IsRealloc (realloc : List ℕ → ℕ → Option (List ℕ)) : Type 0 where
  pub bounded : (old new : List ℕ) (bytes : ℕ) → realloc old bytes ≡ some new → bytes < 2 ^ 63
  pub sized :
      (old new : List ℕ) (slots : ℕ) → realloc old (slots * 8) ≡ some new → slots ≤ length new
  pub kept :
      (old new : List ℕ) (bytes i : ℕ)
      → realloc old bytes ≡ some new
      → i < length old
      → i * 8 < bytes
      → get_or new i 0 ≡ get_or old i 0

-- A cache that knows the thread caches of a list, in its order.
pub record IsRegistry (cache : ContextCache) (array threads : List ℕ) : Type 0 where
  pub stored : cache.thread_caches ≡ some array
  pub counted : cache.thread_caches_length ≡ length threads
  pub within : cache.thread_caches_length ≤ cache.thread_caches_capacity
  pub room : cache.thread_caches_capacity ≤ length array
  pub nonzero : 0 < cache.thread_caches_capacity
  pub small : cache.thread_caches_capacity * 8 < 2 ^ 63
  pub entries : (i : ℕ) → i < length threads → get_or array i 0 ≡ get_or threads i 0

-- A list with one more element at its end.
abbrev pub snoc : List ℕ → ℕ → List ℕ
snoc [] thread = thread ∷ []
snoc (t ∷ threads) thread = t ∷ snoc threads thread

length-snoc : (threads : List ℕ) (thread : ℕ) → length (snoc threads thread) ≡ length threads + 1
length-snoc [] thread = refl
length-snoc (t ∷ threads) thread = omega (arith, length-snoc threads thread)

get_or-snoc_last :
    (threads : List ℕ) (thread : ℕ) → get_or (snoc threads thread) (length threads) 0 ≡ thread
get_or-snoc_last [] thread = refl
get_or-snoc_last (t ∷ threads) thread = get_or-snoc_last threads thread

get_or-snoc_before :
    (threads : List ℕ) (thread i : ℕ)
    → i < length threads
    → get_or (snoc threads thread) i 0 ≡ get_or threads i 0
get_or-snoc_before [] thread i lt = absurd (omega arith)
get_or-snoc_before (t ∷ threads) thread zero lt = refl
get_or-snoc_before (t ∷ threads) thread (suc i) lt =
    get_or-snoc_before threads thread i (omega arith)

abbrev get_at : List ℕ → ℕ → ℕ
get_at xs i = get_or xs i 0

-- A free slot takes the new thread cache.
append-IsRegistry :
    (cache : ContextCache) (array threads : List ℕ) (thread : ℕ)
    → IsRegistry cache array threads
    → cache.thread_caches_length < cache.thread_caches_capacity
    → IsRegistry
        (record {
          thread_caches = some (set array cache.thread_caches_length thread);
          thread_caches_length = cache.thread_caches_length + 1;
          thread_caches_capacity = cache.thread_caches_capacity;
        })
        (set array cache.thread_caches_length thread)
        (snoc threads thread)
append-IsRegistry cache array threads thread valid spare = record {
  stored = refl;
  counted = omega (arith, valid.counted, length-snoc threads thread);
  within = omega (arith, spare);
  room = omega (arith, valid.room, length-set array cache.thread_caches_length thread);
  nonzero = valid.nonzero;
  small = valid.small;
  entries = λ i lt. elim (Bool-cases (cache.thread_caches_length == i)) [
    | inl last ↦
        let same : cache.thread_caches_length ≡ i = ==→eq cache.thread_caches_length i last in
        let end : length threads ≡ i = sym valid.counted ∙ same in
        ap (get_at (set array cache.thread_caches_length thread)) (sym same)
        ∙ get_or-set_self array cache.thread_caches_length thread 0
            (omega (arith, spare, valid.room))
        ∙ sym (get_or-snoc_last threads thread)
        ∙ ap (get_at (snoc threads thread)) end
    | inr before ↦
        get_or-set_ne array cache.thread_caches_length i thread 0 (λ e. ground (arith, e))
        ∙ valid.entries i (ground (arith, lt, length-snoc threads thread, valid.counted))
        ∙ sym (
            get_or-snoc_before threads thread i
              (ground (arith, lt, length-snoc threads thread, valid.counted)))
  ];
}

grow-IsRegistry :
    (realloc : List ℕ → ℕ → Option (List ℕ)) (cache : ContextCache) (array grown threads : List ℕ)
    → IsRealloc realloc
    → IsRegistry cache array threads
    → realloc array (2 * cache.thread_caches_capacity * 8) ≡ some grown
    → IsRegistry
        (record {
          thread_caches = some grown;
          thread_caches_length = cache.thread_caches_length;
          thread_caches_capacity = 2 * cache.thread_caches_capacity;
        })
        grown
        threads
grow-IsRegistry realloc cache array grown threads memory valid given = record {
  stored = refl;
  counted = valid.counted;
  within = omega (arith, valid.within);
  room = memory.sized array grown (2 * cache.thread_caches_capacity) given;
  nonzero = omega (arith, valid.nonzero);
  small = memory.bounded array grown (2 * cache.thread_caches_capacity * 8) given;
  entries = λ i lt.
      memory.kept array grown (2 * cache.thread_caches_capacity * 8) i given
        (omega (arith, lt, valid.counted, valid.within, valid.room))
        (omega (arith, lt, valid.counted, valid.within))
      ∙ valid.entries i lt;
}

-- Registering a thread cache adds it to the end of the list of those that the context knows, and
-- loses none, also where the array has to grow; or the array was full and realloc() has refused.
pub future_context_cache_register_thread-IsRegistry :
    (realloc : List ℕ → ℕ → Option (List ℕ)) (cache : ContextCache) (array threads : List ℕ)
    (thread : ℕ)
    → IsRealloc realloc
    → IsRegistry cache array threads
    → ((after : ContextCache) × (slots : List ℕ) × (future_context_cache_register_thread realloc
            cache thread
          ≡ some after)
        × IsRegistry after slots (snoc threads thread))
      ⊎ (future_context_cache_register_thread realloc cache thread ≡ none)
        × (cache.thread_caches_length ≡ cache.thread_caches_capacity)
        × (realloc array (2 * cache.thread_caches_capacity * 8) ≡ none)
unfolding future_context_cache_register_thread grow
future_context_cache_register_thread-IsRegistry realloc cache array threads thread memory valid =
    elim (Bool-cases (cache.thread_caches_length == cache.thread_caches_capacity)) [
      | inl full ↦ elim (Option-cases (realloc array (2 * cache.thread_caches_capacity * 8))) [
        | inl refused ↦ inr (
          rw
              (
                future_context_cache_register_thread, valid.stored, inside, full, grow, doubled,
                bytes, refused,
              )
              refl,
          ==→eq cache.thread_caches_length cache.thread_caches_capacity full,
          refused,
        )
        | inr (grown, given) ↦
            let roomy : IsRegistry
                (record {
                  thread_caches = some grown;
                  thread_caches_length = cache.thread_caches_length;
                  thread_caches_capacity = 2 * cache.thread_caches_capacity;
                })
                grown threads =
              grow-IsRegistry realloc cache array grown threads memory valid given in
            inl (
              record {
                thread_caches = some (set grown cache.thread_caches_length thread);
                thread_caches_length = cache.thread_caches_length + 1;
                thread_caches_capacity = 2 * cache.thread_caches_capacity;
              },
              set grown cache.thread_caches_length thread,
              rw
                  (
                    future_context_cache_register_thread,
                    valid.stored,
                    inside,
                    full,
                    grow,
                    doubled,
                    bytes,
                    given,
                    write-eq grown cache.thread_caches_length thread
                        (omega (arith, valid.within, valid.nonzero, roomy.room)),
                  )
                  refl,
              append-IsRegistry
                  (record {
                    thread_caches = some grown;
                    thread_caches_length = cache.thread_caches_length;
                    thread_caches_capacity = 2 * cache.thread_caches_capacity;
                  })
                  grown threads thread roomy (omega (arith, valid.within, valid.nonzero)),
            )
      ]
      | inr spare ↦ inl (
        record {
          thread_caches = some (set array cache.thread_caches_length thread);
          thread_caches_length = cache.thread_caches_length + 1;
          thread_caches_capacity = cache.thread_caches_capacity;
        },
        set array cache.thread_caches_length thread,
        rw
            (
              future_context_cache_register_thread,
              valid.stored,
              inside,
              spare,
              write-eq array cache.thread_caches_length thread
                  (ground (arith, spare, valid.within, valid.room)),
            )
            refl,
        append-IsRegistry cache array threads thread valid (ground (arith, spare, valid.within)),
      )
    ]
  where
    inside : leb cache.thread_caches_length cache.thread_caches_capacity ≡ true
    inside = le→leb cache.thread_caches_length cache.thread_caches_capacity valid.within

    doubled : cache.thread_caches_capacity * 2 % 2 ^ 64 ≡ 2 * cache.thread_caches_capacity
    doubled = omega (arith, valid.small)

    bytes : 2 * cache.thread_caches_capacity * 8 % 2 ^ 64 ≡ 2 * cache.thread_caches_capacity * 8
    bytes = omega (arith, valid.small)
