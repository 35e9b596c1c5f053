-- ===== src/SyncCaches/Stack.antt =====
-- The event cache is a stack of four events that forgets the oldest one.
use udipe.Prelude.{
  ℕ, zero, suc, ◌+◌, ◌%◌, ◌∙◌, ap, lt→ltb, ◌≤◌, ◌<◌, ◌≡◌, refl, List, [], ◌∷◌, Option, none, some,
  arith, length, set, replicate, drop,
}
use udipe.Prelude.Access.{read, write}
use udipe.SyncCaches.{
  sync_cache_increment_index, sync_cache_decrement_index, closed, event_cache_capacity, EventCache,
  event_cache_allocate, event_cache_liberate, event_cache_finalize, finalize_loop,
}

-- The slot below.
abbrev pub below : ℕ → ℕ
below zero = 3
below (suc latest) = latest

-- The slots that a stack fills, from its latest entry at the slot `latest` downwards.
abbrev pub ring : ℕ → List ℕ → List (Option ℕ)
ring latest [] = replicate event_cache_capacity none
ring latest (event ∷ stack) = set (ring (below latest) stack) latest (some event)

abbrev pub above : ℕ → ℕ
above zero = 1
above (suc zero) = 2
above (suc (suc zero)) = 3
above other = 0

-- The first events of a stack.
abbrev pub take : ℕ → List ℕ → List ℕ
take zero stack = []
take (suc n) [] = []
take (suc n) (event ∷ stack) = event ∷ take n stack

-- What a fifth event pushes out.
abbrev pub oldest : List ℕ → Option ℕ
oldest (a ∷ b ∷ c ∷ d ∷ []) = some d
oldest stack = none

abbrev pub first : List ℕ → ℕ → ℕ
first [] fresh = fresh
first (event ∷ stack) fresh = event

-- A cache that holds a stack of events, the latest first.
pub record IsStack (cache : EventCache) (stack : List ℕ) : Type 0 where
  pub inside : cache.latest < event_cache_capacity
  pub fits : length stack ≤ event_cache_capacity
  pub stored : cache.events ≡ ring cache.latest stack

-- What holds for each of the four slots.
each_slot :
    (P : ℕ → Type 0)
    → P 0
    → P 1
    → P 2
    → P 3
    → (latest : ℕ) → latest < event_cache_capacity
    → P latest
each_slot P p q r s zero lt = p
each_slot P p q r s (suc zero) lt = q
each_slot P p q r s (suc (suc zero)) lt = r
each_slot P p q r s (suc (suc (suc zero))) lt = s
each_slot P p q r s (suc (suc (suc (suc n)))) lt = absurd (omega arith)

-- Clearing the latest slot, filling the one above, and reading both, on the ring of a stack.
abbrev pub Pops : ℕ → List ℕ → ℕ → Type 0
Pops event stack latest =
    (read (ring latest (event ∷ stack)) latest ≡ some (some event))
    × (write (ring latest (event ∷ stack)) latest none ≡ some (ring (below latest) stack))

abbrev pub Pushes : ℕ → List ℕ → ℕ → Type 0
Pushes event stack latest =
    (read (ring latest stack) (above latest) ≡ some (oldest stack))
    × (write (ring latest stack) (above latest) (some event)
        ≡ some (ring (above latest) (take event_cache_capacity (event ∷ stack))))

pub ring-Pops :
    (event : ℕ) (stack : List ℕ) (latest : ℕ)
    → latest < 4
    → length stack < 4
    → Pops event stack latest
unfolding read write
ring-Pops event [] latest lt fits =
    each_slot (Pops event []) (refl, refl) (refl, refl) (refl, refl) (refl, refl) latest lt
ring-Pops event (a ∷ []) latest lt fits =
    each_slot (Pops event (a ∷ [])) (refl, refl) (refl, refl) (refl, refl) (refl, refl) latest lt
ring-Pops event (a ∷ b ∷ []) latest lt fits =
    each_slot (Pops event (a ∷ b ∷ [])) (refl, refl) (refl, refl) (refl, refl) (refl, refl) latest
      lt
ring-Pops event (a ∷ b ∷ c ∷ []) latest lt fits =
    each_slot (Pops event (a ∷ b ∷ c ∷ [])) (refl, refl) (refl, refl) (refl, refl) (refl, refl)
      latest lt
ring-Pops event (a ∷ b ∷ c ∷ d ∷ stack) latest lt fits = absurd (omega arith)

pub ring-Pushes :
    (event : ℕ) (stack : List ℕ) (latest : ℕ)
    → latest < 4
    → length stack ≤ 4
    → Pushes event stack latest
unfolding read write
ring-Pushes event [] latest lt fits =
    each_slot (Pushes event []) (refl, refl) (refl, refl) (refl, refl) (refl, refl) latest lt
ring-Pushes event (a ∷ []) latest lt fits =
    each_slot (Pushes event (a ∷ [])) (refl, refl) (refl, refl) (refl, refl) (refl, refl) latest lt
ring-Pushes event (a ∷ b ∷ []) latest lt fits =
    each_slot (Pushes event (a ∷ b ∷ [])) (refl, refl) (refl, refl) (refl, refl) (refl, refl) latest
      lt
ring-Pushes event (a ∷ b ∷ c ∷ []) latest lt fits =
    each_slot (Pushes event (a ∷ b ∷ c ∷ [])) (refl, refl) (refl, refl) (refl, refl) (refl, refl)
      latest lt
ring-Pushes event (a ∷ b ∷ c ∷ d ∷ []) latest lt fits =
    each_slot (Pushes event (a ∷ b ∷ c ∷ d ∷ [])) (refl, refl) (refl, refl) (refl, refl)
      (refl, refl) latest lt
ring-Pushes event (a ∷ b ∷ c ∷ d ∷ e ∷ stack) latest lt fits = absurd (omega arith)

pub below-eq : (latest : ℕ) → sync_cache_decrement_index latest event_cache_capacity ≡ below latest
unfolding sync_cache_decrement_index
below-eq zero = refl
below-eq (suc latest) = ground arith

pub above-eq :
    (latest : ℕ)
    → latest < 4
    → sync_cache_increment_index latest event_cache_capacity ≡ above latest
unfolding sync_cache_increment_index
above-eq = each_slot (λ l. (l + 1) % 4 ≡ above l) refl refl refl refl

pub below-inside : (latest : ℕ) → latest < 4 → below latest < 4
below-inside zero lt = omega arith
below-inside (suc latest) lt = omega arith

pub above-inside : (latest : ℕ) → latest < 4 → above latest < 4
above-inside = each_slot (λ l. above l < 4) (omega arith) (omega arith) (omega arith) (omega arith)

pub ring-empty : (latest : ℕ) → latest < 4 → read (ring latest []) latest ≡ some none
unfolding read
ring-empty = each_slot (λ l. read (ring l []) l ≡ some none) refl refl refl refl

-- What is pushed out is what no longer fits.
pub oldest-drop : (stack : List ℕ) → length stack ≤ 4 → closed (oldest stack) ≡ drop 3 stack
oldest-drop [] fits = refl
oldest-drop (a ∷ []) fits = refl
oldest-drop (a ∷ b ∷ []) fits = refl
oldest-drop (a ∷ b ∷ c ∷ []) fits = refl
oldest-drop (a ∷ b ∷ c ∷ d ∷ []) fits = refl
oldest-drop (a ∷ b ∷ c ∷ d ∷ e ∷ stack) fits = absurd (omega arith)

length-take : (n : ℕ) (stack : List ℕ) → length (take n stack) ≤ n
length-take zero stack = omega arith
length-take (suc n) [] = omega arith
length-take (suc n) (event ∷ stack) = omega (arith, length-take n stack)

-- The caches after an event was taken, and after one was added.
abbrev pub popped : EventCache → List ℕ → EventCache
popped cache stack = record {
  events = ring (below cache.latest) stack;
  latest = below cache.latest;
}

abbrev pub pushed : EventCache → List ℕ → EventCache
pushed cache stack = record {
  events = ring (above cache.latest) (take event_cache_capacity stack);
  latest = above cache.latest;
}

pub event_cache_allocate-eq :
    (cache : EventCache) (event : ℕ) (stack : List ℕ) (fresh : ℕ)
    → IsStack cache (event ∷ stack)
    → event_cache_allocate cache fresh ≡ some (event, popped cache stack)
unfolding event_cache_allocate
event_cache_allocate-eq cache event stack fresh valid =
    rw (event_cache_allocate, taken, cleared, below-eq cache.latest) refl
  where
    pops : Pops event stack cache.latest
    pops = ring-Pops event stack cache.latest valid.inside (omega (arith, valid.fits))

    taken : read cache.events cache.latest ≡ some (some event)
    taken = ap (λ events. read events cache.latest) valid.stored ∙ pops.0

    cleared : write cache.events cache.latest none ≡ some (ring (below cache.latest) stack)
    cleared = ap (λ events. write events cache.latest none) valid.stored ∙ pops.1

pub event_cache_liberate-eq :
    (cache : EventCache) (stack : List ℕ) (event : ℕ)
    → IsStack cache stack
    → event_cache_liberate cache event
      ≡ some (drop event_cache_capacity (event ∷ stack), pushed cache (event ∷ stack))
unfolding event_cache_liberate
event_cache_liberate-eq cache stack event valid =
    rw
      (
        event_cache_liberate,
        above-eq cache.latest valid.inside,
        taken,
        written,
        oldest-drop stack valid.fits,
      )
      refl
  where
    pushes : Pushes event stack cache.latest
    pushes = ring-Pushes event stack cache.latest valid.inside valid.fits

    taken : read cache.events (above cache.latest) ≡ some (oldest stack)
    taken = ap (λ events. read events (above cache.latest)) valid.stored ∙ pushes.0

    written :
        write cache.events (above cache.latest) (some event)
        ≡ some (ring (above cache.latest) (take event_cache_capacity (event ∷ stack)))
    written = ap (λ events. write events (above cache.latest) (some event)) valid.stored ∙ pushes.1

pub popped-IsStack :
    (cache : EventCache) (event : ℕ) (stack : List ℕ)
    → IsStack cache (event ∷ stack)
    → IsStack (popped cache stack) stack
popped-IsStack cache event stack valid = record {
  inside = below-inside cache.latest valid.inside;
  fits = omega (arith, valid.fits);
  stored = refl;
}

-- A cache that holds an event hands out the latest one, and holds the others; an empty cache hands
-- out a fresh event and stays empty.
pub event_cache_allocate-IsStack :
    (cache : EventCache) (stack : List ℕ) (fresh : ℕ)
    → IsStack cache stack
    → (after : EventCache) × (event_cache_allocate cache fresh ≡ some (first stack fresh, after))
      × IsStack after (drop 1 stack)
unfolding event_cache_allocate
event_cache_allocate-IsStack cache [] fresh valid =
    (cache, rw (event_cache_allocate, nothing) refl, valid)
  where
    nothing : read cache.events cache.latest ≡ some none
    nothing =
        ap (λ events. read events cache.latest) valid.stored ∙ ring-empty cache.latest valid.inside
event_cache_allocate-IsStack cache (event ∷ stack) fresh valid = (
  popped cache stack,
  event_cache_allocate-eq cache event stack fresh valid,
  popped-IsStack cache event stack valid,
)

pub pushed-IsStack :
    (cache : EventCache) (stack : List ℕ) (event : ℕ)
    → IsStack cache stack
    → IsStack (pushed cache (event ∷ stack)) (take event_cache_capacity (event ∷ stack))
pushed-IsStack cache stack event valid = record {
  inside = above-inside cache.latest valid.inside;
  fits = length-take 4 (event ∷ stack);
  stored = refl;
}

-- Liberating an event into a cache makes it the latest one; of four events that the cache held
-- before, the oldest is closed and forgotten, and else none.
pub event_cache_liberate-IsStack :
    (cache : EventCache) (stack : List ℕ) (event : ℕ)
    → IsStack cache stack
    → (after : EventCache) × (event_cache_liberate cache event
        ≡ some (drop event_cache_capacity (event ∷ stack), after))
      × IsStack after (take event_cache_capacity (event ∷ stack))
event_cache_liberate-IsStack cache stack event valid = (
  pushed cache (event ∷ stack),
  event_cache_liberate-eq cache stack event valid,
  pushed-IsStack cache stack event valid,
)

pub finalize_loop-eq :
    (fuel : ℕ) (stack : List ℕ) (latest : ℕ)
    → length stack < fuel
    → length stack ≤ 4
    → latest < 4
    → finalize_loop fuel (ring latest stack) latest ≡ some (stack, replicate 4 none)
unfolding finalize_loop
finalize_loop-eq zero stack latest enough fits lt = absurd (omega arith)
finalize_loop-eq (suc fuel) [] latest enough fits lt = rw (finalize_loop, ring-empty latest lt) refl
finalize_loop-eq (suc fuel) (event ∷ stack) latest enough fits lt =
    let (latest_read, latest_written) = ring-Pops event stack latest lt (omega arith) in
    rw
      (
        finalize_loop,
        latest_read,
        lt→ltb latest 4 lt,
        latest_written,
        below-eq latest,
        finalize_loop-eq fuel stack (below latest) (omega arith) (omega arith)
            (below-inside latest lt),
      )
      refl

-- Destroying a cache closes all the events that it holds, the latest first, and leaves it empty.
pub event_cache_finalize-IsStack :
    (cache : EventCache) (stack : List ℕ)
    → IsStack cache stack
    → (after : EventCache) × (event_cache_finalize cache ≡ some (stack, after)) × IsStack after []
unfolding event_cache_finalize
event_cache_finalize-IsStack cache stack valid = (
  record { events = replicate 4 none; latest = 0 },
  rw
      (
        event_cache_finalize,
        valid.stored,
        finalize_loop-eq 5 stack cache.latest (omega (arith, valid.fits)) valid.fits valid.inside,
      )
      refl,
  record { inside = omega arith; fits = omega arith; stored = refl },
)
