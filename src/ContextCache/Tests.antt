-- ===== src/ContextCache/Tests.antt =====
-- A registry of one thread cache that is full, with a realloc() that pads with zeros.
use udipe.Prelude.{
  ℕ, zero, suc, ◌+◌, ◌*◌, ◌/◌, ◌^◌, ◌<◌, ◌≡◌, refl, ◌∙◌, sym, ap, List, [], ◌∷◌, Bool, true, false,
  Option, none, some, arith, ltb, ltb→lt, if◌then◌else◌, ◌⊎◌, length, get_or,
}
use udipe.ContextCache.{ContextCache, future_context_cache_register_thread}
use udipe.ContextCache.Registry.{
  IsRealloc, IsRegistry, future_context_cache_register_thread-IsRegistry,
}

-- The first `slots` entries, with zeros after the end.
abbrev resized : ℕ → List ℕ → List ℕ
resized zero old = []
resized (suc slots) [] = 0 ∷ resized slots []
resized (suc slots) (t ∷ old) = t ∷ resized slots old

abbrev memory : List ℕ → ℕ → Option (List ℕ)
memory old bytes = if ltb bytes (2 ^ 63) then some (resized (bytes / 8 + 1) old) else none

length-resized : (slots : ℕ) (old : List ℕ) → length (resized slots old) ≡ slots
length-resized zero old = refl
length-resized (suc slots) [] = ap suc (length-resized slots [])
length-resized (suc slots) (t ∷ old) = ap suc (length-resized slots old)

get_or-resized :
    (slots i : ℕ) (old : List ℕ)
    → i < slots
    → i < length old
    → get_or (resized slots old) i 0 ≡ get_or old i 0
get_or-resized zero i old lt inside = absurd (omega arith)
get_or-resized (suc slots) i [] lt inside = absurd (omega arith)
get_or-resized (suc slots) zero (t ∷ old) lt inside = refl
get_or-resized (suc slots) (suc i) (t ∷ old) lt inside =
    get_or-resized slots i old (omega arith) (omega arith)

passed :
    (b : Bool) (array given : List ℕ)
    → (if b then some array else none) ≡ some given
    → (b ≡ true) × (array ≡ given)
passed true array given e = (refl, cc)
passed false array given e = cc

memory-IsRealloc : IsRealloc memory
memory-IsRealloc = record {
  bounded = λ old new bytes given.
      ltb→lt bytes (2 ^ 63) (passed (ltb bytes (2 ^ 63)) (resized (bytes / 8 + 1) old) new given).0;
  sized = λ old new slots given. omega (
    arith,
    length-resized (slots * 8 / 8 + 1) old,
    ap length (passed (ltb (slots * 8) (2 ^ 63)) (resized (slots * 8 / 8 + 1) old) new given).1,
  );
  kept = λ old new bytes i given inside fits.
      ap (λ xs. get_or xs i 0)
        (sym (passed (ltb bytes (2 ^ 63)) (resized (bytes / 8 + 1) old) new given).1)
      ∙ get_or-resized (bytes / 8 + 1) i old (omega (arith, fits)) inside;
}

abbrev one_thread : ContextCache
one_thread = record {
  thread_caches = some (40 ∷ []);
  thread_caches_length = 1;
  thread_caches_capacity = 1;
}

one_thread-IsRegistry : IsRegistry one_thread (40 ∷ []) (40 ∷ [])
one_thread-IsRegistry = record {
  stored = refl;
  counted = refl;
  within = omega arith;
  room = omega arith;
  nonzero = omega arith;
  small = omega arith;
  entries = λ i lt. refl;
}

future_context_cache_register_thread-IsRegistry_example :
    ((after : ContextCache) × (slots : List ℕ) × (future_context_cache_register_thread memory
          one_thread 50
        ≡ some after)
      × IsRegistry after slots (40 ∷ 50 ∷ []))
    ⊎ (future_context_cache_register_thread memory one_thread 50 ≡ none)
      × (one_thread.thread_caches_length ≡ 1)
      × (memory (40 ∷ []) (2 * 1 * 8) ≡ none)
future_context_cache_register_thread-IsRegistry_example =
    future_context_cache_register_thread-IsRegistry memory one_thread (40 ∷ []) (40 ∷ []) 50
      memory-IsRealloc one_thread-IsRegistry
