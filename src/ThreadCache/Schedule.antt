-- ===== src/ThreadCache/Schedule.antt =====
-- In any schedule that gives both parties enough turns, the destruction of a cache ends.
use mathlib.Core.Path.{subst}
use udipe.Prelude.{
  ℕ, ◌+◌, ◌-◌, ◌≤◌, ◌≡◌, inl, inr, refl, sym, List, [], ◌∷◌, Bool, Option, none, some, arith,
}
use udipe.Prelude.Abort.{◌>>=◌}
use udipe.ThreadCache.{
  Flags, ThreadPoint, ContextPoint, ThreadCache, initial, thread_move, context_move, thread_step,
  context_step, ends_sleep,
}
use udipe.ThreadCache.Handshake.{IsConsistent, initial-IsConsistent, both_done, sleep_keeps, at}

-- A turn of the scheduler: the next step of a party, or the end of a sleep without a wake-up.
pub data Turn : Type 0 where
  thread : Turn
  context : Turn
  itself : Bool → Turn

-- A party that is done does nothing.
abbrev thread_turn : ThreadPoint → ThreadCache → Option ThreadCache
thread_turn ThreadPoint.gone c = some c
thread_turn t c = thread_step c

abbrev context_turn : ContextPoint → ThreadCache → Option ThreadCache
context_turn ContextPoint.gone c = some c
context_turn k c = context_step c

abbrev pub take : Turn → ThreadCache → Option ThreadCache
take Turn.thread c = thread_turn c.thread c
take Turn.context c = context_turn c.context c
take (Turn.itself result) c = some (record c { context = ends_sleep c.context result })

abbrev pub run : List Turn → ThreadCache → Option ThreadCache
run [] c = some c
run (turn ∷ turns) c = take turn c >>= run turns

abbrev thread_cost : Turn → ℕ
thread_cost Turn.thread = 1
thread_cost _ = 0

abbrev context_cost : Turn → ℕ
context_cost Turn.context = 1
context_cost _ = 0

abbrev pub thread_turns : List Turn → ℕ
thread_turns [] = 0
thread_turns (turn ∷ turns) = thread_cost turn + thread_turns turns

abbrev pub context_turns : List Turn → ℕ
context_turns [] = 0
context_turns (turn ∷ turns) = context_cost turn + context_turns turns

-- The most steps that each party has left, once it need not wait.
abbrev pub thread_left : ThreadPoint → ℕ
thread_left ThreadPoint.alive = 6
thread_left ThreadPoint.spilling = 5
thread_left ThreadPoint.notifying = 4
thread_left ThreadPoint.waking = 3
thread_left ThreadPoint.releasing = 2
thread_left ThreadPoint.finishing = 1
thread_left ThreadPoint.gone = 0

abbrev pub context_left : ContextPoint → ℕ
context_left ContextPoint.alive = 5
context_left ContextPoint.liberating = 3
context_left ContextPoint.asleep = 4
context_left ContextPoint.awaiting_emptied = 4
context_left ContextPoint.reloading = 3
context_left ContextPoint.notifying = 2
context_left ContextPoint.awaiting_done = 2
context_left ContextPoint.finishing = 1
context_left ContextPoint.gone = 0

-- A turn that leads to a consistent state, with so much left for the thread; and where the thread is
-- done, with so much left for the context.
abbrev Leaves : Option ThreadCache → ℕ → Type 0
Leaves none n = ⊥
Leaves (some d) n = IsConsistent d × (thread_left d.thread ≤ n)

abbrev Ends : Option ThreadCache → ℕ → Type 0
Ends none n = ⊥
Ends (some d) n = IsConsistent d × (d.thread ≡ ThreadPoint.gone) × (context_left d.context ≤ n)

module _ (f seen : Flags) (emptyings frees : ℕ) where
  thread-Leaves :
      (t : ThreadPoint) (k : ContextPoint)
      → IsConsistent (at f seen emptyings frees t k)
      → Leaves (thread_turn t (at f seen emptyings frees t k)) (thread_left t - 1)
  unfolding thread_step thread_move
  thread-Leaves t k v = ground arith

  context-Leaves :
      (t : ThreadPoint) (k : ContextPoint)
      → IsConsistent (at f seen emptyings frees t k)
      → Leaves (context_turn k (at f seen emptyings frees t k)) (thread_left t)
  unfolding context_step context_move
  context-Leaves t k v = ground arith

  context-Ends :
      (k : ContextPoint)
      → IsConsistent (at f seen emptyings frees ThreadPoint.gone k)
      → Ends (context_turn k (at f seen emptyings frees ThreadPoint.gone k)) (context_left k - 1)
  unfolding context_step context_move
  context-Ends k v = ground arith

  itself-Ends :
      (k : ContextPoint) (result : Bool)
      → IsConsistent (at f seen emptyings frees ThreadPoint.gone k)
      → context_left (ends_sleep k result) ≤ context_left k
  itself-Ends k result v = ground arith

turn-Leaves :
    (turn : Turn) (c : ThreadCache)
    → IsConsistent c
    → Leaves (take turn c) (thread_left c.thread - thread_cost turn)
turn-Leaves Turn.thread c v = thread-Leaves c.flags c.seen c.emptyings c.frees c.thread c.context v
turn-Leaves Turn.context c v =
    subst (Leaves (take Turn.context c)) (minus_zero (thread_left c.thread))
      (context-Leaves c.flags c.seen c.emptyings c.frees c.thread c.context v)
  where
    minus_zero : (n : ℕ) → n ≡ n - 0
    minus_zero n = omega arith
turn-Leaves (Turn.itself result) c v =
    (sleep_keeps c.flags c.seen c.emptyings c.frees c.thread c.context result v, omega arith)

weaken-Leaves : (r : Option ThreadCache) (m n : ℕ) → m ≤ n → Leaves r m → Leaves r n
weaken-Leaves none m n le bad = absurd bad
weaken-Leaves (some d) m n le (w, l) = (w, omega arith)

weaken-Ends : (r : Option ThreadCache) (m n : ℕ) → m ≤ n → Ends r m → Ends r n
weaken-Ends none m n le bad = absurd bad
weaken-Ends (some d) m n le (w, e, l) = (w, e, omega arith)

then-Leaves :
    (turns : List Turn) (r : Option ThreadCache) (m : ℕ)
    → ((d : ThreadCache)
        → IsConsistent d
        → Leaves (run turns d) (thread_left d.thread - thread_turns turns))
    → Leaves r m
    → Leaves (r >>= run turns) (m - thread_turns turns)
then-Leaves turns none m more bad = absurd bad
then-Leaves turns (some d) m more (w, l) =
    weaken-Leaves (run turns d) (thread_left d.thread - thread_turns turns) (m - thread_turns turns)
      (omega arith) (more d w)

run-Leaves :
    (turns : List Turn) (c : ThreadCache)
    → IsConsistent c
    → Leaves (run turns c) (thread_left c.thread - thread_turns turns)
run-Leaves [] c v = (v, omega arith)
run-Leaves (turn ∷ turns) c v =
    weaken-Leaves (take turn c >>= run turns)
      (thread_left c.thread - thread_cost turn - thread_turns turns)
      (thread_left c.thread - (thread_cost turn + thread_turns turns)) (omega arith)
      (then-Leaves turns (take turn c) (thread_left c.thread - thread_cost turn) (run-Leaves turns)
        (turn-Leaves turn c v))

-- Once the thread is done, every turn of the context leaves it less to do.
turn-Ends :
    (turn : Turn) (f seen : Flags) (emptyings frees : ℕ) (k : ContextPoint)
    → IsConsistent (at f seen emptyings frees ThreadPoint.gone k)
    → Ends
        (take turn (at f seen emptyings frees ThreadPoint.gone k))
        (context_left k - context_cost turn)
turn-Ends Turn.thread f seen emptyings frees k v = (v, refl, omega arith)
turn-Ends Turn.context f seen emptyings frees k v = context-Ends f seen emptyings frees k v
turn-Ends (Turn.itself result) f seen emptyings frees k v = (
  sleep_keeps f seen emptyings frees ThreadPoint.gone k result v,
  refl,
  omega (arith, itself-Ends f seen emptyings frees k result v),
)

then-Ends :
    (turns : List Turn) (r : Option ThreadCache) (m : ℕ)
    → ((d : ThreadCache)
        → IsConsistent d
        → d.thread ≡ ThreadPoint.gone
        → Ends (run turns d) (context_left d.context - context_turns turns))
    → Ends r m
    → Ends (r >>= run turns) (m - context_turns turns)
then-Ends turns none m more bad = absurd bad
then-Ends turns (some d) m more (w, e, l) =
    weaken-Ends (run turns d) (context_left d.context - context_turns turns)
      (m - context_turns turns) (omega arith) (more d w e)

run-Ends :
    (turns : List Turn) (c : ThreadCache)
    → IsConsistent c
    → c.thread ≡ ThreadPoint.gone
    → Ends (run turns c) (context_left c.context - context_turns turns)
run-Ends [] c v e = (v, e, omega arith)
run-Ends (turn ∷ turns) c v e =
    weaken-Ends (take turn c >>= run turns)
      (context_left c.context - context_cost turn - context_turns turns)
      (context_left c.context - (context_cost turn + context_turns turns)) (omega arith)
      (then-Ends turns (take turn c) (context_left c.context - context_cost turn) (run-Ends turns) (
        subst
          (λ t.
            Ends (take turn (record c { thread = t })) (context_left c.context - context_cost turn))
          (sym e)
          (turn-Ends turn c.flags c.seen c.emptyings c.frees c.context
            (subst (λ t. IsConsistent (record c { thread = t })) e v))))

gone_of_left : (t : ThreadPoint) → thread_left t ≤ 0 → t ≡ ThreadPoint.gone
gone_of_left t l = ground arith

context_gone_of_left : (k : ContextPoint) → context_left k ≤ 0 → k ≡ ContextPoint.gone
context_gone_of_left k l = ground arith

-- A schedule that ends with both parties done, and the cache emptied once and freed once.
abbrev pub Destroys : Option ThreadCache → Type 0
Destroys none = ⊥
Destroys (some c) =
    (c.thread ≡ ThreadPoint.gone)
    × (c.context ≡ ContextPoint.gone)
    × (c.emptyings ≡ 1)
    × (c.frees ≡ 1)

done-Destroys : (r : Option ThreadCache) → Ends r 0 → Destroys r
done-Destroys none bad = absurd bad
done-Destroys (some c) (w, e, l) =
    let k = context_gone_of_left c.context (omega arith) in
    elim (both_done c.flags c.seen c.emptyings c.frees c.thread c.context w) [
      | inl running ↦ absurd (running e)
      | inr rest ↦ elim rest [
        | inl running ↦ absurd (running k)
        | inr once ↦ (e, k, once.0, once.1)
      ]
    ]

after-Destroys :
    (second : List Turn) (r : Option ThreadCache)
    → 5 ≤ context_turns second
    → Leaves r 0
    → Destroys (r >>= run second)
after-Destroys second none enough bad = absurd bad
after-Destroys second (some c) enough (w, l) = done-Destroys (run second c) (
    weaken-Ends (run second c) (context_left c.context - context_turns second) 0 (few c.context)
      (run-Ends second c w (gone_of_left c.thread (omega arith))))
  where
    few : (k : ContextPoint) → context_left k - context_turns second ≤ 0
    few k = ground arith

-- However the turns of a dying thread, a dying context and of sleeps that end without a wake-up are
-- scheduled: where the thread has six turns, and the context has five more after those, both
-- parties finish, no assertion fails, nobody reads the cache after it was freed, and the cache is
-- emptied once and freed once. No wake-up is lost, whether the context sleeps or not.
pub run_lem :
    (first second : List Turn)
    → 6 ≤ thread_turns first
    → 5 ≤ context_turns second
    → Destroys (run first initial >>= run second)
run_lem first second thread_enough context_enough =
    after-Destroys second (run first initial) context_enough (
      weaken-Leaves (run first initial) (6 - thread_turns first) 0 (omega arith)
        (run-Leaves first initial initial-IsConsistent))
