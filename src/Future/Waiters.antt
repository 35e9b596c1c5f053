-- ===== src/Future/Waiters.antt =====
-- src/future.c and src/future/wait.c: any number of threads that come to wait for one live future, stop
-- waiting, or move it to another state, in any order of their atomic steps on the status word.
use udipe.Prelude.{
  ℕ, ◌+◌, ◌%◌, ◌^◌, ◌<◌, ◌≡◌, ◌∙◌, ap, sym, refl, Bool, Bool-cases, inl, inr, true, Option, some,
  none, arith, ltb, ◌==◌,
}
use udipe.Future.Kind.{state_result}
use udipe.Future.Status.{
  Status, as_word, as_bitfield, max_downstream_count, cycle, prepare_downstream_count_inc,
  prepare_downstream_count_dec,
}
use udipe.Future.Exchange.{
  tried_word, succeeds, exchange-finds, prepare_inc-count, prepare_dec-count,
}
use udipe.Future.Word.{with_count, as_bitfield-as_word}
use udipe.Future.Shared.{
  future_status_compare_exchange_weak, future_downstream_count_dec, future_downstream_count_try_inc,
}
use udipe.Future.Atomic.{
  IsLive, with_count-IsLive, as_word-inc, future_downstream_count_dec_lem,
  future_downstream_count_try_inc-full, future_downstream_count_try_inc-counts,
  future_downstream_count_try_inc-reverts,
}

-- The shared word, the threads that wait, and those that are between the increment and the
-- decrement of a future_downstream_count_try_inc() that came too late.
pub record Waiting : Type 0 where
  pub word : ℕ
  pub waiters : ℕ
  pub reverting : ℕ

abbrev pub undisturbed : ℕ → ℕ
undisturbed word = word

-- One atomic step of one thread: a future_downstream_count_try_inc() in time, or the first half of
-- one that comes too late; the decrement that reverts it; future_downstream_count_dec() after a
-- wait; and the weak compare-exchanges that succeed. Of these, `joins` and `departs` change the
-- count with prepare_downstream_count_inc() and prepare_downstream_count_dec() and any other field
-- with it, and `moves_on` keeps the count, as where a future is started, cancelled or ended, or
-- where a wait leaves the count to its caller (DOWNSTREAM_COUNT_KEEP). An exchange that fails
-- changes nothing. The last exchange, by which future_finish() makes the future unavailable, is not
-- a step: the future is live throughout.
pub data Step : Waiting → Waiting → Type 0 where
  comes :
      {w : Waiting} {t : Status} {word : ℕ} (latest : Status)
      → IsLive latest
      → future_downstream_count_try_inc undisturbed w.word latest ≡ some (true, t, word)
      → Step w (record w { word = word; waiters = w.waiters + 1 })
  comes_late :
      {w : Waiting}
      → (as_bitfield w.word).state ≡ state_result
      → (as_bitfield w.word).downstream_count < max_downstream_count
      → Step w (record w { word = (w.word + 1) % 2 ^ 32; reverting = w.reverting + 1 })
  gives_up :
      {w : Waiting} {t : Status} {word n : ℕ}
      → w.reverting ≡ n + 1
      → future_downstream_count_dec w.word ≡ some (t, word)
      → Step w (record w { word = word; reverting = n })
  leaves :
      {w : Waiting} {t : Status} {word n : ℕ}
      → w.waiters ≡ n + 1
      → future_downstream_count_dec w.word ≡ some (t, word)
      → Step w (record w { word = word; waiters = n })
  joins :
      {w : Waiting} {t : Status} {word : ℕ} (spurious : Bool) (expected prepared desired : Status)
      → IsLive expected
      → IsLive desired
      → prepare_downstream_count_inc expected cycle ≡ some prepared
      → desired.downstream_count ≡ prepared.downstream_count
      → future_status_compare_exchange_weak spurious w.word expected desired ≡ some (true, t, word)
      → Step w (record w { word = word; waiters = w.waiters + 1 })
  departs :
      {w : Waiting} {t : Status} {word n : ℕ} (spurious : Bool) (expected prepared desired : Status)
      → w.waiters ≡ n + 1
      → IsLive expected
      → IsLive desired
      → prepare_downstream_count_dec expected cycle ≡ some prepared
      → desired.downstream_count ≡ prepared.downstream_count
      → future_status_compare_exchange_weak spurious w.word expected desired ≡ some (true, t, word)
      → Step w (record w { word = word; waiters = n })
  moves_on :
      {w : Waiting} {t : Status} {word : ℕ} (spurious : Bool) (expected desired : Status)
      → IsLive expected
      → IsLive desired
      → desired.downstream_count ≡ expected.downstream_count
      → future_status_compare_exchange_weak spurious w.word expected desired ≡ some (true, t, word)
      → Step w (record w { word = word })

pub data Steps : Waiting → Waiting → Type 0 where
  none_left : {w : Waiting} → Steps w w
  then_step : {u v w : Waiting} → Steps u v → Step v w → Steps u w

-- The word holds a live status, which counts exactly the threads that wait or are giving up.
pub record IsCounted (w : Waiting) : Type 0 where
  pub status : Status
  pub live : IsLive status
  pub holds : w.word ≡ as_word status
  pub counted : status.downstream_count ≡ w.waiters + w.reverting

-- What is read from a result.
abbrev word_left : Option (Status × ℕ) → ℕ
word_left none = 0
word_left (some (t, word)) = word

take_one :
    (s t : Status) (n word : ℕ)
    → IsLive s
    → s.downstream_count ≡ n + 1
    → future_downstream_count_dec (as_word s) ≡ some (t, word)
    → word ≡ as_word (with_count s n)
take_one s t n word v c d =
    sym (ap word_left d) ∙ ap word_left (future_downstream_count_dec_lem s n v c)

-- A waiter that comes in time finds room and an operation that runs.
comes-counts :
    (s latest t : Status) (word : ℕ)
    → IsLive s
    → IsLive latest
    → future_downstream_count_try_inc undisturbed (as_word s) latest ≡ some (true, t, word)
    → (s.downstream_count < max_downstream_count)
      × (word ≡ as_word (with_count s (s.downstream_count + 1)))
comes-counts s latest t word v l e =
    elim (Bool-cases (ltb s.downstream_count max_downstream_count)) [
      | inr full ↦
          let clash =
            sym (
              ap succeeds (
                future_downstream_count_try_inc-full undisturbed s latest v l
                  (ground (arith, v.widths.count_width))))
            ∙ ap succeeds e in
          absurd (ground arith)
      | inl room ↦ elim (Bool-cases (s.state == state_result)) [
        | inl over ↦
            let more = with_count s (s.downstream_count + 1) in
            let clash =
              sym (
                ap succeeds (
                  future_downstream_count_try_inc-reverts undisturbed s latest more
                    s.downstream_count v l
                    (with_count-IsLive s (s.downstream_count + 1) v (ground arith)) (ground arith)
                    (ground arith) refl (ground arith) refl))
              ∙ ap succeeds e in
            absurd (ground arith)
        | inr runs ↦ (
          ground arith,
          sym (ap tried_word e)
              ∙ ap tried_word (
                  future_downstream_count_try_inc-counts undisturbed s latest v l (ground arith)
                    (ground arith)),
        )
      ]
    ]

more-IsCounted :
    (s : Status) (word waiters reverting : ℕ)
    → IsLive s
    → s.downstream_count < max_downstream_count
    → word ≡ as_word (with_count s (s.downstream_count + 1))
    → s.downstream_count + 1 ≡ waiters + reverting
    → IsCounted (record { word = word; waiters = waiters; reverting = reverting })
more-IsCounted s word waiters reverting v h e c = record {
  status = with_count s (s.downstream_count + 1);
  live = with_count-IsLive s (s.downstream_count + 1) v (omega arith);
  holds = e;
  counted = c;
}

fewer-IsCounted :
    (s t : Status) (n word waiters reverting : ℕ)
    → IsLive s
    → s.downstream_count ≡ n + 1
    → future_downstream_count_dec (as_word s) ≡ some (t, word)
    → n ≡ waiters + reverting
    → IsCounted (record { word = word; waiters = waiters; reverting = reverting })
fewer-IsCounted s t n word waiters reverting v e d c = record {
  status = with_count s n;
  live = with_count-IsLive s n v (omega (arith, v.widths.count_width));
  holds = take_one s t n word v e d;
  counted = c;
}

Step-IsCounted : {v w : Waiting} → IsCounted v → Step v w → IsCounted w
Step-IsCounted {v} {w} c (comes {t = t} {word} latest l e) =
    let r = comes-counts c.status latest t word c.live l (rw (c.holds) at e) in
    more-IsCounted c.status word (v.waiters + 1) v.reverting c.live r.0 r.1
      (omega (arith, c.counted))
Step-IsCounted {v} {w} c (comes_late r h) =
    let h' = rw (c.holds, as_bitfield-as_word c.status c.live.widths) at h in
    more-IsCounted c.status _ v.waiters (v.reverting + 1) c.live h'
      (ap (λ x. (x + 1) % 2 ^ 32) c.holds ∙ as_word-inc c.status c.live h')
      (omega (arith, c.counted))
Step-IsCounted {v} {w} c (gives_up {t = t} {word} {n} p e) =
    fewer-IsCounted c.status t (v.waiters + n) word v.waiters n c.live (omega (arith, c.counted))
      (rw (c.holds) at e) refl
Step-IsCounted {v} {w} c (leaves {t = t} {word} {n} p e) =
    fewer-IsCounted c.status t (n + v.reverting) word n v.reverting c.live
      (omega (arith, c.counted)) (rw (c.holds) at e) refl
Step-IsCounted {v} {w} c (joins {t = t} {word} f x p d xl dl prepared same e) =
    let r = exchange-finds f c.status x d t word c.live xl dl (rw (c.holds) at e) in
    record {
      status = d;
      live = dl;
      holds = r.1;
      counted = omega (
        arith,
        same,
        prepare_inc-count x p prepared,
        ap (λ s. s.downstream_count) r.0,
        c.counted,
      );
    }
Step-IsCounted {v} {w} c (departs {t = t} {word} {n} f x p d waits xl dl prepared same e) =
    let r = exchange-finds f c.status x d t word c.live xl dl (rw (c.holds) at e) in
    record {
      status = d;
      live = dl;
      holds = r.1;
      counted = omega (
        arith,
        same,
        prepare_dec-count x p prepared,
        ap (λ s. s.downstream_count) r.0,
        c.counted,
        waits,
      );
    }
Step-IsCounted {v} {w} c (moves_on {t = t} {word} f x d xl dl same e) =
    let r = exchange-finds f c.status x d t word c.live xl dl (rw (c.holds) at e) in
    record {
      status = d;
      live = dl;
      holds = r.1;
      counted = same ∙ ap (λ s. s.downstream_count) (sym r.0) ∙ c.counted;
    }

pub Steps-IsCounted : {v w : Waiting} → IsCounted v → Steps v w → IsCounted w
Steps-IsCounted c none_left = c
Steps-IsCounted c (then_step s t) = Step-IsCounted (Steps-IsCounted c s) t

-- However these steps of the threads interleave, from a start where the word holds a live status
-- that counts the threads, a thread that waits or gives up can stop: the decrement passes its
-- assertions, and leaves one thread fewer counted.
pub Steps-can_leave :
    {v w : Waiting} (n : ℕ)
    → IsCounted v
    → Steps v w
    → w.waiters + w.reverting ≡ n + 1
    → (s : Status) × (future_downstream_count_dec w.word ≡ some (s, as_word s))
      × (s.downstream_count ≡ n)
Steps-can_leave n c steps e =
    let d = Steps-IsCounted c steps in
    (
      with_count d.status n,
      rw (d.holds) (future_downstream_count_dec_lem d.status n d.live (d.counted ∙ e)),
      refl,
    )
