-- ===== src/Distribution/Refine.antt =====
-- The life of a builder: from distribution_initialize() or distribution_reset() on, insertions keep
-- the multiset of what was inserted.
use udipe.Prelude.{
  ℕ, zero, suc, ◌+◌, ◌*◌, ◌/◌, ◌^◌, ◌≤◌, ◌<◌, ◌≡◌, refl, sym, ◌∙◌, ap, List, [], ◌∷◌, true, Option,
  none, some, arith, length, ◌⊎◌, inl, inr, ◌==◌, Bool-cases, ==→eq,
}
use mathlib.Core.List.{◌++◌}
use udipe.Prelude.Abort.{◌>>=◌}
use udipe.Prelude.Int.{ℤ, eqb_ℤ}
use udipe.Distribution.Defs.{
  DistributionLayout, Distribution, distribution_initialize, distribution_poison,
}
use udipe.Distribution.ByValue.{value_at}
use udipe.Distribution.Shift.{bin_of, HasRoom}
use udipe.Distribution.Occurrences.{tally, occurrences}
use udipe.Distribution.Builder.{count_at, IsMalloc, IsBuilder}
use udipe.Distribution.Build.{distribution_insert}
use udipe.Distribution.Insert.{allocate-eq}
use udipe.Distribution.InsertCopies.{distribution_insert_copies-InsertsOrEnds}
use udipe.Distribution.Query.{distribution_reset}

-- How often a value stands in a list.
abbrev pub times : ℤ → List ℤ → ℕ
times value [] = 0
times value (v ∷ values) = times value values + tally value (v, 1)

-- A valid builder that holds each value as often as the list does.
pub record Holds (dist : Distribution) (layout : DistributionLayout) (values : List ℤ)
    : Type 0 where
  pub builder : IsBuilder dist layout
  pub counted : (value : ℤ) → occurrences layout dist.num_bins value ≡ times value values

-- The insertion of each value of a list, the last one first.
abbrev pub insert_all :
    (ℕ → Option DistributionLayout) → Option ℤ → Distribution → List ℤ → Option Distribution
insert_all malloc stray dist [] = some dist
insert_all malloc stray dist (v ∷ values) =
    insert_all malloc stray dist values >>= λ filled. distribution_insert malloc stray filled v

-- Why the insertion of `values` has ended the program: the values before `value` were inserted,
-- they filled the builder, `value` is not among them, and malloc() refused storage for twice as
-- many bins.
pub record RunsOut (malloc : ℕ → Option DistributionLayout) (stray : Option ℤ) (dist : Distribution)
    (values : List ℤ) : Type 0 where
  pub later : List ℤ
  pub value : ℤ
  pub earlier : List ℤ
  pub split : values ≡ later ++ (value ∷ earlier)
  pub full : Distribution
  pub layout : DistributionLayout
  pub reached : insert_all malloc stray dist earlier ≡ some full
  pub holds : Holds full layout earlier
  pub absent : times value earlier ≡ 0
  pub no_bin_left : full.num_bins ≡ full.capacity
  pub refused : malloc (2 * full.capacity * 16) ≡ none

times-length : (value : ℤ) (values : List ℤ) → times value values ≤ length values
times-length value [] = omega arith
times-length value (v ∷ values) = elim (Bool-cases (eqb_ℤ v value)) [
  | inl same ↦ rw (same) omega (arith, times-length value values)
  | inr differ ↦ rw (differ) omega (arith, times-length value values)
]

-- A bin's count is a part of the occurrences of its value.
count-occurrences :
    (layout : DistributionLayout) (bins j : ℕ)
    → j < bins
    → count_at layout j ≤ occurrences layout bins (value_at layout.sorted_values j)
count-occurrences layout zero j lt = absurd (omega arith)
count-occurrences layout (suc n) j lt = elim (Bool-cases (j == n)) [
  | inl same ↦ rw (sym (==→eq j n same)) own
  | inr differ ↦ omega (arith, count-occurrences layout n j (ground arith))
]
  where
    self : eqb_ℤ (value_at layout.sorted_values j) (value_at layout.sorted_values j) ≡ true
    self = ground arith

    own :
        count_at layout j
        ≤ occurrences layout j (value_at layout.sorted_values j)
          + tally (value_at layout.sorted_values j) (bin_of layout j)
    own = rw (self) omega arith

empty-Holds :
    (allocation : Option DistributionLayout) (layout : DistributionLayout) (capacity : ℕ)
    → allocation ≡ some layout
    → HasRoom layout capacity
    → 0 < capacity
    → capacity * 16 < 2 ^ 63
    → Holds (record { allocation = allocation; num_bins = 0; capacity = capacity }) layout []
empty-Holds allocation layout capacity stored room some_bin small = record {
  builder = record {
    stored = stored;
    room = room;
    within = omega arith;
    nonzero = some_bin;
    small = small;
    increasing = λ i j lt jb. absurd (omega (arith, jb));
    positive = λ j jb. absurd (omega (arith, jb));
  };
  counted = λ w. refl;
}

-- With memory for a page of at least one bin, distribution_initialize() gives a valid builder that
-- holds nothing.
pub distribution_initialize-Holds :
    (malloc : ℕ → Option DistributionLayout) (page_size : ℕ) (layout : DistributionLayout)
    → IsMalloc malloc
    → 16 ≤ page_size
    → malloc (page_size / 16 * 16) ≡ some layout
    → (dist : Distribution) × (distribution_initialize malloc page_size ≡ some dist)
      × Holds dist layout []
unfolding distribution_initialize
distribution_initialize-Holds malloc page_size layout memory big given = (
  record { allocation = some layout; num_bins = 0; capacity = page_size / 16 },
  allocate-eq malloc (page_size / 16) (some layout) (omega arith)
      (omega (arith, memory.bounded (page_size / 16 * 16) layout given)) given,
  empty-Holds (some layout) layout (page_size / 16) refl
      (memory.sized (page_size / 16) layout given) (omega arith)
      (memory.bounded (page_size / 16 * 16) layout given),
)

insert-Holds :
    (malloc : ℕ → Option DistributionLayout) (stray : ℤ) (dist : Distribution)
    (layout : DistributionLayout) (v : ℤ) (values : List ℤ)
    → IsMalloc malloc
    → Holds dist layout values
    → suc (length values) < 2 ^ 64
    → ((filled : Distribution) × (after : DistributionLayout) × (distribution_insert malloc
            (some stray)
            dist
            v
          ≡ some filled)
        × Holds filled after (v ∷ values))
      ⊎ (distribution_insert malloc (some stray) dist v ≡ none)
        × (times v values ≡ 0)
        × (dist.num_bins ≡ dist.capacity)
        × (malloc (2 * dist.capacity * 16) ≡ none)
unfolding distribution_insert
insert-Holds malloc stray dist layout v values memory holds few =
    elim (distribution_insert_copies-InsertsOrEnds malloc stray dist layout v 1 memory holds.builder
      (omega arith)
      (λ j lt. omega (
        arith,
        few,
        count-occurrences layout dist.num_bins j lt,
        holds.counted (value_at layout.sorted_values j),
        times-length (value_at layout.sorted_values j) values,
      ))) [
        | inl inserted ↦
            let (filled, after, reached, valid) = inserted in
            inl (
              filled,
              after,
              reached,
              record {
                builder = valid.builder;
                counted = λ w. omega (arith, valid.counted w, holds.counted w);
              },
            )
        | inr ended ↦
            let (out, absent, full, refused) = ended in
            inr (out, sym (holds.counted v) ∙ absent, full, refused)
      ]

-- Whatever is inserted, in whatever order: fewer than 2^64 insertions into a valid builder that
-- holds nothing end in a valid builder, whose counts are those of the multiset of the inserted
-- values; or the program has ended at a value that is not among those before it, for which the
-- builder, that holds those, had no bin left, and malloc() refused the storage for twice as many
-- bins. The read before the array of an empty builder is taken to give some value.
pub insert_all-Holds :
    (malloc : ℕ → Option DistributionLayout) (stray : ℤ) (dist : Distribution)
    (layout : DistributionLayout) (values : List ℤ)
    → IsMalloc malloc
    → Holds dist layout []
    → length values < 2 ^ 64
    → ((filled : Distribution) × (after : DistributionLayout) × (insert_all malloc
            (some stray)
            dist
            values
          ≡ some filled)
        × Holds filled after values)
      ⊎ (insert_all malloc (some stray) dist values ≡ none)
        × RunsOut malloc (some stray) dist values
unfolding ◌++◌
insert_all-Holds malloc stray dist layout [] memory holds few = inl (dist, layout, refl, holds)
insert_all-Holds malloc stray dist layout (v ∷ values) memory holds few =
    elim (insert_all-Holds malloc stray dist layout values memory holds (omega arith)) [
      | inl before ↦
          let (filled, after, reached, valid) = before in
          rw (reached) (elim (insert-Holds malloc stray filled after v values memory valid few) [
            | inl inserted ↦ inl inserted
            | inr ended ↦
                let (out, absent, full, refused) = ended in
                inr (
                  out,
                  record {
                    later = [];
                    value = v;
                    earlier = values;
                    split = refl;
                    full = filled;
                    layout = after;
                    reached = reached;
                    holds = valid;
                    absent = absent;
                    no_bin_left = full;
                    refused = refused;
                  },
                )
          ])
      | inr ended ↦
          let (out, why) = ended in
          rw (out) (
            inr (
              refl,
              record {
                later = v ∷ why.later;
                value = why.value;
                earlier = why.earlier;
                split = ap (λ s. v ∷ s) why.split;
                full = why.full;
                layout = why.layout;
                reached = why.reached;
                holds = why.holds;
                absent = why.absent;
                no_bin_left = why.no_bin_left;
                refused = why.refused;
              },
            ))
    ]

-- distribution_reset() of a distribution in memory gives a valid builder that holds nothing and has
-- the same storage, and poisons the distribution.
pub distribution_reset-Holds :
    (dist : Distribution) (layout : DistributionLayout)
    → dist.allocation ≡ some layout
    → HasRoom layout dist.capacity
    → 0 < dist.capacity
    → dist.capacity * 16 < 2 ^ 63
    → Holds ((distribution_reset dist).0) layout []
      × ((distribution_reset dist).1 ≡ distribution_poison)
unfolding distribution_reset
distribution_reset-Holds dist layout stored room some_bin small =
    (empty-Holds dist.allocation layout dist.capacity stored room some_bin small, refl)
