-- ===== src/Distribution/InsertCopies.antt =====
-- distribution_insert_copies() refines the insertion into a multiset.
use udipe.Prelude.{
  ℕ, ◌+◌, ◌-◌, ◌^◌, ◌<◌, ◌≡◌, ◌≢◌, refl, sym, false, Option, some, arith, get_or, set, length-set,
  get_or-set_self, get_or-set_ne, Bool-cases, ◌==◌, ==→eq, lt→ltb, le→leb, inl, inr,
}
use mathlib.Core.Path.{subst}
use udipe.Prelude.Int.{ℤ, pos, eqb_ℤ, eq_of_parts}
use udipe.Prelude.Access.{read, read-eq, write-eq}
use udipe.Distribution.Defs.{
  DistributionLayout, Distribution, BinIndex, bin_at, ptrdiff_min, ptrdiff_max, bin_above,
  bin_nearest, distribution_layout,
}
use udipe.Distribution.ByValue.{value_at}
use udipe.Distribution.FindValue.{distribution_bin_by_value-Finds}
use udipe.Distribution.Found.{IsFound, increasing-le}
use udipe.Distribution.Occurrences.{occurrences-raised}
use udipe.Distribution.Builder.{count_at, IsMalloc, IsBuilder}
use udipe.Distribution.Build.{
  distribution_create_bin, last_value, insert_at, distribution_insert_copies,
}
use udipe.Distribution.Insert.{IsInserted, InsertsOrEnds, distribution_create_bin-InsertsOrEnds}

bin_above-only : bin_above ≢ bin_nearest
bin_above-only e = cc

-- The layout with `count` more copies in a bin.
abbrev raise : DistributionLayout → ℕ → ℕ → DistributionLayout
raise layout bin count = record layout {
  counts = set layout.counts bin (count_at layout bin + count);
}

raise-IsInserted :
    (dist : Distribution) (layout : DistributionLayout) (bin count : ℕ)
    → IsBuilder dist layout
    → bin < dist.num_bins
    → IsInserted dist layout
        (value_at layout.sorted_values bin, count)
        (record dist { allocation = some (raise layout bin count) })
        (raise layout bin count)
raise-IsInserted dist layout bin count valid lt = record {
  builder = record {
    stored = refl;
    room = record {
      values = valid.room.values;
      counts =
          omega
            (arith, valid.room.counts, length-set layout.counts bin (count_at layout bin + count));
    };
    within = valid.within;
    nonzero = valid.nonzero;
    small = valid.small;
    increasing = valid.increasing;
    positive = λ j jb. elim (Bool-cases (bin == j)) [
      | inl same ↦ rw (sym (==→eq bin j same), at_bin) (omega (arith, valid.positive bin lt))
      | inr differ ↦ rw (others j (λ e. ground (arith, e))) (valid.positive j jb)
    ];
  };
  counted = λ w.
      occurrences-raised layout (raise layout bin count) dist.num_bins bin
        (value_at layout.sorted_values bin) (count_at layout bin) count w lt refl (rw (at_bin) refl)
        (λ j differ. rw (others j differ) refl);
}
  where
    at_bin :
        get_or (set layout.counts bin (count_at layout bin + count)) bin 0
        ≡ count_at layout bin + count
    at_bin =
        get_or-set_self layout.counts bin (count_at layout bin + count) 0
          (omega (arith, lt, valid.within, valid.room.counts))

    others :
        (j : ℕ)
        → bin ≢ j
        → get_or (set layout.counts bin (count_at layout bin + count)) j 0 ≡ count_at layout j
    others j differ = get_or-set_ne layout.counts bin j (count_at layout bin + count) 0 differ

-- The read of the last value, with what comes after it.
last_value-reads :
    (stray : ℤ) (dist : Distribution) (layout : DistributionLayout)
    → IsBuilder dist layout
    → (value : ℤ) × (last_value (some stray) layout dist.num_bins ≡ some value)
unfolding last_value
last_value-reads stray dist layout valid = elim (Bool-cases (dist.num_bins == 0)) [
  | inl empty ↦ (stray, rw (last_value, empty) refl)
  | inr filled ↦ (
    value_at layout.sorted_values (dist.num_bins - 1),
    rw (last_value, filled)
        (read-eq layout.sorted_values (dist.num_bins - 1) (pos 0)
          (ground (arith, filled, valid.within, valid.room.values))),
  )
]

insert_at-past_end :
    (malloc : ℕ → Option DistributionLayout) (stray : ℤ) (dist : Distribution)
    (layout : DistributionLayout) (value : ℤ) (count : ℕ)
    → IsBuilder dist layout
    → insert_at malloc (some stray) dist value count ptrdiff_max
      ≡ distribution_create_bin malloc dist dist.num_bins value count
unfolding insert_at distribution_layout
insert_at-past_end malloc stray dist layout value count valid =
    let (last, reached) = last_value-reads stray dist layout valid in
    rw (insert_at, distribution_layout, valid.stored, reached) refl

insert_at-InsertsOrEnds :
    (malloc : ℕ → Option DistributionLayout) (stray : ℤ) (dist : Distribution)
    (layout : DistributionLayout) (value : ℤ) (count : ℕ) (bin : BinIndex)
    → IsMalloc malloc
    → IsBuilder dist layout
    → 0 < count
    → ((j : ℕ) → j < dist.num_bins → count_at layout j + count < 2 ^ 64)
    → IsFound layout.sorted_values dist.num_bins value bin_above bin
    → InsertsOrEnds malloc dist layout
        (value, count)
        (insert_at malloc (some stray) dist value count bin)
unfolding IsFound insert_at distribution_layout
insert_at-InsertsOrEnds malloc stray dist layout value count ptrdiff_min memory valid filled fits
      found =
    absurd found
insert_at-InsertsOrEnds malloc stray dist layout value count ptrdiff_max memory valid filled fits
      found =
    rw (insert_at-past_end malloc stray dist layout value count valid) (
      distribution_create_bin-InsertsOrEnds malloc dist layout dist.num_bins value count memory
        valid (omega arith) found (λ j le lt. absurd (omega (arith, lt))) filled)
insert_at-InsertsOrEnds malloc stray dist layout value count (bin_at bin) memory valid filled fits
      (lt, le, below) =
    elim (Bool-cases (eqb_ℤ value (value_at layout.sorted_values bin))) [
      | inl same ↦
          let equal : value_at layout.sorted_values bin ≡ value =
            ground (arith, eq_of_parts (value_at layout.sorted_values bin) value) in
          inl (
            record dist { allocation = some (raise layout bin count) },
            raise layout bin count,
            rw
                (
                  insert_at,
                  lt→ltb bin dist.num_bins lt,
                  distribution_layout,
                  valid.stored,
                  at_value,
                  same,
                  at_count,
                  le→leb (count_at layout bin) (2 ^ 64 - 1 - count) (omega (arith, fits bin lt)),
                  write-eq layout.counts bin (count_at layout bin + count)
                      (omega (arith, lt, valid.within, valid.room.counts)),
                )
                refl,
            subst
                (λ v.
                  IsInserted dist layout (v, count)
                    (record dist { allocation = some (raise layout bin count) })
                    (raise layout bin count))
                equal (raise-IsInserted dist layout bin count valid lt),
          )
      | inr differ ↦ rw (new_bin differ) (
          distribution_create_bin-InsertsOrEnds malloc dist layout bin value count memory valid
            (omega (arith, lt)) below
            (λ j from jb. ground (
              arith,
              le,
              differ,
              increasing-le layout.sorted_values dist.num_bins bin j valid.increasing from jb,
            ))
            filled)
    ]
  where
    at_value : read layout.sorted_values bin ≡ some (value_at layout.sorted_values bin)
    at_value =
        read-eq layout.sorted_values bin (pos 0)
          (omega (arith, lt, valid.within, valid.room.values))

    at_count : read layout.counts bin ≡ some (count_at layout bin)
    at_count = read-eq layout.counts bin 0 (omega (arith, lt, valid.within, valid.room.counts))

    new_bin :
        eqb_ℤ value (value_at layout.sorted_values bin) ≡ false
        → insert_at malloc (some stray) dist value count (bin_at bin)
          ≡ distribution_create_bin malloc dist bin value count
    new_bin differ =
        rw
          (
            insert_at,
            lt→ltb bin dist.num_bins lt,
            distribution_layout,
            valid.stored,
            at_value,
            differ,
          )
          refl

-- Inserting copies of a value into a valid builder adds that many occurrences of that value and of
-- no other to the multiset that it holds, and leaves it valid, whether a bin has the value or a new
-- one is made for it; or no bin has it, the builder is full and malloc() gave no larger storage.
-- There are copies to insert, no count overflows, and the read before the array of an empty builder
-- does not end the program.
pub distribution_insert_copies-InsertsOrEnds :
    (malloc : ℕ → Option DistributionLayout) (stray : ℤ) (dist : Distribution)
    (layout : DistributionLayout) (value : ℤ) (count : ℕ)
    → IsMalloc malloc
    → IsBuilder dist layout
    → 0 < count
    → ((j : ℕ) → j < dist.num_bins → count_at layout j + count < 2 ^ 64)
    → InsertsOrEnds malloc dist layout
        (value, count)
        (distribution_insert_copies malloc (some stray) dist value count)
unfolding distribution_insert_copies distribution_layout IsFound
distribution_insert_copies-InsertsOrEnds malloc stray dist layout value count memory valid filled
      fits =
    let (bin, reached, found) =
      distribution_bin_by_value-Finds dist layout value bin_above valid.stored valid.increasing
        (omega (arith, valid.within, valid.room.values)) (inl bin_above-only) in
    rw (distribution_insert_copies, reached)
      (insert_at-InsertsOrEnds malloc stray dist layout value count bin memory valid filled fits
        found)
