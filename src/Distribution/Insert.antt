-- ===== src/Distribution/Insert.antt =====
-- distribution_create_bin() and distribution_insert_copies() keep a builder's invariant, and insert.
use udipe.Prelude.{
  ℕ, suc, ◌+◌, ◌-◌, ◌*◌, ◌%◌, ◌^◌, ◌≤◌, ◌<◌, ◌≡◌, refl, ◌∙◌, ap, false, Option, none, some, arith,
  ◌==◌, lt→ltb, ltb-false, eq→==, ltb_cases, ◌⊎◌, inl, inr,
}
use udipe.Prelude.Abort.{◌>>=◌, Option-cases}
use udipe.Prelude.Int.{ℤ, ◌<ℤ◌}
use udipe.Distribution.Defs.{
  DistributionLayout, Distribution, distribution_layout, distribution_allocate,
}
use udipe.Distribution.ByValue.{value_at}
use udipe.Distribution.Shift.{HasRoom, HasRoom-le, IsShifted}
use udipe.Distribution.Occurrences.{
  tally, occurrences, occurrences-none, occurrences-shifted, shifted-IsIncreasing, shifted-positive,
}
use udipe.Distribution.Builder.{
  IsMalloc, IsBuilder, bin_fits-eq, insert_in_place-Inserts, insert_moved-Inserts,
}
use udipe.Distribution.Build.{bin_fits, distribution_create_bin}

-- A builder that has, besides what `dist` held, the content of one bin.
pub record IsInserted (dist : Distribution) (layout : DistributionLayout) (content : ℤ × ℕ)
    (grown : Distribution) (after : DistributionLayout) : Type 0 where
  pub builder : IsBuilder grown after
  pub counted :
      (value : ℤ)
      → occurrences after grown.num_bins value
        ≡ occurrences layout dist.num_bins value + tally value content

-- The builder with its new bin; or no bin has the value, the builder is full, and the program has
-- ended since malloc() gave no room.
abbrev pub InsertsOrEnds :
    (ℕ → Option DistributionLayout)
    → Distribution
    → DistributionLayout
    → ℤ × ℕ
    → Option Distribution
    → Type 0
InsertsOrEnds malloc dist layout content result =
    ((grown : Distribution) × (after : DistributionLayout) × (result ≡ some grown)
      × IsInserted dist layout content grown after)
    ⊎ (result ≡ none)
      × (occurrences layout dist.num_bins (content.0) ≡ 0)
      × (dist.num_bins ≡ dist.capacity)
      × (malloc (2 * dist.capacity * 16) ≡ none)

shifted-IsInserted :
    (dist : Distribution) (layout after : DistributionLayout) (place capacity : ℕ) (value : ℤ)
    (count : ℕ)
    → IsBuilder dist layout
    → place ≤ dist.num_bins
    → ((j : ℕ) → j < place → value_at layout.sorted_values j <ℤ value)
    → ((j : ℕ) → place ≤ j → j < dist.num_bins → value <ℤ value_at layout.sorted_values j)
    → 0 < count
    → dist.num_bins < capacity
    → capacity * 16 < 2 ^ 63
    → HasRoom after capacity
    → IsShifted layout place (dist.num_bins - place) (value, count) after
    → IsInserted dist layout
        (value, count)
        (record { allocation = some after; num_bins = dist.num_bins + 1; capacity = capacity })
        after
shifted-IsInserted dist layout after place capacity value count valid le below above filled fits
      small room shifted =
    record {
      builder = record {
        stored = refl;
        room = room;
        within = omega (arith, fits);
        nonzero = omega (arith, fits);
        small = small;
        increasing = λ i j lt jb.
            shifted-IsIncreasing layout after place (dist.num_bins - place) (value, count) shifted
              (λ a b ab bb. valid.increasing a b ab (omega (arith, bb))) below
              (λ a from ab. above a from (omega (arith, ab))) i j lt (omega (arith, jb, le));
        positive = λ j jb.
            shifted-positive layout after place (dist.num_bins - place) value count shifted
              (λ a ab. valid.positive a (omega (arith, ab))) filled j (omega (arith, jb, le));
      };
      counted = λ w.
          ap (λ n. occurrences after n w) (one_more dist.num_bins)
          ∙ occurrences-shifted layout after place (dist.num_bins - place) dist.num_bins
              (value, count) w shifted le (omega (arith, le));
    }
  where
    one_more : (n : ℕ) → n + 1 ≡ suc n
    one_more n = omega arith

pub allocate-eq :
    (malloc : ℕ → Option DistributionLayout) (bins : ℕ) (result : Option DistributionLayout)
    → 0 < bins
    → bins * 16 < 2 ^ 64
    → malloc (bins * 16) ≡ result
    → distribution_allocate malloc bins ≡ (
        result >>= λ allocation.
        some (record { allocation = some allocation; num_bins = 0; capacity = bins }))
unfolding distribution_allocate
allocate-eq malloc bins result some_bin small given =
    rw (distribution_allocate, nonzero, bytes, given) refl
  where
    nonzero : (bins == 0) ≡ false
    nonzero = ground arith

    bytes : bins * 16 % 2 ^ 64 ≡ bins * 16
    bytes = omega arith

-- A new bin between its neighbours: the builder stays valid and has the values of the new bin,
-- besides what it had; or it was full, and malloc() gave no larger storage.
pub distribution_create_bin-InsertsOrEnds :
    (malloc : ℕ → Option DistributionLayout) (dist : Distribution) (layout : DistributionLayout)
    (place : ℕ) (value : ℤ) (count : ℕ)
    → IsMalloc malloc
    → IsBuilder dist layout
    → place ≤ dist.num_bins
    → ((j : ℕ) → j < place → value_at layout.sorted_values j <ℤ value)
    → ((j : ℕ) → place ≤ j → j < dist.num_bins → value <ℤ value_at layout.sorted_values j)
    → 0 < count
    → InsertsOrEnds malloc dist layout
        (value, count)
        (distribution_create_bin malloc dist place value count)
unfolding distribution_create_bin distribution_layout distribution_allocate
distribution_create_bin-InsertsOrEnds malloc dist layout place value count memory valid le below
      above filled =
    elim (ltb_cases dist.num_bins dist.capacity) [
      | inl spare ↦
          let (after, reached, shifted, keeps) =
            insert_in_place-Inserts layout dist.num_bins place value count
              (HasRoom-le layout (dist.num_bins + 1) dist.capacity valid.room
                (omega (arith, spare)))
              le in
          inl (
            record {
              allocation = some after;
              num_bins = dist.num_bins + 1;
              capacity = dist.capacity;
            },
            after,
            rw
                (
                  distribution_create_bin,
                  distribution_layout,
                  valid.stored,
                  fits,
                  lt→ltb dist.num_bins dist.capacity spare,
                  reached,
                )
                refl,
            shifted-IsInserted dist layout after place dist.capacity value count valid le below
                above filled spare valid.small (keeps dist.capacity valid.room) shifted,
          )
      | inr full ↦ elim (Option-cases (malloc (2 * dist.capacity * 16))) [
        | inl ended ↦ inr (
          rw
              (
                distribution_create_bin,
                distribution_layout,
                valid.stored,
                fits,
                ltb-false dist.num_bins dist.capacity full,
                eq→== dist.num_bins dist.capacity (whole full),
                doubled,
                allocate-eq malloc (2 * dist.capacity) none (omega (arith, valid.nonzero))
                    (omega (arith, valid.small)) ended,
              )
              refl,
          occurrences-none layout place dist.num_bins value below above,
          whole full,
          ended,
        )
        | inr (new, given) ↦
            let to : HasRoom new (2 * dist.capacity) = memory.sized (2 * dist.capacity) new given in
            let (after, reached, shifted, keeps) =
              insert_moved-Inserts layout new dist.num_bins place value count
                (HasRoom-le layout dist.num_bins dist.capacity valid.room valid.within)
                (HasRoom-le new (dist.num_bins + 1) (2 * dist.capacity) to
                  (omega (arith, valid.within, valid.nonzero)))
                le in
            inl (
              record {
                allocation = some after;
                num_bins = dist.num_bins + 1;
                capacity = 2 * dist.capacity;
              },
              after,
              rw
                  (
                    distribution_create_bin,
                    distribution_layout,
                    valid.stored,
                    fits,
                    ltb-false dist.num_bins dist.capacity full,
                    eq→== dist.num_bins dist.capacity (whole full),
                    doubled,
                    allocate-eq malloc (2 * dist.capacity) (some new) (omega (arith, valid.nonzero))
                        (omega (arith, valid.small)) given,
                    reached,
                  )
                  refl,
              shifted-IsInserted dist layout after place (2 * dist.capacity) value count valid le
                  below above filled (omega (arith, valid.within, valid.nonzero))
                  (omega (arith, memory.bounded (2 * dist.capacity * 16) new given))
                  (keeps (2 * dist.capacity) to) shifted,
            )
      ]
    ]
  where
    fits : bin_fits layout dist.num_bins place value count ≡ some tt
    fits =
        bin_fits-eq layout dist.num_bins place value count
          (HasRoom-le layout dist.num_bins dist.capacity valid.room valid.within) le below above
          filled

    whole : dist.capacity ≤ dist.num_bins → dist.num_bins ≡ dist.capacity
    whole full = omega (arith, full, valid.within)

    doubled : 2 * dist.capacity % 2 ^ 64 ≡ 2 * dist.capacity
    doubled = omega (arith, valid.small)
