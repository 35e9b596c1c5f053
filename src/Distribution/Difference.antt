-- ===== src/Distribution/Difference.antt =====
-- What distribution_min_difference() computes: the loop never moves `prev_value` on.
use udipe.Prelude.{
  ℕ, zero, suc, ◌+◌, ◌-◌, ◌^◌, ◌≤◌, ◌<◌, ◌≡◌, refl, List, true, false, some, arith, length, ltb,
  ltb-false, lt→ltb, ◌==◌,
}
use udipe.Prelude.Int.{ℤ, pos, pos_part, neg_part, ◌≤ℤ◌, lt→ltb_ℤ, ◌-ℤ◌, int64-sub}
use udipe.Prelude.Access.{read-eq}
use udipe.Distribution.Defs.{DistributionLayout, Distribution, distribution_layout}
use udipe.Distribution.ByValue.{value_at, IsIncreasing}
use udipe.Distribution.Found.{distance, increasing-le}
use udipe.Distribution.Query.{min_difference_loop, distribution_min_difference}

difference-parts : (a b : ℤ) → b ≤ℤ a → pos_part (a -ℤ b) ≡ distance a b
unfolding ◌-ℤ◌ distance
difference-parts a b le = ground arith

loop-keeps :
    (values : List ℤ) (all bins bin least : ℕ)
    → IsIncreasing values all
    → all ≤ length values
    → distance (value_at values (all - 1)) (value_at values 0) < 2 ^ 63
    → 0 < bin
    → bin + bins ≡ all
    → ((j : ℕ) → bin ≤ j → j < all → least ≤ distance (value_at values j) (value_at values 0))
    → min_difference_loop values (value_at values 0) bins bin least ≡ some least
unfolding min_difference_loop
loop-keeps values all zero bin least inc room close after sum smallest = refl
loop-keeps values all (suc bins) bin least inc room close after sum smallest =
    rw
      (
        min_difference_loop,
        read-eq values bin (pos 0) (omega arith),
        lt→ltb_ℤ (value_at values 0) (value_at values bin) (inc 0 bin after (omega arith)),
        int64-sub (value_at values bin) (value_at values 0)
            (omega (arith, inc 0 bin after (omega arith))) near,
        difference-parts (value_at values bin) (value_at values 0)
            (omega (arith, inc 0 bin after (omega arith))),
        ltb-false (distance (value_at values bin) (value_at values 0)) least
            (smallest bin (omega arith) (omega arith)),
      )
      (loop-keeps values all bins (bin + 1) least inc room close (omega arith) (omega arith)
        (λ j from lt. smallest j (omega arith) lt))
  where
    near :
        pos_part (value_at values bin) + neg_part (value_at values 0)
        < pos_part (value_at values 0) + neg_part (value_at values bin) + 2 ^ 63
    near =
        unfold distance in
        omega (arith, close, increasing-le values all bin (all - 1) inc (omega arith) (omega arith))

loop-first :
    (values : List ℤ) (all bins : ℕ)
    → IsIncreasing values all
    → all ≤ length values
    → distance (value_at values (all - 1)) (value_at values 0) < 2 ^ 63
    → 1 + suc bins ≡ all
    → min_difference_loop values (value_at values 0) (suc bins) 1 (2 ^ 64 - 1)
      ≡ some (distance (value_at values 1) (value_at values 0))
unfolding min_difference_loop
loop-first values all bins inc room close sum =
    rw
      (
        min_difference_loop,
        read-eq values 1 (pos 0) (omega arith),
        lt→ltb_ℤ (value_at values 0) (value_at values 1) (inc 0 1 (omega arith) (omega arith)),
        int64-sub (value_at values 1) (value_at values 0)
            (omega (arith, inc 0 1 (omega arith) (omega arith))) near,
        difference-parts (value_at values 1) (value_at values 0)
            (omega (arith, inc 0 1 (omega arith) (omega arith))),
        lt→ltb (distance (value_at values 1) (value_at values 0)) (2 ^ 64 - 1)
            (unfold distance in omega (arith, near, inc 0 1 (omega arith) (omega arith))),
      )
      (loop-keeps values all bins 2 (distance (value_at values 1) (value_at values 0)) inc room
        close (omega arith) (omega arith)
        (λ j from lt.
          unfold distance in
          omega (
            arith,
            inc 0 1 (omega arith) (omega arith),
            increasing-le values all 1 j inc (omega arith) lt,
          )))
  where
    near :
        pos_part (value_at values 1) + neg_part (value_at values 0)
        < pos_part (value_at values 0) + neg_part (value_at values 1) + 2 ^ 63
    near =
        unfold distance in
        omega (arith, close, increasing-le values all 1 (all - 1) inc (omega arith) (omega arith))

-- For two sorted bins or more that are less than 2^63 apart, distribution_min_difference() answers
-- with the difference of the second value and the first, whatever the later values are: the loop
-- compares each value with the first one, and not with the one before it.
pub distribution_min_difference-first :
    (dist : Distribution) (layout : DistributionLayout)
    → dist.allocation ≡ some layout
    → IsIncreasing layout.sorted_values dist.num_bins
    → dist.num_bins ≤ length layout.sorted_values
    → 1 < dist.num_bins
    → distance (value_at layout.sorted_values (dist.num_bins - 1)) (value_at layout.sorted_values 0)
      < 2 ^ 63
    → distribution_min_difference dist
      ≡ some (distance (value_at layout.sorted_values 1) (value_at layout.sorted_values 0))
unfolding distribution_min_difference distribution_layout
distribution_min_difference-first dist layout stored inc room many close =
    rw
      (
        distribution_min_difference,
        nonzero,
        distribution_layout,
        stored,
        read-eq layout.sorted_values 0 (pos 0) (omega arith),
        split,
        loop-first layout.sorted_values dist.num_bins (dist.num_bins - 2) inc room close
            (omega arith),
        positive_difference,
      )
      refl
  where
    nonzero : (dist.num_bins == 0) ≡ false
    nonzero = ground arith

    split : dist.num_bins - 1 ≡ suc (dist.num_bins - 2)
    split = omega arith

    positive_difference :
        ltb 0 (distance (value_at layout.sorted_values 1) (value_at layout.sorted_values 0)) ≡ true
    positive_difference =
        lt→ltb 0 (distance (value_at layout.sorted_values 1) (value_at layout.sorted_values 0))
          (unfold distance in omega (arith, inc 0 1 (omega arith) many))
