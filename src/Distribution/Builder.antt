-- ===== src/Distribution/Builder.antt =====
-- The invariant of a builder, and what distribution_create_bin() does to it.
use udipe.Prelude.{
  ℕ, ◌+◌, ◌-◌, ◌*◌, ◌^◌, ◌≤◌, ◌<◌, ◌≡◌, refl, ◌∙◌, sym, Option, some, arith, get_or, Bool-cases,
  ◌==◌, ==→eq, lt→ltb, le→leb, ltb-false, ltb_cases, inl, inr,
}
use udipe.Prelude.Int.{ℤ, pos, ◌<ℤ◌, lt→ltb_ℤ}
use udipe.Prelude.Access.{read, read-eq}
use udipe.Distribution.Defs.{DistributionLayout, Distribution}
use udipe.Distribution.ByValue.{value_at, IsIncreasing}
use udipe.Distribution.Shift.{
  put, HasRoom, HasRoom-le, put-HasRoom, bin_of-put_self, bin_of-put_ne, write_bin-eq, IsShifted,
  shift_up-IsShifted, transfer-IsTransferred,
}
use udipe.Distribution.Build.{bin_fits, insert_in_place, insert_moved}

abbrev pub count_at : DistributionLayout → ℕ → ℕ
count_at layout bin = get_or layout.counts bin 0

-- What malloc() documents: no object is larger than PTRDIFF_MAX, and the memory given has the size
-- asked for.
pub record IsMalloc (malloc : ℕ → Option DistributionLayout) : Type 0 where
  pub bounded :
      (bytes : ℕ) (layout : DistributionLayout) → malloc bytes ≡ some layout → bytes < 2 ^ 63
  pub sized :
      (bins : ℕ) (layout : DistributionLayout)
      → malloc (bins * 16) ≡ some layout
      → HasRoom layout bins

-- A builder: within its storage, sorted, and without empty bins.
pub record IsBuilder (dist : Distribution) (layout : DistributionLayout) : Type 0 where
  pub stored : dist.allocation ≡ some layout
  pub room : HasRoom layout dist.capacity
  pub within : dist.num_bins ≤ dist.capacity
  pub nonzero : 0 < dist.capacity
  pub small : dist.capacity * 16 < 2 ^ 63
  pub increasing : IsIncreasing layout.sorted_values dist.num_bins
  pub positive : (j : ℕ) → j < dist.num_bins → 0 < count_at layout j

pub bin_fits-eq :
    (layout : DistributionLayout) (bins place : ℕ) (value : ℤ) (count : ℕ)
    → HasRoom layout bins
    → place ≤ bins
    → ((j : ℕ) → j < place → value_at layout.sorted_values j <ℤ value)
    → ((j : ℕ) → place ≤ j → j < bins → value <ℤ value_at layout.sorted_values j)
    → 0 < count
    → bin_fits layout bins place value count ≡ some tt
unfolding bin_fits
bin_fits-eq layout bins place value count room le below above filled = elim (ltb_cases 0 place) [
  | inl after ↦ elim (ltb_cases place bins) [
    | inl inside ↦
        rw
          (
            bin_fits,
            le→leb place bins le,
            lt→ltb 0 place after,
            lt→ltb place bins inside,
            lower after,
            lt→ltb_ℤ (value_at layout.sorted_values (place - 1)) value
                (below (place - 1) (omega arith)),
            upper inside,
            lt→ltb_ℤ value (value_at layout.sorted_values place) (above place (omega arith) inside),
            lt→ltb 0 count filled,
          )
          refl
    | inr outside ↦
        rw
          (
            bin_fits,
            le→leb place bins le,
            lt→ltb 0 place after,
            ltb-false place bins outside,
            lower after,
            lt→ltb_ℤ (value_at layout.sorted_values (place - 1)) value
                (below (place - 1) (omega arith)),
            lt→ltb 0 count filled,
          )
          refl
  ]
  | inr first ↦ elim (ltb_cases place bins) [
    | inl inside ↦
        rw
          (
            bin_fits,
            le→leb place bins le,
            ltb-false 0 place first,
            lt→ltb place bins inside,
            upper inside,
            lt→ltb_ℤ value (value_at layout.sorted_values place) (above place (omega arith) inside),
            lt→ltb 0 count filled,
          )
          refl
    | inr outside ↦
        rw
          (
            bin_fits,
            le→leb place bins le,
            ltb-false 0 place first,
            ltb-false place bins outside,
            lt→ltb 0 count filled,
          )
          refl
  ]
]
  where
    lower :
        0 < place
        → read layout.sorted_values (place - 1) ≡ some (value_at layout.sorted_values (place - 1))
    lower h = read-eq layout.sorted_values (place - 1) (pos 0) (omega (arith, room.values))

    upper :
        place < bins → read layout.sorted_values place ≡ some (value_at layout.sorted_values place)
    upper h = read-eq layout.sorted_values place (pos 0) (omega (arith, room.values))

-- A result with the new bin in its place, and as much room as `before` had.
abbrev pub Inserts :
    DistributionLayout → DistributionLayout → ℕ → ℕ → ℤ × ℕ → Option DistributionLayout → Type 0
Inserts old before bins place content result =
    (after : DistributionLayout) × (result ≡ some after)
    × IsShifted old place (bins - place) content after
    × ((room : ℕ) → HasRoom before room → HasRoom after room)

pub insert_in_place-Inserts :
    (layout : DistributionLayout) (bins place : ℕ) (value : ℤ) (count : ℕ)
    → HasRoom layout (bins + 1)
    → place ≤ bins
    → Inserts layout layout bins place
        (value, count)
        (insert_in_place layout bins place value count)
unfolding insert_in_place
insert_in_place-Inserts layout bins place value count room le = elim (Bool-cases (place == bins)) [
  | inl last ↦ (
    put layout place (value, count),
    rw (insert_in_place, last, write_bin-eq layout place value count here) refl,
    record {
      lower = λ j lt. bin_of-put_ne layout place j (value, count) (λ e. omega (arith, e));
      at_dst = bin_of-put_self layout place (value, count) here;
      upper = λ j after lt. absurd (omega (arith, ==→eq place bins last));
    },
    λ n r. put-HasRoom layout n place (value, count) r,
  )
  | inr inside ↦
      let (after, reached, shifted, keeps) =
        shift_up-IsShifted (bins - (place + 1)) (place + 1) (value_at layout.sorted_values place)
          (count_at layout place) (put layout place (value, count))
          (put-HasRoom layout (place + 1 + (bins - (place + 1)) + 1) place (value, count)
            (HasRoom-le layout (place + 1 + (bins - (place + 1)) + 1) (bins + 1) room
              (ground arith))) in
      (
        after,
        rw
            (
              insert_in_place,
              inside,
              read-eq layout.sorted_values place (pos 0) (omega (arith, room.values)),
              read-eq layout.counts place 0 (omega (arith, room.counts)),
              write_bin-eq layout place value count here,
            )
            reached,
        record {
          lower = λ j lt.
              shifted.lower j (omega arith)
              ∙ bin_of-put_ne layout place j (value, count) (λ e. omega (arith, e));
          at_dst =
              shifted.lower place (omega arith) ∙ bin_of-put_self layout place (value, count) here;
          upper = λ j from lt. elim (Bool-cases (place == j)) [
            | inl same ↦ rw (sym (==→eq place j same)) shifted.at_dst
            | inr differ ↦
                shifted.upper j (ground arith) (ground arith)
                ∙ bin_of-put_ne layout place j (value, count) (λ e. ground (arith, e))
          ];
        },
        λ n r. keeps n (put-HasRoom layout n place (value, count) r),
      )
]
  where
    here : HasRoom layout (place + 1)
    here = HasRoom-le layout (place + 1) (bins + 1) room (omega arith)

pub insert_moved-Inserts :
    (old new : DistributionLayout) (bins place : ℕ) (value : ℤ) (count : ℕ)
    → HasRoom old bins
    → HasRoom new (bins + 1)
    → place ≤ bins
    → Inserts old new bins place (value, count) (insert_moved old new bins place value count)
unfolding insert_moved
insert_moved-Inserts old new bins place value count from to le =
    let (smaller, first_done, first, first_keeps) =
      transfer-IsTransferred place 0 0 old new (HasRoom-le old (0 + place) bins from (omega arith))
        (HasRoom-le new (0 + place) (bins + 1) to (omega arith)) in
    let (larger, second_done, second, second_keeps) =
      transfer-IsTransferred (bins - place) place (place + 1) old (put smaller place (value, count))
        (HasRoom-le old (place + (bins - place)) bins from (omega arith))
        (put-HasRoom smaller (place + 1 + (bins - place)) place (value, count)
          (first_keeps (place + 1 + (bins - place))
            (HasRoom-le new (place + 1 + (bins - place)) (bins + 1) to (omega arith)))) in
    let here : HasRoom smaller (place + 1) =
      first_keeps (place + 1) (HasRoom-le new (place + 1) (bins + 1) to (omega arith)) in
    (
      larger,
      rw (insert_moved, first_done, write_bin-eq smaller place value count here) second_done,
      record {
        lower = λ j lt.
            second.lower j (omega arith)
            ∙ bin_of-put_ne smaller place j (value, count) (λ e. omega (arith, e))
            ∙ first.moved j j (omega arith) (omega arith) (omega arith);
        at_dst =
            second.lower place (omega arith) ∙ bin_of-put_self smaller place (value, count) here;
        upper = λ j from lt. second.moved j (j + 1) from (omega arith) (omega arith);
      },
      λ n r. second_keeps n (put-HasRoom smaller n place (value, count) (first_keeps n r)),
    )
