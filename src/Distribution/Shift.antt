-- ===== src/Distribution/Shift.antt =====
-- What the loops of distribution_create_bin() leave in the arrays.
use udipe.Prelude.{
  ℕ, zero, suc, ◌+◌, ◌≤◌, ◌<◌, ◌≡◌, ◌≢◌, refl, ◌∙◌, sym, some, arith, length, get_or, set,
  length-set, get_or-set_self, get_or-set_ne, Bool-cases, ◌==◌, ==→eq, inl, inr,
}
use udipe.Prelude.Int.{ℤ, pos}
use udipe.Prelude.Access.{read-eq, write-eq}
use udipe.Distribution.Defs.{DistributionLayout, write_bin}
use udipe.Distribution.Build.{shift_up, transfer}

-- A bin's value and count.
abbrev pub bin_of : DistributionLayout → ℕ → ℤ × ℕ
bin_of layout bin = (get_or layout.sorted_values bin (pos 0), get_or layout.counts bin 0)

-- Both arrays have `bins` entries at least.
pub record HasRoom (layout : DistributionLayout) (bins : ℕ) : Type 0 where
  pub values : bins ≤ length layout.sorted_values
  pub counts : bins ≤ length layout.counts

pub HasRoom-le :
    (layout : DistributionLayout) (m n : ℕ) → HasRoom layout n → m ≤ n → HasRoom layout m
HasRoom-le layout m n room le = record {
  values = omega (arith, room.values);
  counts = omega (arith, room.counts);
}

-- The layout with a bin overwritten.
abbrev pub put : DistributionLayout → ℕ → ℤ × ℕ → DistributionLayout
put layout bin (value, count) = record {
  sorted_values = set layout.sorted_values bin value;
  counts = set layout.counts bin count;
}

pub put-HasRoom :
    (layout : DistributionLayout) (bins bin : ℕ) (content : ℤ × ℕ)
    → HasRoom layout bins
    → HasRoom (put layout bin content) bins
put-HasRoom layout bins bin (value, count) room = record {
  values = omega (arith, room.values, length-set layout.sorted_values bin value);
  counts = omega (arith, room.counts, length-set layout.counts bin count);
}

pub bin_of-put_self :
    (layout : DistributionLayout) (bin : ℕ) (content : ℤ × ℕ)
    → HasRoom layout (bin + 1)
    → bin_of (put layout bin content) bin ≡ content
bin_of-put_self layout bin (value, count) room =
    rw
      (
        get_or-set_self layout.sorted_values bin value (pos 0) (omega (arith, room.values)),
        get_or-set_self layout.counts bin count 0 (omega (arith, room.counts)),
      )
      refl

pub bin_of-put_ne :
    (layout : DistributionLayout) (bin j : ℕ) (content : ℤ × ℕ)
    → bin ≢ j
    → bin_of (put layout bin content) j ≡ bin_of layout j
bin_of-put_ne layout bin j (value, count) differ =
    rw
      (
        get_or-set_ne layout.sorted_values bin j value (pos 0) differ,
        get_or-set_ne layout.counts bin j count 0 differ,
      )
      refl

pub write_bin-eq :
    (layout : DistributionLayout) (bin : ℕ) (value : ℤ) (count : ℕ)
    → HasRoom layout (bin + 1)
    → write_bin layout bin value count ≡ some (put layout bin (value, count))
unfolding write_bin
write_bin-eq layout bin value count room =
    rw
      (
        write_bin,
        write-eq layout.sorted_values bin value (omega (arith, room.values)),
        write-eq layout.counts bin count (omega (arith, room.counts)),
      )
      refl

-- `after` has the bins of `before` up to `dst`, `content` in `dst`, and the next `bins` bins of
-- `before` one place further up.
pub record IsShifted (before : DistributionLayout) (dst bins : ℕ) (content : ℤ × ℕ)
    (after : DistributionLayout) : Type 0 where
  pub lower : (j : ℕ) → j < dst → bin_of after j ≡ bin_of before j
  pub at_dst : bin_of after dst ≡ content
  pub upper : (j : ℕ) → dst ≤ j → j < dst + bins → bin_of after (j + 1) ≡ bin_of before j

pub shift_up-IsShifted :
    (bins dst : ℕ) (value : ℤ) (count : ℕ) (layout : DistributionLayout)
    → HasRoom layout (dst + bins + 1)
    → (after : DistributionLayout) × (shift_up bins dst value count layout ≡ some after)
      × IsShifted layout dst bins (value, count) after
      × ((room : ℕ) → HasRoom layout room → HasRoom after room)
unfolding shift_up
shift_up-IsShifted zero dst value count layout room = (
  put layout dst (value, count),
  write_bin-eq layout dst value count
      (HasRoom-le layout (dst + 1) (dst + 0 + 1) room (omega arith)),
  record {
    lower = λ j lt. bin_of-put_ne layout dst j (value, count) (λ e. omega (arith, e));
    at_dst =
        bin_of-put_self layout dst (value, count)
          (HasRoom-le layout (dst + 1) (dst + 0 + 1) room (omega arith));
    upper = λ j le lt. absurd (omega arith);
  },
  λ n r. put-HasRoom layout n dst (value, count) r,
)
shift_up-IsShifted (suc bins) dst value count layout room =
    let (after, reached, shifted, keeps) =
      shift_up-IsShifted bins (dst + 1) (get_or layout.sorted_values dst (pos 0))
        (get_or layout.counts dst 0) (put layout dst (value, count))
        (put-HasRoom layout (dst + 1 + bins + 1) dst (value, count)
          (HasRoom-le layout (dst + 1 + bins + 1) (dst + suc bins + 1) room (omega arith))) in
    (
      after,
      rw
          (
            read-eq layout.sorted_values dst (pos 0) (omega (arith, room.values)),
            read-eq layout.counts dst 0 (omega (arith, room.counts)),
            write_bin-eq layout dst value count here,
          )
          reached,
      record {
        lower = λ j lt.
            shifted.lower j (omega arith)
            ∙ bin_of-put_ne layout dst j (value, count) (λ e. omega (arith, e));
        at_dst = shifted.lower dst (omega arith) ∙ bin_of-put_self layout dst (value, count) here;
        upper = λ j le lt. elim (Bool-cases (dst == j)) [
          | inl same ↦ rw (sym (==→eq dst j same)) shifted.at_dst
          | inr differ ↦
              shifted.upper j (ground arith) (omega arith)
              ∙ bin_of-put_ne layout dst j (value, count) (λ e. ground (arith, e))
        ];
      },
      λ n r. keeps n (put-HasRoom layout n dst (value, count) r),
    )
  where
    here : HasRoom layout (dst + 1)
    here = HasRoom-le layout (dst + 1) (dst + suc bins + 1) room (omega arith)

-- `after` has the `bins` bins of `old` from `src` on from `dst` on, and those of `new` below.
pub record IsTransferred (old : DistributionLayout) (src : ℕ) (new : DistributionLayout)
    (dst bins : ℕ) (after : DistributionLayout) : Type 0 where
  pub lower : (j : ℕ) → j < dst → bin_of after j ≡ bin_of new j
  pub moved :
      (i j : ℕ) → src ≤ i → i < src + bins → j + src ≡ i + dst → bin_of after j ≡ bin_of old i

pub transfer-IsTransferred :
    (bins src dst : ℕ) (old new : DistributionLayout)
    → HasRoom old (src + bins)
    → HasRoom new (dst + bins)
    → (after : DistributionLayout) × (transfer bins src dst old new ≡ some after)
      × IsTransferred old src new dst bins after
      × ((room : ℕ) → HasRoom new room → HasRoom after room)
unfolding transfer
transfer-IsTransferred zero src dst old new from to = (
  new,
  refl,
  record { lower = λ j lt. refl; moved = λ i j le lt e. absurd (omega arith) },
  λ n r. r,
)
transfer-IsTransferred (suc bins) src dst old new from to =
    let (after, reached, rest, keeps) =
      transfer-IsTransferred bins (src + 1) (dst + 1) old (put new dst (bin_of old src))
        (HasRoom-le old (src + 1 + bins) (src + suc bins) from (omega arith))
        (put-HasRoom new (dst + 1 + bins) dst (bin_of old src)
          (HasRoom-le new (dst + 1 + bins) (dst + suc bins) to (omega arith))) in
    (
      after,
      rw
          (
            read-eq old.sorted_values src (pos 0) (omega (arith, from.values)),
            read-eq old.counts src 0 (omega (arith, from.counts)),
            write_bin-eq new dst (get_or old.sorted_values src (pos 0)) (get_or old.counts src 0)
                here,
          )
          reached,
      record {
        lower = λ j lt.
            rest.lower j (omega arith)
            ∙ bin_of-put_ne new dst j (bin_of old src) (λ e. omega (arith, e));
        moved = λ i j le lt e. elim (Bool-cases (src == i)) [
          | inl first ↦
              let same : dst ≡ j = ground (arith, e) in
              rw (sym same, sym (==→eq src i first))
                (rest.lower dst (omega arith) ∙ bin_of-put_self new dst (bin_of old src) here)
          | inr later ↦ rest.moved i j (ground arith) (omega arith) (omega (arith, e))
        ];
      },
      λ n r. keeps n (put-HasRoom new n dst (bin_of old src) r),
    )
  where
    here : HasRoom new (dst + 1)
    here = HasRoom-le new (dst + 1) (dst + suc bins) to (omega arith)
