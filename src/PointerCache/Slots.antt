-- ===== src/PointerCache/Slots.antt =====
-- Copying and clearing runs of slots.
use udipe.Prelude.{
  ℕ, zero, suc, ◌+◌, ◌<◌, ◌≤◌, ◌==◌, ◌≡◌, refl, sym, ◌∙◌, ap, some, List, [], ◌∷◌, arith,
  Bool-cases, inl, inr, length, get_or, set, get_or-set_self, get_or-set_ne, length-set, ltb,
}
use udipe.Prelude.Access.{read-eq, write-eq}
use udipe.PointerCache.Transfer.{copy_slots, clear_slots}
use udipe.PointerCache.Links.{◌++◌}
use udipe.PointerCache.Contents.{Holds, IsPage}

-- `after` is `target` with `n` slots from `to` on that hold what `source` holds from `from` on.
pub record IsCopy (n : ℕ) (source : List ℕ) (from : ℕ) (target : List ℕ) (to : ℕ) (after : List ℕ)
    : Type 0 where
  pub same_length : length after ≡ length target
  pub below : (i : ℕ) → i < to → get_or after i 0 ≡ get_or target i 0
  pub inside : (i : ℕ) → i < n → get_or after (to + i) 0 ≡ get_or source (from + i) 0
  pub beyond : (i : ℕ) → to + n ≤ i → get_or after i 0 ≡ get_or target i 0

pub copy_slots-IsCopy :
    (n : ℕ) (source : List ℕ) (from : ℕ) (target : List ℕ) (to : ℕ)
    → from + n ≤ length source
    → to + n ≤ length target
    → (after : List ℕ) × (copy_slots n source from target to ≡ some after)
      × IsCopy n source from target to after
unfolding copy_slots
copy_slots-IsCopy zero source from target to s t = (
  target,
  refl,
  record {
    same_length = refl;
    below = λ i h. refl;
    inside = λ i h. absurd (omega arith);
    beyond = λ i h. refl;
  },
)
copy_slots-IsCopy (suc n) source from target to s t =
    let written = set target to (get_or source from 0) in
    let sizes = length-set target to (get_or source from 0) in
    let (after, e, v) =
      copy_slots-IsCopy n source (from + 1) written (to + 1) (omega arith) (omega (arith, sizes)) in
    (
      after,
      rw
          (
            copy_slots,
            read-eq source from 0 (omega arith),
            write-eq target to (get_or source from 0) (omega arith),
          )
          e,
      record {
        same_length = v.same_length ∙ sizes;
        below = λ i h.
            v.below i (omega arith)
            ∙ get_or-set_ne target to i (get_or source from 0) 0 (omega arith);
        inside = λ i h. at_slot after v sizes i h;
        beyond = λ i h.
            v.beyond i (omega arith)
            ∙ get_or-set_ne target to i (get_or source from 0) 0 (omega arith);
      },
    )
  where
    plus_zero : (m : ℕ) → m + 0 ≡ m
    plus_zero m = omega arith

    shift : (m i : ℕ) → m + suc i ≡ m + 1 + i
    shift m i = omega arith

    at_slot :
        (after : List ℕ)
        → IsCopy n source (from + 1) (set target to (get_or source from 0)) (to + 1) after
        → length (set target to (get_or source from 0)) ≡ length target
        → (i : ℕ) → i < suc n
        → get_or after (to + i) 0 ≡ get_or source (from + i) 0
    at_slot after v sizes zero h =
        ap (λ k. get_or after k 0) (plus_zero to)
        ∙ v.below to (omega arith)
        ∙ get_or-set_self target to (get_or source from 0) 0 (omega arith)
        ∙ ap (λ k. get_or source k 0) (sym (plus_zero from))
    at_slot after v sizes (suc i) h =
        ap (λ k. get_or after k 0) (shift to i)
        ∙ v.inside i (omega arith)
        ∙ ap (λ k. get_or source k 0) (sym (shift from i))

-- Clearing the first slots, from `from` on, of a page.
pub record IsCleared (n : ℕ) (slots : List ℕ) (from : ℕ) (after : List ℕ) : Type 0 where
  pub same_length : length after ≡ length slots
  pub below : (i : ℕ) → i < from → get_or after i 0 ≡ get_or slots i 0
  pub inside : (i : ℕ) → from ≤ i → i < from + n → get_or after i 0 ≡ 0
  pub beyond : (i : ℕ) → from + n ≤ i → get_or after i 0 ≡ get_or slots i 0

pub clear_slots-IsCleared :
    (n : ℕ) (slots : List ℕ) (from : ℕ)
    → from + n ≤ length slots
    → (after : List ℕ) × (clear_slots n slots from ≡ some after) × IsCleared n slots from after
unfolding clear_slots
clear_slots-IsCleared zero slots from s = (
  slots,
  refl,
  record {
    same_length = refl;
    below = λ i h. refl;
    inside = λ i l h. absurd (omega arith);
    beyond = λ i h. refl;
  },
)
clear_slots-IsCleared (suc n) slots from s =
    let sizes = length-set slots from 0 in
    let (after, e, v) =
      clear_slots-IsCleared n (set slots from 0) (from + 1) (omega (arith, sizes)) in
    (
      after,
      rw (clear_slots, write-eq slots from 0 (omega arith)) e,
      record {
        same_length = v.same_length ∙ sizes;
        below = λ i h. v.below i (omega arith) ∙ get_or-set_ne slots from i 0 0 (omega arith);
        inside = λ i l h. elim (Bool-cases (from == i)) [
          | inl same ↦
              ap (λ k. get_or after k 0) (ground arith)
              ∙ v.below from (omega arith)
              ∙ get_or-set_self slots from 0 0 (omega arith)
          | inr other ↦ v.inside i (ground arith) (omega arith)
        ];
        beyond = λ i h. v.beyond i (omega arith) ∙ get_or-set_ne slots from i 0 0 (omega arith);
      },
    )

pub length_append : (xs ys : List ℕ) → length (xs ++ ys) ≡ length xs + length ys
length_append [] ys = omega arith
length_append (x ∷ xs) ys = omega (arith, length_append xs ys)

Holds-same :
    (slots after held : List ℕ)
    → ((i : ℕ) → i < length held → get_or after i 0 ≡ get_or slots i 0)
    → Holds slots held
    → Holds after held
Holds-same slots after [] same h = tt
Holds-same slots after (future ∷ held) same h = (
  same (length held) (omega arith) ∙ h.0,
  h.1,
  Holds-same slots after held (λ i inside. same i (omega arith)) (h.2),
)

Holds-append :
    (source after xs ys : List ℕ)
    → ((i : ℕ) → i < length xs → get_or after (length ys + i) 0 ≡ get_or source i 0)
    → Holds source xs
    → Holds after ys
    → Holds after (xs ++ ys)
Holds-append source after [] ys same h k = k
Holds-append source after (x ∷ xs) ys same h k = (
  ap (λ j. get_or after j 0) (order xs ys) ∙ same (length xs) (omega arith) ∙ h.0,
  h.1,
  Holds-append source after xs ys (λ i inside. same i (omega arith)) (h.2) k,
)
  where
    order : (us vs : List ℕ) → length (us ++ vs) ≡ length vs + length us
    order us vs = omega (arith, length_append us vs)

-- The page that takes all futures of another page, which it has room for.
pub IsPage-merge :
    (capacity : ℕ) (source target after taken held : List ℕ)
    → IsPage capacity source taken
    → IsPage capacity target held
    → length taken + length held ≤ capacity
    → IsCopy (length taken) source 0 target (length held) after
    → IsPage capacity after (taken ++ held)
IsPage-merge capacity source target after taken held v w room c = record {
  size = c.same_length ∙ w.size;
  fits = omega (arith, length_append taken held);
  holds =
      Holds-append source after taken held
        (λ i inside. c.inside i inside ∙ ap (λ k. get_or source k 0) (zero_plus i)) v.holds
        (Holds-same target after held c.below w.holds);
  vacant = λ i above.
      c.beyond i (omega (arith, length_append taken held))
      ∙ w.vacant i (omega (arith, length_append taken held));
}
  where
    zero_plus : (m : ℕ) → 0 + m ≡ m
    zero_plus m = omega arith

-- The other page is empty then.
pub IsPage-cleared :
    (capacity : ℕ) (slots after taken : List ℕ)
    → IsPage capacity slots taken
    → IsCleared (length taken) slots 0 after
    → IsPage capacity after []
IsPage-cleared capacity slots after taken v c = record {
  size = c.same_length ∙ v.size;
  fits = omega arith;
  holds = tt;
  vacant = λ i above. elim (Bool-cases (ltb i (length taken))) [
    | inl inside ↦ c.inside i (omega arith) (ground arith)
    | inr beyond ↦ c.beyond i (ground arith) ∙ v.vacant i (ground arith)
  ];
}
