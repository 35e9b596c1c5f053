-- ===== src/Future/Page.antt =====
-- src/future/allocator/pointer_cache.h: the occupancy of a page of future pointers. The slots of a
-- page are a list of addresses, 0 being NULL.
use udipe.Prelude.{
  ℕ, zero, suc, ◌+◌, ◌-◌, ◌/◌, ◌^◌, ◌<◌, ◌≤◌, ◌≡◌, Bool, Bool-cases, inl, inr, true, false, not,
  Option, some, none, List, ap, sym, arith, ltb, leb, ◌==◌, if◌then◌else◌, get_or,
}
use udipe.Prelude.Abort.{◌>>◌, require}
use udipe.Words.Ops.{sub_size}

-- A page starts with its two links, and a pointer has 8 bytes.
unfoldable pub future_pointer_page_capacity : ℕ → Option ℕ
future_pointer_page_capacity page_size = do
  let available_bytes = sub_size page_size 16
  require (leb 8 available_bytes)
  some (available_bytes / 8)

abbrev pub present : List ℕ → ℕ → Bool
present futures i = not (get_or futures i 0 == 0)

-- The loop of future_pointer_page_occupancy(); `none` is running out of fuel.
unfoldable pub occupancy_from : ℕ → List ℕ → ℕ → ℕ → Option ℕ
occupancy_from zero futures last_present first_absent = none
occupancy_from (suc fuel) futures last_present first_absent =
    let midpoint = last_present + sub_size first_absent last_present / 2 in
    let found = present futures midpoint in
    let rest =
      occupancy_from fuel futures (if found then midpoint else last_present)
        (if found then first_absent else midpoint) in
    if first_absent == last_present + 1 then some first_absent else rest

unfoldable pub future_pointer_page_occupancy : ℕ → List ℕ → Option ℕ
unfolding occupancy_from
future_pointer_page_occupancy capacity futures =
    if not (present futures 0)
    then some 0
    else if present futures (capacity - 1)
    then some capacity
    else occupancy_from capacity futures 0 (capacity - 1)

-- A page whose first `n` slots hold futures and whose other slots are NULL.
pub record IsPartitioned (futures : List ℕ) (capacity n : ℕ) : Type 0 where
  pub fits : n ≤ capacity
  pub small : capacity < 2 ^ 63
  pub filled : (i : ℕ) → i < n → present futures i ≡ true
  pub empty : (i : ℕ) → n ≤ i → i < capacity → present futures i ≡ false

middle :
    (last first : ℕ)
    → last + 1 < first
    → first < 2 ^ 64
    → (last < last + sub_size first last / 2) × (last + sub_size first last / 2 < first)
middle last first h b = omega arith

occupancy_from_lem :
    (fuel : ℕ) (futures : List ℕ) (capacity n last first : ℕ)
    → IsPartitioned futures capacity n
    → last < n
    → n ≤ first
    → first < capacity
    → first ≤ last + fuel
    → occupancy_from fuel futures last first ≡ some n
unfolding occupancy_from
occupancy_from_lem zero futures capacity n last first v l u b h = absurd (omega arith)
occupancy_from_lem (suc fuel) futures capacity n last first v l u b h =
    elim (Bool-cases (first == last + 1)) [
      | inl done ↦ rw (done) (ap some (ground arith))
      | inr more ↦
          let (above, below) = middle last first (ground arith) (omega (arith, v.small)) in
          elim (Bool-cases (present futures mid)) [
            | inl t ↦
                rw (more, t)
                  (occupancy_from_lem fuel futures capacity n mid first v (found t (omega arith)) u
                    b (omega arith))
            | inr f ↦
                rw (more, f)
                  (occupancy_from_lem fuel futures capacity n last mid v l (missing f) (omega arith)
                    (omega arith))
          ]
    ]
  where
    mid : ℕ
    mid = last + sub_size first last / 2

    found : present futures mid ≡ true → mid < capacity → mid < n
    found t c = elim (Bool-cases (ltb mid n)) [
      | inl lower ↦ ground arith
      | inr upper ↦ absurd (ground (arith, v.empty mid))
    ]

    missing : present futures mid ≡ false → n ≤ mid
    missing f = elim (Bool-cases (ltb mid n)) [
      | inl lower ↦ absurd (ground (arith, v.filled mid))
      | inr upper ↦ ground arith
    ]

-- On a page with at least one slot whose futures come first, future_pointer_page_occupancy() ends
-- and returns their number.
pub future_pointer_page_occupancy_lem :
    (capacity : ℕ) (futures : List ℕ) (n : ℕ)
    → 0 < capacity
    → IsPartitioned futures capacity n
    → future_pointer_page_occupancy capacity futures ≡ some n
unfolding future_pointer_page_occupancy
future_pointer_page_occupancy_lem capacity futures n pos v = elim (Bool-cases (present futures 0)) [
  | inr f ↦ rw (f) (ap some (sym (none_before f)))
  | inl t ↦ elim (Bool-cases (present futures (capacity - 1))) [
    | inl full ↦ rw (t, full) (ap some (all_filled full))
    | inr more ↦
        rw (t, more)
          (occupancy_from_lem capacity futures capacity n 0 (capacity - 1) v (some_filled t)
            (not_all more) (omega arith) (omega arith))
  ]
]
  where
    none_before : present futures 0 ≡ false → n ≡ 0
    none_before f = elim (Bool-cases (ltb 0 n)) [
      | inl lower ↦ absurd (ground (arith, v.filled 0))
      | inr upper ↦ ground arith
    ]

    some_filled : present futures 0 ≡ true → 0 < n
    some_filled t = elim (Bool-cases (ltb 0 n)) [
      | inl lower ↦ ground arith
      | inr upper ↦ absurd (ground (arith, v.empty 0))
    ]

    all_filled : present futures (capacity - 1) ≡ true → capacity ≡ n
    all_filled t = elim (Bool-cases (ltb (capacity - 1) n)) [
      | inl lower ↦ ground (arith, v.fits)
      | inr upper ↦ absurd (ground (arith, v.empty (capacity - 1)))
    ]

    not_all : present futures (capacity - 1) ≡ false → n ≤ capacity - 1
    not_all f = elim (Bool-cases (ltb (capacity - 1) n)) [
      | inl lower ↦ absurd (ground (arith, v.filled (capacity - 1)))
      | inr upper ↦ ground arith
    ]
