-- ===== src/PointerCache/Contents.antt =====
-- What a cache stands for: a stack of futures, cut into the pages from the top page down, and the
-- empty pages above them.
use udipe.Prelude.{
  ℕ, ◌^◌, ◌<◌, ◌≤◌, ◌==◌, ◌≡◌, ◌≢◌, ◌∙◌, ap, Option, none, some, List, [], ◌∷◌, arith, Bool-cases,
  inl, inr, true, not, length, get_or, set, get_or-set_self, get_or-set_ne, length-set, ltb,
}
use udipe.Prelude.Access.{read, write, read-eq, write-eq}
use udipe.Future.Page.{IsPartitioned, present}
use udipe.PointerCache.{Heap, PointerCache}
use udipe.PointerCache.Links.{◌++◌, first_of, Distinct, Linked}

-- The slots of a page hold these futures, the last one first.
abbrev pub Holds : List ℕ → List ℕ → Type 0
Holds slots [] = Unit
Holds slots (future ∷ held) =
    (get_or slots (length held) 0 ≡ future) × (future ≢ 0) × Holds slots held

pub record IsPage (capacity : ℕ) (slots held : List ℕ) : Type 0 where
  pub size : length slots ≡ capacity
  pub fits : length held ≤ capacity
  pub holds : Holds slots held
  pub vacant : (i : ℕ) → length held ≤ i → get_or slots i 0 ≡ 0

Holds-set :
    (slots held : List ℕ) (i v : ℕ)
    → length held ≤ i
    → Holds slots held
    → Holds (set slots i v) held
Holds-set slots [] i v above h = tt
Holds-set slots (future ∷ held) i v above h = (
  get_or-set_ne slots i (length held) v 0 (omega arith) ∙ h.0,
  h.1,
  Holds-set slots held i v (omega arith) (h.2),
)

-- Emptying the last slot in use.
pub IsPage-pop :
    (capacity : ℕ) (slots : List ℕ) (future : ℕ) (held : List ℕ)
    → IsPage capacity slots (future ∷ held)
    → (read slots (length held) ≡ some future)
      × (write slots (length held) 0 ≡ some (set slots (length held) 0))
      × IsPage capacity (set slots (length held) 0) held
IsPage-pop capacity slots future held v = (
  read-eq slots (length held) 0 (omega (arith, v.size, v.fits)) ∙ ap some (v.holds.0),
  write-eq slots (length held) 0 (omega (arith, v.size, v.fits)),
  record {
    size = length-set slots (length held) 0 ∙ v.size;
    fits = omega (arith, v.fits);
    holds = Holds-set slots held (length held) 0 (omega arith) (v.holds.2);
    vacant = λ i above. elim (Bool-cases (length held == i)) [
      | inl same ↦
          ap (λ k. get_or (set slots (length held) 0) k 0) (ground arith)
          ∙ get_or-set_self slots (length held) 0 0 (omega (arith, v.size, v.fits))
      | inr other ↦
          get_or-set_ne slots (length held) i 0 0 (ground arith) ∙ v.vacant i (ground arith)
    ];
  },
)

-- Filling the first free slot.
pub IsPage-push :
    (capacity : ℕ) (slots : List ℕ) (future : ℕ) (held : List ℕ)
    → length held < capacity
    → future ≢ 0
    → IsPage capacity slots held
    → (read slots (length held) ≡ some 0)
      × (write slots (length held) future ≡ some (set slots (length held) future))
      × IsPage capacity (set slots (length held) future) (future ∷ held)
IsPage-push capacity slots future held room real v = (
  read-eq slots (length held) 0 (omega (arith, v.size))
      ∙ ap some (v.vacant (length held) (omega arith)),
  write-eq slots (length held) future (omega (arith, v.size)),
  record {
    size = length-set slots (length held) future ∙ v.size;
    fits = omega arith;
    holds = (
      get_or-set_self slots (length held) future 0 (omega (arith, v.size)),
      real,
      Holds-set slots held (length held) future (omega arith) v.holds,
    );
    vacant = λ i above.
        get_or-set_ne slots (length held) i future 0 (omega arith) ∙ v.vacant i (omega arith);
  },
)

filled_slot :
    (slots held : List ℕ) (i : ℕ) → Holds slots held → i < length held → present slots i ≡ true
filled_slot slots [] i h inside = absurd (omega arith)
filled_slot slots (future ∷ held) i h inside = elim (Bool-cases (ltb i (length held))) [
  | inl lower ↦ filled_slot slots held i (h.2) (ground arith)
  | inr last ↦
      ap (λ k. present slots k) (ground arith) ∙ ap (λ f. not (f == 0)) (h.0) ∙ is_real future (h.1)
]
  where
    is_real : (f : ℕ) → f ≢ 0 → not (f == 0) ≡ true
    is_real f real = ground arith

-- The futures of a page come first in its slots.
pub IsPage-IsPartitioned :
    (capacity : ℕ) (slots held : List ℕ)
    → capacity < 2 ^ 63
    → IsPage capacity slots held
    → IsPartitioned slots capacity (length held)
IsPage-IsPartitioned capacity slots held small v = record {
  fits = v.fits;
  small = small;
  filled = λ i inside. filled_slot slots held i v.holds inside;
  empty = λ i above inside. ap (λ f. not (f == 0)) (v.vacant i above);
}

-- The pages in use, from the top page down, with the futures in each.
pub data Chain : Type 0 where
  nil : Chain
  page : ℕ → List ℕ → Chain → Chain

abbrev pub top_of : Chain → Option ℕ
top_of nil = none
top_of (page a held below) = some a

abbrev pub top_count : Chain → ℕ
top_count nil = 0
top_count (page a held below) = length held

-- All futures, the last one to be liberated first.
abbrev pub stack : Chain → List ℕ
stack nil = []
stack (page a held below) = held ++ stack below

-- All pages from the bottom page up: those of a chain, before those above it.
abbrev pub onto : Chain → List ℕ → List ℕ
onto nil above = above
onto (page a held below) above = onto below (a ∷ above)

abbrev pub Below : (ℕ → List ℕ) → ℕ → Chain → Type 0
Below futures capacity nil = Unit
Below futures capacity (page a held below) =
    IsPage capacity (futures a) held × (length held ≡ capacity) × Below futures capacity below

-- The pages below the top page are full.
abbrev pub Filled : (ℕ → List ℕ) → ℕ → Chain → Type 0
Filled futures capacity nil = Unit
Filled futures capacity (page a held below) =
    IsPage capacity (futures a) held × Below futures capacity below

abbrev pub Empties : (ℕ → List ℕ) → ℕ → List ℕ → Type 0
Empties futures capacity [] = Unit
Empties futures capacity (a ∷ above) =
    IsPage capacity (futures a) [] × Empties futures capacity above

-- An empty top page is the only page in use, and a cache without a top page has none.
abbrev pub IsShaped : Chain → List ℕ → Type 0
IsShaped nil above = above ≡ []
IsShaped (page a (future ∷ held) below) above = Unit
IsShaped (page a [] nil) above = Unit
IsShaped (page a [] (page b held below)) above = ⊥

pub record IsCache (capacity : ℕ) (heap : Heap) (cache : PointerCache) (used : Chain)
    (above : List ℕ) : Type 0 where
  pub top_page : cache.top ≡ top_of used
  pub bottom_page : cache.bottom ≡ first_of (onto used above)
  pub counted : cache.num_top_futures ≡ top_count used
  pub linked : Linked heap.previous heap.next none (onto used above)
  pub distinct : Distinct (onto used above)
  pub filled : Filled heap.futures capacity used
  pub empties : Empties heap.futures capacity above
  pub shape : IsShaped used above
