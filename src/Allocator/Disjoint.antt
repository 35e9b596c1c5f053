-- ===== src/Allocator/Disjoint.antt =====
-- Caches that share no page.
use mathlib.Core.Path.{subst}
use udipe.Prelude.{
  ℕ, ◌==◌, ◌≡◌, ◌≢◌, refl, sym, List, [], ◌∷◌, arith, Bool-cases, inl, inr, true, false,
}
use udipe.PointerCache.Links.{Outside}
use udipe.PointerCache.Order.{Disjoint}
use udipe.PointerCache.Contents.{Chain, onto, IsCache}
use udipe.Allocator.{Caches}

-- `a` is one of the pages.
abbrev pub Inside : ℕ → List ℕ → Type 0
Inside a pages = Outside a pages → ⊥

pub Disjoint-of : (xs ys : List ℕ) → ((a : ℕ) → Inside a xs → Outside a ys) → Disjoint xs ys
Disjoint-of [] ys f = tt
Disjoint-of (x ∷ xs) ys f =
    (f x (λ out. out.0 refl), Disjoint-of xs ys (λ a i. f a (λ out. i (out.1))))

pub Outside-of_Disjoint : (xs ys : List ℕ) → Disjoint xs ys → (a : ℕ) → Inside a xs → Outside a ys
Outside-of_Disjoint [] ys d a i = absurd (i tt)
Outside-of_Disjoint (x ∷ xs) ys d a i = elim (Bool-cases (a == x)) [
  | inl same ↦ subst (λ b. Outside b ys) (sym_eq a x same) (d.0)
  | inr other ↦ Outside-of_Disjoint xs ys (d.1) a (λ out. i (different a x other, out))
]
  where
    sym_eq : (m n : ℕ) → (m == n) ≡ true → n ≡ m
    sym_eq m n e = ground arith

    different : (m n : ℕ) → (m == n) ≡ false → m ≢ n
    different m n e = ground arith

-- A page inside a list is not the page that is outside of it.
pub ne_of_Outside : (pages : List ℕ) (a b : ℕ) → Inside a pages → Outside b pages → a ≢ b
ne_of_Outside pages a b i out = λ e. i (subst (λ c. Outside c pages) (sym e) out)

pub Disjoint-sym : (xs ys : List ℕ) → Disjoint xs ys → Disjoint ys xs
Disjoint-sym xs ys d = Disjoint-of ys xs (λ a i. other_side xs a i d)
  where
    other_side : (zs : List ℕ) (a : ℕ) → Inside a ys → Disjoint zs ys → Outside a zs
    other_side [] a i e = tt
    other_side (z ∷ zs) a i e = (ne_of_Outside ys a z i (e.0), other_side zs a i (e.1))

-- The pages that a list has no part in.
pub apart_from :
    (xs : List ℕ) (e : ℕ) (ys : List ℕ) → Outside e xs → Disjoint xs ys → Disjoint xs (e ∷ ys)
apart_from xs e ys out d =
    Disjoint-of xs (e ∷ ys) (λ a i. (ne_of_Outside xs a e i out, Outside-of_Disjoint xs ys d a i))

-- Caches of a thread and of a context that are well-formed and share no page.
pub record IsAllocator (capacity : ℕ) (state : Caches) (local_used : Chain) (local_above : List ℕ)
    (global_used : Chain) (global_above : List ℕ) : Type 0 where
  pub local_cache : IsCache capacity state.heap state.local local_used local_above
  pub global_cache : IsCache capacity state.heap state.global global_used global_above
  pub apart : Disjoint (onto local_used local_above) (onto global_used global_above)
