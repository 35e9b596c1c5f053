-- ===== src/PointerCache/Order.antt =====
-- Lists of distinct pages: putting a page in and taking one out.
use udipe.Prelude.{ℕ, ◌≢◌, List, [], ◌∷◌}
use udipe.PointerCache.Links.{◌++◌, Outside, Distinct, ne_sym, Outside-append, append-Outside}

pub Outside-insert :
    (a : ℕ) (xs : List ℕ) (e : ℕ) (ys : List ℕ)
    → a ≢ e
    → Outside a (xs ++ ys)
    → Outside a (xs ++ (e ∷ ys))
Outside-insert a xs e ys ne out =
    let (l, r) = Outside-append a xs ys out in append-Outside a xs (e ∷ ys) l (ne, r)

pub Outside-remove :
    (a : ℕ) (xs : List ℕ) (e : ℕ) (ys : List ℕ)
    → Outside a (xs ++ (e ∷ ys))
    → (a ≢ e) × Outside a (xs ++ ys)
Outside-remove a xs e ys out =
    let (l, r) = Outside-append a xs (e ∷ ys) out in (r.0, append-Outside a xs ys l (r.1))

pub Distinct-insert :
    (xs : List ℕ) (e : ℕ) (ys : List ℕ)
    → Outside e (xs ++ ys)
    → Distinct (xs ++ ys)
    → Distinct (xs ++ (e ∷ ys))
Distinct-insert [] e ys out d = (out, d)
Distinct-insert (x ∷ xs) e ys out d =
    (Outside-insert x xs e ys (ne_sym (out.0)) (d.0), Distinct-insert xs e ys (out.1) (d.1))

pub Distinct-remove :
    (xs : List ℕ) (e : ℕ) (ys : List ℕ)
    → Distinct (xs ++ (e ∷ ys))
    → Outside e (xs ++ ys) × Distinct (xs ++ ys)
Distinct-remove [] e ys d = d
Distinct-remove (x ∷ xs) e ys d =
    let (out, rest) = Distinct-remove xs e ys (d.1) in
    let (ne, apart) = Outside-remove x xs e ys (d.0) in ((ne_sym ne, out), (apart, rest))

-- No page is in both lists.
abbrev pub Disjoint : List ℕ → List ℕ → Type 0
Disjoint [] ys = Unit
Disjoint (x ∷ xs) ys = Outside x ys × Disjoint xs ys

-- All pages of the second list but `e` are in the first.
abbrev pub Gains : ℕ → List ℕ → List ℕ → Type 0
Gains e pages more = (a : ℕ) → a ≢ e → Outside a pages → Outside a more
