-- ===== src/PointerCache/Positions.antt =====
-- The neighbours of the top page, and writes that spare the other pages.
use udipe.Prelude.{ℕ, ◌≡◌, ◌≢◌, refl, sym, ◌∙◌, ap, Option, none, some, List, [], ◌∷◌}
use udipe.PointerCache.{update}
use udipe.PointerCache.Links.{
  append_assoc, ◌++◌, first_of, Outside, Distinct, Linked, update-ne, ne_sym, Outside-append,
}
use udipe.PointerCache.Contents.{Chain, nil, page, top_of, onto, Below, Filled, Empties}

-- `a` is none of the pages of a chain.
abbrev pub Absent : ℕ → Chain → Type 0
Absent a nil = Unit
Absent a (page b held below) = (a ≢ b) × Absent a below

pub Outside-onto :
    (a : ℕ) (used : Chain) (above : List ℕ)
    → Outside a (onto used above)
    → Absent a used × Outside a above
Outside-onto a nil above out = (tt, out)
Outside-onto a (page b held below) above out =
    let (absent, outside) = Outside-onto a below (b ∷ above) out in ((outside.0, absent), outside.1)

pub onto-Outside :
    (a : ℕ) (used : Chain) (above : List ℕ)
    → Absent a used
    → Outside a above
    → Outside a (onto used above)
onto-Outside a nil above absent out = out
onto-Outside a (page b held below) above absent out =
    onto-Outside a below (b ∷ above) (absent.1) (absent.0, out)

abbrev Apart : Chain → List ℕ → Type 0
Apart nil above = Unit
Apart (page a held below) above = Outside a above × Apart below (a ∷ above)

Distinct-parts :
    (used : Chain) (above : List ℕ) → Distinct (onto used above) → Apart used above × Distinct above
Distinct-parts nil above d = (tt, d)
Distinct-parts (page a held below) above d =
    let (apart, rest) = Distinct-parts below (a ∷ above) d in ((rest.0, apart), rest.1)

Outside-middle : (b : ℕ) (ys : List ℕ) (a : ℕ) (zs : List ℕ) → Outside b (ys ++ (a ∷ zs)) → b ≢ a
Outside-middle b ys a zs out = (Outside-append b ys (a ∷ zs) out).1.0

Apart-Absent :
    (used : Chain) (ys : List ℕ) (a : ℕ) (zs : List ℕ) → Apart used (ys ++ (a ∷ zs)) → Absent a used
Apart-Absent nil ys a zs apart = tt
Apart-Absent (page b held below) ys a zs apart =
    (ne_sym (Outside-middle b ys a zs (apart.0)), Apart-Absent below (b ∷ ys) a zs (apart.1))

-- The page on top is none of the others.
pub top_apart :
    (a : ℕ) (held : List ℕ) (below : Chain) (above : List ℕ)
    → Distinct (onto (page a held below) above)
    → Absent a below × Outside a above × Distinct above
top_apart a held below above d =
    let (apart, rest) = Distinct-parts below (a ∷ above) d in
    (Apart-Absent below [] a above apart, rest.0, rest.1)

abbrev pub top_or : Option ℕ → Chain → Option ℕ
top_or before nil = before
top_or before (page a held below) = some a

pub Linked-above :
    (previous next : ℕ → Option ℕ) (before : Option ℕ) (used : Chain) (above : List ℕ)
    → Linked previous next before (onto used above)
    → Linked previous next (top_or before used) above
Linked-above previous next before nil above l = l
Linked-above previous next before (page a held below) above l =
    (Linked-above previous next before below (a ∷ above) l).2

-- The links of the top page.
pub top_links :
    (previous next : ℕ → Option ℕ) (a : ℕ) (held : List ℕ) (below : Chain) (above : List ℕ)
    → Linked previous next none (onto (page a held below) above)
    → (previous a ≡ top_of below) × (next a ≡ first_of above)
top_links previous next a held nil above l = (l.0, l.1)
top_links previous next a held (page b lower below) above l =
    let (p, n, rest) = Linked-above previous next none (page b lower below) (a ∷ above) l in (p, n)

-- The pages of a chain and those above it are a list cut at the top page.
pub onto-append : (used : Chain) (above : List ℕ) → onto used above ≡ onto used [] ++ above
onto-append nil above = refl
onto-append (page a held below) above =
    onto-append below (a ∷ above)
    ∙ sym (append_assoc (onto below []) (a ∷ []) above)
    ∙ ap (λ xs. xs ++ above) (sym (onto-append below (a ∷ [])))

pub Below-spare :
    (futures : ℕ → List ℕ) (capacity a : ℕ) (slots : List ℕ) (used : Chain)
    → Absent a used
    → Below futures capacity used
    → Below (update futures a slots) capacity used
Below-spare futures capacity a slots nil absent v = tt
Below-spare futures capacity a slots (page b held below) absent v = (
  rw (update-ne futures a b slots (absent.0)) (v.0),
  v.1,
  Below-spare futures capacity a slots below (absent.1) (v.2),
)

pub Filled-spare :
    (futures : ℕ → List ℕ) (capacity a : ℕ) (slots : List ℕ) (used : Chain)
    → Absent a used
    → Filled futures capacity used
    → Filled (update futures a slots) capacity used
Filled-spare futures capacity a slots nil absent v = tt
Filled-spare futures capacity a slots (page b held below) absent v = (
  rw (update-ne futures a b slots (absent.0)) (v.0),
  Below-spare futures capacity a slots below (absent.1) (v.1),
)

pub Empties-spare :
    (futures : ℕ → List ℕ) (capacity a : ℕ) (slots above : List ℕ)
    → Outside a above
    → Empties futures capacity above
    → Empties (update futures a slots) capacity above
Empties-spare futures capacity a slots [] out v = tt
Empties-spare futures capacity a slots (b ∷ above) out v = (
  rw (update-ne futures a b slots (out.0)) (v.0),
  Empties-spare futures capacity a slots above (out.1) (v.1),
)
