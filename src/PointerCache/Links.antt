-- ===== src/PointerCache/Links.antt =====
-- Doubly linked lists of pages, from the bottom page of a cache up.
use udipe.Prelude.{
  ℕ, ◌==◌, ◌≡◌, ◌≢◌, refl, sym, ◌∙◌, ap, Option, none, some, List, [], ◌∷◌, arith, true, false,
}
use udipe.PointerCache.{update, update_at}

infixr 60 ◌++◌
abbrev pub ◌++◌ : List ℕ → List ℕ → List ℕ
[] ++ ys = ys
(x ∷ xs) ++ ys = x ∷ (xs ++ ys)

pub append_nil : (xs : List ℕ) → xs ++ [] ≡ xs
append_nil [] = refl
append_nil (x ∷ xs) = ap (λ l. x ∷ l) (append_nil xs)

pub append_assoc : (xs ys zs : List ℕ) → (xs ++ ys) ++ zs ≡ xs ++ (ys ++ zs)
append_assoc [] ys zs = refl
append_assoc (x ∷ xs) ys zs = ap (λ l. x ∷ l) (append_assoc xs ys zs)

abbrev pub first_of : List ℕ → Option ℕ
first_of [] = none
first_of (a ∷ pages) = some a

-- `a` is none of the pages.
abbrev pub Outside : ℕ → List ℕ → Type 0
Outside a [] = Unit
Outside a (b ∷ pages) = (a ≢ b) × Outside a pages

abbrev pub Distinct : List ℕ → Type 0
Distinct [] = Unit
Distinct (a ∷ pages) = Outside a pages × Distinct pages

-- Each page points to its neighbours; the first one to `before`.
abbrev pub Linked : (ℕ → Option ℕ) → (ℕ → Option ℕ) → Option ℕ → List ℕ → Type 0
Linked previous next before [] = Unit
Linked previous next before (a ∷ pages) =
    (previous a ≡ before) × (next a ≡ first_of pages) × Linked previous next (some a) pages

module _ {ℓ} {A : Type ℓ} where
  pub update_self : (f : ℕ → A) (a : ℕ) (v : A) → update f a v a ≡ v
  update_self f a v = rw (same a) refl
    where
      same : (n : ℕ) → (n == n) ≡ true
      same n = ground arith

  pub update-ne : (f : ℕ → A) (a b : ℕ) (v : A) → a ≢ b → update f a v b ≡ f b
  update-ne f a b v ne = rw (different a b ne) refl
    where
      different : (m n : ℕ) → m ≢ n → (n == m) ≡ false
      different m n d = ground arith

pub Outside-append : (a : ℕ) (xs ys : List ℕ) → Outside a (xs ++ ys) → Outside a xs × Outside a ys
Outside-append a [] ys out = (tt, out)
Outside-append a (x ∷ xs) ys out = let (l, r) = Outside-append a xs ys (out.1) in ((out.0, l), r)

pub append-Outside : (a : ℕ) (xs ys : List ℕ) → Outside a xs → Outside a ys → Outside a (xs ++ ys)
append-Outside a [] ys l r = r
append-Outside a (x ∷ xs) ys l r = (l.0, append-Outside a xs ys (l.1) r)

-- Links outside a list of pages do not matter to it.
pub Linked-frame :
    (previous next previous' next' : ℕ → Option ℕ) (before : Option ℕ) (pages : List ℕ)
    → ((a : ℕ) → (Outside a pages → ⊥) → previous' a ≡ previous a)
    → ((a : ℕ) → (Outside a pages → ⊥) → next' a ≡ next a)
    → Linked previous next before pages
    → Linked previous' next' before pages
Linked-frame previous next previous' next' before [] p n l = tt
Linked-frame previous next previous' next' before (a ∷ pages) p n l = (
  p a (λ out. out.0 refl) ∙ l.0,
  n a (λ out. out.0 refl) ∙ l.1,
  Linked-frame previous next previous' next' (some a) pages (λ b m. p b λ out. m (out.1))
      (λ b m. n b λ out. m (out.1)) (l.2),
)

pub ne_sym : {a b : ℕ} → a ≢ b → b ≢ a
ne_sym ne e = ne (sym e)

pub update_at-ne :
    (f : ℕ → Option ℕ) (pages : List ℕ) (v : Option ℕ) (b : ℕ)
    → Outside b pages
    → update_at f (first_of pages) v b ≡ f b
update_at-ne f [] v b out = refl
update_at-ne f (a ∷ pages) v b out = update-ne f a b v (ne_sym (out.0))

pub spare_previous :
    (previous next : ℕ → Option ℕ) (before : Option ℕ) (pages : List ℕ) (a : ℕ) (v : Option ℕ)
    → Outside a pages
    → Linked previous next before pages
    → Linked (update previous a v) next before pages
spare_previous previous next before [] a v out l = tt
spare_previous previous next before (b ∷ pages) a v out l = (
  update-ne previous a b v (out.0) ∙ l.0,
  l.1,
  spare_previous previous next (some b) pages a v (out.1) (l.2),
)

pub spare_next :
    (previous next : ℕ → Option ℕ) (before : Option ℕ) (pages : List ℕ) (a : ℕ) (v : Option ℕ)
    → Outside a pages
    → Linked previous next before pages
    → Linked previous (update next a v) before pages
spare_next previous next before [] a v out l = tt
spare_next previous next before (b ∷ pages) a v out l = (
  l.0,
  update-ne next a b v (out.0) ∙ l.1,
  spare_next previous next (some b) pages a v (out.1) (l.2),
)

-- The first page of a list gets another predecessor.
pub relink :
    (previous next : ℕ → Option ℕ) (before v : Option ℕ) (pages : List ℕ)
    → Distinct pages
    → Linked previous next before pages
    → Linked (update_at previous (first_of pages) v) next v pages
relink previous next before v [] d l = tt
relink previous next before v (a ∷ pages) d l =
    (update_self previous a v, l.1, spare_previous previous next (some a) pages a v (d.0) (l.2))

-- The links after a page `e` is put after a page `t` that `above` follows, and after it is taken
-- out.
abbrev pub previous_with : (ℕ → Option ℕ) → ℕ → ℕ → List ℕ → ℕ → Option ℕ
previous_with previous t e above = update_at (update previous e (some t)) (first_of above) (some e)

abbrev pub next_with : (ℕ → Option ℕ) → ℕ → ℕ → List ℕ → ℕ → Option ℕ
next_with next t e above = update (update next e (first_of above)) t (some e)

abbrev pub previous_without : (ℕ → Option ℕ) → ℕ → ℕ → List ℕ → ℕ → Option ℕ
previous_without previous t e above = update (update_at previous (first_of above) (some t)) e none

abbrev pub next_without : (ℕ → Option ℕ) → ℕ → ℕ → List ℕ → ℕ → Option ℕ
next_without next t e above = update (update next t (first_of above)) e none

first_of_append :
    (xs ys zs : List ℕ) → first_of ys ≡ first_of zs → first_of (xs ++ ys) ≡ first_of (xs ++ zs)
first_of_append [] ys zs same = same
first_of_append (x ∷ xs) ys zs same = refl

pub insert_after :
    (previous next : ℕ → Option ℕ) (before : Option ℕ) (xs : List ℕ) (t e : ℕ) (above : List ℕ)
    → Distinct (xs ++ (t ∷ above))
    → Outside e (xs ++ (t ∷ above))
    → Linked previous next before (xs ++ (t ∷ above))
    → Linked
        (previous_with previous t e above)
        (next_with next t e above)
        before
        (xs ++ (t ∷ e ∷ above))
insert_after previous next before [] t e above d out l = (
  update_at-ne (update previous e (some t)) above (some e) t (d.0)
      ∙ update-ne previous e t (some t) (out.0)
      ∙ l.0,
  update_self (update next e (first_of above)) t (some e),
  (
    update_at-ne (update previous e (some t)) above (some e) e (out.1)
        ∙ update_self previous e (some t),
    update-ne (update next e (first_of above)) t e (some e) (ne_sym (out.0))
        ∙ update_self next e (first_of above),
    spare_next (previous_with previous t e above) (update next e (first_of above)) (some e) above t
        (some e) (d.0)
        (spare_next (previous_with previous t e above) next (some e) above e (first_of above)
          (out.1)
          (relink (update previous e (some t)) next (some t) (some e) above (d.1)
            (spare_previous previous next (some t) above e (some t) (out.1) (l.2)))),
  ),
)
insert_after previous next before (x ∷ xs) t e above d out l =
    let (apart, rest) = Outside-append x xs (t ∷ above) (d.0) in
    (
      update_at-ne (update previous e (some t)) above (some e) x (rest.1)
          ∙ update-ne previous e x (some t) (out.0)
          ∙ l.0,
      update-ne (update next e (first_of above)) t x (some e) (ne_sym (rest.0))
          ∙ update-ne next e x (first_of above) (out.0)
          ∙ l.1
          ∙ first_of_append xs (t ∷ above) (t ∷ e ∷ above) refl,
      insert_after previous next (some x) xs t e above (d.1) (out.1) (l.2),
    )

pub remove_after :
    (previous next : ℕ → Option ℕ) (before : Option ℕ) (xs : List ℕ) (t e : ℕ) (above : List ℕ)
    → Distinct (xs ++ (t ∷ e ∷ above))
    → Linked previous next before (xs ++ (t ∷ e ∷ above))
    → Linked
        (previous_without previous t e above)
        (next_without next t e above)
        before
        (xs ++ (t ∷ above))
remove_after previous next before [] t e above d l = (
  update-ne (update_at previous (first_of above) (some t)) e t none (ne_sym (d.0.0))
      ∙ update_at-ne previous above (some t) t (d.0.1)
      ∙ l.0,
  update-ne (update next t (first_of above)) e t none (ne_sym (d.0.0))
      ∙ update_self next t (first_of above),
  spare_next (previous_without previous t e above) (update next t (first_of above)) (some t) above e
      none (d.1.0)
      (spare_next (previous_without previous t e above) next (some t) above t (first_of above)
        (d.0.1)
        (spare_previous (update_at previous (first_of above) (some t)) next (some t) above e none
          (d.1.0) (relink previous next (some e) (some t) above (d.1.1) (l.2.2)))),
)
remove_after previous next before (x ∷ xs) t e above d l =
    let (apart, rest) = Outside-append x xs (t ∷ e ∷ above) (d.0) in
    (
      update-ne (update_at previous (first_of above) (some t)) e x none (ne_sym (rest.1.0))
          ∙ update_at-ne previous above (some t) x (rest.1.1)
          ∙ l.0,
      update-ne (update next t (first_of above)) e x none (ne_sym (rest.1.0))
          ∙ update-ne next t x (first_of above) (ne_sym (rest.0))
          ∙ l.1
          ∙ first_of_append xs (t ∷ e ∷ above) (t ∷ above) refl,
      remove_after previous next (some x) xs t e above (d.1) (l.2),
    )
