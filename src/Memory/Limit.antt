-- ===== src/Memory/Limit.antt =====
-- The memory locking budget: the doubling loop and the limit that is asked for.
use udipe.Prelude.{
  ℕ, zero, suc, ◌+◌, ◌*◌, ◌%◌, ◌^◌, ◌≤◌, ◌<◌, ◌≡◌, refl, ap, ◌∙◌, lt→ltb, ltb→lt, ◌⊎◌, inl, inr,
  Bool-cases, none, some, arith, ltb,
}
use native.Mathlib.Nat.{pow-suc}
use udipe.Memory.{Rlimit, double_until, clamp_limit, planned_limit}

-- What the loop ends with: enough, and less than twice what is needed unless it was enough before.
pub record Doubled (target cur r : ℕ) : Type 0 where
  pub enough : target ≤ r
  pub grown : cur ≤ r
  pub frugal : (r ≡ cur) ⊎ (r < 2 * target)

double_pow : (cur k : ℕ) → cur * 2 ^ suc k ≡ cur * 2 * 2 ^ k
double_pow cur k = omega (arith, ap (λ (t : ℕ). cur * t) (pow-suc 2 k))

-- A round that goes on doubles the limit, without wrapping.
double_until-suc :
    (fuel target cur : ℕ)
    → cur < target
    → target ≤ 2 ^ 63
    → double_until (suc fuel) target cur ≡ double_until fuel target (cur * 2)
unfolding double_until
double_until-suc fuel target cur lt t = rw (lt→ltb cur target lt, next)
  where
    next : cur * 2 % 2 ^ 64 ≡ cur * 2
    next = omega arith

Doubled-double :
    (target cur : ℕ) {r : ℕ} → cur < target → Doubled target (cur * 2) r → Doubled target cur r
Doubled-double target cur lt d = record {
  enough = d.enough;
  grown = omega (arith, d.grown);
  frugal = ground (arith, d.frugal);
}

double_until-Doubled :
    (fuel target cur : ℕ)
    → 0 < cur
    → target ≤ 2 ^ 63
    → target ≤ cur * 2 ^ fuel
    → (r : ℕ) × (double_until (suc fuel) target cur ≡ some r) × Doubled target cur r
double_until-Doubled zero target cur pos t e =
    unfold double_until in (cur, ground arith, ground arith)
double_until-Doubled (suc fuel) target cur pos t e = elim (Bool-cases (ltb cur target)) [
  | inl more ↦
      let lt : cur < target = ltb→lt cur target more in
      let (r, eq, d) =
        double_until-Doubled fuel target (cur * 2) (omega arith) t
          (omega (arith, double_pow cur fuel)) in
      (r, double_until-suc (suc fuel) target cur lt t ∙ eq, Doubled-double target cur lt d)
  | inr done ↦ (cur, unfold double_until in ground arith, ground arith)
]

-- The requirements on the limit that the kernel is asked for.
pub record Raises (initial : Rlimit) (size : ℕ) (l : Rlimit) : Type 0 where
  pub enough : initial.rlim_cur + size ≤ l.rlim_cur
  pub ordered : l.rlim_cur ≤ l.rlim_max
  pub kept : initial.rlim_max ≤ l.rlim_max
  pub within : initial.rlim_cur + size ≤ initial.rlim_max → l.rlim_max ≡ initial.rlim_max

clamp_limit-Raises :
    (initial : Rlimit) (size r : ℕ)
    → initial.rlim_cur ≤ initial.rlim_max
    → initial.rlim_max < 2 ^ 64
    → initial.rlim_cur + size ≤ r
    → Raises initial size (clamp_limit initial size r)
unfolding clamp_limit
clamp_limit-Raises initial size r within word e = record {
  enough = ground arith;
  ordered = ground arith;
  kept = ground arith;
  within = λ h. ground arith;
}

planned_limit_eq :
    (fuel : ℕ) (initial : Rlimit) (size r : ℕ)
    → initial.rlim_cur + size ≤ 2 ^ 63
    → double_until fuel (initial.rlim_cur + size) initial.rlim_cur ≡ some r
    → planned_limit fuel initial size ≡ some (clamp_limit initial size r)
unfolding planned_limit
planned_limit_eq fuel initial size r fits e = rw (plain, planned_limit) (rw (e, planned_limit))
  where
    plain : (initial.rlim_cur + size) % 2 ^ 64 ≡ initial.rlim_cur + size
    plain = omega arith

-- Where the soft limit is positive and at most the hard one, and the soft limit with `size` is at
-- most `2 ^ 63`, try_increase_mlock_budget() ends its loop, and what it asks for holds the present
-- limit and `size` more, keeps the soft limit within the hard one, never lowers either, and leaves
-- the hard limit alone if it has enough room.
pub planned_limit_lem :
    (initial : Rlimit) (size : ℕ)
    → 0 < initial.rlim_cur
    → initial.rlim_cur ≤ initial.rlim_max
    → initial.rlim_max < 2 ^ 64
    → initial.rlim_cur + size ≤ 2 ^ 63
    → (l : Rlimit) × (planned_limit 65 initial size ≡ some l) × Raises initial size l
planned_limit_lem initial size pos within word fits =
    let (r, eq, d) =
      double_until-Doubled 64 (initial.rlim_cur + size) initial.rlim_cur pos fits (omega arith) in
    (
      clamp_limit initial size r,
      planned_limit_eq 65 initial size r fits eq,
      clamp_limit-Raises initial size r within word d.enough,
    )

-- From a soft limit of 0 the loop never ends: no number of rounds reaches a positive target.
pub double_until-zero : (fuel target : ℕ) → 0 < target → double_until fuel target 0 ≡ none
unfolding double_until
double_until-zero zero target pos = refl
double_until-zero (suc fuel) target pos = ground (arith, double_until-zero fuel target pos)
