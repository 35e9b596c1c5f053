-- ===== src/Prelude/Access.antt =====
-- Reads and writes of an array that have no result out of bounds.
use Prim.Native.Nat.{ℕ, zero, suc, ◌<◌}
use mathlib.Core.Path.{◌≡◌, refl}
use mathlib.Core.List.{List, [], ◌∷◌}
use mathlib.Core.Option.{Option, none, some}
use native.Mathlib.Omega.{arith}
use udipe.Prelude.Abort.{◌>>=◌}
use udipe.Prelude.Lists.{length, get_or, set}

module _ {ℓ} {A : Type ℓ} where
  unfoldable pub read : List A → ℕ → Option A
  read [] i = none
  read (x ∷ xs) zero = some x
  read (x ∷ xs) (suc i) = read xs i

  unfoldable pub write : List A → ℕ → A → Option (List A)
  write [] i v = none
  write (x ∷ xs) zero v = some (v ∷ xs)
  write (x ∷ xs) (suc i) v = write xs i v >>= λ ys. some (x ∷ ys)

  -- An access within the bounds goes through.
  pub read-eq : (xs : List A) (i : ℕ) (d : A) → i < length xs → read xs i ≡ some (get_or xs i d)
  unfolding read
  read-eq [] i d h = absurd (omega arith)
  read-eq (x ∷ xs) zero d h = refl
  read-eq (x ∷ xs) (suc i) d h = read-eq xs i d (omega arith)

  pub write-eq : (xs : List A) (i : ℕ) (v : A) → i < length xs → write xs i v ≡ some (set xs i v)
  unfolding write
  write-eq [] i v h = absurd (omega arith)
  write-eq (x ∷ xs) zero v h = refl
  write-eq (x ∷ xs) (suc i) v h = rw (write-eq xs i v (omega arith)) refl
