-- ===== src/Words/Bit.antt =====
-- The bits of a number, and what each word operation does to them.
use native.Mathlib.Nat.{le_refl, pow-suc, pow-succ', one-le-pow, div-div-eq-div-mul, div-add-mod'}
use mathlib.Core.Path.{ap₂}
use udipe.Prelude.{
  ℕ, zero, suc, ◌+◌, ◌-◌, ◌*◌, ◌/◌, ◌%◌, ◌^◌, ◌≤◌, ◌<◌, bit_and, bit_or, ◌≡◌, refl, sym, ap, ◌∙◌,
  Bool, false, not, ◌&&◌, ◌||◌, arith, ltb, leb, ◌==◌,
}
use udipe.Words.Digits.{bit_or_digit, bit_and_digit}

-- The value of bit `i`, the lowest being bit 0.
abbrev pub test_bit : ℕ → ℕ → Bool
test_bit x zero = x % 2 == 1
test_bit x (suc i) = test_bit (x / 2) i

pub test_bit-zero : (i : ℕ) → test_bit 0 i ≡ false
test_bit-zero zero = refl
test_bit-zero (suc i) = test_bit-zero i

pub test_bit-and : (a b i : ℕ) → test_bit (bit_and a b) i ≡ (test_bit a i && test_bit b i)
test_bit-and a b zero = ground (arith, bit_and_digit a b)
test_bit-and a b (suc i) = ap (λ t. test_bit t i) half ∙ test_bit-and (a / 2) (b / 2) i
  where
    half : bit_and a b / 2 ≡ bit_and (a / 2) (b / 2)
    half = omega (arith, bit_and_digit a b)

pub test_bit-or : (a b i : ℕ) → test_bit (bit_or a b) i ≡ (test_bit a i || test_bit b i)
test_bit-or a b zero = ground (arith, bit_or_digit a b)
test_bit-or a b (suc i) = ap (λ t. test_bit t i) half ∙ test_bit-or (a / 2) (b / 2) i
  where
    half : bit_or a b / 2 ≡ bit_or (a / 2) (b / 2)
    half = omega (arith, bit_or_digit a b)

-- A number shares no bit with 0; `rounds` halvings bring it down to 0.
nothing_shared : (rounds x : ℕ) → x ≤ rounds → bit_and x 0 ≡ 0
nothing_shared zero x h = ap (λ y. bit_and y 0) none
  where
    none : x ≡ 0
    none = omega arith
nothing_shared (suc rounds) x h =
    omega (arith, nothing_shared rounds (x / 2) (omega arith), bit_and_digit x 0)

pub bit_and-one : (x : ℕ) → bit_and x 1 ≡ x % 2
bit_and-one x = omega (arith, nothing_shared x (x / 2) (omega arith), bit_and_digit x 1)

-- `&` and `|` stay within the width of their arguments.
pub bit_and-lt : (w a b : ℕ) → b < 2 ^ w → bit_and a b < 2 ^ w
bit_and-lt zero a b h = rw none (omega (arith, nothing_shared a a (le_refl _)))
  where
    none : b ≡ 0
    none = omega arith
bit_and-lt (suc w) a b h = omega (
  arith,
  pow-suc 2 w,
  bit_and_digit a b,
  bit_and-lt w (a / 2) (b / 2) (omega (arith, pow-suc 2 w)),
)

pub bit_or-lt : (w a b : ℕ) → a < 2 ^ w → b < 2 ^ w → bit_or a b < 2 ^ w
bit_or-lt zero a b h k = rw (none a h, none b k) (omega arith)
  where
    none : (x : ℕ) → x < 2 ^ 0 → x ≡ 0
    none x lt = omega arith
bit_or-lt (suc w) a b h k = omega (
  arith,
  pow-suc 2 w,
  bit_or_digit a b,
  bit_or-lt w (a / 2) (b / 2) (omega (arith, pow-suc 2 w)) (omega (arith, pow-suc 2 w)),
)

-- The complement within `w` bits flips each of them.
pub test_bit-complement :
    (w x i : ℕ) → x < 2 ^ w → i < w → test_bit (2 ^ w - 1 - x) i ≡ not (test_bit x i)
test_bit-complement zero x i h lt = elim lt [ ]
test_bit-complement (suc w) x zero h lt = ground (arith, pow-suc 2 w)
test_bit-complement (suc w) x (suc i) h lt =
    ap (λ t. test_bit t i) half
    ∙ test_bit-complement w (x / 2) i (omega (arith, pow-suc 2 w)) (omega arith)
  where
    half : (2 ^ suc w - 1 - x) / 2 ≡ 2 ^ w - 1 - x / 2
    half = omega (arith, pow-suc 2 w)

-- A shift by one more halves first.
div-pow-suc : (k x : ℕ) → x / 2 ^ suc k ≡ x / 2 / 2 ^ k
div-pow-suc k x = rw (pow-succ' 2 k) (sym (div-div-eq-div-mul x 2 (2 ^ k)))

pub test_bit-shr : (k x i : ℕ) → test_bit (x / 2 ^ k) i ≡ test_bit x (k + i)
test_bit-shr zero x i = ap₂ test_bit whole same
  where
    whole : x / 2 ^ 0 ≡ x
    whole = omega arith

    same : i ≡ 0 + i
    same = omega arith
test_bit-shr (suc k) x i =
    ap (λ t. test_bit t i) (div-pow-suc k x) ∙ (test_bit-shr k (x / 2) i ∙ ap (test_bit x) next)
  where
    next : suc (k + i) ≡ suc k + i
    next = omega arith

shl_parts : (k x : ℕ) → x * 2 ^ suc k ≡ 2 * (x * 2 ^ k)
shl_parts k x = omega (arith, ap (λ (t : ℕ). x * t) (pow-suc 2 k))

-- A left shift that cuts nothing off moves the bits up.
pub test_bit-shl : (k x i : ℕ) → test_bit (x * 2 ^ k) i ≡ (leb k i && test_bit x (i - k))
test_bit-shl zero x i = ap₂ test_bit whole same ∙ ground arith
  where
    whole : x * 2 ^ 0 ≡ x
    whole = omega arith

    same : i ≡ i - 0
    same = omega arith
test_bit-shl (suc k) x zero = ground (arith, shl_parts k x)
test_bit-shl (suc k) x (suc i) = ap (λ t. test_bit t i) half ∙ (test_bit-shl k x i ∙ ground arith)
  where
    half : x * 2 ^ suc k / 2 ≡ x * 2 ^ k
    half = omega (arith, shl_parts k x)

-- The remainder by `2 ^ (w + 1)`, as its lowest digit and the rest.
mod_parts : (w x : ℕ) → x % 2 ^ suc w ≡ 2 * (x / 2 % 2 ^ w) + x % 2
mod_parts w x = omega (arith, whole, div-add-mod' (x / 2) (2 ^ w), shl_parts w (x / 2 / 2 ^ w))
  where
    whole : x / 2 / 2 ^ w * 2 ^ suc w + x % 2 ^ suc w ≡ x
    whole = rw (div-pow-suc w x) at (div-add-mod' x (2 ^ suc w))

-- Reduction modulo `2 ^ w` keeps the `w` low bits.
pub test_bit-mod : (w x i : ℕ) → test_bit (x % 2 ^ w) i ≡ (ltb i w && test_bit x i)
test_bit-mod zero x i = ap (λ t. test_bit t i) none_left ∙ (test_bit-zero i ∙ ground arith)
  where
    none_left : x % 2 ^ 0 ≡ 0
    none_left = omega arith
test_bit-mod (suc w) x zero = ground (arith, mod_parts w x)
test_bit-mod (suc w) x (suc i) =
    ap (λ t. test_bit t i) half ∙ (test_bit-mod w (x / 2) i ∙ ground arith)
  where
    half : x % 2 ^ suc w / 2 ≡ x / 2 % 2 ^ w
    half = omega (arith, mod_parts w x)

-- The mask of the `k` low bits.
pub test_bit-mask : (k i : ℕ) → test_bit (2 ^ k - 1) i ≡ ltb i k
test_bit-mask zero i = ground (arith, test_bit-zero i)
test_bit-mask (suc k) zero = ground (arith, pow-suc 2 k, one-le-pow k 2)
test_bit-mask (suc k) (suc i) = ap (λ t. test_bit t i) half ∙ (test_bit-mask k i ∙ ground arith)
  where
    half : (2 ^ suc k - 1) / 2 ≡ 2 ^ k - 1
    half = omega (arith, pow-suc 2 k, one-le-pow k 2)

-- A number below `2 ^ w` has no bit from `w` on.
pub test_bit-high : (w x i : ℕ) → x < 2 ^ w → w ≤ i → test_bit x i ≡ false
test_bit-high zero x i h l = ap (λ t. test_bit t i) none ∙ test_bit-zero i
  where
    none : x ≡ 0
    none = omega arith
test_bit-high (suc w) x zero h l = elim l [ ]
test_bit-high (suc w) x (suc i) h l =
    test_bit-high w (x / 2) i (omega (arith, pow-suc 2 w)) (omega arith)
