-- ===== src/Base/Bits.antt =====
-- Machine words: wrap-around, shifts, and the laws of `&` and `|` that the drivers use.
use Prim.Native.Nat.{
  ℕ, zero, suc, ◌+◌, ◌-◌, ◌*◌, ◌/◌, ◌%◌, ◌^◌, ◌≤◌, ◌<◌, min, max, bit_and, bit_or, digits,
}
use Prim.Native.Nat.{bit_and-bitwise, bit_or-bitwise}
use mathlib.Core.Path.{◌≡◌, refl, ap, sym, ◌∙◌}
use mathlib.Core.WellFounded
use native.Mathlib.Nat.{pow-suc, one-le-pow, div-div-eq-div-mul, div-one}
use native.Mathlib.Omega.{arith}
use bedrock_os.Base.Order.{lt_wf}

abbrev pub u8 : ℕ → ℕ
u8 n = n % 2 ^ 8

abbrev pub u16 : ℕ → ℕ
u16 n = n % 2 ^ 16

abbrev pub u32 : ℕ → ℕ
u32 n = n % 2 ^ 32

infixl 75 ◌<<◌ ◌>>>◌
abbrev pub ◌<<◌ : ℕ → ℕ → ℕ
x << k = x * 2 ^ k

abbrev pub ◌>>>◌ : ℕ → ℕ → ℕ
x >>> k = x / 2 ^ k

-- The native operations are recursions on the binary digits with a count of rounds; a spare round
-- changes nothing.
module _ (base : ℕ → ℕ) (digit : ℕ → ℕ → ℕ) where
  one_spare :
      (rounds x y : ℕ)
      → x ≤ rounds
      → digits base digit (suc rounds) x y ≡ digits base digit rounds x y
  one_spare zero zero y h = refl
  one_spare (suc rounds) zero y h = refl
  one_spare zero (suc x) y h = absurd (omega arith)
  one_spare (suc rounds) (suc x) y h =
      ground (arith, one_spare rounds (suc x / 2) (y / 2) (omega arith))

  spare :
      (more rounds x y : ℕ)
      → x ≤ rounds
      → digits base digit (rounds + more) x y ≡ digits base digit rounds x y
  spare zero rounds x y h = let none_left : rounds + 0 ≡ rounds = omega arith in rw none_left refl
  spare (suc more) rounds x y h =
      let one_left : rounds + suc more ≡ suc (rounds + more) = omega arith in
      rw one_left (one_spare (rounds + more) x y (omega arith) ∙ spare more rounds x y h)

  half_spare :
      (x y : ℕ) → digits base digit x (suc x / 2) y ≡ digits base digit (suc x / 2) (suc x / 2) y
  half_spare x y =
      let split : suc x / 2 + (x - suc x / 2) ≡ x = omega arith in
      let same = spare (x - suc x / 2) (suc x / 2) (suc x / 2) y (omega arith) in (rw split at same)

-- `&` and `|` by their lowest digit.
pub bit_and-halves : (x y : ℕ) → bit_and x y ≡ min (x % 2) (y % 2) + 2 * bit_and (x / 2) (y / 2)
bit_and-halves zero y = omega (arith, bit_and-bitwise 0 y, bit_and-bitwise 0 (y / 2))
bit_and-halves (suc x) y = omega (
  arith,
  half_spare (λ rest. 0) min x (y / 2),
  bit_and-bitwise (suc x / 2) (y / 2),
  bit_and-bitwise (suc x) y,
)

pub bit_or-halves : (x y : ℕ) → bit_or x y ≡ max (x % 2) (y % 2) + 2 * bit_or (x / 2) (y / 2)
bit_or-halves zero y = omega (arith, bit_or-bitwise 0 y, bit_or-bitwise 0 (y / 2))
bit_or-halves (suc x) y = omega (
  arith,
  half_spare (λ rest. rest) max x (y / 2),
  bit_or-bitwise (suc x / 2) (y / 2),
  bit_or-bitwise (suc x) y,
)

-- Halving reaches 0: an induction for digit-wise facts.
pub halving {ℓ} : (P : ℕ → Type ℓ) → P 0 → ((a : ℕ) → P (a / 2) → P a) → (a : ℕ) → P a
halving P base step a = WellFounded.induction lt_wf {C = P} a go
  where
    go : (n : ℕ) → ((m : ℕ) → m < n → P m) → P n
    go zero ih = base
    go (suc n) ih = step (suc n) (ih (suc n / 2) (omega arith))

pub bit_and-zero : (a : ℕ) → bit_and a 0 ≡ 0
bit_and-zero = halving (λ a. bit_and a 0 ≡ 0) refl (λ a ih. omega (arith, bit_and-halves a 0))

pub bit_or-zero : (a : ℕ) → bit_or a 0 ≡ a
bit_or-zero = halving (λ a. bit_or a 0 ≡ a) refl (λ a ih. omega (arith, bit_or-halves a 0))

pub mul-two_pow : (high width : ℕ) → high * 2 ^ suc width ≡ 2 * (high * 2 ^ width)
mul-two_pow high width = omega (arith, ap (λ (t : ℕ). high * t) (pow-suc 2 width))

-- `|` of disjoint bit fields is a sum.
pub bit_or_fields :
    (width high low : ℕ) → low < 2 ^ width → bit_or (high * 2 ^ width) low ≡ high * 2 ^ width + low
bit_or_fields zero high low fits = ground (arith, bit_or-zero high)
bit_or_fields (suc width) high low fits = ground (
  arith,
  bit_or-halves (high * 2 ^ suc width) low,
  mul-two_pow high width,
  pow-suc 2 width,
  bit_or_fields width high (low / 2) (omega (arith, pow-suc 2 width)),
)

-- `&` with as many ones at the bottom keeps the low field.
bit_and_fields :
    (width high low : ℕ) → low < 2 ^ width → bit_and (high * 2 ^ width + low) (2 ^ width - 1) ≡ low
bit_and_fields zero high low fits = rw bit_and-zero (omega arith)
bit_and_fields (suc width) high low fits = ground (
  arith,
  bit_and-halves (high * 2 ^ suc width + low) (2 ^ suc width - 1),
  mul-two_pow high width,
  pow-suc 2 width,
  bit_and_fields width high (low / 2) (omega (arith, pow-suc 2 width)),
)

-- It is the remainder by 2 ^ k.
pub bit_and_ones : (k a : ℕ) → bit_and a (2 ^ k - 1) ≡ a % 2 ^ k
bit_and_ones k a = ground (arith, one-le-pow k 2, bit_and_fields k (a / 2 ^ k) (a % 2 ^ k))

-- A shift to the right goes through `&`.
halve_shift : (k x : ℕ) → x / 2 ^ suc k ≡ x / 2 / 2 ^ k
halve_shift k x =
    let twice : 2 ^ suc k ≡ 2 * 2 ^ k = omega (arith, pow-suc 2 k) in
    ap (λ (t : ℕ). x / t) twice ∙ sym (div-div-eq-div-mul x 2 (2 ^ k))

pub shift-bit_and : (k a b : ℕ) → bit_and a b / 2 ^ k ≡ bit_and (a / 2 ^ k) (b / 2 ^ k)
shift-bit_and zero a b = rw (div-one, div-one, div-one)
shift-bit_and (suc k) a b =
    let half : bit_and a b / 2 ≡ bit_and (a / 2) (b / 2) = omega (arith, bit_and-halves a b) in
    rw (halve_shift k (bit_and a b), halve_shift k a, halve_shift k b, half)
      (shift-bit_and k (a / 2) (b / 2))
