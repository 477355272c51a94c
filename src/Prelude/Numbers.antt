-- ===== src/Prelude/Numbers.antt =====
-- Python's floats as an interface: the operations that the program calls, and the laws of the
-- order and of rounding that the theorems rest on.
use Prim.Native.Nat.{ℕ, ◌*◌, ◌+◌, ◌/◌, ◌-◌, ◌≤◌}
use mathlib.Core.Path.{◌≡◌, refl}
use mathlib.Core.Bool.{Bool, true, false}
use mathlib.Core.Option.{Option, none}
use mathlib.Core.List.{List, [], ◌∷◌}
use native.Mathlib.Omega.{arith}
use compliance_wizard_engine.Prelude.Tests.{ltb, leb, nat_beq, if◌then◌else◌}
use compliance_wizard_engine.Prelude.Texts.{Text, number_from}

pub record Floats (F : Type 0) : Type 0 where
  pub flt : F → F → Bool
  pub fle : F → F → Bool
  pub feq : F → F → Bool
  pub add : F → F → F
  pub mul : F → F → F
  -- division by a count
  pub div_count : F → ℕ → F
  -- `round(x, 3)`
  pub round3 : F → F
  -- the literal n / 1000
  pub milli : ℕ → F
  -- `float(s)`, None for ValueError
  pub parse : Text → Option F
  -- `float(s)` for a decimal numeral: digits, perhaps after a minus, perhaps with a fraction
  pub decimal : Text → F
  -- `str(x)`
  pub show : F → Text

module _ {F : Type 0} ⦃fl : Floats F⦄ where
  -- `max(a, b)` and `min(a, b)`: the first argument unless the second is strictly better.
  unfoldable pub fmax : F → F → F
  fmax a b = if fl.flt a b then b else a

  unfoldable pub fmin : F → F → F
  fmin a b = if fl.flt b a then b else a

  -- `sum(xs)`, from the left
  unfoldable pub sum_from : F → List F → F
  sum_from acc [] = acc
  sum_from acc (x ∷ xs) = sum_from (fl.add acc x) xs

  -- `min(max(x, lo), hi)`
  unfoldable pub clamp : F → F → F → F
  unfolding fmax fmin
  clamp lo hi x = fmin (fmax x lo) hi

-- Floats with no NaN among them: the order is total, and rounding keeps it and its ends.
pub record IsOrdered {F : Type 0} (fl : Floats F) : Type 0 where
  pub fle_refl : (a : F) → fl.fle a a ≡ true
  pub fle_trans : (a b c : F) → fl.fle a b ≡ true → fl.fle b c ≡ true → fl.fle a c ≡ true
  pub flt_false : (a b : F) → fl.flt a b ≡ false → fl.fle b a ≡ true
  pub flt_fle : (a b : F) → fl.flt a b ≡ true → fl.fle a b ≡ true
  pub fle_false : (a b : F) → fl.fle a b ≡ false → fl.flt b a ≡ true
  pub flt_fle_false : (a b : F) → fl.flt a b ≡ true → fl.fle b a ≡ false
  pub round_mono : (a b : F) → fl.fle a b ≡ true → fl.fle (fl.round3 a) (fl.round3 b) ≡ true
  pub round_idem : (a : F) → fl.round3 (fl.round3 a) ≡ fl.round3 a
  pub round_milli : (n : ℕ) → fl.round3 (fl.milli n) ≡ fl.milli n
  pub milli_mono : (m n : ℕ) → m ≤ n → fl.fle (fl.milli m) (fl.milli n) ≡ true

module _ {F : Type 0} ⦃fl : Floats F⦄ (o : IsOrdered fl) where
  pub clamp_bounds :
      (lo hi x : F)
      → fl.fle lo hi ≡ true
      → (fl.fle lo (clamp lo hi x) ≡ true) × (fl.fle (clamp lo hi x) hi ≡ true)
  unfolding clamp
  clamp_bounds lo hi x h = ground (
    arith,
    o.fle_refl hi,
    o.fle_refl lo,
    o.flt_fle hi x,
    o.flt_false hi x,
    o.flt_fle hi lo,
    o.flt_false hi lo,
    o.flt_false x lo,
  )

-- The value of a numeral in thousandths, its sign left out.
abbrev fraction : Text → ℕ
fraction (a ∷ b ∷ c ∷ s) = number_from 0 (a ∷ b ∷ c ∷ [])
fraction (a ∷ b ∷ []) = number_from 0 (a ∷ b ∷ []) * 10
fraction (a ∷ []) = number_from 0 (a ∷ []) * 100
fraction [] = 0

unfoldable pub milli_value : ℕ → Text → ℕ
unfolding number_from
milli_value n [] = n * 1000
milli_value n (c ∷ s) =
    let rest = milli_value (n * 10 + (c - b'0')) s in
    if nat_beq c b'-'
    then milli_value n s
    else if nat_beq c b'.'
    then n * 1000 + fraction s
    else rest

-- Non-negative floats with three decimals, for tests: the number of thousandths.
instance abbrev pub thousandths : Floats ℕ
thousandths = record {
  flt = ltb;
  fle = leb;
  feq = nat_beq;
  add = λ a b. a + b;
  mul = λ a b. (a * b + 500) / 1000;
  div_count = λ a n. a / n;
  round3 = λ a. a;
  milli = λ n. n;
  parse = λ s. none;
  decimal = milli_value 0;
  show = λ n. [];
}

pub thousandths-IsOrdered : IsOrdered thousandths
thousandths-IsOrdered = record {
  fle_refl = λ a. ground arith;
  fle_trans = λ a b c h k. ground arith;
  flt_false = λ a b h. ground arith;
  flt_fle = λ a b h. ground arith;
  fle_false = λ a b h. ground arith;
  flt_fle_false = λ a b h. ground arith;
  round_mono = λ a b h. h;
  round_idem = λ a. refl;
  round_milli = λ n. refl;
  milli_mono = λ m n h. ground arith;
}
