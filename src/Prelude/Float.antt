-- ===== src/Prelude/Float.antt =====
-- The floating-point numbers of Python and Lua as an interface, since antt has none: the operations
-- that the program calls, and the order laws of finite doubles (rounding is monotone, so sums,
-- products and quotients of them keep the order). `Milli` is a model of it, for tests.
use Prim.Native.Nat.{ℕ, zero, suc, ◌+◌, ◌-◌, ◌*◌, ◌/◌, ◌^◌, suc, ◌≤◌, ◌<◌}
use mathlib.Core.Path.{◌≡◌}
use mathlib.Core.Logic.{◌↔◌, ◌⊎◌}
use mathlib.Core.Bool.{Bool, true, false, not}
use native.Mathlib.Nat.{pow-suc, le_refl, div-le_of_le-mul, le-div_iff_mul-le, div-mul-le_self}
use mathlib.Core.List.{List, [], ◌∷◌}
use native.Mathlib.Omega.{arith}
use librouter.Prelude.Tests.{ltb, leb, if◌then◌else◌}
use librouter.Prelude.Int.{ℤ, pos, negsuc, ◌≤ℤ◌}

pub record Float {ℓ} (W : Type ℓ) : Type ℓ where
  -- `literal n k` is the constant n × 10^-k, `of_int` the conversion of an int.
  pub literal : ℕ → ℕ → W
  pub of_int : ℤ → W
  pub add : W → W → W
  pub sub : W → W → W
  pub mul : W → W → W
  pub div : W → W → W
  pub le : W → W → Bool
  pub lt : W → W → Bool
  -- The builtin `sum` of a list of floats, whose way of rounding depends on Python's version.
  pub sum : List W → W
  -- Python's `int(x)` and Lua's `math.floor(x)`.
  pub trunc : W → ℤ
  pub floor : W → ℤ

module _ {ℓ} {W : Type ℓ} ⦃d : Float W⦄ where
  infixl 65 ◌⊕◌ ◌⊖◌
  infixl 70 ◌⊗◌ ◌⊘◌
  infix 4 ◌≼◌ ◌≺◌
  abbrev pub ◌⊕◌ : W → W → W
  ◌⊕◌ = d.add

  abbrev pub ◌⊖◌ : W → W → W
  ◌⊖◌ = d.sub

  abbrev pub ◌⊗◌ : W → W → W
  ◌⊗◌ = d.mul

  abbrev pub ◌⊘◌ : W → W → W
  ◌⊘◌ = d.div

  abbrev pub ◌≼◌ : W → W → Type 0
  a ≼ b = d.le a b ≡ true

  abbrev pub ◌≺◌ : W → W → Type 0
  a ≺ b = d.lt a b ≡ true

  abbrev pub of_nat : ℕ → W
  of_nat n = d.of_int (pos n)

  abbrev pub nought : W
  nought = d.of_int (pos 0)

  abbrev pub one : W
  one = d.of_int (pos 1)

  -- `max(a, b)` and `min(a, b)`: the first argument on a tie.
  abbrev pub fmax : W → W → W
  fmax a b = if d.lt a b then b else a

  abbrev pub fmin : W → W → W
  fmin a b = if d.lt b a then b else a

-- The laws of order. They hold of doubles that are neither infinite nor nan; `of_nat-lt`,
-- `sub_of_nat`, `sub_one-lt` and `floor_iff` hold of them for whole numbers up to 2 ^ 53, above
-- which doubles round, and so for caps and counts below that.
pub record IsOrdered {ℓ} (W : Type ℓ) ⦃d : Float W⦄ : Type ℓ where
  pub le_refl : (a : W) → a ≼ a
  pub le_trans : (a b c : W) → a ≼ b → b ≼ c → a ≼ c
  pub le_total : (a b : W) → (a ≼ b) ⊎ (b ≼ a)
  pub lt-eq-not-le : (a b : W) → d.lt a b ≡ not (d.le b a)
  pub le-add : (a b : W) → nought ≼ b → a ≼ a ⊕ b
  pub add_mono : (a b c e : W) → a ≼ b → c ≼ e → a ⊕ c ≼ b ⊕ e
  pub sub-le : (a b : W) → nought ≼ b → a ⊖ b ≼ a
  pub sub_anti : (a b c : W) → b ≼ c → a ⊖ c ≼ a ⊖ b
  pub sub_nonneg : (a b : W) → b ≼ a → nought ≼ a ⊖ b
  pub mul_nonneg : (a b : W) → nought ≼ a → nought ≼ b → nought ≼ a ⊗ b
  pub mul-le : (a b : W) → nought ≼ a → nought ≼ b → b ≼ one → a ⊗ b ≼ a
  pub mul_mono : (a b c e : W) → nought ≼ a → a ≼ b → nought ≼ c → c ≼ e → a ⊗ c ≼ b ⊗ e
  pub div_nonneg : (a b : W) → nought ≼ a → nought ≺ b → nought ≼ a ⊘ b
  pub div-le-one : (a b : W) → nought ≼ a → a ≼ b → nought ≺ b → a ⊘ b ≼ one
  pub div_mono : (a b c : W) → a ≼ b → nought ≺ c → a ⊘ c ≼ b ⊘ c
  pub div_anti : (a b c : W) → nought ≼ a → nought ≺ b → b ≼ c → a ⊘ c ≼ a ⊘ b
  pub of_nat_mono : (m n : ℕ) → m ≤ n → ◌≼◌ {W = W} (of_nat m) (of_nat n)
  pub of_int_mono : (i j : ℤ) → i ≤ℤ j → ◌≼◌ {W = W} (d.of_int i) (d.of_int j)
  pub of_nat-lt : (m n : ℕ) → m < n → ◌≺◌ {W = W} (of_nat m) (of_nat n)
  pub literal_mono : (m n k : ℕ) → m ≤ n → d.literal m k ≼ d.literal n k
  pub add-zero : (a : W) → a ⊕ nought ≼ a
  pub zero-mul : (a : W) → nought ≼ a → nought ⊗ a ≼ nought
  pub sub_of_nat : (x : W) (m n : ℕ) → m ≤ n → x ≼ of_nat n → x ⊖ of_nat m ≼ of_nat (n - m)
  pub sub_one-lt : (x : W) (n : ℕ) → one ≼ x → x ≺ of_nat (suc n) → x ⊖ one ≺ of_nat n
  pub floor_iff : (n : ℕ) (x : W) → nought ≼ x → (of_nat n ≼ x) ↔ (pos n ≤ℤ d.floor x)

-- Thousandths: whole numbers of them, with `-` stopping at zero.
abbrev pub Milli : Type 0
Milli = ℕ

abbrev milli_of_int : ℤ → Milli
milli_of_int (pos n) = n * 1000
milli_of_int (negsuc n) = 0

abbrev milli_sum : List Milli → Milli
milli_sum [] = 0
milli_sum (x ∷ xs) = x + milli_sum xs

instance abbrev pub milli_float : Float Milli
milli_float = record {
  literal = λ n k. n * 1000 / 10 ^ k;
  of_int = milli_of_int;
  add = λ a b. a + b;
  sub = λ a b. a - b;
  mul = λ a b. a * b / 1000;
  div = λ a b. a * 1000 / b;
  le = leb;
  lt = ltb;
  sum = milli_sum;
  trunc = λ x. pos (x / 1000);
  floor = λ x. pos (x / 1000);
}

mul-le-mul : (a b c e : ℕ) → a ≤ b → c ≤ e → a * c ≤ b * e
mul-le-mul a b c e h k = grind arith

milli_mul-le : (a b : ℕ) → b ≤ 1000 → a * b / 1000 ≤ a
milli_mul-le a b h = omega (arith, mul-le-mul a a b 1000)

milli_mul_mono : (a b c e : ℕ) → a ≤ b → c ≤ e → a * c / 1000 ≤ b * e / 1000
milli_mul_mono a b c e h k = omega (arith, mul-le-mul a b c e h k)

milli_div-le-one : (a b : ℕ) → a ≤ b → a * 1000 / b ≤ 1000
milli_div-le-one a b h = div-le_of_le-mul b (omega arith)

milli_div_mono : (a b c : ℕ) → a ≤ b → 0 < c → a * 1000 / c ≤ b * 1000 / c
milli_div_mono a b c h k = (le-div_iff_mul-le k).1 (omega (arith, div-mul-le_self (a * 1000) c))

milli_div_anti : (a b c : ℕ) → 0 < b → b ≤ c → a * 1000 / c ≤ a * 1000 / b
milli_div_anti a b c k h = (le-div_iff_mul-le k).1 (
    omega (
      arith,
      div-mul-le_self (a * 1000) c,
      mul-le-mul (a * 1000 / c) (a * 1000 / c) b c (le_refl _) h,
    ))

pow-pos : (k : ℕ) → 0 < 10 ^ k
pow-pos zero = omega arith
pow-pos (suc k) = rw (pow-suc 10 k) (omega (arith, pow-pos k))

milli_literal_mono : (m n k : ℕ) → m ≤ n → m * 1000 / 10 ^ k ≤ n * 1000 / 10 ^ k
milli_literal_mono m n k h = milli_div_mono m n (10 ^ k) h (pow-pos k)

pub Milli-IsOrdered : IsOrdered Milli
Milli-IsOrdered = record {
  le_refl = ground arith;
  le_trans = ground arith;
  le_total = ground arith;
  lt-eq-not-le = ground arith;
  le-add = ground arith;
  add_mono = ground arith;
  sub-le = ground arith;
  sub_anti = ground arith;
  sub_nonneg = ground arith;
  mul_nonneg = ground arith;
  mul-le = λ a b _ _ h. ground (arith, milli_mul-le a b);
  mul_mono = λ a b c e _ h _ k. ground (arith, milli_mul_mono a b c e);
  div_nonneg = ground arith;
  div-le-one = λ a b _ h _. ground (arith, milli_div-le-one a b);
  div_mono = λ a b c h k. ground (arith, milli_div_mono a b c);
  div_anti = λ a b c _ h k. ground (arith, milli_div_anti a b c);
  of_nat_mono = ground arith;
  of_int_mono = ground arith;
  of_nat-lt = ground arith;
  literal_mono = λ m n k h. ground (arith, milli_literal_mono m n k h);
  add-zero = ground arith;
  zero-mul = ground arith;
  sub_of_nat = ground arith;
  sub_one-lt = ground arith;
  floor_iff = ground arith;
}

module _ {ℓ} {W : Type ℓ} ⦃d : Float W⦄ (laws : IsOrdered W) where
  open laws use {le_refl, le_trans, le_total, lt-eq-not-le, of_nat-lt}

  pub le_of_not-le : (a b : W) → d.le a b ≡ false → b ≼ a
  le_of_not-le a b h = ground (arith, le_total a b)

  pub lt_of_not-le : (a b : W) → d.le a b ≡ false → b ≺ a
  lt_of_not-le a b h = ground (arith, lt-eq-not-le b a)

  pub le_of_lt : (a b : W) → a ≺ b → a ≼ b
  le_of_lt a b h = ground (arith, lt-eq-not-le a b, le_total a b)

  pub lt_of_le-lt : (a b c : W) → a ≼ b → b ≺ c → a ≺ c
  lt_of_le-lt a b c h k = ground (arith, lt-eq-not-le b c, lt-eq-not-le a c, le_trans c a b)

  pub lt_of_lt-le : (a b c : W) → a ≺ b → b ≼ c → a ≺ c
  lt_of_lt-le a b c h k = ground (arith, lt-eq-not-le a b, lt-eq-not-le a c, le_trans b c a)

  pub not-le_of_lt : (a b : W) → a ≺ b → d.le b a ≡ false
  not-le_of_lt a b h = ground (arith, lt-eq-not-le a b)

  pub fmin-le_left : (a b : W) → fmin a b ≼ a
  fmin-le_left a b = ground (arith, le_of_lt b a, le_refl a)

  pub fmin-le_right : (a b : W) → fmin a b ≼ b
  fmin-le_right a b = ground (arith, lt-eq-not-le b a, le_total a b, le_refl b)

  pub le-fmin : (a b c : W) → c ≼ a → c ≼ b → c ≼ fmin a b
  le-fmin a b c h k = ground arith

  pub le-fmax_left : (a b : W) → a ≼ fmax a b
  le-fmax_left a b = ground (arith, le_of_lt a b, le_refl a)

  pub le-fmax_right : (a b : W) → b ≼ fmax a b
  le-fmax_right a b = ground (arith, lt-eq-not-le a b, le_total a b, le_refl b)

  pub fmax-le : (a b c : W) → a ≼ c → b ≼ c → fmax a b ≼ c
  fmax-le a b c h k = ground arith

  -- The conversion of naturals reflects the order.
  pub le_of_of_nat : (m n : ℕ) → ◌≼◌ {W = W} (of_nat m) (of_nat n) → m ≤ n
  le_of_of_nat m n h = ground (arith, of_nat-lt n m, lt-eq-not-le (of_nat n) (of_nat m))
