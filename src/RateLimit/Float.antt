-- ===== src/RateLimit/Float.antt =====
-- The arithmetic on `f64`, and on Lua's numbers, that crates/gateway-ratelimit calls, as a parameter:
-- it is IEEE 754's, whose code is not in the repository. The laws hold of numbers that are not NaN.
use stateform.Prelude.{ℕ, suc, ◌^◌, ◌<◌, ◌≡◌, Bool, true, leb, min}
use stateform.Prelude.Text.{Str}

-- `i64`
pub data ℤ : Type 0 where
  pos negsuc : ℕ → ℤ

-- `n.max(0) as u64`
abbrev pub clamp : ℤ → ℕ
clamp (pos n) = n
clamp (negsuc n) = 0

pub record FloatApi : Type 1 where
  pub F : Type 0
  pub add : F → F → F
  pub sub : F → F → F
  pub mul : F → F → F
  pub div : F → F → F
  pub minimum : F → F → F
  pub maximum : F → F → F
  -- `a <= b`
  pub le : F → F → Bool
  -- `n as f64`
  pub of_nat : ℕ → F
  -- `Duration::as_secs_f64`, of a number of nanoseconds
  pub secs : ℕ → F
  pub floor : F → F
  pub ceil : F → F
  -- `x as u64`
  pub as_u64 : F → ℕ
  -- A number of a script's reply, as Redis converts it.
  pub to_int : F → ℤ
  pub to_string : F → Str

-- Order, and how rounding keeps it.
pub record OrderLaws (f : FloatApi) : Type 0 where
  pub le_refl : (a : f.F) → f.le a a ≡ true
  pub le_trans : (a b c : f.F) → f.le a b ≡ true → f.le b c ≡ true → f.le a c ≡ true
  pub minimum_comm : (a b : f.F) → f.minimum a b ≡ f.minimum b a
  pub minimum_le : (a b : f.F) → f.le (f.minimum a b) b ≡ true
  pub sub_one_le : (a : f.F) → f.le (f.sub a (f.of_nat 1)) a ≡ true
  pub sub_mono : (a b c : f.F) → f.le a b ≡ true → f.le (f.sub a c) (f.sub b c) ≡ true
  pub sub_zero : (a : f.F) → f.sub a (f.of_nat 0) ≡ a

-- Integers below 2 ^ 53 are exact.
pub record ExactLaws (f : FloatApi) : Type 0 where
  pub le_of_nat : (m n : ℕ) → m < 2 ^ 53 → n < 2 ^ 53 → f.le (f.of_nat m) (f.of_nat n) ≡ leb m n
  pub sub_of_nat : (n : ℕ) → suc n < 2 ^ 53 → f.sub (f.of_nat (suc n)) (f.of_nat 1) ≡ f.of_nat n
  pub minimum_of_nat :
      (m n : ℕ) → m < 2 ^ 53 → n < 2 ^ 53 → f.minimum (f.of_nat m) (f.of_nat n) ≡ f.of_nat (min m n)
  pub add_no_time : (n : ℕ) (rate : f.F) → f.add (f.of_nat n) (f.mul (f.secs 0) rate) ≡ f.of_nat n
