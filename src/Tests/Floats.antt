-- ===== src/Tests/Floats.antt =====
-- Instances of what crates/gateway-ratelimit takes: natural numbers for `f64`, and a sorted set as the
-- list of its scores and members.
use stateform.Prelude.{
  ℕ, suc, ◌+◌, ◌-◌, ◌*◌, ◌/◌, ◌^◌, ◌≡◌, refl, sym, ap, ◌∙◌, Bool, true, false, leb, min, max,
  Option, none, some, List, [], ◌∷◌, arith, length, Bool-cases, inl, inr, if◌then◌else◌,
}
use stateform.Prelude.Text.{Str, str_eq, show_nat}
use stateform.RateLimit.Float.{pos, FloatApi, OrderLaws, ExactLaws}
use stateform.RateLimit.L2Redis.{ZSetApi, ScriptApi}
use stateform.RateLimit.L2Redis.Window.{ZSetLaws, one_unless}

abbrev pub test_floats : FloatApi
test_floats = record {
  F = ℕ;
  add = λ a b. a + b;
  sub = λ a b. a - b;
  mul = λ a b. a * b;
  div = λ a b. a / b;
  minimum = λ a b. min a b;
  maximum = λ a b. max a b;
  le = leb;
  of_nat = λ n. n;
  secs = λ n. n / 10 ^ 9;
  floor = λ a. a;
  ceil = λ a. a;
  as_u64 = λ a. a;
  to_int = pos;
  to_string = show_nat;
}

leb_refl : (a : ℕ) → leb a a ≡ true
leb_refl a = ground arith

leb_trans : (a b c : ℕ) → leb a b ≡ true → leb b c ≡ true → leb a c ≡ true
leb_trans a b c h k = ground arith

leb-min : (a b : ℕ) → leb (min a b) b ≡ true
leb-min a b = ground arith

leb_pred : (a : ℕ) → leb (a - 1) a ≡ true
leb_pred a = ground arith

leb_sub : (a b c : ℕ) → leb a b ≡ true → leb (a - c) (b - c) ≡ true
leb_sub a b c h = ground arith

pub test_floats-OrderLaws : OrderLaws test_floats
test_floats-OrderLaws = record {
  le_refl = leb_refl;
  le_trans = leb_trans;
  minimum_comm = λ a b. omega arith;
  minimum_le = leb-min;
  sub_one_le = leb_pred;
  sub_mono = leb_sub;
  sub_zero = λ a. omega arith;
}

pub test_floats-ExactLaws : ExactLaws test_floats
test_floats-ExactLaws = record {
  le_of_nat = λ m n h k. refl;
  sub_of_nat = λ n h. omega arith;
  minimum_of_nat = λ m n h k. refl;
  add_no_time = λ n rate. omega arith;
}

abbrev pub Entries : Type 0
Entries = List (ℕ × Str)

unfoldable pub drop_to : ℕ → Entries → Entries
drop_to b [] = []
drop_to b ((s, m) ∷ l) = if leb s b then drop_to b l else (s, m) ∷ drop_to b l

unfoldable pub count_above : ℕ → Entries → ℕ
count_above c [] = 0
count_above c ((s, m) ∷ l) = one_unless (leb s c) + count_above c l

unfoldable pub has_member : Str → Entries → Bool
unfolding str_eq
has_member k [] = false
has_member k ((s, m) ∷ l) = if str_eq m k then true else has_member k l

abbrev pub first_score : Entries → Option ℕ
first_score [] = none
first_score ((s, m) ∷ l) = some s

abbrev pub test_zset : ZSetApi test_floats
test_zset = record {
  ZSet = Entries;
  zremrangebyscore = drop_to;
  zcard = length;
  zadd = λ s m l. (s, m) ∷ l;
  zrange_first = first_score;
}

pub length-drop_to : (b : ℕ) (l : Entries) → length (drop_to b l) ≡ count_above b l
unfolding drop_to count_above
length-drop_to b [] = refl
length-drop_to b ((s, m) ∷ l) = go (leb s b) (length-drop_to b l)
  where
    go :
        (x : Bool)
        → length (drop_to b l) ≡ count_above b l
        → length (if x then drop_to b l else (s, m) ∷ drop_to b l) ≡ one_unless x + count_above b l
    go true ih = omega (arith, ih)
    go false ih = omega (arith, ih)

pub count_above-drop_to :
    (b c : ℕ) (l : Entries) → leb b c ≡ true → count_above c (drop_to b l) ≡ count_above c l
unfolding drop_to count_above
count_above-drop_to b c [] h = refl
count_above-drop_to b c ((s, m) ∷ l) h = elim (Bool-cases (leb s b)) [
  | inl low ↦
      let far : leb s c ≡ true = leb_trans s b c low h in
      ap (λ x. count_above c (if x then drop_to b l else (s, m) ∷ drop_to b l)) low
      ∙ count_above-drop_to b c l h
      ∙ none_more
      ∙ sym (ap (λ x. one_unless x + count_above c l) far)
  | inr high ↦
      ap (λ x. count_above c (if x then drop_to b l else (s, m) ∷ drop_to b l)) high
      ∙ ap (λ n. one_unless (leb s c) + n) (count_above-drop_to b c l h)
]
  where
    none_more : count_above c l ≡ 0 + count_above c l
    none_more = omega arith

unfoldable pub zset_laws : ZSetLaws test_floats test_zset
unfolding count_above
zset_laws = record {
  empty = [];
  zcount = count_above;
  has = has_member;
  zcount_empty = λ c. refl;
  zcard_rem = length-drop_to;
  zcount_rem = count_above-drop_to;
  zcount_add = λ score c m s fresh. refl;
}

-- A server that admits each request, under every key.
abbrev pub test_scripts : ScriptApi test_floats
test_scripts = record {
  Conn = ℕ;
  connect = λ url. none;
  token_bucket = λ key capacity rate now conn. ((some (pos 1 ∷ pos 4 ∷ pos 0 ∷ []), []), suc conn);
  sliding_window =
      λ key max window now id conn. ((some (pos 1 ∷ pos 4 ∷ pos 0 ∷ []), []), suc conn);
}
