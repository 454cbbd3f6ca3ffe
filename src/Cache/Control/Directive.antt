-- ===== src/Cache/Control/Directive.antt =====
-- What `CacheControl::parse` of control.rs makes of one directive.
use stateform.Prelude.{
  ◌⊎◌, ℕ, ◌≡◌, refl, sym, ap, ◌==◌, ◌∙◌, Bool, true, false, ◌||◌, ◌&&◌, not, Option, none, some, [],
  ◌∷◌, arith, if◌then◌else◌, Bool-cases, inl, inr,
}
use stateform.Prelude.Text.{Str, codes, str_eq, str_eq_iff, is_some, strip_prefix}
use stateform.Cache.Control.{CacheControl, apply_directive, set_age, parse_delta_seconds, or_else}

-- Equal to one text, a directive equals another as the two texts do.
str_eq-both : (d a b : Str) → str_eq d a ≡ true → str_eq d b ≡ str_eq a b
str_eq-both d a b h = ap (λ k. str_eq k b) ((str_eq_iff d a).0 h)

-- The body of `apply_directive`, with its tests as arguments.
module _ (control : CacheControl) where
  abbrev round : (no_store no_cache private_ public_ : Bool) → Option ℕ → Option ℕ → CacheControl
  round no_store no_cache private_ public_ longest shared =
      if no_store
      then record control { no_store = true }
      else if no_cache
      then record control { no_cache = true }
      else if private_
      then record control { private_ = true }
      else if public_
      then control
      else set_age longest shared control

  round-flags :
      (a b c d : Bool) (l s : Option ℕ)
      → ((round a b c d l s).no_store ≡ (control.no_store || a))
        × ((round a b c d l s).no_cache ≡ (control.no_cache || b && not a))
        × ((round a b c d l s).private_ ≡ (control.private_ || c && not (a || b)))
        × ((round a b c d l s).max_age
            ≡ (if a || b || c || d then control.max_age else or_else l control.max_age))
        × ((round a b c d l s).s_maxage ≡ (
            if a || b || c || d
            then control.s_maxage
            else if is_some l
            then control.s_maxage
            else or_else s control.s_maxage))
  round-flags true b c d l s = ground arith
  round-flags false true c d l s = ground arith
  round-flags false false true d l s = ground arith
  round-flags false false false true l s = ground arith
  round-flags false false false false none none = ground arith
  round-flags false false false false none (some s) = ground arith
  round-flags false false false false (some l) s = ground arith

-- A directive is at most one of two different texts.
exclusive : (d x y : Str) → str_eq x y ≡ false → (str_eq d y && not (str_eq d x)) ≡ str_eq d y
exclusive d x y apart = elim (Bool-cases (str_eq d x)) [
  | inl same ↦ let other = str_eq-both d x y same in ground arith
  | inr differs ↦ ground arith
]

exclusive₂ :
    (d x y z : Str)
    → str_eq x z ≡ false
    → str_eq y z ≡ false
    → (str_eq d z && not (str_eq d x || str_eq d y)) ≡ str_eq d z
exclusive₂ d x y z h k = let one = exclusive d x z h in let two = exclusive d y z k in ground arith

-- A named directive declares no age.
unnamed :
    (d x prefix : Str)
    → parse_delta_seconds x prefix ≡ none
    → str_eq d x ≡ true
    → parse_delta_seconds d prefix ≡ none
unnamed d x prefix h same = ap (λ k. parse_delta_seconds k prefix) ((str_eq_iff d x).0 same) ∙ h

abbrev is_flag : Str → Bool
is_flag d =
    str_eq d (codes "no-store")
    || str_eq d (codes "no-cache")
    || str_eq d (codes "private")
    || str_eq d (codes "public")

-- A directive with an age is none of the four names.
ageless :
    (d prefix : Str)
    → parse_delta_seconds (codes "no-store") prefix ≡ none
    → parse_delta_seconds (codes "no-cache") prefix ≡ none
    → parse_delta_seconds (codes "private") prefix ≡ none
    → parse_delta_seconds (codes "public") prefix ≡ none
    → (is_flag d ≡ false) ⊎ (parse_delta_seconds d prefix ≡ none)
ageless d prefix p q r s = elim (Bool-cases (str_eq d (codes "no-store"))) [
  | inl same ↦ inr (unnamed d _ prefix p same)
  | inr a ↦ elim (Bool-cases (str_eq d (codes "no-cache"))) [
    | inl same ↦ inr (unnamed d _ prefix q same)
    | inr b ↦ elim (Bool-cases (str_eq d (codes "private"))) [
      | inl same ↦ inr (unnamed d _ prefix r same)
      | inr c ↦ elim (Bool-cases (str_eq d (codes "public"))) [
        | inl same ↦ inr (unnamed d _ prefix s same)
        | inr e ↦ inl (rw (a, b, c, e) refl)
      ]
    ]
  ]
]

skip :
    (flag : Bool) (o old : Option ℕ)
    → (flag ≡ false) ⊎ (o ≡ none)
    → (if flag then old else or_else o old) ≡ or_else o old
skip true o old (inl h) = absurd (cc)
skip true o old (inr h) = ap (λ k. or_else k old) (sym h)
skip false o old h = refl

other_head : (p c : ℕ) (ps s : Str) → (p == c) ≡ false → parse_delta_seconds (c ∷ s) (p ∷ ps) ≡ none
unfolding parse_delta_seconds strip_prefix
other_head p c ps s h = ground arith

not_both : (c : ℕ) → (109 == c) ≡ true → (115 == c) ≡ false
not_both c h = ground arith

-- A directive declares `max-age` or `s-maxage`, not both.
one_age :
    (d : Str)
    → (parse_delta_seconds d (codes "max-age=") ≡ none)
      ⊎ (parse_delta_seconds d (codes "s-maxage=") ≡ none)
unfolding parse_delta_seconds
one_age [] = inl refl
one_age (c ∷ s) = elim (Bool-cases (109 == c)) [
  | inl same ↦ inr (other_head 115 c (codes "-maxage=") s (not_both c same))
  | inr other ↦ inl (other_head 109 c (codes "ax-age=") s other)
]

shared_age :
    (flag : Bool) (l o old : Option ℕ)
    → (flag ≡ false) ⊎ (o ≡ none)
    → (l ≡ none) ⊎ (o ≡ none)
    → (if flag then old else if is_some l then old else or_else o old) ≡ or_else o old
shared_age true l o old h k = skip true o old h
shared_age false none o old h k = refl
shared_age false (some l) o old h (inl k) = absurd (cc)
shared_age false (some l) o old h (inr k) = ap (λ q. or_else q old) (sym k)

-- What one directive does to each of the five fields.
pub record Reads (d : Str) (control control' : CacheControl) : Type 0 where
  pub no_store : control'.no_store ≡ (control.no_store || str_eq d (codes "no-store"))
  pub no_cache : control'.no_cache ≡ (control.no_cache || str_eq d (codes "no-cache"))
  pub private_ : control'.private_ ≡ (control.private_ || str_eq d (codes "private"))
  pub max_age :
      control'.max_age ≡ or_else (parse_delta_seconds d (codes "max-age=")) control.max_age
  pub s_maxage :
      control'.s_maxage ≡ or_else (parse_delta_seconds d (codes "s-maxage=")) control.s_maxage

pub apply_directive-Reads :
    (d : Str) (control : CacheControl) → Reads d control (apply_directive d control)
unfolding apply_directive
apply_directive-Reads d control =
    let long = parse_delta_seconds d (codes "max-age=") in
    let short = parse_delta_seconds d (codes "s-maxage=") in
    let flags =
      round-flags control (str_eq d (codes "no-store")) (str_eq d (codes "no-cache"))
        (str_eq d (codes "private")) (str_eq d (codes "public")) long short in
    record {
      no_store = flags.0;
      no_cache = flags.1 ∙ ap (λ b. control.no_cache || b) (exclusive d (codes "no-store") _ refl);
      private_ =
          flags.2
          ∙ ap (λ b. control.private_ || b)
              (exclusive₂ d (codes "no-store") (codes "no-cache") _ refl refl);
      max_age =
          flags.3
          ∙ skip (is_flag d) long control.max_age
              (ageless d (codes "max-age=") refl refl refl refl);
      s_maxage =
          flags.4
          ∙ shared_age (is_flag d) long short control.s_maxage
              (ageless d (codes "s-maxage=") refl refl refl refl) (one_age d);
    }
