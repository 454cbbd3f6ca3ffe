-- ===== src/Cache/Control/Directives.antt =====
-- What `CacheControl::parse` of control.rs reads from all directives of a value.
use stateform.Prelude.{
  ℕ, ◌≡◌, refl, ap, ◌∙◌, Bool, false, ◌||◌, Option, none, some, List, [], ◌∷◌, any, arith,
}
use stateform.Prelude.Text.{Str, codes, str_eq}
use stateform.Cache.Control.{
  CacheControl, default, parse, directives, apply_directive, apply_directives, parse_delta_seconds,
  or_else,
}
use stateform.Cache.Control.Directive.{apply_directive-Reads}

-- The last result of a function over a list that is not `none`.
pub last_some : (Str → Option ℕ) → List Str → Option ℕ
last_some f [] = none
last_some f (d ∷ ds) = or_else (last_some f ds) (f d)

or_step : (a b c d : Bool) → a ≡ (b || c) → (a || d) ≡ (b || (c || d))
or_step a b c d h = ground arith

or_else-none : (a : Option ℕ) → or_else a none ≡ a
or_else-none none = refl
or_else-none (some a) = refl

or_else_assoc : (a b c : Option ℕ) → or_else a (or_else b c) ≡ or_else (or_else a b) c
or_else_assoc none b c = refl
or_else_assoc (some a) b c = refl

-- What a list of directives makes of the five fields.
record ReadsAll (ds : List Str) (control control' : CacheControl) : Type 0 where
  no_store : control'.no_store ≡ (control.no_store || any (λ d. str_eq d (codes "no-store")) ds)
  no_cache : control'.no_cache ≡ (control.no_cache || any (λ d. str_eq d (codes "no-cache")) ds)
  private_ : control'.private_ ≡ (control.private_ || any (λ d. str_eq d (codes "private")) ds)
  max_age :
      control'.max_age
      ≡ or_else (last_some (λ d. parse_delta_seconds d (codes "max-age=")) ds) control.max_age
  s_maxage :
      control'.s_maxage
      ≡ or_else (last_some (λ d. parse_delta_seconds d (codes "s-maxage=")) ds) control.s_maxage

or_nothing : (b : Bool) → b ≡ (b || false)
or_nothing b = ground arith

apply_directives-ReadsAll :
    (ds : List Str) (control : CacheControl) → ReadsAll ds control (apply_directives ds control)
unfolding apply_directives last_some
apply_directives-ReadsAll [] control = record {
  no_store = or_nothing control.no_store;
  no_cache = or_nothing control.no_cache;
  private_ = or_nothing control.private_;
  max_age = refl;
  s_maxage = refl;
}
apply_directives-ReadsAll (d ∷ ds) control =
    let one = apply_directive-Reads d control in
    let rest = apply_directives-ReadsAll ds (apply_directive d control) in
    record {
      no_store = rest.no_store ∙ or_step _ control.no_store _ _ one.no_store;
      no_cache = rest.no_cache ∙ or_step _ control.no_cache _ _ one.no_cache;
      private_ = rest.private_ ∙ or_step _ control.private_ _ _ one.private_;
      max_age =
          rest.max_age
          ∙ ap (or_else _) one.max_age
          ∙ or_else_assoc (last_some (λ d. parse_delta_seconds d (codes "max-age=")) ds)
              (parse_delta_seconds d (codes "max-age=")) control.max_age;
      s_maxage =
          rest.s_maxage
          ∙ ap (or_else _) one.s_maxage
          ∙ or_else_assoc (last_some (λ d. parse_delta_seconds d (codes "s-maxage=")) ds)
              (parse_delta_seconds d (codes "s-maxage=")) control.s_maxage;
    }

-- A parsed Cache-Control has each flag exactly when a directive, trimmed and in lower case,
-- spells it, and each age as the last directive that declares one with a number of 64 bits
-- does.
pub parse-reads :
    (value : Str)
    → ((parse value).no_store ≡ any (λ d. str_eq d (codes "no-store")) (directives value))
      × ((parse value).no_cache ≡ any (λ d. str_eq d (codes "no-cache")) (directives value))
      × ((parse value).private_ ≡ any (λ d. str_eq d (codes "private")) (directives value))
      × ((parse value).max_age
          ≡ last_some (λ d. parse_delta_seconds d (codes "max-age=")) (directives value))
      × ((parse value).s_maxage
          ≡ last_some (λ d. parse_delta_seconds d (codes "s-maxage=")) (directives value))
unfolding parse
parse-reads value =
    let all = apply_directives-ReadsAll (directives value) default in
    (
      all.no_store,
      all.no_cache,
      all.private_,
      all.max_age ∙ or_else-none _,
      all.s_maxage ∙ or_else-none _,
    )
