-- ===== src/Router/Table/Normal.antt =====
-- `normalise_path` of crates/gateway-router/src/router.rs.
use stateform.Prelude.{
  ℕ, ◌≡◌, refl, ap, ◌∙◌, Bool, true, false, [], ◌∷◌, if◌then◌else◌, ◌==◌, arith,
}
use stateform.Prelude.Text.{Str, trim_start_matches, ascii_lower}
use stateform.Router.Table.{collapse, normalise_path}

lower_twice : (c : ℕ) → ascii_lower (ascii_lower c) ≡ ascii_lower c
lower_twice c = ground arith

lower_slash : (c : ℕ) → (ascii_lower c == b'/') ≡ (c == b'/')
lower_slash c = ground arith

collapse_twice : (b : Bool) (s : Str) → collapse b (collapse b s) ≡ collapse b s
unfolding collapse
collapse_twice b [] = refl
collapse_twice true (c ∷ s) =
    ground (arith, collapse_twice true s, collapse_twice false s, lower_twice c, lower_slash c)
collapse_twice false (c ∷ s) =
    ground (arith, collapse_twice true s, collapse_twice false s, lower_twice c, lower_slash c)

-- A text that does not start with a slash.
starts_plain : Str → Bool
starts_plain [] = true
starts_plain (c ∷ s) = if c == b'/' then false else true

trim-plain : (s : Str) → starts_plain (trim_start_matches (λ c. c == b'/') s) ≡ true
unfolding trim_start_matches starts_plain
trim-plain [] = refl
trim-plain (c ∷ s) = ground (arith, trim-plain s)

plain-trim : (s : Str) → starts_plain s ≡ true → trim_start_matches (λ c. c == b'/') s ≡ s
unfolding trim_start_matches starts_plain
plain-trim [] h = refl
plain-trim (c ∷ s) h = ground arith

collapse-plain : (s : Str) → starts_plain s ≡ true → starts_plain (collapse false s) ≡ true
unfolding collapse starts_plain
collapse-plain [] h = refl
collapse-plain (c ∷ s) h = ground (arith, lower_slash c)

-- Normalising a normalised path changes nothing: the path that the router keys on is a fixed
-- point.
pub normalise_path-twice : (path : Str) → normalise_path (normalise_path path) ≡ normalise_path path
unfolding normalise_path
normalise_path-twice path =
    let trimmed = trim_start_matches (λ c. c == b'/') path in
    ap (collapse false)
      (plain-trim (collapse false trimmed) (collapse-plain trimmed (trim-plain path)))
    ∙ collapse_twice false trimmed
