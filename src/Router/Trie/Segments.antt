-- ===== src/Router/Trie/Segments.antt =====
-- A path as the list of its segments: the splits that the recursions of the trie make one by one.
use stateform.Prelude.{
  ℕ, zero, suc, ◌≤◌, ◌<◌, ◌≡◌, refl, ap, ◌↔◌, Bool, true, false, ◌&&◌, List, [], ◌∷◌, length,
  if◌then◌else◌, ◌==◌, arith,
}
use stateform.Prelude.Text.{Str, str_eq, str_eq_iff, trim_start_matches, is_empty}
use stateform.Router.Trie.{cut, split_first_segment, fuel_for}

unfoldable pub segments : ℕ → Str → List Str
segments zero path = []
segments (suc f) path =
    let rest = segments f (split_first_segment path).1 in
    if is_empty path then [] else (split_first_segment path).0 ∷ rest

length-cut : (s : Str) → length (cut s).1 ≤ length s
unfolding cut
length-cut [] = omega arith
length-cut (c ∷ s) = ground (arith, length-cut s)

length-cut-cons : (c : ℕ) (s : Str) → length (cut (c ∷ s)).1 ≤ length s
unfolding cut
length-cut-cons c s = ground (arith, length-cut s)

length-trim : (p : ℕ → Bool) (s : Str) → length (trim_start_matches p s) ≤ length s
unfolding trim_start_matches
length-trim p [] = omega arith
length-trim p (c ∷ s) = ground (arith, length-trim p s)

-- What follows the first segment of a path is shorter than the path.
pub length-split_first_segment :
    (c : ℕ) (p : Str) → length (split_first_segment (c ∷ p)).1 ≤ length p
unfolding split_first_segment trim_start_matches
length-split_first_segment c p = ground (
  arith,
  length-cut (trim_start_matches (λ d. d == b'/') p),
  length-trim (λ d. d == b'/') p,
  length-cut-cons c p,
)

-- More fuel than the path is long changes nothing.
pub segments-fuel : (f g : ℕ) (p : Str) → length p < f → length p < g → segments f p ≡ segments g p
unfolding segments
segments-fuel zero g p hf hg = absurd (omega arith)
segments-fuel (suc f) zero p hf hg = absurd (omega arith)
segments-fuel (suc f) (suc g) [] hf hg = refl
segments-fuel (suc f) (suc g) (c ∷ p) hf hg =
    let shorter = length-split_first_segment c p in
    ap (λ ks. (split_first_segment (c ∷ p)).0 ∷ ks)
      (segments-fuel f g (split_first_segment (c ∷ p)).1 (omega (arith, shorter))
        (omega (arith, shorter)))

abbrev pub segments_of : Str → List Str
segments_of path = segments (fuel_for path) path

unfoldable pub keys_eq : List Str → List Str → Bool
keys_eq [] [] = true
keys_eq [] (k ∷ ks) = false
keys_eq (j ∷ js) [] = false
keys_eq (j ∷ js) (k ∷ ks) = str_eq j k && keys_eq js ks

pub keys_eq_iff : (js ks : List Str) → (keys_eq js ks ≡ true) ↔ (js ≡ ks)
unfolding keys_eq
keys_eq_iff [] [] = ground arith
keys_eq_iff [] (k ∷ ks) = ground arith
keys_eq_iff (j ∷ js) [] = ground arith
keys_eq_iff (j ∷ js) (k ∷ ks) = ground (arith, str_eq_iff j k, keys_eq_iff js ks)
