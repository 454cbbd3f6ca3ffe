-- ===== src/Prelude/Lists.antt =====
-- Lists measured and indexed by native numbers, predicates by recursion, and the Boolean searches
-- that iterator chains of the source come to.
use Prim.Native.Nat.{ℕ, zero, suc, ◌+◌, ◌<◌}
use mathlib.Core.Bool.{Bool, true, false, ◌&&◌, ◌||◌}
use mathlib.Core.List.{List, [], ◌∷◌, ◌++◌, Memᴰ}
use mathlib.Core.Option.{Option, none, some}
use mathlib.Core.Path.{◌≡◌, refl}
use native.Mathlib.Omega.{arith}
use stateform.Prelude.Tests.{if◌then◌else◌}

module _ {ℓ} {A : Type ℓ} where
  abbrev pub length : List A → ℕ
  length [] = 0
  length (x ∷ xs) = suc (length xs)

  abbrev pub get_elem? : List A → ℕ → Option A
  get_elem? [] i = none
  get_elem? (x ∷ xs) zero = some x
  get_elem? (x ∷ xs) (suc i) = get_elem? xs i

  -- `slice.first()`
  abbrev pub first : List A → Option A
  first [] = none
  first (x ∷ xs) = some x

  -- `iter().filter(p).collect()`
  abbrev pub keep : (A → Bool) → List A → List A
  keep p [] = []
  keep p (x ∷ xs) = if p x then x ∷ keep p xs else keep p xs

  -- `iter().find(p)`
  abbrev pub find : (A → Bool) → List A → Option A
  find p [] = none
  find p (x ∷ xs) = if p x then some x else find p xs

  abbrev pub all : (A → Bool) → List A → Bool
  all p [] = true
  all p (x ∷ xs) = p x && all p xs

  abbrev pub any : (A → Bool) → List A → Bool
  any p [] = false
  any p (x ∷ xs) = p x || any p xs

  pub length-append : (xs ys : List A) → length (xs ++ ys) ≡ length xs + length ys
  length-append [] ys = omega arith
  length-append (x ∷ xs) ys = omega (arith, length-append xs ys)

  -- An index inside the list has an element.
  pub get_elem?-some : (xs : List A) (i : ℕ) → i < length xs → (a : A) × (get_elem? xs i ≡ some a)
  get_elem?-some [] i h = absurd (omega arith)
  get_elem?-some (x ∷ xs) zero h = (x, refl)
  get_elem?-some (x ∷ xs) (suc i) h = get_elem?-some xs i (omega arith)

  pub Memᴰ-get_elem? : (xs : List A) (i : ℕ) {a : A} → get_elem? xs i ≡ some a → Memᴰ a xs
  Memᴰ-get_elem? [] i h = absurd (cc)
  Memᴰ-get_elem? (x ∷ xs) zero h = Memᴰ.head (cc)
  Memᴰ-get_elem? (x ∷ xs) (suc i) h = Memᴰ.tail (Memᴰ-get_elem? xs i h)

module _ {ℓ} {A : Type ℓ} (p : A → Bool) where
  -- What a filter keeps stood in the list and passes the test.
  pub Memᴰ-keep : (xs : List A) {a : A} → Memᴰ a (keep p xs) → Memᴰ a xs × (p a ≡ true)
  Memᴰ-keep [] m = elim m [ ]
  Memᴰ-keep (x ∷ xs) {a} m = go (λ t. Memᴰ-keep xs t) (p x) refl m
    where
      go :
          (Memᴰ a (keep p xs) → Memᴰ a xs × (p a ≡ true))
          → (b : Bool) → p x ≡ b
          → Memᴰ a (if b then x ∷ keep p xs else keep p xs)
          → Memᴰ a (x ∷ xs) × (p a ≡ true)
      go ih true e (Memᴰ.head same) = (Memᴰ.head same, rw same e)
      go ih true e (Memᴰ.tail t) = let (inside, good) = ih t in (Memᴰ.tail inside, good)
      go ih false e t = let (inside, good) = ih t in (Memᴰ.tail inside, good)

module _ {ℓ κ} {A : Type ℓ} (P : A → Type κ) where
  abbrev pub All : List A → Type κ
  All [] = Unit
  All (x ∷ xs) = P x × All xs

  pub All-append : (xs ys : List A) → All xs → All ys → All (xs ++ ys)
  All-append [] ys h k = k
  All-append (x ∷ xs) ys h k = (h.0, All-append xs ys h.1 k)
