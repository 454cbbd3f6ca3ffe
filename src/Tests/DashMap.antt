-- ===== src/Tests/DashMap.antt =====
-- A list of entries with different keys, as an instance of the map that crates/gateway-cache takes.
use stateform.Prelude.{
  ◌-◌, ◌≡◌, ◌≢◌, refl, sym, ap, ◌∙◌, true, false, Option, none, some, List, [], ◌∷◌, length,
  if◌then◌else◌, ◌⊎◌, ◌<◌, arith, Bool-cases, inl, inr,
}
use stateform.Prelude.Text.{Str, str_eq, str_eq_iff, str_eq_self, is_some}
use stateform.Cache.Entry.{CachedResponse}
use stateform.Cache.Local.{deadlock, MapApi, MapLaws}

abbrev pub Entries : Type 0
Entries = List (Str × CachedResponse)

unfoldable pub find_key : Str → Entries → Option CachedResponse
find_key q [] = none
find_key q ((k, e) ∷ l) = if str_eq q k then some e else find_key q l

unfoldable pub without : Str → Entries → Entries
without q [] = []
without q ((k, e) ∷ l) = if str_eq q k then l else (k, e) ∷ without q l

unfoldable pub NoDup : Entries → Type 0
NoDup [] = Unit
NoDup ((k, e) ∷ l) = (find_key k l ≡ none) × NoDup l

pub str_neq : (q k : Str) → q ≢ k → str_eq q k ≡ false
str_neq q k other = elim (Bool-cases (str_eq q k)) [
  | inl same ↦ absurd (other ((str_eq_iff q k).0 same))
  | inr apart ↦ apart
]

str_neq-sym : (q k : Str) → str_eq q k ≡ false → str_eq k q ≡ false
str_neq-sym q k differs = elim (Bool-cases (str_eq k q)) [
  | inl same ↦
      let equal = (str_eq_iff k q).0 same in
      let again : str_eq q k ≡ true = ap (λ x. str_eq x k) (sym equal) ∙ str_eq_self k in
      absurd (cc)
  | inr apart ↦ apart
]

find-length : (q : Str) (l : Entries) → (find_key q l ≡ none) ⊎ (0 < length l)
unfolding find_key
find-length q [] = inl refl
find-length q (x ∷ l) = inr (omega arith)

find-without_other :
    (q k : Str) (l : Entries) → str_eq q k ≡ false → find_key q (without k l) ≡ find_key q l
unfolding find_key without
find-without_other q k [] other = refl
find-without_other q k ((k', e) ∷ l) other = elim (Bool-cases (str_eq k k')) [
  | inl same ↦
      let equal = (str_eq_iff k k').0 same in
      let apart : str_eq q k' ≡ false = ap (str_eq q) (sym equal) ∙ other in ground arith
  | inr differs ↦ let ih = find-without_other q k l other in ground arith
]

pub find-without : (q : Str) (l : Entries) → NoDup l → find_key q (without q l) ≡ none
unfolding find_key without NoDup
find-without q [] n = refl
find-without q ((k, e) ∷ l) n = elim (Bool-cases (str_eq q k)) [
  | inl same ↦ rw (same, without) (ap (λ x. find_key x l) ((str_eq_iff q k).0 same) ∙ n.0)
  | inr differs ↦ let ih = find-without q l n.1 in ground arith
]

pub NoDup-without : (q : Str) (l : Entries) → NoDup l → NoDup (without q l)
unfolding without NoDup
NoDup-without q [] n = n
NoDup-without q ((k, e) ∷ l) n = elim (Bool-cases (str_eq q k)) [
  | inl same ↦ rw (same, without) n.1
  | inr differs ↦
      rw (differs, without)
        (find-without_other k q l (str_neq-sym q k differs) ∙ n.0, NoDup-without q l n.1)
]

length-without :
    (q : Str) (l : Entries)
    → length (without q l) ≡ (if is_some (find_key q l) then length l - 1 else length l)
unfolding find_key without
length-without q [] = refl
length-without q ((k, e) ∷ l) =
    let ih = length-without q l in let some_ = find-length q l in ground arith

pub NoDup-nil : NoDup []
unfolding NoDup
NoDup-nil = tt

pub NoDup-insert :
    (k : Str) (e : CachedResponse) (l : Entries) → NoDup l → NoDup ((k, e) ∷ without k l)
unfolding NoDup
NoDup-insert k e l n = (find-without k l n, NoDup-without k l n)

abbrev pub first_of : Entries → Option Str
first_of [] = none
first_of (p ∷ l) = some p.0

abbrev pub test_map : MapApi
test_map = record {
  DashMap = (l : Entries) × NoDup l;
  empty = ([], NoDup-nil);
  get = λ m k. find_key k m.0;
  insert = λ k e m. ((k, e) ∷ without k m.0, NoDup-insert k e m.0 m.1);
  remove = λ k m. (without k m.0, NoDup-without k m.0 m.1);
  remove_guarded = λ k m. (deadlock, m);
  len = λ m. length m.0;
  first_key = λ m. first_of m.0;
}

nothing : (l : Entries) → first_of l ≡ none → length l ≡ 0
nothing [] e = refl
nothing (p ∷ l) e = absurd (cc)

not_empty : (k : Str) (l : Entries) → first_of l ≡ some k → 0 < length l
not_empty k [] e = absurd (cc)
not_empty k (p ∷ l) e = omega arith

headed : (k : Str) (l : Entries) → first_of l ≡ some k → is_some (find_key k l) ≡ true
unfolding find_key
headed k [] e = absurd (cc)
headed k ((k', v) ∷ l) e =
    let same : k ≡ k' = cc in
    let found = str_eq_self k in
    let hit : str_eq k k' ≡ true = ap (str_eq k) (sym same) ∙ found in ground arith

pub test_map-MapLaws : MapLaws test_map
unfolding find_key without
test_map-MapLaws = record {
  get-insert = λ k e m. rw (str_eq_self k) refl;
  get-insert_other =
      λ k q e m other. rw (str_neq q k other) (find-without_other q k m.0 (str_neq q k other));
  get-remove = λ k m. find-without k m.0 m.1;
  get-remove_other = λ k q m other. find-without_other q k m.0 (str_neq q k other);
  len-empty = refl;
  len-insert = λ k e m. let l = length-without k m.0 in let f = find-length k m.0 in ground arith;
  len-remove = λ k m. length-without k m.0;
  first-none = λ m e. nothing m.0 e;
  first-some = λ m k e. headed k m.0 e;
  len-first = λ m k e. not_empty k m.0 e;
  remove_guarded-waits = λ m k e. refl;
}
