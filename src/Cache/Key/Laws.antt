-- ===== src/Cache/Key/Laws.antt =====
-- What the keys of key.rs depend on, and which headers are stored.
use mathlib.Core.List.{append_assoc, append-nil, Permᴰ}
use stateform.Prelude.{
  ◌≡◌, refl, sym, ap, ◌∙◌, ◌⊎◌, inl, inr, true, false, none, List, [], ◌∷◌, ◌++◌, map, All, arith,
  Bool-cases, Option-cases,
}
use stateform.Prelude.Text.{Str, codes, str_ltb, to_ascii_lowercase, to_ascii_uppercase}
use stateform.Prelude.Order.{str_ltb_irrefl, str_ltb_trans, str_ltb_total}
use stateform.Http.{HeaderApi}
use stateform.Cache.Key.{
  new, insert_pair, sort_pairs, vary_suffix, pair_of, with_vary, storable, is_hop_by_hop,
}

module _ (h : HeaderApi) where
  abbrev pub Storable : Str × Str → Type 0
  Storable pair = is_hop_by_hop pair.0 ≡ false

  -- No hop-by-hop header is among the headers that are stored, however its name is spelled.
  pub storable-All : (l : List (Str × h.HeaderValue)) → All Storable (storable h l)
  unfolding storable
  storable-All [] = tt
  storable-All ((name, value) ∷ rest) =
      elim (Bool-cases (is_hop_by_hop (to_ascii_lowercase name))) [
        | inl hop ↦ rw (hop, storable) (storable-All rest)
        | inr keeps ↦ elim (Option-cases (h.to_str value)) [
          | inl opaque ↦ rw (keeps, opaque, storable) (storable-All rest)
          | inr (v, text) ↦ rw (keeps, text, storable) (keeps, storable-All rest)
        ]
      ]

  -- A key of a request without a query whose response varies on headers is the plain key of a
  -- longer path: the two kinds of keys are not apart.
  pub with_vary-new :
      (method route_id path : Str) (name : Str) (names : List Str) (headers : h.HeaderMap)
      → with_vary h (new method route_id path none) (name ∷ names) headers
        ≡ new method route_id
            (path ++ vary_suffix (sort_pairs (map (pair_of h headers) (name ∷ names))))
            none
  unfolding with_vary new
  with_vary-new method route_id path name names headers =
      append_assoc
        (codes "stateform:cache:"
          ++ to_ascii_uppercase method
          ++ codes ":"
          ++ route_id
          ++ codes ":")
        path _

str_ltb_asym : (s t : Str) → str_ltb s t ≡ true → str_ltb t s ≡ false
str_ltb_asym s t h = elim (Bool-cases (str_ltb t s)) [
  | inl back ↦ let loop = str_ltb_trans s t s h back in let never = str_ltb_irrefl s in absurd (cc)
  | inr none_ ↦ none_
]

insert_pair-below :
    (a b : Str × Str) (l : List (Str × Str))
    → str_ltb a.0 b.0 ≡ true
    → insert_pair a (insert_pair b l) ≡ insert_pair b (insert_pair a l)
unfolding insert_pair
insert_pair-below a b [] h = let asym = str_ltb_asym a.0 b.0 h in rw (h, asym) refl
insert_pair-below a b (c ∷ l) h =
    let asym = str_ltb_asym a.0 b.0 h in
    elim (Bool-cases (str_ltb c.0 a.0)) [
      | inl below ↦
          let lower = str_ltb_trans c.0 a.0 b.0 below h in
          let later = insert_pair-below a b l h in ground arith
      | inr above ↦ elim (Bool-cases (str_ltb c.0 b.0)) [
        | inl between ↦ ground arith
        | inr over ↦ ground arith
      ]
    ]

-- Two names are equal or one is below the other.
compare_names : (s t : Str) → (s ≡ t) ⊎ (str_ltb s t ≡ true) ⊎ (str_ltb t s ≡ true)
compare_names s t = elim (Bool-cases (str_ltb s t)) [
  | inl below ↦ inr (inl below)
  | inr above ↦ elim (str_ltb_total s t above) [ inl same ↦ inl same | inr over ↦ inr (inr over) ]
]

module _ (h : HeaderApi) (headers : h.HeaderMap) where
  sorted_of : List Str → List (Str × Str)
  sorted_of names = sort_pairs (map (pair_of h headers) names)

  sorted_of-swap :
      (s t : Str) (names : List Str) → sorted_of (s ∷ t ∷ names) ≡ sorted_of (t ∷ s ∷ names)
  unfolding sorted_of sort_pairs
  sorted_of-swap s t names =
      let a = pair_of h headers s in
      let b = pair_of h headers t in
      let l = sorted_of names in
      elim (compare_names s t) [
        | inl same ↦
            ap (λ k. insert_pair a (insert_pair (pair_of h headers k) l)) (sym same)
            ∙ ap (λ k. insert_pair (pair_of h headers k) (insert_pair a l)) same
        | inr (inl below) ↦ insert_pair-below a b l below
        | inr (inr above) ↦ sym (insert_pair-below b a l above)
      ]

  sorted_of-Permᴰ : {l l' : List Str} → Permᴰ l l' → sorted_of l ≡ sorted_of l'
  unfolding sorted_of sort_pairs
  sorted_of-Permᴰ Permᴰ.nil = refl
  sorted_of-Permᴰ (Permᴰ.cons {a} {b} {l₁} {l₂} same p) =
      ap (insert_pair (pair_of h headers a)) (sorted_of-Permᴰ p)
      ∙ ap (λ k. insert_pair (pair_of h headers k) (sorted_of l₂)) same
  sorted_of-Permᴰ (Permᴰ.swap {a} {b} {a'} {b'} {l} p q) =
      sorted_of-swap a b l
      ∙ ap
          (λ k. insert_pair (pair_of h headers k) (insert_pair (pair_of h headers a) (sorted_of l)))
          q
      ∙ ap
          (λ k.
            insert_pair (pair_of h headers a') (insert_pair (pair_of h headers k) (sorted_of l)))
          p
  sorted_of-Permᴰ (Permᴰ.trans p q) = sorted_of-Permᴰ p ∙ sorted_of-Permᴰ q

with_vary-eq :
    (h : HeaderApi) (key : Str) (headers : h.HeaderMap) (names : List Str)
    → with_vary h key names headers ≡ key ++ vary_suffix (sorted_of h headers names)
unfolding with_vary sorted_of vary_suffix sort_pairs
with_vary-eq h key headers [] = sym (append-nil key)
with_vary-eq h key headers (name ∷ names) = refl

-- The key does not depend on the order in which Vary lists the names.
pub with_vary-Permᴰ :
    (h : HeaderApi) (key : Str) (headers : h.HeaderMap) (names names' : List Str)
    → Permᴰ names names'
    → with_vary h key names headers ≡ with_vary h key names' headers
with_vary-Permᴰ h key headers names names' p =
    with_vary-eq h key headers names
    ∙ ap (λ l. key ++ vary_suffix l) (sorted_of-Permᴰ h headers p)
    ∙ sym (with_vary-eq h key headers names')
