-- ===== src/Auth/Error.antt =====
-- crates/gateway-auth/src/error.rs: what an authentication fails with, and its HTTP status.
-- `Result` is Rust's, with `?` as `>>=`, `ok_or` and `map_err`.
use stateform.Prelude.{ℕ, Bool, ltb, Option, none, some, ◌≡◌, refl, ◌⊎◌, inl, inr}
use stateform.Prelude.Text.{Str}

pub data AuthError : Type 0 where
  jwks_fetch unknown_kid invalid_token api_key_store invalid_client_cert config : Str → AuthError
  missing_token invalid_api_key missing_api_key missing_client_cert no_provider_enabled : AuthError

unfoldable pub status_code : AuthError → ℕ
status_code missing_token = 401
status_code missing_api_key = 401
status_code missing_client_cert = 401
status_code (invalid_token reason) = 403
status_code invalid_api_key = 403
status_code (unknown_kid kid) = 403
status_code (invalid_client_cert reason) = 403
status_code (jwks_fetch reason) = 503
status_code (api_key_store reason) = 503
status_code no_provider_enabled = 500
status_code (config reason) = 500

unfoldable pub is_client_error : AuthError → Bool
unfolding status_code
is_client_error e = ltb (status_code e) 500

pub data Result {ℓ} (E A : Type ℓ) : Type ℓ where
  ok : A → Result E A
  err : E → Result E A

infixl 5 ◌>>=◌
abbrev pub ◌>>=◌ {ℓ} : {E A B : Type ℓ} → Result E A → (A → Result E B) → Result E B
ok a >>= f = f a
err e >>= f = err e

abbrev pub ok_or {ℓ} : {E A : Type ℓ} → Option A → E → Result E A
ok_or none e = err e
ok_or (some a) e = ok a

abbrev pub map_err {ℓ} : {D E A : Type ℓ} → (D → E) → Result D A → Result E A
map_err f (ok a) = ok a
map_err f (err d) = err (f d)

module _ {ℓ} {E A : Type ℓ} where
  pub Result-cases : (r : Result E A) → ((a : A) × (r ≡ ok a)) ⊎ ((e : E) × (r ≡ err e))
  Result-cases (ok a) = inl (a, refl)
  Result-cases (err e) = inr (e, refl)

  -- Where `?` goes on, and where a chain fails.
  pub bind-ok :
      {B : Type ℓ} (r : Result E A) (f : A → Result E B) {b : B}
      → (r >>= f) ≡ ok b
      → (a : A) × (r ≡ ok a) × (f a ≡ ok b)
  bind-ok (ok a) f h = (a, refl, h)
  bind-ok (err e) f h = absurd (cc)

  pub bind-err :
      {B : Type ℓ} (r : Result E A) (f : A → Result E B) {e : E}
      → (r >>= f) ≡ err e
      → (r ≡ err e) ⊎ ((a : A) × (r ≡ ok a) × (f a ≡ err e))
  bind-err (ok a) f h = inr (a, refl, h)
  bind-err (err d) f h = inl (cc)

  pub ok_or-ok : (o : Option A) (e : E) {a : A} → ok_or o e ≡ ok a → o ≡ some a
  ok_or-ok none e h = absurd (cc)
  ok_or-ok (some a) e h = cc

  pub ok_or-err : (o : Option A) (e : E) {d : E} → ok_or o e ≡ err d → d ≡ e
  ok_or-err none e h = cc
  ok_or-err (some a) e h = absurd (cc)

  pub map_err-ok : {D : Type ℓ} (f : D → E) (r : Result D A) {a : A} → map_err f r ≡ ok a → r ≡ ok a
  map_err-ok f (ok a) h = cc
  map_err-ok f (err d) h = absurd (cc)

  pub map_err-err :
      {D : Type ℓ} (f : D → E) (r : Result D A) {e : E}
      → map_err f r ≡ err e
      → (d : D) × (r ≡ err d) × (e ≡ f d)
  map_err-err f (ok a) h = absurd (cc)
  map_err-err f (err d) h = (d, refl, cc)
