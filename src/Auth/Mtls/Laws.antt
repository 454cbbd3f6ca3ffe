-- ===== src/Auth/Mtls/Laws.antt =====
-- crates/gateway-auth/src/mtls.rs: what the identity of a certificate tells.
use stateform.Prelude.{◌≡◌, refl, ap, ◌∙◌, ℕ, suc, ◌+◌, ◌%◌, List, [], ◌∷◌, ◌++◌, arith}
use stateform.Auth.Mtls.{xor_bytes, xor_byte, hex_digits, compute_sha256_fingerprint}

-- The loop reads a place only modulo 8.
xor_bytes-period :
    (i hash : ℕ) (bytes : List ℕ) → xor_bytes (8 + i) hash bytes ≡ xor_bytes i hash bytes
unfolding xor_bytes
xor_bytes-period i hash [] = refl
xor_bytes-period i hash (b ∷ bytes) =
    ap (λ k. xor_bytes (suc (8 + i)) (xor_byte hash b k) bytes) place
    ∙ ap (λ j. xor_bytes j (xor_byte hash b (i % 8)) bytes) shift
    ∙ xor_bytes-period (suc i) (xor_byte hash b (i % 8)) bytes
  where
    place : (8 + i) % 8 ≡ i % 8
    place = omega arith

    shift : suc (8 + i) ≡ 8 + suc i
    shift = omega arith

abbrev pub eight_zeros : List ℕ
eight_zeros = 0 ∷ 0 ∷ 0 ∷ 0 ∷ 0 ∷ 0 ∷ 0 ∷ 0 ∷ []

-- Different certificates have one fingerprint.
pub compute_sha256_fingerprint-padded :
    (der : List ℕ)
    → compute_sha256_fingerprint (eight_zeros ++ der) ≡ compute_sha256_fingerprint der
unfolding compute_sha256_fingerprint xor_bytes
compute_sha256_fingerprint-padded der = ap (λ n. hex_digits 16 n []) (xor_bytes-period 0 0 der)
