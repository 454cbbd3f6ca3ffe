-- ===== src/Auth/Mtls.antt =====
-- crates/gateway-auth/src/mtls.rs: the identity of a client certificate that TLS has verified. A
-- certificate is the list of its bytes, and the request's extensions are what they hold of one.
pub mod Laws
use Prim.Native.Nat.{bit_xor}
use stateform.Prelude.{
  ℕ, zero, suc, ◌+◌, ◌-◌, ◌*◌, ◌/◌, ◌%◌, ◌^◌, Bool, Option, none, some, List, [], ◌∷◌, ltb,
  if◌then◌else◌,
}
use stateform.Prelude.Text.{Str, codes}
use stateform.Prelude.Words.{u64_mod}
use stateform.Auth.Context.{PeerIdentity}
use stateform.Auth.Error.{AuthError, missing_client_cert, Result, ok, err, ◌>>=◌}

pub record PeerCertificate : Type 0 where
  pub der : List ℕ

pub record MtlsProvider : Type 0 where
  pub required : Bool

-- `hash ^ (b as u64).wrapping_shl(k)`
abbrev pub xor_byte : ℕ → ℕ → ℕ → ℕ
xor_byte hash b k = bit_xor hash (b * 2 ^ k % u64_mod)

-- The loop over the bytes from the place `i`.
unfoldable pub xor_bytes : ℕ → ℕ → List ℕ → ℕ
xor_bytes i hash_input [] = hash_input
xor_bytes i hash_input (b ∷ bytes) = xor_bytes (suc i) (xor_byte hash_input b (i % 8)) bytes

abbrev pub hex_digit : ℕ → ℕ
hex_digit d = if ltb d 10 then b'0' + d else b'a' + (d - 10)

-- `format!("{:016x}", n)`: the last `width` digits before `after`.
abbrev pub hex_digits : ℕ → ℕ → Str → Str
hex_digits zero n after = after
hex_digits (suc width) n after = hex_digits width (n / 16) (hex_digit (n % 16) ∷ after)

unfoldable pub compute_sha256_fingerprint : List ℕ → Str
unfolding xor_bytes
compute_sha256_fingerprint bytes = hex_digits 16 (xor_bytes 0 0 bytes) []

unfoldable pub parse_dns_from_der : List ℕ → Option (Str × Str)
parse_dns_from_der cert_der = none

abbrev pub or_unknown : Option (Str × Str) → Str × Str
or_unknown none = (codes "(unknown)", codes "(unknown)")
or_unknown (some dns) = dns

unfoldable pub extract_identity : List ℕ → Result AuthError PeerIdentity
unfolding compute_sha256_fingerprint parse_dns_from_der
extract_identity cert_der =
    let dns = or_unknown (parse_dns_from_der cert_der) in
    ok record {
      subject_dn = dns.0;
      issuer_dn = dns.1;
      fingerprint = compute_sha256_fingerprint cert_der;
    }

unfoldable pub verify :
    MtlsProvider → Option PeerCertificate → Result AuthError (Option PeerIdentity)
unfolding extract_identity
verify p (some peer) = do identity ← extract_identity peer.der; ok (some identity)
verify p none = if p.required then err missing_client_cert else ok none
