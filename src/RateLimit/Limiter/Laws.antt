-- ===== src/RateLimit/Limiter/Laws.antt =====
-- crates/gateway-ratelimit/src/limiter.rs: which layer decides what.
use stateform.Prelude.{
  ℕ, ◌<◌, ◌/◌, ◌≡◌, refl, ap, ◌∙◌, Bool, true, false, ◌&&◌, Option, none, some, List, [], ◌∷◌, ◌++◌,
  if◌then◌else◌, arith,
}
use stateform.Prelude.Text.{Str, codes, show_nat}
use stateform.RateLimit.Float.{FloatApi}
use stateform.RateLimit.L1Local as L1
use stateform.RateLimit.L2Redis as L2
use stateform.RateLimit.L2Redis.{ScriptApi, L2Outcome, or_open, err}
use stateform.RateLimit.Limiter.{
  DeniedBy, l1_local, l2_distributed, RateLimitOutcome, to_headers, Policy, Reading, after_l2,
  denied_by_l1, after_l1, check_policy,
}

-- The layer that denies, from the answers of both.
abbrev pub denier : Bool → Bool → Option DeniedBy
denier true true = none
denier true false = some l2_distributed
denier false l2 = some l1_local

module _ (f : FloatApi) (s : ScriptApi f) where
  -- What a request that is not let through leaves of the server.
  abbrev pub AsksNext : Bool → (before after next : s.Conn) → Type 0
  AsksNext true before after next = after ≡ next
  AsksNext false before after next = after ≡ before

  -- The outcome and the server, from the answers of the two layers.
  pub record Decided (p : Policy f) (key : Str) (r : Reading f) (conn : s.Conn) (l1 l2 : Bool)
      (out : RateLimitOutcome × s.Conn) : Type 0 where
    pub both : out.0.allowed ≡ (l1 && l2)
    pub layer : out.0.denied_by ≡ denier l1 l2
    pub limit : out.0.limit ≡ L1.capacity f p.l1
    pub server : AsksNext l1 conn out.1 (L2.check f s p.l2 key r.unix r.rand conn).1

  after_l1-Decided :
      (p : Policy f) (key : Str) (r : Reading f) (conn : s.Conn) (l1 : Bool) (remaining : ℕ)
      → Decided p key r conn l1
          (L2.check f s p.l2 key r.unix r.rand conn).0.allowed
          (after_l1 f s l1 (L1.capacity f p.l1) remaining p.l2 key r conn)
  unfolding after_l1 after_l2 denied_by_l1
  after_l1-Decided p key r conn false remaining = record {
    both = refl;
    layer = refl;
    limit = refl;
    server = refl;
  }
  after_l1-Decided p key r conn true remaining =
      go (L2.check f s p.l2 key r.unix r.rand conn).0.allowed refl
    where
      go :
          (b : Bool)
          → (L2.check f s p.l2 key r.unix r.rand conn).0.allowed ≡ b
          → Decided p key r conn true
              (L2.check f s p.l2 key r.unix r.rand conn).0.allowed
              (after_l1 f s true (L1.capacity f p.l1) remaining p.l2 key r conn)
      go true e = record { both = rw e refl; layer = rw e refl; limit = rw e refl; server = refl }
      go false e = record { both = rw e refl; layer = rw e refl; limit = rw e refl; server = refl }

  -- Under a policy a request is allowed exactly if both layers allow it, the outcome names the
  -- layer that denied it and the policy's capacity as the limit, and the server is asked
  -- exactly if the local bucket had a token: otherwise its state is as before.
  pub check_policy-Decided :
      (p : Policy f) (key : Str) (r : Reading f) (conn : s.Conn)
      → Decided p key r conn
          (L1.check f p.l1 key r.made r.taken).0
          (L2.check f s p.l2 key r.unix r.rand conn).0.allowed
          ((check_policy f s p key r conn).0, (check_policy f s p key r conn).2)
  unfolding check_policy
  check_policy-Decided p key r conn =
      after_l1-Decided p key r conn (L1.check f p.l1 key r.made r.taken).0 _

  -- A server that fails.
  pub check_policy-fail_open :
      (p : Policy f) (key : Str) (r : Reading f) (conn : s.Conn) (e : _)
      → (L2.check_inner f s p.l2 key r.unix r.rand conn).0 ≡ err e
      → (check_policy f s p key r conn).0.allowed ≡ (L1.check f p.l1 key r.made r.taken).0
  unfolding L2.check or_open
  check_policy-fail_open p key r conn e failed =
      (check_policy-Decided p key r conn).both
      ∙ ap (λ o. (L1.check f p.l1 key r.made r.taken).0 && (or_open o).allowed) failed
      ∙ and_true (L1.check f p.l1 key r.made r.taken).0
    where
      and_true : (b : Bool) → (b && true) ≡ b
      and_true true = refl
      and_true false = refl

-- A refusal for less than a second.
pub to_headers-zero :
    (o : RateLimitOutcome)
    → o.allowed ≡ false
    → o.retry_after_ms < 1000
    → to_headers o ≡ (
        (codes "X-RateLimit-Limit", show_nat o.limit)
        ∷ (codes "X-RateLimit-Remaining", show_nat o.remaining)
        ∷ (codes "Retry-After", codes "0")
        ∷ [])
unfolding to_headers show_nat
to_headers-zero o denied soon =
    ap
      (λ b.
        common
        ++ (if b then [] else ((codes "Retry-After", show_nat (o.retry_after_ms / 1000)) ∷ [])))
      denied
    ∙ ap (λ n. common ++ ((codes "Retry-After", show_nat n) ∷ [])) no_seconds
  where
    common : List (Str × Str)
    common =
        (codes "X-RateLimit-Limit", show_nat o.limit)
        ∷ (codes "X-RateLimit-Remaining", show_nat o.remaining)
        ∷ []

    no_seconds : o.retry_after_ms / 1000 ≡ 0
    no_seconds = omega arith
