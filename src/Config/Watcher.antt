-- ===== src/Config/Watcher.antt =====
-- crates/gateway-config/src/hot_reload.rs: the current configuration and its reloads. The file and
-- serde_yaml are parameters: an error of theirs is its message.
use stateform.Prelude.{◌≡◌, refl, subst, List, [], ◌∷◌}
use stateform.Prelude.Text.{Str}
use stateform.Config.Schema.{GatewayConfig}
use stateform.Config.Validation.{Checked, ok, err, ConfigError, io, parse, validate}
use stateform.Http.{RegexApi}

-- What `read_to_string` and `from_str` give.
pub data Read (A : Type 0) : Type 0 where
  done : A → Read A
  failed : Str → Read A

pub data Loaded (A : Type 0) : Type 0 where
  loaded : A → Loaded A
  refused : ConfigError → Loaded A

pub record ConfigWatcher : Type 0 where
  pub inner : GatewayConfig
  -- What the channel of the subscribers holds.
  pub notified : GatewayConfig

module _ (x : RegexApi) (from_str : Str → Read GatewayConfig) where
  abbrev pub if_valid : Checked → GatewayConfig → Loaded GatewayConfig
  if_valid ok cfg = loaded cfg
  if_valid (err e) cfg = refused e

  unfoldable pub validated : Read GatewayConfig → Loaded GatewayConfig
  unfolding validate
  validated (failed e) = refused (parse e)
  validated (done cfg) = if_valid (validate x cfg) cfg

  -- From the text of the file.
  unfoldable pub parse_and_validate : Read Str → Loaded GatewayConfig
  unfolding validated
  parse_and_validate (failed e) = refused (io e)
  parse_and_validate (done raw) = validated (from_str raw)

  abbrev pub watching : Loaded GatewayConfig → Loaded ConfigWatcher
  watching (refused e) = refused e
  watching (loaded cfg) = loaded (record { inner = cfg; notified = cfg })

  unfoldable pub load : Read Str → Loaded ConfigWatcher
  unfolding parse_and_validate
  load file = watching (parse_and_validate file)

  abbrev pub current : ConfigWatcher → GatewayConfig
  current w = w.inner

  abbrev pub swap_in : ConfigWatcher → Loaded GatewayConfig → ConfigWatcher × Checked
  swap_in w (refused e) = (w, err e)
  swap_in w (loaded cfg) = (record { inner = cfg; notified = cfg }, ok)

  unfoldable pub reload : Read Str → ConfigWatcher → ConfigWatcher × Checked
  unfolding parse_and_validate
  reload file w = swap_in w (parse_and_validate file)

  -- One reload after the other.
  unfoldable pub reloads : List (Read Str) → ConfigWatcher → ConfigWatcher
  unfolding reload
  reloads [] w = w
  reloads (file ∷ files) w = reloads files (reload file w).0

  -- What every subscriber and every handler sees has passed the checks.
  abbrev pub Valid : ConfigWatcher → Type 0
  Valid w = (validate x w.inner ≡ ok) × (w.notified ≡ w.inner)

  parse_and_validate-ok :
      (file : Read Str) {cfg : GatewayConfig}
      → parse_and_validate file ≡ loaded cfg
      → validate x cfg ≡ ok
  unfolding parse_and_validate validated
  parse_and_validate-ok (failed e) h = absurd (cc)
  parse_and_validate-ok (done raw) {cfg} h = parsed (from_str raw) h
    where
      checked :
          (c : Checked) (found : GatewayConfig)
          → validate x found ≡ c
          → if_valid c found ≡ loaded cfg
          → validate x cfg ≡ ok
      checked ok found e h = let same : found ≡ cfg = cc in subst (λ k. validate x k ≡ ok) same e
      checked (err m) found e h = absurd (cc)

      parsed : (r : Read GatewayConfig) → validated r ≡ loaded cfg → validate x cfg ≡ ok
      parsed (failed e) h = absurd (cc)
      parsed (done found) h = checked (validate x found) found refl h

  reload-Valid : (file : Read Str) (w : ConfigWatcher) → Valid w → Valid (reload file w).0
  unfolding reload
  reload-Valid file w valid = go (parse_and_validate file) refl
    where
      go : (r : Loaded GatewayConfig) → parse_and_validate file ≡ r → Valid (swap_in w r).0
      go (refused e) h = valid
      go (loaded cfg) h = (parse_and_validate-ok file h, refl)

  reloads-stay : (files : List (Read Str)) (w : ConfigWatcher) → Valid w → Valid (reloads files w)
  unfolding reloads
  reloads-stay [] w valid = valid
  reloads-stay (file ∷ files) w valid =
      reloads-stay files (reload file w).0 (reload-Valid file w valid)

  -- After any sequence of reloads of a watcher that loaded, whether the files can be read,
  -- parsed and pass the checks or not, the current configuration is one that passes the checks,
  -- and the subscribers hold the same one.
  pub reloads-Valid :
      (file : Read Str) (files : List (Read Str)) (w : ConfigWatcher)
      → load file ≡ loaded w
      → Valid (reloads files w)
  unfolding load
  reloads-Valid file files w started =
      reloads-stay files w (go (parse_and_validate file) refl started)
    where
      go :
          (r : Loaded GatewayConfig) → parse_and_validate file ≡ r → watching r ≡ loaded w → Valid w
      go (refused e) h s = absurd (cc)
      go (loaded cfg) h s =
          let same : record { inner = cfg; notified = cfg } ≡ w = cc in
          subst Valid same (parse_and_validate-ok file h, refl)
