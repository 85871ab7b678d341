-- ===== src/Config/Defaults.antt =====
-- The defaults of the configuration (internal/config/config.go, `applyDefaults`).
use rusty_gateway.Common.{◌≡◌, refl, [], ◌∷◌, ◌&&◌, if◌then◌else◌, arith}
use rusty_gateway.Common.Int.{ℤ, pos, int_eq, int_ltb}
use rusty_gateway.Common.Text.{Text, codes, is_empty}
use rusty_gateway.Config.{Config, AuthConfig, apply_defaults, default_scopes, or_text, or_int}

or_text-twice : (s d : Text) → or_text (or_text s d) d ≡ or_text s d
or_text-twice [] d = ground arith
or_text-twice (c ∷ s) d = refl

or_int-twice : (n d : ℤ) → or_int (or_int n d) d ≡ or_int n d
or_int-twice n d = ground arith

default_scopes-twice :
    (a : AuthConfig) → default_scopes (record a { scopes = default_scopes a }) ≡ default_scopes a
unfolding default_scopes
default_scopes-twice a = ground arith

cooldown-twice :
    (f n : ℤ)
    → (if int_ltb (pos 0) f
          && int_eq (if int_ltb (pos 0) f && int_eq n (pos 0) then pos 30000000000 else n) (pos 0)
        then pos 30000000000
        else (if int_ltb (pos 0) f && int_eq n (pos 0) then pos 30000000000 else n))
      ≡ (if int_ltb (pos 0) f && int_eq n (pos 0) then pos 30000000000 else n)
cooldown-twice f n = ground arith

-- Applying the defaults a second time changes nothing, whatever the directory of a path is.
pub apply_defaults-twice :
    (dir : Text → Text) (c : Config)
    → apply_defaults dir (apply_defaults dir c) ≡ apply_defaults dir c
unfolding apply_defaults
apply_defaults-twice dir c =
    rw
      (
        or_text-twice c.server.listen (codes ":8080"),
        or_text-twice c.server.data_dir
            (if is_empty c.audit.path then codes "." else dir c.audit.path),
        or_int-twice c.audit.retention_days (pos 90),
        or_int-twice c.audit.max_payload_kb (pos 8),
        or_int-twice c.limits.call_timeout (pos 60000000000),
        default_scopes-twice c.auth,
        cooldown-twice c.breaker.failures c.breaker.cooldown,
      )
      refl
