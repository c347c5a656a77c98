-- ===== src/RateLimit.antt =====
-- src/infra/rate_limit/registry.rs, and the scopes of src/app/http/router.rs that it limits.
--
-- A panic at start-up is an error. `finish` is the builder of the crate actix-governor, which makes
-- a limiter of the seconds for a request and the burst; the token bucket is the crate's.
pub mod Startup
mod Examples
use rust_api_boilerplate.Prelude.{
  ℕ, Bool, true, false, Option, none, some, List, [], ◌∷◌, String, Result, ok, err, ok_or, ◌>>=◌,
  text_eq, if◌then◌else◌,
}
use Prim.Native.String.{◌++◌ as str_append}
use rust_api_boilerplate.Map
use rust_api_boilerplate.Map.{Map}
use rust_api_boilerplate.Config.{WebSocketConfig}

pub record RateLimitRuleConfig : Type 0 where
  pub seconds_per_request : ℕ
  pub burst_size : ℕ

pub record RateLimitConfig : Type 0 where
  pub enabled : Bool
  pub rules : Map String RateLimitRuleConfig

pub record RateLimitRegistry (Limiter : Type 0) : Type 0 where
  pub rules : Map String Limiter
  pub enabled : Bool

-- `Condition` of actix_web: a middleware that may be switched off.
pub record Condition (Limiter : Type 0) : Type 0 where
  pub enabled : Bool
  pub limiter : Limiter

module _ {Limiter : Type 0} where
  -- The loop over the rules, which panics at a rule that the builder refuses.
  unfoldable pub compile :
      (ℕ → ℕ → Option Limiter) → Map String RateLimitRuleConfig → Result String (Map String Limiter)
  compile finish [] = ok []
  compile finish ((name, rule) ∷ rules) = do
    limiter ←
        ok_or (finish rule.seconds_per_request rule.burst_size)
          (str_append "Rate limit rule '" (str_append name "' is invalid"))
    rest ← compile finish rules
    ok (Map.insert name limiter rest)

  unfoldable pub from_config :
      (ℕ → ℕ → Option Limiter) → RateLimitConfig → Result String (RateLimitRegistry Limiter)
  from_config finish cfg = do
    rules ← compile finish cfg.rules
    ok (record { rules = rules; enabled = cfg.enabled })

  unfoldable pub governor : String → RateLimitRegistry Limiter → Result String Limiter
  governor name registry =
      ok_or (Map.get name registry.rules)
        (str_append "Rate limit rule '" (str_append name "' is not registered."))

  unfoldable pub condition : String → RateLimitRegistry Limiter → Result String (Condition Limiter)
  condition name registry = do
    limiter ← governor name registry
    ok (record { enabled = registry.enabled; limiter = limiter })

  -- The limited scopes that `configure` adds, with what limits each.
  unfoldable pub configure :
      RateLimitRegistry Limiter
      → WebSocketConfig
      → Result String (List (String × Condition Limiter))
  configure registry websocket = do
    auth ← condition "auth" registry
    users ← condition "default" registry
    ws ←
        (if websocket.enabled
          then (do c ← condition "default" registry; ok (("/api/ws", c) ∷ []))
          else ok [])
    ok (("/api/auth", auth) ∷ ("/api/users", users) ∷ ws)

  -- The start-up: the registry, and the routes.
  unfoldable pub start_up :
      (ℕ → ℕ → Option Limiter)
      → RateLimitConfig
      → WebSocketConfig
      → Result String (List (String × Condition Limiter))
  start_up finish cfg websocket = do registry ← from_config finish cfg; configure registry websocket
