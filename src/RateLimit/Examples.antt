-- ===== src/RateLimit/Examples.antt =====
-- The theorem on the start-up, at the rules of config/default.yaml and a builder that refuses 0.
use rust_api_boilerplate.Prelude.{
  ℕ, ◌≡◌, ◌&&◌, true, Option, none, some, [], ◌∷◌, is_ok, is_some, ◌==◌, ◌*◌, nat_eq, text_eq,
  if◌then◌else◌,
}
use rust_api_boilerplate.Map
use rust_api_boilerplate.Config.{default_websocket}
use rust_api_boilerplate.RateLimit.{RateLimitConfig, start_up}
use rust_api_boilerplate.RateLimit.Startup.{all_valid, is_ok-start_up}

abbrev finish : ℕ → ℕ → Option (ℕ × ℕ)
finish seconds burst = if seconds * burst == 0 then none else some (seconds, burst)

abbrev config : RateLimitConfig
config = record {
  enabled = true;
  rules =
      ("auth", record { seconds_per_request = 20; burst_size = 5 })
      ∷ ("default", record { seconds_per_request = 1; burst_size = 60 })
      ∷ [];
}

is_ok-start_up_example : is_ok (start_up finish config default_websocket) ≡ (
    all_valid finish config.rules
    && (is_some (Map.get "auth" config.rules) && is_some (Map.get "default" config.rules)))
is_ok-start_up_example = is_ok-start_up finish config default_websocket
