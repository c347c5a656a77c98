-- ===== src/RateLimit/Startup.antt =====
-- When the server starts with its rate limits, and what then limits each scope.
use rust_api_boilerplate.Prelude.{
  ℕ, ◌≡◌, ◌&&◌, Bool, true, false, Option, [], ◌∷◌, String, Result, ok, err, refl, inl, inr, is_ok,
  is_some, Option-cases, Bool-cases, Result-cases, text_eq, ◌==◌, arith, sym, subst,
}
use rust_api_boilerplate.Map
use rust_api_boilerplate.Map.{Map, get-insert}
use rust_api_boilerplate.Config.{WebSocketConfig}
use rust_api_boilerplate.RateLimit.{
  RateLimitRuleConfig, RateLimitConfig, RateLimitRegistry, compile, from_config, governor,
  condition, configure, start_up,
}

module _ {Limiter : Type 0} (finish : ℕ → ℕ → Option Limiter) where
  -- The builder takes every rule.
  abbrev pub all_valid : Map String RateLimitRuleConfig → Bool
  all_valid [] = true
  all_valid ((name, rule) ∷ rules) =
      is_some (finish rule.seconds_per_request rule.burst_size) && all_valid rules

  -- The compiled rules have the names of the rules.
  abbrev Compiled : Map String RateLimitRuleConfig → Result String (Map String Limiter) → Type 0
  Compiled rules (ok compiled) =
      (all_valid rules ≡ true)
      × ((name : String) → is_some (Map.get name compiled) ≡ is_some (Map.get name rules))
  Compiled rules (err e) = all_valid rules ≡ false

  named_insert :
      (name other : String) (limiter : Limiter) (rule : RateLimitRuleConfig)
      (compiled : Map String Limiter) (rules : Map String RateLimitRuleConfig)
      → is_some (Map.get other compiled) ≡ is_some (Map.get other rules)
      → is_some (Map.get other (Map.insert name limiter compiled))
        ≡ is_some (Map.get other ((name, rule) ∷ rules))
  unfolding Map.get
  named_insert name other limiter rule compiled rules h = elim (Bool-cases (name == other)) [
    | inl e ↦ rw (get-insert name other limiter compiled, e) refl
    | inr e ↦ rw (get-insert name other limiter compiled, e) h
  ]

  compile-Compiled :
      (rules : Map String RateLimitRuleConfig) → Compiled rules (compile finish rules)
  unfolding compile Map.get
  compile-Compiled [] = (refl, λ name. refl)
  compile-Compiled ((name, rule) ∷ rules) =
      elim (Option-cases (finish rule.seconds_per_request rule.burst_size)) [
        | inl f ↦ rw (f, Compiled) (ground (arith, f))
        | inr (limiter, f) ↦ elim (Result-cases (compile finish rules)) [
          | inr (e, c) ↦
              let v = subst (Compiled rules) c (compile-Compiled rules) in
              rw (f, c, Compiled) (ground (arith, f, v))
          | inl (compiled, c) ↦
              let (v, n) = subst (Compiled rules) c (compile-Compiled rules) in
              rw (f, c, Compiled)
                (
                  ground (arith, f, v),
                  λ other. named_insert name other limiter rule compiled rules (n other),
                )
        ]
      ]

  is_ok-configure :
      (registry : RateLimitRegistry Limiter) (websocket : WebSocketConfig)
      → is_ok (configure registry websocket)
        ≡ (is_some (Map.get "auth" registry.rules) && is_some (Map.get "default" registry.rules))
  unfolding configure condition governor
  is_ok-configure registry websocket = elim (Option-cases (Map.get "auth" registry.rules)) [
    | inl a ↦ rw (configure, condition, governor, a) refl
    | inr (l, a) ↦ elim (Option-cases (Map.get "default" registry.rules)) [
      | inl d ↦ rw (configure, condition, governor, a, d) refl
      | inr (m, d) ↦ elim (Bool-cases websocket.enabled) [
        | inl w ↦ rw (configure, condition, governor, a, w, d) refl
        | inr w ↦ rw (configure, condition, governor, a, w, d) refl
      ]
    ]
  ]

  pub is_ok-start_up :
      (cfg : RateLimitConfig) (websocket : WebSocketConfig)
      → is_ok (start_up finish cfg websocket) ≡ (
          all_valid cfg.rules
          && (is_some (Map.get "auth" cfg.rules) && is_some (Map.get "default" cfg.rules)))
  unfolding start_up from_config
  is_ok-start_up cfg websocket = elim (Result-cases (compile finish cfg.rules)) [
    | inr (e, c) ↦
        rw (start_up, from_config, c, subst (Compiled cfg.rules) c (compile-Compiled cfg.rules))
          refl
    | inl (compiled, c) ↦
        let (v, n) = subst (Compiled cfg.rules) c (compile-Compiled cfg.rules) in
        let registry : RateLimitRegistry Limiter = record {
          rules = compiled;
          enabled = cfg.enabled;
        } in
        rw (start_up, from_config, c, v, sym (n "auth"), sym (n "default"))
          (is_ok-configure registry websocket)
  ]
