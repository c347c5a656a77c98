-- ===== src/Ws/Session/Teardown.antt =====
-- The end of a session, and what is left of its connection.
use rust_api_boilerplate.Prelude.{
  ℕ, ◌*◌, ◌-◌, Bool, true, false, Option, none, some, List, [], ◌∷◌, ltb, max, ◌≡◌, refl, ◌||◌,
  is_some, arith, Bool-cases, Result-cases, inl, inr, All, nat_eq, nat_beq_iff, ◌⊎◌,
}
use rust_api_boilerplate.Map
use rust_api_boilerplate.Config.{WebSocketConfig}
use rust_api_boilerplate.Ws.Message.{Uuid, ServerMessage}
use rust_api_boilerplate.Ws.Hub.{WsHub, unregister}
use rust_api_boilerplate.Ws.Hub.Relation.{get-unregister}
use rust_api_boilerplate.Ws.Policy.{WsContext, WsPolicy}
use rust_api_boilerplate.Ws.Session.{
  Codec, Event, outbound, ended, failed, inbound, tick, elsewhere, AggregatedMessage, Session,
  Control, continue, break, CloseReason, on_message, turn, loop, finish, run, send, millis, Write,
}

absent-unregister : (id : Uuid) (h : WsHub) → Map.get id (unregister id h).connections ≡ none
absent-unregister id h = ground (arith, get-unregister id id h, nat_beq_iff id id)

-- The events that end a session whatever its state.
abbrev pub is_final : Event → Bool
is_final (outbound none written) = true
is_final ended = true
is_final (failed e) = true
is_final (inbound (AggregatedMessage.close r) now a) = true
is_final _ = false

-- The client says nothing in the event.
abbrev pub is_silent : Event → Bool
is_silent (inbound m now a) = false
is_silent _ = true

abbrev pub any : {A : Type 0} → (A → Bool) → List A → Bool
any p [] = false
any p (x ∷ xs) = p x || any p xs

module _ {Value : Type 0} (codec : Codec Value) (policy : WsPolicy Value) (config : WebSocketConfig)
    (ctx : WsContext) where
  -- A tick that finds the client idle for longer than the timeout.
  abbrev pub is_overdue : ℕ → Event → Bool
  is_overdue last_seen (tick now written) =
      ltb (max config.client_timeout_seconds 1 * 1000) (now - last_seen)
  is_overdue last_seen _ = false

  final_breaks :
      (e : Event) (s : Session) (es : List Event)
      → is_final e ≡ true
      → is_some (loop codec policy config ctx (e ∷ es) s) ≡ true
  unfolding loop turn on_message
  final_breaks (outbound none written) s es h = refl
  final_breaks ended s es h = refl
  final_breaks (failed e) s es h = refl
  final_breaks (inbound (AggregatedMessage.close r) now a) s es h = refl
  final_breaks _ s es h = cc

  Control-cases :
      (c : Control)
      → ((s : Session) × (c ≡ continue s))
        ⊎ ((r : Option CloseReason) × (s : Session) × (c ≡ break r s))
  Control-cases (continue s) = inl (s, refl)
  Control-cases (break r s) = inr (r, s, refl)

  -- The loop ends at the latest at the first final event.
  loop_ends :
      (es : List Event) (s : Session)
      → any is_final es ≡ true
      → is_some (loop codec policy config ctx es s) ≡ true
  unfolding loop
  loop_ends [] s h = cc
  loop_ends (e ∷ es) s h = elim (Bool-cases (is_final e)) [
    | inl f ↦ final_breaks e s es f
    | inr f ↦ elim (Control-cases (turn codec policy config ctx e s)) [
      | inl (s', q) ↦ rw (q, loop) (loop_ends es s' (ground arith))
      | inr (r, s', q) ↦ rw (q, loop)
    ]
  ]

  silent_keeps :
      (e : Event) (s s' : Session)
      → is_silent e ≡ true
      → turn codec policy config ctx e s ≡ continue s'
      → (is_overdue s.last_seen e ≡ false) × (s'.last_seen ≡ s.last_seen)
  unfolding turn millis
  silent_keeps (outbound (some f) w) s s' h q = ground arith
  silent_keeps (tick now w) s s' h q = ground arith
  silent_keeps (elsewhere f) s s' h q = ground arith
  silent_keeps _ s s' h q = cc

  -- A client that falls silent is reaped: the loop ends at the latest at the first tick that comes
  -- more than the timeout after the client was last heard.
  pub loop_reaps :
      (es : List Event) (s : Session)
      → All (λ e. is_silent e ≡ true) es
      → any (is_overdue s.last_seen) es ≡ true
      → is_some (loop codec policy config ctx es s) ≡ true
  unfolding loop
  loop_reaps [] s quiet late = cc
  loop_reaps (e ∷ es) s quiet late = elim (Control-cases (turn codec policy config ctx e s)) [
    | inl (s', q) ↦
        let k = silent_keeps e s s' quiet.0 q in
        rw (q, loop) (loop_reaps es s' quiet.1 (rw k.1 (ground (arith, k.0))))
    | inr (r, s', q) ↦ rw (q, loop)
  ]

  -- A session that ended has left the hub.
  abbrev pub IsGone : Option Session → Type 0
  IsGone none = Unit
  IsGone (some s) = Map.get ctx.connection_id s.hub.connections ≡ none

  finish-IsGone :
      ((h : WsHub) → policy.on_disconnect ctx h ≡ h)
      → (o : Option (Option CloseReason × Session)) → IsGone (finish codec policy config ctx o)
  unfolding finish
  finish-IsGone logs_only none = tt
  finish-IsGone logs_only (some (r, s)) =
      rw (logs_only (unregister ctx.connection_id s.hub))
        (absent-unregister ctx.connection_id s.hub)

  finish_some :
      (o : Option (Option CloseReason × Session))
      → is_some (finish codec policy config ctx o) ≡ is_some o
  unfolding finish
  finish_some none = refl
  finish_some (some (r, s)) = refl

  -- Whichever way a session ends, its connection is out of the hub: the policy's veto, a welcome
  -- that cannot be written, an eviction, a protocol error, a timeout or a close frame. And it does
  -- end, at the latest at the first event that is final.
  pub run-IsGone :
      (logs_only : (h : WsHub) → policy.on_disconnect ctx h ≡ h) (now : ℕ) (welcomed : Bool)
      (es : List Event) (h : WsHub)
      → any is_final es ≡ true
      → (is_some (run codec policy config ctx now welcomed es h) ≡ true)
        × IsGone (run codec policy config ctx now welcomed es h)
  unfolding run finish
  run-IsGone logs_only now welcomed es h f = elim (Result-cases (policy.on_connect ctx h).1) [
    | inr (reason, e) ↦ rw (e, run) (refl, absent-unregister ctx.connection_id _)
    | inl (_, e) ↦
        rw (e, run)
          (elim (Bool-cases (greeting.0)) [
            | inl q ↦ rw q (rw (finish_some _) (loop_ends es _ f), finish-IsGone logs_only _)
            | inr q ↦ rw q (refl, absent-unregister ctx.connection_id _)
          ])
  ]
    where
      greeting : Bool × List Write
      greeting =
          send codec welcomed
            (ServerMessage.welcome ctx.connection_id ctx.user_id config.heartbeat_interval_seconds)
