-- ===== src/Ws/Policy/Access.antt =====
-- Who may subscribe to what under the application's policy.
use Prim.Native.String.{◌++◌}
use text.Mathlib.TextLemmas.{cons-append}
use rust_api_boilerplate.Prelude.{
  Bool, true, false, Option, none, some, String, is_some, is_ok, ◌==◌, nat_eq, ◌≡◌, refl, inl, inr,
  arith, Option-cases, ◌&&◌, ◌||◌, not,
}
use rust_api_boilerplate.Text.{strip_prefix, starts_with, is_empty, strip_prefix-append}
use rust_api_boilerplate.Ws.Message.{Uuid}
use rust_api_boilerplate.Ws.Policy.{
  WsContext, is_authenticated, own_topic, authorize_user_topic, authorize_subscribe, public_prefix,
  user_prefix,
}

-- The text that `format!("{USER_PREFIX}{user_id}")` gives is no public topic and not empty.
user_topic_prefix :
    (s : String)
    → (starts_with public_prefix (user_prefix ++ s) ≡ false) × (is_empty (user_prefix ++ s) ≡ false)
unfolding starts_with strip_prefix is_empty
user_topic_prefix s = rw cons-append (refl, refl)

-- Whether the caller is the owner of the id that a topic carries.
abbrev pub is_owner : Option Uuid → Option Uuid → Bool
is_owner none owner = false
is_owner (some caller) none = false
is_owner (some caller) (some id) = id == caller

public_not_empty :
    (topic : String) → starts_with public_prefix topic ≡ true → is_empty topic ≡ false
unfolding starts_with strip_prefix is_empty
public_not_empty String.[] h = cc
public_not_empty (String.◌∷◌ c s) h = refl

module _ (parse_str : String → Option Uuid) where
  user_topic_owner :
      (caller : Option Uuid) (raw : String)
      → is_ok (authorize_user_topic parse_str caller raw) ≡ is_owner caller (parse_str raw)
  unfolding authorize_user_topic own_topic
  user_topic_owner caller raw = ground arith

  -- A user topic is open to the user whose id it carries, and to nobody else: another user, an
  -- anonymous connection, and a topic whose id cannot be parsed are refused.
  pub user_topic_private :
      (ctx : WsContext) (raw : String)
      → is_ok (authorize_subscribe parse_str ctx (user_prefix ++ raw))
        ≡ is_owner ctx.user_id (parse_str raw)
  unfolding authorize_subscribe
  user_topic_private ctx raw =
      let p = user_topic_prefix raw in
      rw (p.1, p.0, strip_prefix-append user_prefix raw) (user_topic_owner ctx.user_id raw)

  -- The policy's table, for every topic: the empty one is refused, a public one is open, a user
  -- topic is its owner's, and any other is open to whoever is signed in.
  pub authorize_subscribe_table :
      (ctx : WsContext) (topic : String)
      → is_ok (authorize_subscribe parse_str ctx topic) ≡ (
          not (is_empty topic)
          && (starts_with public_prefix topic || elim (strip_prefix user_prefix topic) [
            | some raw ↦ is_owner ctx.user_id (parse_str raw)
            | none ↦ is_some ctx.user_id
          ]))
  unfolding authorize_subscribe is_authenticated
  authorize_subscribe_table ctx topic = elim (Option-cases (strip_prefix user_prefix topic)) [
    | inl e ↦ rw (e, authorize_subscribe) (ground arith)
    | inr (raw, e) ↦ rw (e, authorize_subscribe) (ground (arith, user_topic_owner ctx.user_id raw))
  ]

  -- An anonymous connection gets public topics alone, so it never learns a user's events.
  pub anonymous_public :
      (ctx : WsContext) (topic : String)
      → ctx.user_id ≡ none
      → is_ok (authorize_subscribe parse_str ctx topic) ≡ starts_with public_prefix topic
  unfolding authorize_subscribe is_authenticated authorize_user_topic
  anonymous_public ctx topic e = ground (arith, public_not_empty topic)
