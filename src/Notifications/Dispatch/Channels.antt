-- ===== src/Notifications/Dispatch/Channels.antt =====
-- What the built-in dispatchers send (notifications/dispatch.py).
use django_core_micha.Notifications.Dispatch.Retry.{attempts_final}
use django_core_micha.Base.{
  String, Bool, false, none, some, List, ◌≡◌, refl, ◌≢◌, ◌⊎◌, if◌then◌else◌, arith, eq_iff, str_eq,
  ◌∙◌, Option,
}
use django_core_micha.Notifications.Dispatch.{
  Message, Status, sent, failed, pending, Content, Recipient, Texts, Channel, push_channel,
  get_dispatcher, message, deliver, dispatch, dispatch_channel, push_content, push_preview_enabled,
  recipient_language, language_of, is_transient, verdict, chosen_profile, dispatcher_of,
}

-- The rendered language is one of the three that are supported.
pub recipient_language_supported :
    (fallback : Bool) (u : Recipient)
    → let l = recipient_language fallback u in (l ≡ "de") ⊎ (l ≡ "en") ⊎ (l ≡ "fr")
unfolding recipient_language
recipient_language_supported fallback u = ground (
  arith,
  eq_iff (language_of (chosen_profile fallback u)) "de",
  eq_iff (language_of (chosen_profile fallback u)) "en",
  eq_iff (language_of (chosen_profile fallback u)) "fr",
)

module _ (texts : Texts) (c : Content) (u : Recipient) (ctx : List (String × String)) where
  not_transient :
      {S : Type 0} (send : Message → S → Bool × S) (channel : Channel) (s : S)
      → is_transient (deliver texts send channel c u ctx s).0 ≡ false
  unfolding deliver
  not_transient send channel s = ground arith

  outcome :
      {S : Type 0} (send : Message → S → Bool × S) (channel : Channel) (s : S)
      → ◌≡◌ {A = Status × S}
          (
            verdict (deliver texts send channel c u ctx s).0,
            (deliver texts send channel c u ctx s).1,
          )
          (elim (message texts channel c u ctx) [
            | none ↦ (pending, s)
            | some m ↦ let (returned, s') = send m s in (if returned then sent else failed, s')
          ])
  unfolding deliver
  outcome send channel s = ground arith

  dispatch_once :
      {S : Type 0} (send : Message → S → Bool × S) (channel : Channel) (s : S)
      → dispatch (some (deliver texts send channel c u ctx)) s
        ≡ elim (message texts channel c u ctx) [
          | none ↦ (pending, s)
          | some m ↦ let (returned, s') = send m s in (if returned then sent else failed, s')
        ]
  unfolding dispatch
  dispatch_once send channel s =
      attempts_final (deliver texts send channel c u ctx) 2 s (not_transient send channel s)
      ∙ outcome send channel s

  dispatch_found :
      {S : Type 0} (send : Message → S → Bool × S) (found : Option Channel) (s : S)
      → dispatch (dispatcher_of texts send found c u ctx) s ≡ elim found [
        | none ↦ (failed, s)
        | some channel ↦ elim (message texts channel c u ctx) [
          | none ↦ (pending, s)
          | some m ↦ let (returned, s') = send m s in (if returned then sent else failed, s')
        ]
      ]
  unfolding dispatch
  dispatch_found send none s = refl
  dispatch_found send (some channel) s = dispatch_once send channel s

  -- A dispatch by a channel's name fails for an unknown name, is pending where the channel has nothing to send, and
  -- otherwise calls the transport exactly once, whatever it answers: no built-in dispatcher asks
  -- for a retry.
  pub dispatch_channel_once :
      {S : Type 0} (send : Message → S → Bool × S) (name : String) (s : S)
      → dispatch_channel texts send name c u ctx s ≡ elim (get_dispatcher name) [
        | none ↦ (failed, s)
        | some channel ↦ elim (message texts channel c u ctx) [
          | none ↦ (pending, s)
          | some m ↦ let (returned, s') = send m s in (if returned then sent else failed, s')
        ]
      ]
  unfolding dispatch_channel
  dispatch_channel_once send name s = dispatch_found send (get_dispatcher name) s

  push_content_hidden :
      (content : Content) (k : String)
      → u.push_preview_opt_in ≡ some false
      → content.hidden_body_key ≡ some k
      → str_eq k "" ≡ false
      → push_content texts content u ≡ record content { body_key = k }
  unfolding push_content push_preview_enabled
  push_content_hidden content k off hidden given = rw (hidden, given, off) refl

  -- Where the recipient has turned previews off and the content has a hidden body that is not
  -- empty, the push message does not depend on the body's key.
  pub push_hides_body :
      (k body : String)
      → u.push_preview_opt_in ≡ some false
      → c.hidden_body_key ≡ some k
      → k ≢ ""
      → message texts push_channel (record c { body_key = body }) u ctx
        ≡ message texts push_channel c u ctx
  unfolding message
  push_hides_body k body off hidden given =
      let kept : str_eq k "" ≡ false = ground (arith, eq_iff k "") in
      rw (
        push_content_hidden (record c { body_key = body }) k off hidden kept,
        push_content_hidden c k off hidden kept,
      )
