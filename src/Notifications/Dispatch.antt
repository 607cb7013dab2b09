-- ===== src/Notifications/Dispatch.antt =====
-- The channel dispatchers of src/django_core_micha/notifications/dispatch.py. The translations, the
-- text format and the transport (sockets, mail and push) are parameters; the transport's state is
-- passed on from call to call.
pub mod Retry
pub mod Channels
use django_core_micha.Base.{
  ℕ, zero, suc, String, Bool, true, false, not, ◌&&◌, ◌||◌, Option, none, some, List, [], ◌∷◌, ◌++◌,
  if◌then◌else◌, str_eq,
}

-- `DeliveryResult.ok`: True, False, and None.
pub data Status : Type 0 where
  sent failed pending : Status

pub record DeliveryResult : Type 0 where
  pub ok : Status
  pub error : Option String
  pub retryable : Bool

-- What a call of `deliver` gives: a result, or an exception.
pub data Attempt : Type 0 where
  delivered : DeliveryResult → Attempt
  raised : Attempt

-- `result.ok is not False or not result.retryable` does not hold.
abbrev pub is_transient : Attempt → Bool
is_transient raised = false
is_transient (delivered r) = elim r.ok [ sent ↦ false | failed ↦ r.retryable | pending ↦ false ]

-- What `dispatch` returns for an attempt that is not repeated.
abbrev pub verdict : Attempt → Status
verdict raised = failed
verdict (delivered r) = r.ok

abbrev pub max_delivery_attempts : ℕ
max_delivery_attempts = 3

module _ {S : Type 0} where
  -- The loop of `dispatch`, with so many attempts left.
  unfoldable pub attempts : (S → Attempt × S) → ℕ → S → Status × S
  attempts deliver zero s = (failed, s)
  attempts deliver (suc n) s =
      let (a, s') = deliver s in
      let rest = attempts deliver n s' in if is_transient a then rest else (verdict a, s')

  -- `dispatch`, by the dispatcher that was looked up.
  unfoldable pub dispatch : Option (S → Attempt × S) → S → Status × S
  dispatch none s = (failed, s)
  dispatch (some deliver) s = attempts deliver max_delivery_attempts s

-- A profile's language attribute, `none` where it has none.
pub record Profile : Type 0 where
  pub language : Option String

-- The recipient's user: the two profiles, and the stored push preference.
pub record Recipient : Type 0 where
  pub contact_profile : Option Profile
  pub profile : Option Profile
  pub push_preview_opt_in : Option Bool

abbrev pub chosen_profile : Bool → Recipient → Option Profile
chosen_profile app_profile_fallback u = elim u.contact_profile [
  | some p ↦ some p
  | none ↦ if app_profile_fallback then u.profile else none
]

-- `getattr(profile, "language", "de")`
abbrev pub language_of : Option Profile → String
language_of none = "de"
language_of (some p) = elim p.language [ none ↦ "de" | some l ↦ l ]

unfoldable pub recipient_language : Bool → Recipient → String
recipient_language app_profile_fallback u =
    let l = language_of (chosen_profile app_profile_fallback u) in
    if str_eq l "de" || str_eq l "en" || str_eq l "fr" then l else "de"

-- `_push_preview_enabled`
unfoldable pub push_preview_enabled : Recipient → Bool
push_preview_enabled u = elim u.push_preview_opt_in [ none ↦ true | some b ↦ b ]

-- A notification's content: missing keys are empty texts; `params` is `none` where it is no dict,
-- and `link` where it is no text.
pub record Content : Type 0 where
  pub title_key : String
  pub body_key : String
  pub hidden_body_key : Option String
  pub params : Option (List (String × String))
  pub link : Option String

-- What reaches the transport.
pub data Message : Type 0 where
  envelope : String → Content → Message  -- the channel and the content, to the user's sockets
  email : String → String → String → Message  -- title, body and link
  push : String → String → String → Message

pub data Channel : Type 0 where
  chip email_channel push_channel todo popup : Channel

-- `get_dispatcher`
unfoldable pub get_dispatcher : String → Option Channel
get_dispatcher channel =
    if str_eq channel "chip"
    then some chip
    else if str_eq channel "email"
    then some email_channel
    else if str_eq channel "push"
    then some push_channel
    else if str_eq channel "todo"
    then some todo
    else if str_eq channel "popup"
    then some popup
    else none

-- `resolve_notification_text`, by key and language, and `template.format(**params)`, `none` where
-- it raises. The later of two parameters of one name counts.
pub record Texts : Type 0 where
  pub resolve : String → String → Option String
  pub format : String → List (String × String) → Option String

module _ (texts : Texts) where
  open texts use {resolve, format}

  unfoldable pub resolve_text_key : String → String → List (String × String) → String
  resolve_text_key key language params =
      if str_eq key ""
      then ""
      else let template : String = elim (resolve key language) [ none ↦ key | some t ↦ t ] in
        elim (format template params) [ none ↦ key | some t ↦ t ]

  -- Title, body and link.
  unfoldable pub render_content :
      Content → Recipient → List (String × String) → Bool → String × String × String
  render_content c u transient app_profile_fallback =
      let params = elim c.params [ none ↦ [] | some p ↦ p ] ++ transient in
      let language = recipient_language app_profile_fallback u in
      (
        resolve_text_key c.title_key language params,
        resolve_text_key c.body_key language params,
        elim c.link [ none ↦ "" | some l ↦ l ],
      )

  -- `PushDispatcher.deliver`: the content with its hidden body, where the preview is off.
  unfoldable pub push_content : Content → Recipient → Content
  push_content c u = elim c.hidden_body_key [
    | none ↦ c
    | some k ↦
        if not (str_eq k "") && not (push_preview_enabled u) then record c { body_key = k } else c
  ]

  -- What each dispatcher sends; the todo channel sends nothing.
  unfoldable pub message : Channel → Content → Recipient → List (String × String) → Option Message
  message chip c u ctx = some (envelope "chip" c)
  message popup c u ctx = some (envelope "popup" c)
  message todo c u ctx = none
  message email_channel c u ctx =
      let (title, body, url) = render_content c u ctx true in some (email title body url)
  message push_channel c u ctx =
      let (title, body, url) = render_content (push_content c u) u ctx false in
      some (push title body url)

  -- `deliver`: the transport returns, or raises.
  unfoldable pub deliver :
      {S : Type 0}
      → (Message → S → Bool × S)
      → Channel
      → Content
      → Recipient
      → List (String × String)
      → S
      → Attempt × S
  deliver send channel c u ctx s = elim (message channel c u ctx) [
    | none ↦ (delivered (record { ok = pending; error = some "pending"; retryable = false }), s)
    | some m ↦
        let (returned, s') = send m s in
        (
          if returned
              then delivered (record { ok = sent; error = none; retryable = false })
              else raised,
          s',
        )
  ]

  -- The dispatcher of a channel, if there is one.
  abbrev pub dispatcher_of :
      {S : Type 0}
      → (Message → S → Bool × S)
      → Option Channel
      → Content
      → Recipient
      → List (String × String)
      → Option (S → Attempt × S)
  dispatcher_of send none c u ctx = none
  dispatcher_of send (some channel) c u ctx = some (deliver send channel c u ctx)

  -- `dispatch` by the name of a channel.
  unfoldable pub dispatch_channel :
      {S : Type 0}
      → (Message → S → Bool × S)
      → String
      → Content
      → Recipient
      → List (String × String)
      → S
      → Status × S
  dispatch_channel send name c u ctx = dispatch (dispatcher_of send (get_dispatcher name) c u ctx)
