-- ===== src/Notifications/Tests.antt =====
-- Dispatches of a concrete notification (notifications/dispatch.py).
use django_core_micha.Notifications.Dispatch.Channels.{
  recipient_language_supported, push_hides_body, dispatch_channel_once,
}
use django_core_micha.Base.{
  ◌≡◌, refl, ◌≢◌, ◌⊎◌, ℕ, suc, true, false, none, some, [], arith, String, Bool, eq_iff,
  if◌then◌else◌, ltb,
}
use django_core_micha.Notifications.Dispatch.{
  Attempt, Content, Recipient, Texts, Message, sent, failed, pending, delivered, push_channel,
  dispatch, dispatch_channel, recipient_language, message, attempts, get_dispatcher,
}
use django_core_micha.Notifications.Dispatch.Retry.{IsRun, dispatch-IsRun}

-- A transport that counts its calls, and fails for a while.
abbrev flaky : ℕ → Attempt × ℕ
flaky calls = (
  delivered (record { ok = if ltb calls 2 then failed else sent; error = none; retryable = true }),
  suc calls,
)

-- The third attempt succeeds.
third_time : dispatch (some flaky) 0 ≡ (sent, 3)
unfolding dispatch attempts
third_time = refl

dispatch-IsRun_example :
    (k : ℕ) × IsRun flaky 3 k 0 (dispatch (some flaky) 0).0 (dispatch (some flaky) 0).1
dispatch-IsRun_example = dispatch-IsRun flaky 0

-- No text is registered, and a template is its own rendering.
abbrev raw_texts : Texts
raw_texts = record { resolve = λ key language. none; format = λ template params. some template }

abbrev hello : Content
hello = record {
  title_key = "hello";
  body_key = "private";
  hidden_body_key = some "new message";
  params = none;
  link = none;
}

abbrev reader : Recipient
reader = record { contact_profile = none; profile = none; push_preview_opt_in = some false }

abbrev count_calls : Message → ℕ → Bool × ℕ
count_calls m calls = (false, suc calls)

dispatch_channel_once_case :
    dispatch_channel raw_texts count_calls "push" hello reader [] 0 ≡ elim (get_dispatcher "push") [
      | none ↦ (failed, 0)
      | some channel ↦ elim (message raw_texts channel hello reader []) [
        | none ↦ (pending, 0)
        | some m ↦ let (returned, s') = count_calls m 0 in (if returned then sent else failed, s')
      ]
    ]
dispatch_channel_once_case = dispatch_channel_once raw_texts hello reader [] count_calls "push" 0

recipient_language_supported_case :
    let l = recipient_language true reader in (l ≡ "de") ⊎ (l ≡ "en") ⊎ (l ≡ "fr")
recipient_language_supported_case = recipient_language_supported true reader

hidden_given : ◌≢◌ {A = String} "new message" ""
hidden_given e = ground (arith, eq_iff "new message" "")

push_hides_body_example :
    message raw_texts push_channel (record hello { body_key = "other" }) reader []
    ≡ message raw_texts push_channel hello reader []
push_hides_body_example =
    push_hides_body raw_texts hello reader [] "new message" "other" refl refl hidden_given
