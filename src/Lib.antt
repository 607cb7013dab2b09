-- ===== src/Lib.antt =====
-- A model of the core of django-core-micha (src/django_core_micha), a Django package of accounts,
-- permissions, billing, notifications and AI budgets, and theorems about it. The requests, tables
-- and caches of the package are values here: a table is the list of its rows, a transaction under a
-- row lock is one function from the old state to the new one, and an exception is a value of a result
-- type. Times are natural numbers and are passed in where the source reads the clock.
--
-- Files and the code they model:
--
-- - Base: library names, native lists, texts and signed amounts that the other files share.
-- - Auth.Roles, Auth.Access and Auth.Permissions (auth/roles.py, auth/access.py, auth/permissions.py):
--   role codes and levels, the administrative rights that follow from them, and the permission classes.
--   Permissions call Access, which calls Roles.
-- - Auth.Security (auth/security.py, `_admin_policy_satisfied` of auth/permissions.py): security levels
--   of a session, the memo of the admin policy on a request, which Permissions pass on, and in
--   Auth.Security.State what the client is shown.
-- - Auth.AdminMfa (auth/admin_mfa_middleware.py) and Auth.WsPermissions (auth/ws_permissions.py): the
--   gates in front of the admin and of WebSocket consumers.
-- - Auth.Policy, Auth.Policy.Signup and Auth.Policy.Pending (auth/policy.py): the registration policy,
--   e-mail domains, signup tokens with their use counter, and pending registrations.
-- - Billing.Ledger and Billing.Tokens (billing/models.py, billing/services.py): the token tables and
--   the operations on them, with `debit_tokens` as its account lookup, its retry check
--   (`debit_account`) and its locked part (`debit_fresh`).
-- - Billing.Refund and Billing.Withdrawal (billing/withdrawal.py): eligibility and refund, and the
--   effects of a withdrawal, on the same ledger.
-- - Billing.Contracts (billing/contracts.py): the refunds of a contract's payments, as transactions on
--   the tables of payments and refunds (`process_refund` is `begin_refund`, the call of Stripe, and
--   `settle_refund`); Billing.Contracts.Events has what Stripe reports of them
--   (`complete_contract_refund` and `reconcile_provider_refunds` of billing/stripe_service.py, and the
--   write of Stripe's total in `_perform_withdrawal` and `_allocate_refund`).
--   Billing.Contracts.Steps has all of these as steps of any process, and Billing.Contracts.Process has `process_refund` and `retry_refund` as a whole. Billing.Contracts.Term
--   has the withdrawal period and `_cancellation_effective`, on calendar dates.
-- - Assistant.Catalogue, Assistant.Model and Assistant.Turns (assistant/catalogue.py,
--   assistant/models.py, assistant/turns.py): the entries that an admin allows, and starting, beating,
--   ending and giving up a turn; Assistant.Turns.Steps has them as steps of any process. Ending a turn
--   prices it by Assistant.Prices (ai_prices.py), and Assistant.Limit (assistant/limit.py) sums these
--   costs for the limit that a start asks for. Assistant.Prompt (assistant/turns.py `run_turn`,
--   assistant/history.py) trims the history and repairs an answer.
-- - Messaging.Model and, on its tables, Messaging.Messages, Messaging.Reading, Messaging.Receipts,
--   Messaging.Polls, Messaging.Reactions, Messaging.Membership and Messaging.Conversations
--   (messaging/services.py, messaging/models.py, messaging/policy.py): an operation takes the app's
--   policy and gives its result or its refusal with the new tables, and the frames that it publishes
--   are appended to a list.
-- - Extraction.CostGuard (extraction/cost_guard.py): the operations on the cache. CostGuard.Race has
--   each call of the cache and of the clock as one step, so that admissions and settlements
--   interleave, calls of the cache fail and the counters of buckets expire; CostGuard.Race.Run ties
--   these steps to `reserve_user_budget`.
-- - Notifications.Dispatch (notifications/dispatch.py): rendering, channels and the retry loop.
-- - Activity.Presence and Activity.Policy (activity/services.py, activity/policy.py,
--   activity/models.py): heartbeats, the policy registry, and the checks of a query.
--
-- Paths above are below src/django_core_micha. Files named Tests hold examples on concrete values.
--
-- Bounds: `decimal`, the digits of a number, runs on one more than the number and so never runs out;
-- `attempts` on the source's own number of delivery attempts; `trim_loop` on one more than the length
-- of the history, of which each round leaves out a row or two; `search_end` on the months between the
-- two dates and two more. A `range` of buckets has the length that the source computes.
--
-- Parameters, since their code is not part of the package: the cache backend, Django's signing and
-- date parsing, `str.lower`, `str.format`, the outcomes of the URL resolver and of allauth's stores,
-- the answers of Stripe and of model providers, the hooks and policies of the app, the time zone, and
-- the transport of notifications. The size of a prompt is a parameter too, as it is that of
-- `json.dumps`.
--
-- Not modelled: views, serializers, settings and migrations, Stripe's API calls, mail texts, costs in
-- floating point, aggregation in the database, calendar arithmetic of todos, and the declarations of
-- contracts; nor the expiry of a day's settled counter, 26 hours after it was added, and calls that
-- outlive their reservation; nor pings of one scope at the same time.
-- Integers of the database are unbounded here, as they are in Python.
pub mod Base
pub mod Billing
pub mod Auth
pub mod Extraction
pub mod Notifications
pub mod Activity
pub mod Assistant
pub mod Messaging
