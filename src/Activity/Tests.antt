-- ===== src/Activity/Tests.antt =====
-- Heartbeats and read policies on a concrete scope (activity/services.py and activity/policy.py).
use django_core_micha.Activity.Policy.Registry.{
  query_activity_answered, register_all, register_all-keeps,
}
use django_core_micha.Base.{◌≡◌, refl, ℕ, true, some, List, [], ◌∷◌, arith, String, ◌*◌, ◌+◌, ◌≤◌}
use django_core_micha.Activity.Presence.{
  Scope, ActivityBucket, second, record_ping, add_credit, latest_ping,
}
use django_core_micha.Activity.Presence.Bounds.{presence_bounded, total, ping_all, pings_of}
use django_core_micha.Activity.Policy.{
  answered, range_config, resolve_anchor, get_activity_policy, query_activity,
}

abbrev event_of : ℕ → Scope
event_of u = record { app_key = "camp"; content_type = 4; object_id = "17"; user = u }

-- The first ping of user 1, at second 100.
abbrev one_ping : List ActivityBucket
one_ping = record_ping 45 (event_of 1) (100 * second) []

first_ping : latest_ping (event_of 1) one_ping ≡ some (100 * second)
unfolding latest_ping record_ping add_credit
first_ping = refl

-- 30 seconds later, and after a long gap that is credited with 45 seconds.
abbrev two_more : List (Scope × ℕ)
two_more = (event_of 1, 130 * second) ∷ (event_of 2, 131 * second) ∷ (event_of 1, 900 * second) ∷ []

credited : total (event_of 1) (ping_all 45 two_more one_ping) ≡ 75
unfolding latest_ping record_ping add_credit total ping_all
credited = refl

presence_bounded_example :
    let rows' = ping_all 45 two_more one_ping in
    (last : ℕ) × (latest_ping (event_of 1) rows' ≡ some last)
    × (total (event_of 1) rows' * second + 100 * second
        ≤ total (event_of 1) one_ping * second + last)
    × (total (event_of 1) rows' ≤ total (event_of 1) one_ping + 45 * pings_of (event_of 1) two_more)
presence_bounded_example =
    presence_bounded 45 (event_of 1) (100 * second) two_more one_ping (100 * second) first_ping
      (omega arith) (omega arith, (omega arith, (omega arith, tt)))

abbrev registry : List (String × ℕ)
registry = ("camp", 5) ∷ []

camp_policy : get_activity_policy "camp" registry ≡ some 5
unfolding get_activity_policy
camp_policy = refl

-- Another policy for the same app is refused, one for another app is not.
register_all-keeps_example :
    get_activity_policy "camp" (register_all (("camp", 6) ∷ ("shop", 7) ∷ []) registry) ≡ some 5
register_all-keeps_example =
    register_all-keeps (("camp", 6) ∷ ("shop", 7) ∷ []) "camp" 5 registry camp_policy

answered_query :
    query_activity (λ p. true) "camp" (some 4) "17" "1d" (some 0) 0 registry [] ≡ answered [] "hour"
unfolding query_activity range_config get_activity_policy resolve_anchor
answered_query = refl

query_activity_answered_case :
    (p : ℕ) × (get_activity_policy "camp" registry ≡ some p) × (true ≡ true)
query_activity_answered_case =
    query_activity_answered (λ p. true) "camp" (some 4) "17" "1d" (some 0) 0 registry [] [] "hour"
      answered_query
