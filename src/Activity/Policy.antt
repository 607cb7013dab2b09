-- ===== src/Activity/Policy.antt =====
-- The registry of read policies of src/django_core_micha/activity/policy.py, and the checks of
-- `query_activity` in activity/services.py. A policy object is a number, its identity.
pub mod Registry
use django_core_micha.Base.{
  ℕ, ◌-◌, ◌*◌, String, Bool, true, false, not, Option, none, some, List, [], ◌∷◌, if◌then◌else◌,
  ◌==◌, str_eq, lookup, strip, leb, ◌&&◌, select,
}
use django_core_micha.Activity.Presence.{
  Scope, ActivityBucket, second, floor_to_bucket_start, later, same_scope,
}

-- `_POLICIES[app_key] = policy`
unfoldable pub store : String → ℕ → List (String × ℕ) → List (String × ℕ)
store k p [] = (k, p) ∷ []
store k p ((j, q) ∷ policies) =
    let rest = store k p policies in if str_eq j k then (j, p) ∷ policies else (j, q) ∷ rest

-- `register_activity_policy`: whether it returns, and the registry.
unfoldable pub register_activity_policy : String → ℕ → List (String × ℕ) → Bool × List (String × ℕ)
register_activity_policy k p policies =
    if str_eq (strip k) "" then (false, policies) else elim (lookup k policies) [
      | none ↦ (true, store k p policies)
      | some q ↦ if not (q == p) then (false, policies) else (true, store k p policies)
    ]

-- `get_activity_policy`, `none` where it raises LookupError.
unfoldable pub get_activity_policy : String → List (String × ℕ) → Option ℕ
get_activity_policy k policies = lookup k policies

-- The content types of a scope's object, without its user.
abbrev pub same_object : String → ℕ → String → Scope → Bool
same_object app_key content_type object_id s =
    str_eq s.app_key app_key && s.content_type == content_type && str_eq s.object_id object_id

-- `resolve_anchor`: the given time, or the newest bucket, or now.
unfoldable pub newest_bucket : (Scope → Bool) → List ActivityBucket → Option ℕ
newest_bucket p [] = none
newest_bucket p (r ∷ rows) =
    let rest = newest_bucket p rows in if p r.scope then later (some r.bucket_start) rest else rest

unfoldable pub resolve_anchor : Option ℕ → (Scope → Bool) → ℕ → List ActivityBucket → ℕ
resolve_anchor (some t) p now rows = t
resolve_anchor none p now rows = elim (newest_bucket p rows) [ none ↦ now | some t ↦ t ]

-- RANGE_CONFIG: the window in days and the granularity.
unfoldable pub range_config : String → Option (ℕ × String)
range_config key =
    if str_eq key "1d"
    then some (1, "hour")
    else if str_eq key "1w"
    then some (7, "4hour")
    else if str_eq key "1m"
    then some (30, "day")
    else if str_eq key "1y"
    then some (365, "month")
    else none

pub data QueryResult : Type 0 where
  invalid denied : QueryResult
  -- the rows to aggregate, and the granularity
  answered : List ActivityBucket → String → QueryResult

-- Rows from `anchor - window` to the anchor.
abbrev pub in_window : ℕ → ℕ → ActivityBucket → Bool
in_window days anchor r =
    leb (anchor - days * (24 * 3600 * second)) r.bucket_start && leb r.bucket_start anchor

-- `query_activity` up to the aggregation. `content_type` is the resolved one, `none` where it is
-- unknown; `can_read` is the policy's answer for this actor and scope.
unfoldable pub query_activity :
    (ℕ → Bool)
    → String
    → Option ℕ
    → String
    → String
    → Option ℕ
    → ℕ
    → List (String × ℕ)
    → List ActivityBucket
    → QueryResult
query_activity can_read app_key content_type object_id range_key anchor now policies rows =
    elim (range_config range_key) [
      | none ↦ invalid
      | some config ↦ elim content_type [
        | none ↦ invalid
        | some ct ↦ elim (get_activity_policy app_key policies) [
          | none ↦ denied
          | some policy ↦
              if not (can_read policy)
              then denied
              else let p = same_object app_key ct object_id in
                let end = resolve_anchor anchor p now rows in
                answered (select (λ r. p r.scope && in_window config.0 end r) rows) config.1
        ]
      ]
    ]
