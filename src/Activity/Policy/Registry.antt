-- ===== src/Activity/Policy/Registry.antt =====
-- What the registry of read policies guarantees (activity/policy.py and activity/services.py).
use django_core_micha.Base.{
  ℕ, String, true, Option, none, some, List, [], ◌∷◌, ◌≡◌, arith, lookup, eq_iff, ◌⊎◌,
}
use django_core_micha.Activity.Policy.{
  store, register_activity_policy, get_activity_policy, query_activity, answered, ActivityBucket,
  Bool,
}

-- Registrations in this order, whether or not they are refused.
unfoldable pub register_all : List (String × ℕ) → List (String × ℕ) → List (String × ℕ)
register_all [] policies = policies
register_all ((k, p) ∷ calls) policies =
    register_all calls (register_activity_policy k p policies).1

lookup-store :
    (k j : String) (p q : ℕ) (policies : List (String × ℕ))
    → (lookup j policies ≡ none) ⊎ (lookup j policies ≡ some p)
    → lookup k policies ≡ some q
    → lookup k (store j p policies) ≡ some q
unfolding store
lookup-store k j p q [] o h = cc
lookup-store k j p q ((i, r) ∷ policies) o h =
    ground (arith, eq_iff i j, eq_iff i k, lookup-store k j p q policies)

register-keeps :
    (k j : String) (p q : ℕ) (policies : List (String × ℕ))
    → get_activity_policy k policies ≡ some q
    → get_activity_policy k (register_activity_policy j p policies).1 ≡ some q
unfolding get_activity_policy register_activity_policy
register-keeps k j p q policies h = ground (arith, lookup-store k j p q policies)

-- A policy that is registered stays registered for its key, whatever registrations follow.
pub register_all-keeps :
    (calls : List (String × ℕ)) (k : String) (q : ℕ) (policies : List (String × ℕ))
    → get_activity_policy k policies ≡ some q
    → get_activity_policy k (register_all calls policies) ≡ some q
unfolding register_all
register_all-keeps [] k q policies h = h
register_all-keeps ((j, p) ∷ calls) k q policies h =
    register_all-keeps calls k q _ (register-keeps k j p q policies h)

-- Activity is answered only where a policy is registered for the app and lets this actor read.
pub query_activity_answered :
    (can_read : ℕ → Bool) (app_key : String) (content_type : Option ℕ)
    (object_id range_key : String) (anchor : Option ℕ) (now : ℕ) (policies : List (String × ℕ))
    (rows found : List ActivityBucket) (granularity : String)
    → query_activity can_read app_key content_type object_id range_key anchor now policies rows
      ≡ answered found granularity
    → (p : ℕ) × (get_activity_policy app_key policies ≡ some p) × (can_read p ≡ true)
unfolding query_activity
query_activity_answered can_read app_key ct object_id range_key anchor now policies rows found g h =
    ground arith
