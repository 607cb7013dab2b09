-- ===== src/Auth/WsPermissions.antt =====
-- `BaseSecureConsumer.connect` of src/django_core_micha/auth/ws_permissions.py, as the frames that
-- the consumer sends. Each permission class is read through what its check does.
pub mod Connect
use django_core_micha.Base.{
  ℕ, Bool, true, false, not, ◌&&◌, Option, none, some, List, [], ◌∷◌, if◌then◌else◌,
}
use django_core_micha.Auth.Roles.{User}

-- The check of one permission class: it grants, refuses, or raises.
pub data Check : Type 0 where
  granted refused raised : Check

pub data Frame : Type 0 where
  accept : Frame
  close : ℕ → Frame

-- `post_connect` returns, or raises.
pub data Setup : Type 0 where
  set_up setup_raised : Setup

abbrev pub is_auth : Option User → Bool
is_auth none = false
is_auth (some u) = u.is_authenticated

-- A check that raises counts as a refusal.
abbrev pub grants : Check → Bool
grants granted = true
grants refused = false
grants raised = false

unfoldable pub run_checks : List Check → Setup → List Frame
run_checks [] set_up = accept ∷ []
run_checks [] setup_raised = accept ∷ close 1011 ∷ []
run_checks (c ∷ checks) after =
    let rest = run_checks checks after in if not (grants c) then close 4403 ∷ [] else rest

unfoldable pub connect : Bool → Option User → List Check → Setup → List Frame
connect allowed_for_anonymous user checks after =
    if not allowed_for_anonymous && not (is_auth user)
    then close 4401 ∷ []
    else run_checks checks after

-- `IsAuthenticatedWs` and `IsSuperuserWs`
unfoldable pub is_authenticated_ws : Option User → Check
is_authenticated_ws u = if is_auth u then granted else refused

unfoldable pub is_superuser_ws : Option User → Check
is_superuser_ws none = refused
is_superuser_ws (some u) = if u.is_authenticated && u.is_superuser then granted else refused

-- `IsObjectOwnerWs`, over the consumer's hooks: the object, and whether the user owns it.
unfoldable pub is_object_owner_ws {ℓ} : {A : Type ℓ} → Option User → Option A → (A → Check) → Check
is_object_owner_ws u object owns =
    if not (is_auth u) then refused else elim object [ none ↦ refused | some a ↦ owns a ]
