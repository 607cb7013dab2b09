-- ===== src/Auth/WsPermissions/Connect.antt =====
-- When a WebSocket connection is accepted (auth/ws_permissions.py).
use django_core_micha.Base.{
  Bool, true, false, Option, List, [], ◌∷◌, ◌≡◌, ◌⊎◌, ◌↔◌, arith, All, inl, Bool-cases, inr, refl,
}
use django_core_micha.Auth.Roles.{User}
use django_core_micha.Auth.WsPermissions.{
  Check, granted, refused, raised, Frame, accept, Setup, set_up, setup_raised, is_auth, run_checks,
  connect,
}

abbrev pub OpensWith : Frame → List Frame → Type 0
OpensWith f [] = ⊥
OpensWith f (g ∷ frames) = g ≡ f

run_checks_iff :
    (checks : List Check) (after : Setup)
    → OpensWith accept (run_checks checks after) ↔ All (λ c. c ≡ granted) checks
unfolding run_checks
run_checks_iff [] set_up = (λ h. tt, λ h. ground arith)
run_checks_iff [] setup_raised = (λ h. tt, λ h. ground arith)
run_checks_iff (granted ∷ checks) after =
    let ih = run_checks_iff checks after in (λ h. (refl, ih.0 h), λ h. ih.1 h.1)
run_checks_iff (refused ∷ checks) after = (λ h. cc, λ h. cc h.0)
run_checks_iff (raised ∷ checks) after = (λ h. cc, λ h. cc h.0)

-- A connection is accepted exactly if the route is open to everybody or the user is authenticated,
-- and every permission class grants it; one that raises does not.
pub connect_accepts_iff :
    (anonymous : Bool) (user : Option User) (checks : List Check) (after : Setup)
    → OpensWith accept (connect anonymous user checks after)
      ↔ (((anonymous ≡ true) ⊎ (is_auth user ≡ true)) × All (λ c. c ≡ granted) checks)
unfolding connect
connect_accepts_iff true user checks after =
    let ih = run_checks_iff checks after in (λ h. (inl refl, ih.0 h), λ h. ih.1 h.1)
connect_accepts_iff false user checks after =
    let ih = run_checks_iff checks after in
    elim (Bool-cases (is_auth user)) [
      | inl auth ↦ rw auth (λ h. (inr refl, ih.0 h), λ h. ih.1 h.1)
      | inr anon ↦ rw anon (λ h. cc, λ h. ground arith)
    ]
