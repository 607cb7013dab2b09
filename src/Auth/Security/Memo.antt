-- ===== src/Auth/Security/Memo.antt =====
-- The memo of the admin policy on a request (auth/permissions.py and auth/security.py) never gives
-- an answer that the session's present security level does not support.
use django_core_micha.Base.{
  ℕ, ◌≡◌, refl, String, Bool, true, Option, none, some, List, [], ◌∷◌, arith, if◌then◌else◌,
  Bool-cases, inr, inl, sym,
}
use django_core_micha.Auth.Roles.{Settings, User}
use django_core_micha.Auth.Access.{is_subject_to_admin_auth_policy}
use django_core_micha.Auth.Security.{
  FactorPolicy, Request, memo_get, memo_entries, is_user_security_sufficient, set_security_level,
  get_security_level, remember, admin_policy_satisfied, recall, answer,
}

module _ (s : Settings) (p : FactorPolicy) (account : ℕ → User) where
  -- Every memo entry is the present answer for the account of its key.
  abbrev pub EntriesAgree : Request → List (ℕ × Bool) → Type 0
  EntriesAgree r [] = Unit
  EntriesAgree r ((k, b) ∷ rest) =
      (is_user_security_sufficient s p (some (account k)) (some r) ≡ b) × EntriesAgree r rest

  abbrev pub IsFresh : Request → Type 0
  IsFresh r = EntriesAgree r (memo_entries r.memo)

  memo_get_sound :
      (r : Request) (entries : List (ℕ × Bool)) (k : ℕ) (b : Bool)
      → EntriesAgree r entries
      → memo_get k entries ≡ some b
      → is_user_security_sufficient s p (some (account k)) (some r) ≡ b
  memo_get_sound r [] k b h e = cc
  memo_get_sound r ((j, c) ∷ rest) k b h e = ground (arith, memo_get_sound r rest k b)

  -- What is kept in the memo does not bear on the answers.
  EntriesAgree-memo :
      (r : Request) (memo : Option (List (ℕ × Bool))) (entries : List (ℕ × Bool))
      → EntriesAgree r entries
      → EntriesAgree (record r { memo = memo }) entries
  unfolding is_user_security_sufficient get_security_level
  EntriesAgree-memo r memo [] h = tt
  EntriesAgree-memo r memo ((k, b) ∷ rest) h = (h.0, EntriesAgree-memo r memo rest h.1)

  set_security_level-IsFresh :
      (level : String) (r : Request) → IsFresh r → IsFresh (set_security_level s level r)
  unfolding set_security_level
  set_security_level-IsFresh level r h = ground arith

  -- The answer without a memo.
  abbrev pub plain_answer : Option User → Request → Bool
  plain_answer u r =
      if is_subject_to_admin_auth_policy s u
      then is_user_security_sufficient s p u (some r)
      else true

  -- A user object is the account of its key.
  abbrev pub IsAccount : User → Type 0
  IsAccount v = (k : ℕ) → v.pk ≡ some k → v ≡ account k

  remember-IsFresh :
      (v : User) (r : Request) (key : Option ℕ)
      → ((k : ℕ) → key ≡ some k → v ≡ account k)
      → IsFresh r
      → IsFresh (remember key (is_user_security_sufficient s p (some v) (some r)) r)
  unfolding remember is_user_security_sufficient get_security_level
  remember-IsFresh v r none same h = h
  remember-IsFresh v r (some k) same h =
      let entries = memo_entries r.memo in
      let b = is_user_security_sufficient s p (some v) (some r) in
      (rw (← same k refl), EntriesAgree-memo r (some ((k, b) ∷ entries)) entries h)

  recall_sound :
      (v : User) (r : Request) (key : Option ℕ) (b : Bool)
      → ((k : ℕ) → key ≡ some k → v ≡ account k)
      → IsFresh r
      → recall key r ≡ some b
      → is_user_security_sufficient s p (some v) (some r) ≡ b
  recall_sound v r none b same h e = cc
  recall_sound v r (some k) b same h e =
      rw (same k refl) (memo_get_sound r (memo_entries r.memo) k b h e)

  answer-IsFresh :
      (v : User) (r : Request) (found : Option Bool)
      → IsAccount v
      → IsFresh r
      → ((b : Bool) → found ≡ some b → is_user_security_sufficient s p (some v) (some r) ≡ b)
      → ((answer s p (some v) found r).0 ≡ is_user_security_sufficient s p (some v) (some r))
        × IsFresh (answer s p (some v) found r).1
  unfolding answer
  answer-IsFresh v r none same h sound = (refl, remember-IsFresh v r v.pk same h)
  answer-IsFresh v r (some b) same h sound = (sym (sound b refl), h)

  -- One call gives the answer without a memo, and leaves a memo that agrees.
  pub admin_policy_satisfied-IsFresh :
      (v : User) (r : Request)
      → IsAccount v
      → IsFresh r
      → ((admin_policy_satisfied s p (some v) r).0 ≡ plain_answer (some v) r)
        × IsFresh (admin_policy_satisfied s p (some v) r).1
  unfolding admin_policy_satisfied
  admin_policy_satisfied-IsFresh v r same h =
      elim (Bool-cases (is_subject_to_admin_auth_policy s (some v))) [
        | inr free ↦ rw (free, admin_policy_satisfied) (refl, h)
        | inl subject ↦
            rw (subject, admin_policy_satisfied)
              (answer-IsFresh v r (recall v.pk r) same h (λ b. recall_sound v r v.pk b same h))
      ]

  -- What happens on one request: the policy is asked about a user, or the session's level is set.
  pub data Act : Type 0 where
    ask : (v : User) → IsAccount v → Act
    set_level : String → Act

  abbrev pub act : Act → Request → Request
  act (ask v same) r = (admin_policy_satisfied s p (some v) r).1
  act (set_level level) r = set_security_level s level r

  abbrev pub after : List Act → Request → Request
  after [] r = r
  after (a ∷ acts) r = after acts (act a r)

  after-IsFresh : (acts : List Act) (r : Request) → IsFresh r → IsFresh (after acts r)
  after-IsFresh [] r h = h
  after-IsFresh (ask v same ∷ acts) r h =
      after-IsFresh acts _ (admin_policy_satisfied-IsFresh v r same h).1
  after-IsFresh (set_level level ∷ acts) r h =
      after-IsFresh acts _ (set_security_level-IsFresh level r h)

  -- After any checks and changes of the session's level on a request that began without a memo, a
  -- check answers as the present level of the session does, where every user object that is asked
  -- about is the account of its primary key.
  pub memo_transparent :
      (acts : List Act) (r : Request) (v : User)
      → r.memo ≡ none
      → IsAccount v
      → (admin_policy_satisfied s p (some v) (after acts r)).0
        ≡ plain_answer (some v) (after acts r)
  memo_transparent acts r v empty same =
      (admin_policy_satisfied-IsFresh v (after acts r) same (after-IsFresh acts r (rw empty tt))).0
