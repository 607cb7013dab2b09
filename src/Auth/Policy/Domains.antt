-- ===== src/Auth/Policy/Domains.antt =====
-- The allowed e-mail domains (`_normalize_domains` and `is_allowed_email_domain` of auth/policy.py).
use django_core_micha.Base.{
  String, true, false, List, [], ◌∷◌, ◌≡◌, refl, ◌≢◌, ◌⊎◌, inl, inr, ◌↔◌, arith, str_eq, eq_iff,
  contains, has_char, ◌||◌, Bool-cases, strip,
}
use django_core_micha.Auth.Policy.{
  Item, text, other, clean_domain, normalize_from, normalize_domains, as_items, after_last_at,
  is_allowed_email_domain,
}

module _ (lower : String → String) where
  -- Some item of the configuration is cleaned to this domain.
  abbrev pub Occurs : String → List Item → Type 0
  Occurs d [] = ⊥
  Occurs d (other ∷ items) = Occurs d items
  Occurs d (text item ∷ items) = (clean_domain lower item ≡ d) ⊎ Occurs d items

  -- A domain that can be matched at all.
  abbrev pub IsDomain : String → Type 0
  IsDomain d = (d ≢ "") × (has_char b'@' d ≡ false)

  normalize_from_sound :
      (d : String) (seen : List String) (items : List Item)
      → contains d (normalize_from lower seen items) ≡ true
      → IsDomain d × (contains d seen ≡ false) × Occurs d items
  unfolding normalize_from
  normalize_from_sound d seen [] h = cc
  normalize_from_sound d seen (other ∷ items) h = normalize_from_sound d seen items h
  normalize_from_sound d seen (text item ∷ items) h =
      let c = clean_domain lower item in
      ground (
        arith,
        eq_iff c "",
        eq_iff d c,
        normalize_from_sound d seen items,
        normalize_from_sound d (c ∷ seen) items,
      )

  normalize_from_complete :
      (d : String) (seen : List String) (items : List Item)
      → IsDomain d
      → contains d seen ≡ false
      → Occurs d items
      → contains d (normalize_from lower seen items) ≡ true
  unfolding normalize_from
  normalize_from_complete d seen [] p n h = absurd h
  normalize_from_complete d seen (other ∷ items) p n h = normalize_from_complete d seen items p n h
  normalize_from_complete d seen (text item ∷ items) p n h =
      let c = clean_domain lower item in
      ground (
        arith,
        eq_iff c "",
        eq_iff d c,
        normalize_from_complete d seen items p n,
        normalize_from_complete d (c ∷ seen) items p,
      )

  -- A domain is in the normalised list exactly if it is no empty text, has no "@", and some
  -- configured item is cleaned to it.
  pub normalize_domains_iff :
      (d : String) (items : List Item)
      → (contains d (normalize_domains lower items) ≡ true) ↔ (IsDomain d × Occurs d items)
  unfolding normalize_domains
  normalize_domains_iff d items = (
    λ h. let (p, n, o) = normalize_from_sound d [] items h in (p, o),
    λ h. normalize_from_complete d [] items h.0 refl h.1,
  )

  -- No text stands twice.
  abbrev pub HasNoRepeats : List String → Type 0
  HasNoRepeats [] = Unit
  HasNoRepeats (d ∷ ds) = (contains d ds ≡ false) × HasNoRepeats ds

  normalize_from-HasNoRepeats :
      (seen : List String) (items : List Item) → HasNoRepeats (normalize_from lower seen items)
  unfolding normalize_from
  normalize_from-HasNoRepeats seen [] = tt
  normalize_from-HasNoRepeats seen (other ∷ items) = normalize_from-HasNoRepeats seen items
  normalize_from-HasNoRepeats seen (text item ∷ items) =
      let c = clean_domain lower item in
      elim (Bool-cases (str_eq c "" || has_char b'@' c || contains c seen)) [
        | inl skip ↦ rw skip (normalize_from-HasNoRepeats seen items)
        | inr keep ↦ rw keep (
          ground (arith, eq_iff c c, normalize_from_sound c (c ∷ seen) items),
          normalize_from-HasNoRepeats (c ∷ seen) items,
        )
      ]

  -- The normalised list has no domain twice.
  pub normalize_domains-HasNoRepeats :
      (items : List Item) → HasNoRepeats (normalize_domains lower items)
  unfolding normalize_domains
  normalize_domains-HasNoRepeats items = normalize_from-HasNoRepeats [] items

  -- An address is allowed exactly if it has an "@", and what follows its last "@", stripped and
  -- lower-cased, is a domain that some allowed item is cleaned to.
  pub is_allowed_email_domain_iff :
      (email : String) (allowed : List String)
      → (is_allowed_email_domain lower email allowed ≡ true) ↔ (
          (has_char b'@' email ≡ true)
          × IsDomain (lower (strip (after_last_at email email)))
          × Occurs (lower (strip (after_last_at email email))) (as_items allowed))
  unfolding is_allowed_email_domain
  is_allowed_email_domain_iff email allowed =
      let domain = lower (strip (after_last_at email email)) in
      let listed = normalize_domains_iff domain (as_items allowed) in
      elim (Bool-cases (has_char b'@' email)) [
        | inl at ↦ rw at (λ h. let (p, o) = listed.0 h in (refl, p, o), λ h. listed.1 (h.1, h.2))
        | inr none_ ↦ rw none_ (λ h. cc, λ h. cc h.0)
      ]
