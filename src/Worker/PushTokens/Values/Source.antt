-- ===== src/Worker/PushTokens/Values/Source.antt =====
-- Where the vault token that is pushed comes from.
use managed_tokens.Base.{
  ◌≡◌, ◌↔◌, ◌⊎◌, refl, String, Bool, true, false, ◌||◌, Option, none, some, List, [], ◌∷◌,
}
use managed_tokens.Base.{map, arith, Bool-cases, inl, inr}
use managed_tokens.Worker.CreddStore.{get_service_token_for_credd_location}
use managed_tokens.Worker.PushTokens.Values.{
  insert_sorted, sort, Machine, first_existing, find_among, find_first_credd_vault_token,
}

abbrev pub any : (String → Bool) → List String → Bool
any test [] = false
any test (x ∷ xs) = test x || any test xs

any-insert_sorted :
    (test : String → Bool) (x : String) (xs : List String)
    → any test (insert_sorted x xs) ≡ (test x || any test xs)
unfolding insert_sorted
any-insert_sorted test x [] = refl
any-insert_sorted test x (y ∷ ys) = ground (arith, any-insert_sorted test x ys)

any-sort : (test : String → Bool) (xs : List String) → any test (sort xs) ≡ any test xs
unfolding sort
any-sort test [] = refl
any-sort test (x ∷ xs) = ground (arith, any-insert_sorted test x (sort xs), any-sort test xs)

module _ (m : Machine) where
  -- A path that was found.
  abbrev pub IsFound : Option String → Type 0
  IsFound o = (p : String) × (o ≡ some p) × (m.exists p ≡ true)

  first_existing-cases :
      (at : String → String) (xs : List String)
      → (IsFound (first_existing m (map at xs)) × (any (λ x. m.exists (at x)) xs ≡ true))
        ⊎ ((first_existing m (map at xs) ≡ none) × (any (λ x. m.exists (at x)) xs ≡ false))
  unfolding first_existing
  first_existing-cases at [] = inr (refl, refl)
  first_existing-cases at (x ∷ xs) = elim (Bool-cases (m.exists (at x))) [
    | inl here ↦ inl ((at x, ground arith, here), ground arith)
    | inr not_here ↦ elim (first_existing-cases at xs) [
      | inl ((p, found, there), some_there) ↦ inl ((p, ground arith, there), ground arith)
      | inr (nothing_found, none_there) ↦ inr (ground arith, ground arith)
    ]
  ]

  -- The credds whose places are looked at; nil stands for a place without a credd.
  abbrev pub credds_of : Option (List String) → List String
  credds_of none = "" ∷ []
  credds_of (some credds) = credds

  -- Some place of a credd has a file, or the place of HTCondor has, and the list of credds is not
  -- an empty one.
  abbrev pub some_token : String → String → Option (List String) → Bool
  some_token root service (some []) = false
  some_token root service credds =
      any (λ x. m.exists (get_service_token_for_credd_location m.join m.uid root service x))
        (credds_of credds)
      || m.exists (m.condor_vault_token_location service)

  abbrev at_credd : String → String → String → String
  at_credd root service = get_service_token_for_credd_location m.join m.uid root service

  find_among-IsFound :
      (root service : String) (xs : List String)
      → IsFound (find_among m root service xs) ↔ (
          (any (λ x. m.exists (at_credd root service x)) xs
            || m.exists (m.condor_vault_token_location service))
          ≡ true)
  unfolding find_among
  find_among-IsFound root service xs =
      let location = m.condor_vault_token_location service in
      elim (first_existing-cases (at_credd root service) xs) [
        | inl ((p, found, there), some_there) ↦ (λ _. ground arith, λ _. (p, ground arith, there))
        | inr (nothing_found, none_there) ↦ elim (Bool-cases (m.exists location)) [
          | inl here ↦ (λ _. ground arith, λ _. (location, ground arith, here))
          | inr not_here ↦ (λ (p, found, there). ground arith, λ h. ground arith)
        ]
      ]

  -- A vault token is found exactly when there is one, at the place of some credd or at that of
  -- HTCondor, whatever the order of the credds; with an empty list of credds none is found. What is
  -- found exists.
  pub find_first_credd_vault_token-IsFound :
      (root service : String) (credds : Option (List String))
      → IsFound (find_first_credd_vault_token m root service credds)
        ↔ (some_token root service credds ≡ true)
  unfolding find_first_credd_vault_token
  find_first_credd_vault_token-IsFound root service none = find_among-IsFound root service ("" ∷ [])
  find_first_credd_vault_token-IsFound root service (some []) =
      (λ (p, found, _). ground arith, λ h. ground arith)
  find_first_credd_vault_token-IsFound root service (some (c ∷ credds)) =
      let same = any-sort (λ x. m.exists (at_credd root service x)) (c ∷ credds) in
      let (to, from) = find_among-IsFound root service (sort (c ∷ credds)) in
      (λ x. ground (arith, to x), λ h. from (ground arith))
