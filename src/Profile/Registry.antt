-- ===== src/Profile/Registry.antt =====
-- What LoadProfiles leaves in the registry, with and without an error.
use bare_metal_operator.Prelude.{
  String, true, false, Option, none, some, List, [], ◌∷◌, ◌≡◌, sym, subst, inl, inr, Option-cases,
  arith, ◌==◌, eq_iff, eq_refl, All,
}
use bare_metal_operator.Prelude.Dict.{Dict, insert, lookup-insert}
use bare_metal_operator.Shared.{Error}
use bare_metal_operator.Profile.{
  Profile, Registry, Formats, get, check_labels, check_profile, load_profiles,
}

module _ (f : Formats) where
  abbrev HasValidLabels : Dict String → Type 0
  HasValidLabels labels =
      All
        (λ ((k, v) : String × String).
          (f.is_qualified_name k ≡ true) × (f.is_valid_label_value v ≡ true))
        labels

  check_labels-HasValidLabels :
      (kind name : String) (labels : Dict String)
      → check_labels f kind name labels ≡ none
      → HasValidLabels labels
  unfolding check_labels
  check_labels-HasValidLabels kind name [] h = tt
  check_labels-HasValidLabels kind name ((k, v) ∷ labels) h =
      ground (arith, check_labels-HasValidLabels kind name labels)

  -- What the registry holds under a key is a named profile with valid labels, and the key is its name.
  pub record IsValid (registry : Registry) : Type 0 where
    pub at :
        (k : String) (p : Profile)
        → get registry k ≡ some p
        → (p.name ≡ k)
          × ((k == "") ≡ false)
          × HasValidLabels p.labels
          × HasValidLabels p.persistent_labels

  -- A profile that passes the checks: named, not yet registered, with valid labels.
  record IsFresh (registry : Registry) (p : Profile) : Type 0 where
    named : (p.name == "") ≡ false
    absent : get registry p.name ≡ none
    labels_valid : HasValidLabels p.labels
    persistent_labels_valid : HasValidLabels p.persistent_labels

  check_profile-IsFresh :
      (registry : Registry) (p : Profile) → check_profile f registry p ≡ none → IsFresh registry p
  unfolding check_profile
  check_profile-IsFresh registry p h = ground (
    arith,
    check_labels-HasValidLabels "label" p.name p.labels,
    check_labels-HasValidLabels "persistent label" p.name p.persistent_labels,
  )

  insert-IsValid :
      (registry : Registry) (p : Profile)
      → IsFresh registry p
      → IsValid registry
      → IsValid (insert p.name p registry)
  unfolding get
  insert-IsValid registry p fresh v = record {
    at = λ k q e.
        ground (arith, fresh, v.at k q, lookup-insert p.name k p registry, eq_iff p.name k);
  }

  -- Every load, also one that ends in an error half-way, keeps the registry valid: what it holds
  -- under a key is a profile of that name, the name is not empty, and its labels are valid.
  pub load_profiles-IsValid :
      (ps : List Profile) (registry : Registry)
      → IsValid registry
      → IsValid (load_profiles f registry ps).1
  unfolding load_profiles
  load_profiles-IsValid [] registry v = v
  load_profiles-IsValid (p ∷ ps) registry v = elim (Option-cases (check_profile f registry p)) [
    | inl e ↦
        rw (e, load_profiles)
          (load_profiles-IsValid ps _
            (insert-IsValid registry p (check_profile-IsFresh registry p e) v))
    | inr (x, e) ↦ rw (e, load_profiles) v
  ]

  -- What was registered before a load is registered after it, as it was: no load overwrites.
  get-load_profiles_old :
      (ps : List Profile) (registry : Registry) (k : String) (q : Profile)
      → get registry k ≡ some q
      → get (load_profiles f registry ps).1 k ≡ some q
  unfolding load_profiles
  get-load_profiles_old [] registry k q h = h
  get-load_profiles_old (p ∷ ps) registry k q h = elim (Option-cases (check_profile f registry p)) [
    | inl e ↦
        rw (e, load_profiles)
          (get-load_profiles_old ps (insert p.name p registry) k q (
            unfold get in
            ground (
              arith,
              lookup-insert p.name k p registry,
              eq_iff p.name k,
              (check_profile-IsFresh registry p e).absent,
              h,
            )))
    | inr (x, e) ↦ rw (e, load_profiles) h
  ]

  load_profiles_accept :
      (p : Profile) (ps : List Profile) (registry : Registry)
      → check_profile f registry p ≡ none
      → load_profiles f registry (p ∷ ps) ≡ load_profiles f (insert p.name p registry) ps
  unfolding load_profiles
  load_profiles_accept p ps registry e = rw (e, load_profiles)

  -- A load that returns no error has registered each of its profiles under its name.
  pub get-load_profiles_new :
      (ps : List Profile) (registry : Registry)
      → (load_profiles f registry ps).0 ≡ none
      → All (λ p. get (load_profiles f registry ps).1 p.name ≡ some p) ps
  get-load_profiles_new [] registry h = tt
  get-load_profiles_new (p ∷ ps) registry h = elim (Option-cases (check_profile f registry p)) [
    | inl e ↦
        let step = load_profiles_accept p ps registry e in
        subst (λ (r : Option Error × Registry). All (λ q. get r.1 q.name ≡ some q) (p ∷ ps))
          (sym step)
          (
            get-load_profiles_old ps (insert p.name p registry) p.name p (
                unfold get in
                ground (arith, lookup-insert p.name p.name p registry, eq_refl p.name)),
            get-load_profiles_new ps (insert p.name p registry) (rw step at h),
          )
    | inr (x, e) ↦ absurd (unfold load_profiles in ground (arith, e, h))
  ]
