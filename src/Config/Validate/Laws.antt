-- ===== src/Config/Validate/Laws.antt =====
-- What a validated configuration is.
use sshmux.Base.{
  ℕ, suc, ◌+◌, true, false, List, [], ◌∷◌, some, ok, err, ◌≡◌, ◌≢◌, ◌⊎◌, inl, inr, ◌↔◌, All,
  get_elem?, take, is_negative, nat_eq, text_eq, arith, refl, Result-cases, subst,
}
use sshmux.Externals.{Libs}
use sshmux.Config.{RouteEntry, Config}
use sshmux.Config.Validate.{
  Fault, exactly_one, not_supported, negative_instances, key_is_fingerprint, ValidateError,
  unikraft, validate_route, validate_from, validate,
}

module _ {L : Libs} where
  -- Exactly one of the three handlers is set.
  abbrev pub OneHandler : RouteEntry L → Type 0
  OneHandler r =
      ((r.run.cmd ≢ []) × (r.proxy.host ≡ []) × (r.cloud.provider ≡ []))
      ⊎ ((r.run.cmd ≡ []) × (r.proxy.host ≢ []) × (r.cloud.provider ≡ []))
      ⊎ ((r.run.cmd ≡ []) × (r.proxy.host ≡ []) × (r.cloud.provider ≢ []))

  pub record RouteIsValid (r : RouteEntry L) : Type 0 where
    pub one_handler : OneHandler r
    pub provider_known : (r.cloud.provider ≡ []) ⊎ (r.cloud.provider ≡ unikraft)
    pub instances : is_negative r.cloud.max_instances ≡ false
    pub no_fingerprint : r.proxy.key.fingerprint ≡ []

  -- What each refusal says of the route.
  abbrev pub Breaks : RouteEntry L → Fault → Type 0
  Breaks r exactly_one = ¬ OneHandler r
  Breaks r (not_supported p) = (r.cloud.provider ≡ p) × (p ≢ []) × (p ≢ unikraft)
  Breaks r negative_instances = is_negative r.cloud.max_instances ≡ true
  Breaks r key_is_fingerprint = r.proxy.key.fingerprint ≢ []

  validate_route_sound : (r : RouteEntry L) → validate_route L r ≡ ok tt → RouteIsValid r
  unfolding validate_route nat_eq
  validate_route_sound r h = ground arith

  validate_route_complete : (r : RouteEntry L) → RouteIsValid r → validate_route L r ≡ ok tt
  unfolding validate_route nat_eq
  validate_route_complete r h = ground arith

  validate_route-Breaks : (r : RouteEntry L) (f : Fault) → validate_route L r ≡ err f → Breaks r f
  unfolding validate_route nat_eq
  validate_route-Breaks r exactly_one h = ground arith
  validate_route-Breaks r (not_supported p) h = ground arith
  validate_route-Breaks r negative_instances h = ground arith
  validate_route-Breaks r key_is_fingerprint h = ground arith

  validate_from_sound :
      (i : ℕ) (rs : List (RouteEntry L)) → validate_from L i rs ≡ ok tt → All RouteIsValid rs
  unfolding validate_from
  validate_from_sound i [] h = tt
  validate_from_sound i (r ∷ rs) h =
      ground (arith, validate_route_sound r, validate_from_sound (suc i) rs)

  validate_from_complete :
      (i : ℕ) (rs : List (RouteEntry L)) → All RouteIsValid rs → validate_from L i rs ≡ ok tt
  unfolding validate_from
  validate_from_complete i [] h = refl
  validate_from_complete i (r ∷ rs) h =
      ground (arith, validate_route_complete r h.0, validate_from_complete (suc i) rs h.1)

  -- The configuration is accepted exactly when every route is valid.
  pub validate_iff : (c : Config L) → (validate L c ≡ ok tt) ↔ All RouteIsValid c.routes
  unfolding validate
  validate_iff c = (validate_from_sound 0 c.routes, validate_from_complete 0 c.routes)

  -- The first route that is refused, and why.
  pub record Refused (routes : List (RouteEntry L)) (n : ℕ) (f : Fault) : Type 0 where
    pub route : RouteEntry L
    pub found : get_elem? routes n ≡ some route
    pub breaks : Breaks route f
    pub before : All RouteIsValid (take n routes)

  validate_from-Refused :
      (i : ℕ) (rs : List (RouteEntry L)) (e : ValidateError)
      → validate_from L i rs ≡ err e
      → (n : ℕ) × (e.index ≡ i + n) × Refused rs n e.fault
  unfolding validate_from
  validate_from-Refused i [] e h = absurd (ground arith)
  validate_from-Refused i (r ∷ rs) e h = elim (Result-cases (validate_route L r)) [
    | inl (f, x) ↦ (
      0,
      ground arith,
      record {
        route = r;
        found = refl;
        breaks = subst (Breaks r) (ground arith) (validate_route-Breaks r f x);
        before = tt;
      },
    )
    | inr (t, x) ↦
        let (n, at, refused) = validate_from-Refused (suc i) rs e (ground arith) in
        (
          suc n,
          omega arith,
          record {
            route = refused.route;
            found = refused.found;
            breaks = refused.breaks;
            before = (validate_route_sound r x, refused.before);
          },
        )
  ]

  -- A refusal names the first route that is not valid, and a rule that it breaks.
  pub validate-Refused :
      (c : Config L) (e : ValidateError) → validate L c ≡ err e → Refused c.routes e.index e.fault
  unfolding validate
  validate-Refused c e h =
      let (n, at, refused) = validate_from-Refused 0 c.routes e h in
      subst (λ m. Refused c.routes m e.fault) (omega arith) refused
