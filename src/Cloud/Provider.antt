-- ===== src/Cloud/Provider.antt =====
-- internal/cloud/provider.go: one provider for each route that asks for a cloud guest.
use sshmux.Base.{
  ℕ, suc, ◌+◌, Text, codes, true, Option, none, some, List, [], ◌∷◌, ◌==◌, nat_eq, text_eq, Result,
  ok, err, if◌then◌else◌, ◌≡◌, ◌≢◌, inl, inr, ◌↔◌, get_elem?, arith, refl, Result-cases, zero,
  is_some, ◌<◌,
}
use sshmux.Externals.{Libs}
use sshmux.Config.{CloudEntry, RouteEntry, Config}

-- The two errors of `BuildProviders`, each with the index of its route.
pub data BuildError {ℓ} (E : Type ℓ) : Type ℓ where
  -- "route %d unikraft provider: %w"
  unikraft_provider : ℕ → E → BuildError E
  -- "route %d cloud provider %q is not supported"
  not_supported : ℕ → Text → BuildError E

-- `providers[i]`; `none` is nil.
unfoldable pub provider_at {ℓ} : {P : Type ℓ} → List (ℕ × P) → ℕ → Option P
provider_at [] i = none
provider_at ((j, p) ∷ providers) i = if i == j then some p else provider_at providers i

-- `new` is `NewUnikraftProvider`.
module _ (L : Libs) {E P : Type 0} (new : CloudEntry → Result E P) where
  -- The loop of `BuildProviders` over the routes, from index `i`.
  unfoldable pub build_from :
      ℕ → List (RouteEntry L) → List (ℕ × P) → Result (BuildError E) (List (ℕ × P))
  build_from i [] providers = ok providers
  build_from i (r ∷ rs) providers =
      let skip = build_from (suc i) rs providers in
      let add = λ (p : P). build_from (suc i) rs ((i, p) ∷ providers) in
      if r.cloud.provider == []
      then skip
      else if r.cloud.provider == codes "unikraft"
      then elim (new r.cloud) [ err e ↦ err (unikraft_provider i e) | ok p ↦ add p ]
      else err (not_supported i r.cloud.provider)

  -- `BuildProviders`
  unfoldable pub build_providers : Config L → Result (BuildError E) (List (ℕ × P))
  unfolding build_from
  build_providers cfg = build_from 0 cfg.routes []

  build_from_keeps :
      (i j : ℕ) (rs : List (RouteEntry L)) (ps qs : List (ℕ × P))
      → build_from i rs ps ≡ ok qs
      → j < i
      → provider_at qs j ≡ provider_at ps j
  unfolding build_from provider_at nat_eq
  build_from_keeps i j [] ps qs h lt = ground arith
  build_from_keeps i j (r ∷ rs) ps qs h lt = elim (Result-cases (new r.cloud)) [
    | inl (e, x) ↦ ground (arith, build_from_keeps (suc i) j rs ps qs)
    | inr (p, x) ↦
        ground (
          arith,
          build_from_keeps (suc i) j rs ps qs,
          build_from_keeps (suc i) j rs ((i, p) ∷ ps) qs,
        )
  ]

  -- The provider of an index is set as the specification says.
  abbrev Agrees : List (ℕ × P) → ℕ → RouteEntry L → Type 0
  Agrees qs j r = (is_some (provider_at qs j) ≡ true) ↔ (r.cloud.provider ≢ [])

  build_from-Agrees :
      (i j n : ℕ) (rs : List (RouteEntry L)) (ps qs : List (ℕ × P)) (r : RouteEntry L)
      → j ≡ i + n
      → build_from i rs ps ≡ ok qs
      → provider_at ps j ≡ none
      → get_elem? rs n ≡ some r
      → Agrees qs j r
  unfolding build_from provider_at nat_eq
  build_from-Agrees i j n [] ps qs r e h a g = absurd (ground arith)
  build_from-Agrees i j zero (s ∷ rs) ps qs r e h a g = elim (Result-cases (new s.cloud)) [
    | inl (x, new_fails) ↦ ground (arith, build_from_keeps (suc i) j rs ps qs)
    | inr (p, made) ↦
        ground (
          arith,
          build_from_keeps (suc i) j rs ps qs,
          build_from_keeps (suc i) j rs ((i, p) ∷ ps) qs,
        )
  ]
  build_from-Agrees i j (suc n) (s ∷ rs) ps qs r e h a g = elim (Result-cases (new s.cloud)) [
    | inl (x, new_fails) ↦ ground (arith, build_from-Agrees (suc i) j n rs ps qs r)
    | inr (p, made) ↦ ground (
      arith,
      build_from-Agrees (suc i) j n rs ps qs r,
      build_from-Agrees (suc i) j n rs ((i, p) ∷ ps) qs r,
    )
  ]

  -- Once the providers are built, a route has one at its index exactly if it is a cloud route.
  pub build_providers_lem :
      (cfg : Config L) (ps : List (ℕ × P)) (i : ℕ) (r : RouteEntry L)
      → build_providers cfg ≡ ok ps
      → get_elem? cfg.routes i ≡ some r
      → (is_some (provider_at ps i) ≡ true) ↔ (r.cloud.provider ≢ [])
  unfolding build_providers provider_at
  build_providers_lem cfg ps i r h g =
      build_from-Agrees 0 i i cfg.routes [] ps r (omega arith) h refl g
