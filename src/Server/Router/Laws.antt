-- ===== src/Server/Router/Laws.antt =====
-- Which route a session takes, and that its handler runs only with the role that the route asks for.
use sshmux.Base.{
  ℕ, zero, suc, ◌+◌, Text, some, List, [], ◌∷◌, text_eq, ◌≡◌, inl, inr, ◌↔◌, All, Any, get_elem?,
  take, arith, refl, Bool-cases, subst,
}
use sshmux.Externals.{Libs}
use sshmux.Config.{RouteEntry, Config}
use sshmux.Config.Pattern.{match}
use sshmux.Server.Auth.Grants.{Matches}
use sshmux.Server.Router.{matches_route_session, find_from, find_route_index}

module _ {L : Libs} where
  -- The first route that matches the username, at its index.
  pub record IsFirst (routes : List (RouteEntry L)) (username : Text) (r : RouteEntry L) (i : ℕ)
      : Type 0 where
    pub at : get_elem? routes i ≡ some r
    pub fits : Matches username r
    pub before : All (λ s. ¬ Matches username s) (take i routes)

  find_from_sound :
      (i j : ℕ) (rs : List (RouteEntry L)) (username : Text) (r : RouteEntry L)
      → find_from L i rs username ≡ some (r, j)
      → (n : ℕ) × (j ≡ i + n) × IsFirst rs username r n
  unfolding find_from matches_route_session
  find_from_sound i j [] username r h = absurd (cc)
  find_from_sound i j (s ∷ rs) username r h = elim (Bool-cases (match L s.username username)) [
    | inl m ↦ (0, ground arith, ground arith)
    | inr m ↦
        let (n, e, first) = find_from_sound (suc i) j rs username r (ground arith) in
        (
          suc n,
          omega arith,
          record { at = first.at; fits = first.fits; before = (ground arith, first.before) },
        )
  ]

  find_from_complete :
      (i n : ℕ) (rs : List (RouteEntry L)) (username : Text) (r : RouteEntry L)
      → IsFirst rs username r n
      → find_from L i rs username ≡ some (r, i + n)
  unfolding find_from matches_route_session
  find_from_complete i n [] username r h = absurd (ground arith)
  find_from_complete i zero (s ∷ rs) username r h = ground arith
  find_from_complete i (suc n) (s ∷ rs) username r h = ground (
    arith,
    find_from_complete (suc i) n rs username r
        (record { at = h.at; fits = h.fits; before = h.before.1 }),
  )

  -- A session takes a route exactly if it is the first one that matches the username.
  pub find_route_index_iff :
      (cfg : Config L) (username : Text) (r : RouteEntry L) (i : ℕ)
      → (find_route_index L cfg username ≡ some (r, i)) ↔ IsFirst cfg.routes username r i
  unfolding find_route_index
  find_route_index_iff cfg username r i = (
    λ h.
        let (n, e, first) = find_from_sound 0 i cfg.routes username r h in
        subst (λ m. IsFirst cfg.routes username r m) (omega arith) first,
    λ h. ground (arith, find_from_complete 0 i cfg.routes username r h),
  )

  pub IsFirst-exists :
      (routes : List (RouteEntry L)) (username : Text)
      → Any (Matches username) routes
      → (r : RouteEntry L) × (i : ℕ) × IsFirst routes username r i
  IsFirst-exists [] username h = absurd h
  IsFirst-exists (r ∷ rs) username h = elim (Bool-cases (match L r.username username)) [
    | inl m ↦ (r, 0, record { at = refl; fits = m; before = tt })
    | inr m ↦
        let (s, i, first) = IsFirst-exists rs username (ground arith) in
        (
          s,
          suc i,
          record { at = first.at; fits = first.fits; before = (ground arith, first.before) },
        )
  ]
