-- ===== src/Config/Validate.antt =====
-- `Config.validate` of internal/config/config.go.
pub mod Laws
use sshmux.Base.{
  ℕ, suc, ◌+◌, Text, codes, Bool, true, false, not, ◌&&◌, List, [], ◌∷◌, ◌==◌, text_eq, nat_eq,
  Result, ok, err, ◌>>=◌, ◌>>◌, fail_if, is_negative, if◌then◌else◌,
}
use sshmux.Externals.{Libs}
use sshmux.Config.{RouteEntry, Config}

-- The four refusals, each of which names the route.
pub data Fault : Type 0 where
  -- "route %d must set exactly one of run, proxy, or cloud"
  exactly_one : Fault
  -- "route %d cloud provider %q is not supported"
  not_supported : Text → Fault
  -- "route %d cloud.max_instances must be non-negative"
  negative_instances : Fault
  -- "route %d proxy.key must be a literal key or path, not a fingerprint"
  key_is_fingerprint : Fault

pub record ValidateError : Type 0 where
  pub index : ℕ
  pub fault : Fault

-- `if s != "" { targets++ }`
abbrev pub count_set : Text → ℕ → ℕ
count_set s targets = if s == [] then targets else targets + 1

abbrev pub unikraft : Text
unikraft = codes "unikraft"

module _ (L : Libs) where
  -- The body of the loop, for one route.
  unfoldable pub validate_route : RouteEntry L → Result Fault (Unit {0})
  validate_route r = do
    let targets = count_set r.cloud.provider (count_set r.proxy.host (count_set r.run.cmd 0))
    fail_if (not (targets == 1)) exactly_one
    fail_if (not (r.cloud.provider == []) && not (r.cloud.provider == unikraft))
        (not_supported r.cloud.provider)
    fail_if (is_negative r.cloud.max_instances) negative_instances
    fail_if (not (r.proxy.key.fingerprint == [])) key_is_fingerprint

  -- The loop over the routes, from index `i`.
  unfoldable pub validate_from : ℕ → List (RouteEntry L) → Result ValidateError (Unit {0})
  validate_from i [] = ok tt
  validate_from i (r ∷ rs) =
      let rest = validate_from (suc i) rs in
      elim (validate_route r) [ err f ↦ err (record { index = i; fault = f }) | ok _ ↦ rest ]

  -- `Config.validate`
  unfoldable pub validate : Config L → Result ValidateError (Unit {0})
  unfolding validate_from
  validate c = validate_from 0 c.routes
