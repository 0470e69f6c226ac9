-- ===== src/Cloud/Unikraft/Instances.antt =====
-- The part of internal/cloud/unikraft.go that talks to the platform: look-up, limit, creation, and
-- the loop that dials until the guest answers.
pub mod Laws
pub mod Sources
use sshmux.Base.{
  ℕ, zero, suc, ◌+◌, Text, codes, Bool, true, false, not, ◌&&◌, ◌||◌, Option, none, some, List, [],
  ◌∷◌, ◌++◌, ◌==◌, text_eq, Result, ok, err, if◌then◌else◌, ℤ, pos, negsuc, leb, has_prefix,
  has_infix,
}
use sshmux.Externals.{Libs}
use sshmux.Cloud.Unikraft.{
  Crypto, UnikraftProvider, Instance, ApiError, not_found, already_exists, other, CloudError,
  get_instance, count_instances, limit_reached, create_instance, empty_response, instance_prefix,
  instance_name, UnikraftInstance, instance_from_platform, CreateRequest, create_request,
}

-- The platform and the guests behind it, over a state of the world.
pub record Platform {L : Libs} (C : Crypto L) : Type 1 where
  pub World : Type 0
  -- `GetInstances`: of a name, or of all. `ok none` is a response without data.
  pub get_instances : Option Text → World → Result ApiError (Option (List Instance)) × World
  -- `CreateInstance`
  pub create : CreateRequest C → World → Result ApiError (Option (List Instance)) × World
  -- `*gossh.Client`
  pub Client : Type 0
  -- `net.Conn`
  pub Conn : Type 0
  -- `(*tls.Dialer).DialContext` of an address with a server name; the error is its text.
  pub tls_dial : Text → Text → World → Result Text Conn × World
  -- `gossh.NewClientConn` and `gossh.NewClient` with a user, a key to sign in with and the one host
  -- key that is accepted; the error is its text.
  pub new_client : Conn → Text → L.Signer → L.PublicKey → World → Result Text Client × World
  -- `conn.Close`
  pub close : Conn → World → World

-- `isRetryableUnikraftDial`, on the text of the error
unfoldable pub is_retryable : Text → Bool
is_retryable msg =
    has_infix msg (codes "EOF")
    || has_infix msg (codes "connection refused")
    || has_infix msg (codes "connection reset")

-- Which channel the `select` of `Dial` receives from.
pub data Wake : Type 0 where
  cancelled : Wake
  deadline : Wake
  backoff : Wake

pub data DialError : Type 0 where
  cloud : CloudError → DialError
  ssh : Text → DialError
  -- "wait for unikraft guest ssh: %w"
  wait_cancelled : DialError

module _ {L : Libs} {C : Crypto L} (P : Platform C) (p : UnikraftProvider) where
  open P use {World, get_instances, create, Client, Conn, tls_dial, new_client, close}

  -- What is made of a response to a look-up
  unfoldable pub found :
      Text
      → Result ApiError (Option (List Instance))
      → Result CloudError (Option (UnikraftInstance C))
  found name (err not_found) = ok none
  found name (err e) = err (get_instance name e)
  found name (ok none) = ok none
  found name (ok (some [])) = ok none
  found name (ok (some (i ∷ is))) = elim (instance_from_platform C p i) [
    | err e ↦ err e
    | ok inst ↦ ok (some inst)
  ]

  -- `lookup`
  unfoldable pub lookup_instance :
      Text → World → Result CloudError (Option (UnikraftInstance C)) × World
  lookup_instance name w = let (r, w') = get_instances (some name) w in (found name r, w')

  -- The loop that counts the instances of sshmux
  unfoldable pub count_prefixed : List Instance → ℕ
  count_prefixed [] = 0
  count_prefixed (i ∷ is) =
      let rest = count_prefixed is in if has_prefix i.name instance_prefix then rest + 1 else rest

  -- `total >= p.maxInst`, once `maxInst` is positive
  unfoldable pub at_limit : ℕ → ℤ → Bool
  at_limit total (pos n) = leb n total
  at_limit total (negsuc n) = true

  -- What is made of the response when instances are counted
  unfoldable pub within_limit :
      Result ApiError (Option (List Instance)) → Result CloudError (Unit {0})
  within_limit (err e) = err (count_instances e)
  within_limit (ok none) = ok tt
  within_limit (ok (some is)) =
      if at_limit (count_prefixed is) p.max_inst
      then err (limit_reached (count_prefixed is) p.max_inst)
      else ok tt

  -- `p.maxInst <= 0`
  abbrev pub unlimited : ℤ → Bool
  unlimited (pos zero) = true
  unlimited (pos (suc n)) = false
  unlimited (negsuc n) = true

  -- `checkInstanceLimit`
  unfoldable pub check_instance_limit : World → Result CloudError (Unit {0}) × World
  check_instance_limit w =
      if unlimited p.max_inst
      then (ok tt, w)
      else let (r, w') = get_instances none w in (within_limit r, w')

  -- What is made of the response to a creation
  unfoldable pub created :
      Result ApiError (Option (List Instance)) → Result CloudError (UnikraftInstance C)
  created (err e) = err (create_instance e)
  created (ok none) = err empty_response
  created (ok (some [])) = err empty_response
  created (ok (some (i ∷ is))) = instance_from_platform C p i

  -- `create`
  unfoldable pub create_guest : Text → World → Result CloudError (UnikraftInstance C) × World
  create_guest name w = elim (create_request C p name) [
    | err e ↦ (err e, w)
    | ok request ↦ let (r, w') = create request w in (created r, w')
  ]

  -- After a creation that failed since the instance was there already: the second look-up.
  unfoldable pub look_again :
      Text → CloudError → World → Result CloudError (UnikraftInstance C) × World
  look_again name e w =
      let (r, w') = lookup_instance name w in
      elim r [
        | err lookup_err ↦ (err lookup_err, w')
        | ok none ↦ (err e, w')
        | ok (some inst) ↦ (ok inst, w')
      ]

  -- The end of `getOrCreate`
  unfoldable pub after_create :
      Text
      → Result CloudError (UnikraftInstance C)
      → World
      → Result CloudError (UnikraftInstance C) × World
  after_create name (ok inst) w = (ok inst, w)
  after_create name (err (create_instance already_exists)) w =
      look_again name (create_instance already_exists) w
  after_create name (err e) w = (err e, w)

  -- `getOrCreate`
  unfoldable pub get_or_create : Text → World → Result CloudError (UnikraftInstance C) × World
  get_or_create name w =
      let (r, w₁) = lookup_instance name w in
      elim r [
        | err e ↦ (err e, w₁)
        | ok (some inst) ↦ (ok inst, w₁)
        | ok none ↦
            let (limit, w₂) = check_instance_limit w₁ in
            elim limit [
              | err e ↦ (err e, w₂)
              | ok _ ↦ let (made, w₃) = create_guest name w₂ in after_create name made w₃
            ]
      ]

  -- `unikraftInstance.dial`
  unfoldable pub dial_instance : UnikraftInstance C → World → Result Text Conn × World
  dial_instance inst w =
      let (dialled, w₁) = tls_dial inst.dial_addr inst.fqdn w in
      elim dialled [
        | ok conn ↦ (ok conn, w₁)
        | err e ↦ (
          err (
              codes "tls dial unikraft endpoint "
              ++ inst.dial_addr
              ++ codes " (sni="
              ++ inst.fqdn
              ++ codes "): "
              ++ e),
          w₁,
        )
      ]

  -- `sshClient`: a connection whose handshake fails is closed.
  unfoldable pub ssh_client : UnikraftInstance C → Text → World → Result Text Client × World
  unfolding dial_instance
  ssh_client inst username w =
      let (dialled, w₁) = dial_instance inst w in
      elim dialled [
        | err e ↦ (err e, w₁)
        | ok conn ↦
            let (made, w₂) = new_client conn username inst.auth_key inst.host_key w₁ in
            elim made [
              | ok client ↦ (ok client, w₂)
              | err e ↦ (err (codes "ssh handshake with unikraft guest: " ++ e), close conn w₂)
            ]
      ]

  -- What one turn of the loop of `Dial` comes to: it returns, or it goes on after a wait.
  pub data Turn : Type 0 where
    returns : Result DialError Client → Turn
    waits : Text → Turn

  unfoldable pub dial_turn : Text → Text → World → Turn × World
  dial_turn name username w =
      let (r, w₁) = get_or_create name w in
      elim r [
        | err e ↦ (returns (err (cloud e)), w₁)
        | ok inst ↦
            let (dialled, w₂) = ssh_client inst username w₁ in
            elim dialled [
              | ok client ↦ (returns (ok client), w₂)
              | err msg ↦
                  if is_retryable msg then (waits msg, w₂) else (returns (err (ssh msg)), w₂)
            ]
      ]

  -- The loop of `Dial`. The list says how each wait ends; `none` means that it was too short.
  unfoldable pub after_turn :
      Text → Text → List Wake → Turn × World → Option (Result DialError Client × World)
  after_turn name username wakes (returns r, w) = some (r, w)
  after_turn name username [] (waits msg, w) = none
  after_turn name username (cancelled ∷ wakes) (waits msg, w) = some (err wait_cancelled, w)
  after_turn name username (deadline ∷ wakes) (waits msg, w) = some (err (ssh msg), w)
  after_turn name username (backoff ∷ wakes) (waits msg, w) =
      after_turn name username wakes (dial_turn name username w)

  -- `Dial`, for a user
  unfoldable pub dial : Text → List Wake → World → Option (Result DialError Client × World)
  dial username wakes w =
      after_turn (instance_name C p username) username wakes
        (dial_turn (instance_name C p username) username w)
