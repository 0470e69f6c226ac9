-- ===== src/Cloud/Unikraft.antt =====
-- internal/cloud/unikraft.go: a provider, the names and keys that it derives, and its instances.
pub mod Instances
pub mod Keys
use sshmux.Base.{
  ℕ, zero, suc, ◌+◌, ◌/◌, ◌%◌, Text, codes, Bool, true, false, not, ◌&&◌, ◌||◌, Option, none, some,
  List, [], ◌∷◌, ◌++◌, ◌==◌, text_eq, nat_eq, Result, ok, err, ◌>>=◌, ◌>>◌, if◌then◌else◌, ℤ, pos,
  negsuc, take, ltb, contains,
}
use sshmux.Externals.{Libs}
use sshmux.Config.{CloudEntry}

-- Cryptography and URLs of Go's library, and the platform's SDK, as far as they are functions.
pub record Crypto (L : Libs) : Type 0 where
  -- `sha256.Sum256`
  pub sha256 : Text → Text
  -- `hmac.New(sha256.New, key)`, `Write` and `Sum`
  pub hmac_sha256 : Text → Text → Text
  -- `gossh.NewSignerFromKey(ed25519.NewKeyFromSeed(seed))`; `none` is its error.
  pub new_signer : Text → Option L.Signer
  -- `gossh.MarshalPrivateKey` of the same key, in PEM; `none` is its error.
  pub private_key_pem : Text → Option Text
  -- `gossh.MarshalAuthorizedKey`
  pub marshal_authorized_key : L.PublicKey → Text
  -- `time.Duration.String`
  pub duration_string : ℤ → Text
  -- `url.Parse`: the host name and the port; `none` is its error.
  pub parse_url : Text → Option (Text × Text)
  -- `platform.EndpointForMetro`
  pub endpoint_for_metro : Text → Text

-- The fields of `UnikraftProvider`, but for its client
pub record UnikraftProvider : Type 0 where
  pub endpoint : Text
  pub image : Text
  pub memory_mb : ℤ
  pub idle_ttl : ℤ
  pub max_inst : ℤ
  pub seed : Text

-- The variables `UKC_TOKEN`, `UKC_METRO` and `UKC_IMAGE`, empty if not set, and what `rand.Read`
-- gives; `none` is its error.
pub record Host : Type 0 where
  pub ukc_token : Text
  pub ukc_metro : Text
  pub ukc_image : Text
  pub random_seed : Option Text

pub data ProviderError : Type 0 where
  -- "UKC_TOKEN is required"
  token_required : ProviderError
  -- "generate unikraft provider seed: %w"
  no_seed : ProviderError

-- `cmp.Or(a, b, c)`
unfoldable pub first_set : Text → Text → Text → Text
first_set a b c = if a == [] then (if b == [] then c else b) else a

-- `if n == 0 { n = default }`
abbrev pub or_default : ℤ → ℤ → ℤ
or_default (pos zero) d = d
or_default (pos (suc n)) d = pos (suc n)
or_default (negsuc n) d = negsuc n

-- One minute, in nanoseconds
abbrev pub default_idle_ttl : ℤ
default_idle_ttl = pos 60000000000

abbrev pub default_memory_mb : ℤ
default_memory_mb = pos 32

-- `unikraftInstancePrefix`
abbrev pub instance_prefix : Text
instance_prefix = codes "sshmux-"

-- `hex.EncodeToString`
unfoldable pub hex_digit : ℕ → ℕ
hex_digit n = if ltb n 10 then n + b'0' else n + 87

unfoldable pub hex_encode : Text → Text
unfolding hex_digit
hex_encode [] = []
hex_encode (c ∷ s) = hex_digit (c / 16) ∷ hex_digit (c % 16) ∷ hex_encode s

-- `net.JoinHostPort`
unfoldable pub join_host_port : Text → Text → Text
join_host_port host port =
    if contains host b':' then b'[' ∷ host ++ b']' ∷ b':' ∷ port else host ++ b':' ∷ port

-- `platform.Instance`: `domains` are the FQDNs of its service group; `none` is a nil service group.
pub record Instance : Type 0 where
  pub uuid : Text
  pub name : Text
  pub domains : Option (List Text)

-- The errors of the provider. `api` is one of the platform's, with the message put before it.
pub data ApiError : Type 0 where
  not_found : ApiError
  already_exists : ApiError
  other : Text → ApiError

pub data CloudError : Type 0 where
  get_instance : Text → ApiError → CloudError
  count_instances : ApiError → CloudError
  limit_reached : ℕ → ℤ → CloudError
  create_instance : ApiError → CloudError
  empty_response : CloudError
  derive_host_key_failed : CloudError
  derive_auth_key_failed : CloudError
  no_domains : Text → CloudError
  empty_fqdn : Text → CloudError
  bad_endpoint : Text → CloudError
  no_hostname : Text → CloudError

module _ {L : Libs} (C : Crypto L) where
  -- `NewUnikraftProvider`
  unfoldable pub new_unikraft_provider : Host → CloudEntry → Result ProviderError UnikraftProvider
  new_unikraft_provider h entry =
      if h.ukc_token == [] then err token_required else elim h.random_seed [
        | none ↦ err no_seed
        | some seed ↦ ok (record {
          endpoint = C.endpoint_for_metro (first_set entry.metro h.ukc_metro (codes "fra"));
          image = first_set entry.image h.ukc_image (codes "jedevc/sshmux-guest:latest");
          memory_mb = or_default entry.memory_mb default_memory_mb;
          idle_ttl = or_default entry.session_ttl default_idle_ttl;
          max_inst = entry.max_instances;
          seed = seed;
        })
      ]

  -- `instanceName`: the texts are joined by NUL.
  unfoldable pub instance_name : UnikraftProvider → Text → Text
  instance_name p username =
      instance_prefix
      ++ hex_encode
          (take 16 (C.sha256 (codes "sshmux" ++ 0 ∷ p.endpoint ++ 0 ∷ p.image ++ 0 ∷ username)))

  -- What is authenticated to derive the keys of an instance
  abbrev pub host_message : Text → Text
  host_message name = codes "sshmux/unikraft/host/" ++ name

  abbrev pub label_message : Text → Text → Text
  label_message label name = codes "sshmux/unikraft/" ++ label ++ b'/' ∷ name

  -- `deriveSSHSigner`
  unfoldable pub derive_ssh_signer : UnikraftProvider → Text → Text → Option L.Signer
  derive_ssh_signer p label name =
      C.new_signer (take 32 (C.hmac_sha256 p.seed (label_message label name)))

  -- `deriveHostKey`: the public key, and the private key in PEM.
  unfoldable pub derive_host_key : UnikraftProvider → Text → Option (L.PublicKey × Text)
  derive_host_key p name =
      let seed = take 32 (C.hmac_sha256 p.seed (host_message name)) in
      elim (C.new_signer seed) [
        | none ↦ none
        | some signer ↦ elim (C.private_key_pem seed) [
          | none ↦ none
          | some pem ↦ some (L.signer_public_key signer, pem)
        ]
      ]

  -- `unikraftInstance`
  pub record UnikraftInstance : Type 0 where
    pub uuid : Text
    pub fqdn : Text
    pub dial_addr : Text
    pub host_key : L.PublicKey
    pub auth_key : L.Signer

  -- `unikraftDialAddr`
  unfoldable pub unikraft_dial_addr : Text → Result CloudError Text
  unikraft_dial_addr endpoint = elim (C.parse_url endpoint) [
    | none ↦ err (bad_endpoint endpoint)
    | some (host, port) ↦
        if host == []
        then err (no_hostname endpoint)
        else ok (join_host_port host (if port == [] then codes "2222" else port))
  ]

  -- The first domain of an instance
  unfoldable pub instance_fqdn : Instance → Result CloudError Text
  instance_fqdn i = elim i.domains [
    | none ↦ err (no_domains i.uuid)
    | some [] ↦ err (no_domains i.uuid)
    | some (fqdn ∷ fqdns) ↦ if fqdn == [] then err (empty_fqdn i.uuid) else ok fqdn
  ]

  abbrev pub or_error {ℓ} : {A : Type ℓ} → CloudError → Option A → Result CloudError A
  or_error e none = err e
  or_error e (some a) = ok a

  -- `instanceFromPlatform`
  unfoldable pub instance_from_platform :
      UnikraftProvider → Instance → Result CloudError UnikraftInstance
  instance_from_platform p i = do
    fqdn ← instance_fqdn i
    dial_addr ← unikraft_dial_addr p.endpoint
    host ← or_error derive_host_key_failed (derive_host_key p i.name)
    auth ← or_error derive_auth_key_failed (derive_ssh_signer p (codes "auth") i.name)
    ok (record {
      uuid = i.uuid;
      fqdn = fqdn;
      dial_addr = dial_addr;
      host_key = host.0;
      auth_key = auth;
    })

  -- `platform.CreateInstanceRequest`, by what differs between requests: the rest is constant.
  pub record CreateRequest : Type 0 where
    pub name : Text
    pub image : Text
    pub memory_mb : ℤ
    pub guest_host_key : Text
    pub guest_allow_key : Text
    pub guest_idle_timeout : Text

  -- The first part of `create`: the request
  unfoldable pub create_request : UnikraftProvider → Text → Result CloudError CreateRequest
  create_request p name = do
    host ← or_error derive_host_key_failed (derive_host_key p name)
    auth ← or_error derive_auth_key_failed (derive_ssh_signer p (codes "auth") name)
    ok (record {
      name = name;
      image = p.image;
      memory_mb = p.memory_mb;
      guest_host_key = host.1;
      guest_allow_key = C.marshal_authorized_key (L.signer_public_key auth);
      guest_idle_timeout = C.duration_string p.idle_ttl;
    })
