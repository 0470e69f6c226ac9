-- ===== src/Tests/Cloud.antt =====
-- A platform with one place for a guest, at concrete inputs.
use sshmux.Base.{
  ℕ, Text, codes, Bool, true, false, Option, none, some, List, [], ◌∷◌, ◌++◌, ◌≡◌, ◌≢◌, refl,
  Result, ok, err, nat_eq, text_eq, arith, ℤ, pos, negsuc, trim_space, has_prefix, strip,
  if◌then◌else◌, ◌==◌,
}
use sshmux.Config.{CloudEntry}
use sshmux.Cloud.Provider.{build_from, build_providers}
use sshmux.Cloud.Unikraft.{
  Crypto, UnikraftProvider, Instance, ApiError, already_exists, limit_reached, create_instance,
  UnikraftInstance, CreateRequest, create_request, instance_from_platform, instance_fqdn,
  unikraft_dial_addr, join_host_port, derive_host_key, derive_ssh_signer,
}
use sshmux.Cloud.Unikraft.Instances.{
  Platform, found, lookup_instance, within_limit, count_prefixed, at_limit, check_instance_limit,
  create_guest, created, get_or_create, after_create, look_again, deadline, backoff, DialError,
  dial,
}
use sshmux.Cloud.Unikraft.Instances.Sources.{Source, get_or_create-Source}
use sshmux.Cloud.Unikraft.Instances.Laws.{Dialled, dial-Dialled}
use sshmux.Cloud.Unikraft.Keys.{RoundTrips, guest_variables, create_request-init}
use sshmux.Guest.Session.{GuestConfig, init, allow_mux_key}
use sshmux.Tests.Sample.{libs, config}

abbrev first : Text → ℕ
first [] = 0
first (c ∷ s) = c

abbrev show_duration : ℤ → Text
show_duration (pos n) = b'<' ∷ n ∷ b'>' ∷ []
show_duration (negsuc n) = b'<' ∷ b'-' ∷ n ∷ b'>' ∷ []

abbrev crypto : Crypto libs
crypto = record {
  sha256 = λ s. codes "h";
  hmac_sha256 = λ k s. k;
  new_signer = λ seed. some (first seed);
  private_key_pem = λ seed. some (b'<' ∷ first seed ∷ b'>' ∷ []);
  marshal_authorized_key = λ k. b'[' ∷ k ∷ b']' ∷ [];
  duration_string = show_duration;
  parse_url = λ url. some (url, []);
  endpoint_for_metro = λ metro. metro;
}

abbrev provider : UnikraftProvider
provider = record {
  endpoint = codes "fra";
  image = codes "i";
  memory_mb = pos 32;
  idle_ttl = pos 60;
  max_inst = pos 1;
  seed = 5 ∷ [];
}

abbrev instance_of : Text → Instance
instance_of name = record { uuid = codes "u"; name = name; domains = some (codes "d" ∷ []) }

abbrev attached : UnikraftInstance crypto
attached = record {
  uuid = codes "u";
  fqdn = codes "d";
  dial_addr = codes "fra:2222";
  host_key = 5;
  auth_key = 5;
}

-- The world: the instances, one that appears at the next creation, and whether the guest answers.
record Cluster : Type 0 where
  running : List Instance
  rival : Option Instance
  answers : Bool

abbrev listed : List Instance → Option Text → List Instance
listed [] o = []
listed (i ∷ is) none = i ∷ listed is none
listed (i ∷ is) (some name) =
    if i.name == name then i ∷ listed is (some name) else listed is (some name)

abbrev creation :
    Text → Option Instance → Cluster → Result ApiError (Option (List Instance)) × Cluster
creation name none c =
    (ok (some (instance_of name ∷ [])), record c { running = instance_of name ∷ c.running })
creation name (some i) c = (err already_exists, record c { running = i ∷ c.running; rival = none })

abbrev platform : Platform crypto
platform = record {
  World = Cluster;
  get_instances = λ o c. (ok (some (listed c.running o)), c);
  create = λ request c. creation request.name c.rival c;
  Client = Text;
  Conn = Text;
  tls_dial = λ addr sni c. (ok addr, c);
  new_client = λ conn username auth_key host_key c.
      if c.answers then (ok username, c) else (err (codes "EOF"), record c { answers = true });
  close = λ conn c. c;
}

abbrev cluster : List Instance → Option Instance → Cluster
cluster is rival = record { running = is; rival = rival; answers = false }

abbrev here_now : Cluster
here_now = cluster (instance_of (codes "n") ∷ []) none

is_found : (lookup_instance platform provider (codes "n") here_now).0 ≡ ok (some attached)
unfolding lookup_instance found instance_from_platform instance_fqdn unikraft_dial_addr
    join_host_port derive_host_key derive_ssh_signer nat_eq text_eq
is_found = refl

abbrev full : Cluster
full = cluster (instance_of (codes "sshmux-1") ∷ []) none

nothing_found : (lookup_instance platform provider (codes "n") full).0 ≡ ok none
unfolding lookup_instance found nat_eq text_eq
nothing_found = refl

limit_found :
    (check_instance_limit platform provider
      (lookup_instance platform provider (codes "n") full).1).0
    ≡ err (limit_reached 1 (pos 1))
unfolding check_instance_limit within_limit count_prefixed at_limit lookup_instance has_prefix strip
    nat_eq text_eq
limit_found = refl

abbrev contested : Cluster
contested = cluster [] (some (instance_of (codes "n")))

none_yet : lookup_instance platform provider (codes "n") contested ≡ (ok none, contested)
unfolding lookup_instance found
none_yet = refl

room : check_instance_limit platform provider contested ≡ (ok tt, contested)
unfolding check_instance_limit within_limit count_prefixed at_limit
room = refl

rival_was_first :
    create_guest platform provider (codes "n") contested
    ≡ (err (create_instance already_exists), here_now)
unfolding create_guest created create_request derive_host_key derive_ssh_signer
rival_was_first = refl

found_again :
    lookup_instance platform provider (codes "n") here_now ≡ (ok (some attached), here_now)
unfolding lookup_instance found instance_from_platform instance_fqdn unikraft_dial_addr
    join_host_port derive_host_key derive_ssh_signer nat_eq text_eq
found_again = refl

contested_goes_to_rival : (get_or_create platform provider (codes "n") contested).0 ≡ ok attached
unfolding get_or_create after_create look_again
contested_goes_to_rival = ground (arith, none_yet, room, rival_was_first, found_again)

get_or_create-Source_example : Source platform provider (codes "n") contested attached
get_or_create-Source_example =
    get_or_create-Source platform provider (codes "n") contested attached contested_goes_to_rival

dial-Dialled_example :
    (r : Result DialError Text) × (c : Cluster) × (dial platform provider
        (codes "me")
        (backoff ∷ deadline ∷ [])
        (cluster [] none)
      ≡ some (r, c))
    × Dialled platform provider (codes "me") (backoff ∷ deadline ∷ []) (cluster [] none) r
dial-Dialled_example =
    dial-Dialled platform provider (codes "me") (backoff ∷ deadline ∷ []) (cluster [] none) refl

trims_private : (n : ℕ) → trim_space (b'<' ∷ n ∷ b'>' ∷ []) ≡ b'<' ∷ n ∷ b'>' ∷ []
unfolding trim_space strip nat_eq
trims_private n = refl

trims_public : (n : ℕ) → trim_space (b'[' ∷ n ∷ b']' ∷ []) ≡ b'[' ∷ n ∷ b']' ∷ []
unfolding trim_space strip nat_eq
trims_public n = refl

trims_negative : (n : ℕ) → trim_space (b'<' ∷ b'-' ∷ n ∷ b'>' ∷ []) ≡ b'<' ∷ b'-' ∷ n ∷ b'>' ∷ []
unfolding trim_space strip nat_eq
trims_negative n = refl

show_duration-parses :
    (d : ℤ)
    → (trim_space (show_duration d) ≢ [])
      × (libs.parse_duration (trim_space (show_duration d)) ≡ some d)
show_duration-parses (pos n) = ground (arith, trims_private n)
show_duration-parses (negsuc n) = ground (arith, trims_negative n)

round_trips : RoundTrips crypto
round_trips = record {
  private_key = λ seed pem signer h k. ground (arith, trims_private (first seed));
  authorized_key = λ key. ground (arith, trims_public key);
  duration = show_duration-parses;
  keys_equal-refl = λ key. ground arith;
}

abbrev request : CreateRequest crypto
request = record {
  name = codes "n";
  image = codes "i";
  memory_mb = pos 32;
  guest_host_key = codes "<" ++ 5 ∷ codes ">";
  guest_allow_key = codes "[" ++ 5 ∷ codes "]";
  guest_idle_timeout = codes "<" ++ 60 ∷ codes ">";
}

is_requested : create_request crypto provider (codes "n") ≡ ok request
unfolding create_request derive_host_key derive_ssh_signer
is_requested = refl

is_attached : instance_from_platform crypto provider (instance_of (codes "n")) ≡ ok attached
unfolding instance_from_platform instance_fqdn unikraft_dial_addr join_host_port derive_host_key
    derive_ssh_signer nat_eq text_eq
is_attached = refl

create_request-init_example :
    (g : GuestConfig libs) × (init libs (guest_variables request [] []) ≡ ok g)
    × (g.host_key ≡ 5)
    × (g.idle_timeout ≡ pos 60)
    × (allow_mux_key libs g 5 ≡ true)
create_request-init_example =
    create_request-init crypto provider (codes "n") [] [] request (instance_of (codes "n")) attached
      round_trips refl is_requested refl is_attached

abbrev named_provider : CloudEntry → Result Text Text
named_provider entry = ok entry.provider

providers_built :
    build_providers libs named_provider config
    ≡ ok ((3, codes "unikraft") ∷ (2, codes "unikraft") ∷ [])
unfolding build_providers build_from nat_eq text_eq
providers_built = refl
