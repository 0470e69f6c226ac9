-- ===== src/Tests/Sample.antt =====
-- Simple stand-ins for the third-party code, and a configuration that uses every kind of route.
use sshmux.Base.{
  ℕ, Text, codes, Bool, if◌then◌else◌, Option, none, some, [], ◌∷◌, ◌||◌, ◌==◌, nat_eq, text_eq, ℤ,
  pos, negsuc,
}
use sshmux.Externals.{Libs, System}
use sshmux.Config.{RunEntry, CloudEntry, ProxyEntry, RouteEntry, Config}
use sshmux.Config.Pattern.{Pattern, empty_pattern}
use sshmux.Config.SshKey.{SshKey, only_raw}
use sshmux.Server.Session.{Session}

abbrev compile_word : Text → Option Text
compile_word [] = none
compile_word (c ∷ s) = some (c ∷ s)

-- The number between two marks
abbrev between : Text → Option ℕ
between (a ∷ n ∷ b ∷ []) = some n
between s = none

abbrev duration_between : Text → Option ℤ
duration_between (a ∷ n ∷ b ∷ []) = some (pos n)
duration_between (a ∷ b ∷ n ∷ c ∷ []) = some (negsuc n)
duration_between s = none

abbrev plain : Text → Option (Text → Bool)
plain stored = some (λ password. password == stored)

-- Keys are numbers; the text of a key is its number between two marks.
abbrev pub libs : Libs
libs = record {
  Regexp = Text;
  compile = compile_word;
  match_string = λ re s. re == s;
  path_match = λ pattern name. some (pattern == codes "*" || pattern == name);
  parse_duration = duration_between;
  PublicKey = ℕ;
  Signer = ℕ;
  signer_public_key = λ n. n;
  keys_equal = λ a b. a == b;
  fingerprint_sha256 = λ n. b'S' ∷ n ∷ [];
  marshal = λ n. n ∷ [];
  parse_private_key = between;
  parse_authorized_key = between;
  parse_public_key = between;
  default_systems = plain ∷ [];
}

-- One file, and a home directory
abbrev pub system : System
system = record {
  read_file = λ path. if path == codes "/keys/7" then some (codes "<7>") else none;
  user_home_dir = some (codes "/home/me");
}

abbrev empty_key : SshKey libs
empty_key = only_raw libs []

-- A key `<7>` given as text
abbrev pub key_seven : SshKey libs
key_seven = record {
  raw = codes "<7>";
  path = [];
  fingerprint = [];
  public_key = some 7;
  signer = some 7;
}

abbrev pub named : Text → Pattern libs
named user = record (empty_pattern libs) { allow = user ∷ [] }

abbrev no_run : RunEntry
no_run = record { cmd = []; pty = none }

abbrev no_proxy : ProxyEntry libs
no_proxy = record { host = []; user = []; password = []; key = empty_key; host_key = [] }

abbrev no_cloud : CloudEntry
no_cloud = record {
  provider = [];
  image = [];
  metro = [];
  memory_mb = pos 0;
  session_ttl = pos 0;
  max_instances = pos 0;
}

abbrev pub run_route : Text → Text → RouteEntry libs
run_route user role = record {
  username = named user;
  role = role;
  run = record { cmd = codes "ls"; pty = none };
  proxy = no_proxy;
  cloud = no_cloud;
}

abbrev pub proxy_route : Text → Text → RouteEntry libs
proxy_route user role = record (run_route user role) {
  run = no_run;
  proxy = record no_proxy { host = codes "h"; key = key_seven };
}

abbrev pub cloud_route : Text → Text → RouteEntry libs
cloud_route user role = record (run_route user role) {
  run = no_run;
  cloud = record no_cloud { provider = codes "unikraft" };
}

-- `a` is public, `b` and `c` ask for roles; the key 7 has the role `r`, the password `pw` the role `q`.
abbrev pub config : Config libs
config = record {
  auth =
      record { key = key_seven; password = []; role = codes "r" ∷ [] }
      ∷ record { key = empty_key; password = codes "pw"; role = codes "q" ∷ [] }
      ∷ [];
  routes =
      run_route (codes "a") []
      ∷ proxy_route (codes "b") (codes "r")
      ∷ cloud_route (codes "c") (codes "q")
      ∷ cloud_route (codes "b") (codes "q")
      ∷ [];
}

abbrev pub session : Text → Session
session user = record {
  id = 1;
  user = user;
  environ = codes "K=v" ∷ [];
  raw_command = codes "ls";
  pty = none;
}
