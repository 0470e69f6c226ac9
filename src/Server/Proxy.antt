-- ===== src/Server/Proxy.antt =====
-- internal/server/proxy.go: the SSH client that sshmux is towards a backend.
pub mod Laws
pub mod Forwarding
use sshmux.Base.{
  ℕ, Text, codes, Bool, true, false, not, ◌&&◌, ◌||◌, Option, none, some, List, [], ◌∷◌, ◌++◌, ◌==◌,
  text_eq, nat_eq, Result, ok, err, ◌>>=◌, if◌then◌else◌, has_infix, is_empty,
}
use sshmux.Errors.{Error, message, wrap}
use sshmux.Externals.{Libs, System}
use sshmux.Config.{RouteEntry}
use sshmux.Config.SshKey.{SshKey, is_zero}
use sshmux.Server.Session.{Context, Session, Pty, session_pty}

module _ (L : Libs) where
  -- `gossh.AuthMethod`, by the two that the code makes: `gossh.PublicKeys` and `gossh.Password`
  pub data AuthMethod : Type 0 where
    public_keys : L.Signer → AuthMethod
    password : Text → AuthMethod

  -- `proxySigner`
  unfoldable pub proxy_signer : SshKey L → Result Error L.Signer
  proxy_signer k =
      if not (k.fingerprint == [])
      then err (message (codes "proxy key must be a literal key or path, not a fingerprint"))
      else elim k.signer [
        | none ↦ err (message (codes "proxy key must be a private key"))
        | some signer ↦ ok signer
      ]

  -- The first part of `proxyAuthMethods`
  unfoldable pub key_methods : SshKey L → Result Error (List AuthMethod)
  key_methods k =
      if not (is_zero L k)
      then (proxy_signer k >>= λ signer. ok (public_keys signer ∷ []))
      else ok []

  -- The last part of `proxyAuthMethods`
  abbrev require_method : List AuthMethod → Result Error (List AuthMethod)
  require_method [] = err (message (codes "proxy route requires proxy.key or proxy.password"))
  require_method (m ∷ methods) = ok (m ∷ methods)

  -- `proxyAuthMethods`
  unfoldable pub proxy_auth_methods : RouteEntry L → Result Error (List AuthMethod)
  proxy_auth_methods r = do
    first ← key_methods r.proxy.key
    let methods =
        if not (r.proxy.password == []) then first ++ password r.proxy.password ∷ [] else first
    require_method methods

  -- The two parsers of `parseProxyPublicKey`
  unfoldable pub parse_host_key_data : Text → Result Error L.PublicKey
  parse_host_key_data bytes = elim (L.parse_authorized_key bytes) [
    | some key ↦ ok key
    | none ↦ elim (L.parse_public_key bytes) [
      | some key ↦ ok key
      | none ↦ err (message (codes "ssh: invalid public key"))
    ]
  ]

  -- `parseProxyPublicKey`
  unfoldable pub parse_proxy_public_key : System → Text → Result Error L.PublicKey
  parse_proxy_public_key sys key =
      if not (has_infix key (codes "ssh-"))
      then elim (sys.read_file key) [
        | none ↦ err (wrap (codes "read proxy host key") (message key))
        | some bytes ↦ parse_host_key_data bytes
      ]
      else parse_host_key_data key

  -- The loop over the pinned keys
  unfoldable pub parse_host_keys : System → List Text → Result Error (List L.PublicKey)
  parse_host_keys sys [] = ok []
  parse_host_keys sys (t ∷ ts) = elim (parse_proxy_public_key sys t) [
    | err e ↦ err (wrap (codes "parse proxy host key") e)
    | ok key ↦ parse_host_keys sys ts >>= λ keys. ok (key ∷ keys)
  ]

  -- The callback over the pinned keys
  unfoldable pub check_host_key : List L.PublicKey → L.PublicKey → Option Error
  check_host_key [] key =
      some (message (codes "remote host key does not match pinned proxy host keys"))
  check_host_key (allowed ∷ keys) key =
      if L.keys_equal key allowed then none else check_host_key keys key

  -- `proxyHostKeyCallback`; without keys it is `gossh.InsecureIgnoreHostKey`.
  unfoldable pub proxy_host_key_callback :
      System → List Text → Result Error (L.PublicKey → Option Error)
  proxy_host_key_callback sys [] = ok (λ key. none)
  proxy_host_key_callback sys (t ∷ ts) =
      parse_host_keys sys (t ∷ ts) >>= λ keys. ok (check_host_key keys)

  -- `gossh.ClientConfig`
  pub record ClientConfig : Type 0 where
    pub user : Text
    pub auth : List AuthMethod
    pub host_key_callback : L.PublicKey → Option Error

  -- `dialBackend`, up to the call of `gossh.Dial`: the address and the configuration
  unfoldable pub dial_config : System → Session → RouteEntry L → Result Error (Text × ClientConfig)
  dial_config sys s r = do
    let user = if r.proxy.user == [] then s.user else r.proxy.user
    methods ← proxy_auth_methods r
    callback ← proxy_host_key_callback sys r.proxy.host_key
    ok (r.proxy.host, record { user = user; auth = methods; host_key_callback = callback })

-- `strings.Cut(env, "=")`
unfoldable pub cut : Text → Option (Text × Text)
cut [] = none
cut (c ∷ s) =
    let rest = cut s in
    if c == b'=' then some ([], s) else elim rest [ none ↦ none | some (k, v) ↦ some (c ∷ k, v) ]

-- What sshmux does with a backend, in order.
pub data Request : Type 0 where
  set_env : Text → Text → Request
  request_pty : Pty → Request
  start : Text → Request
  shell : Request
  wait : Request
  close_session : Request
  close_client : Request

-- What the backend answers; `none` is no error. The answer to `Setenv` is not looked at.
pub record Answers : Type 0 where
  pub new_session : Option Error
  pub to_pty : Option Error
  pub to_start : Option Error
  pub to_wait : Option Error

-- The loop over `s.Environ()`
unfoldable pub set_envs : List Text → List Request
set_envs [] = []
set_envs (env ∷ envs) =
    let rest = set_envs envs in elim (cut env) [ none ↦ rest | some (k, v) ↦ set_env k v ∷ rest ]

-- The command or the shell, and the wait for it.
unfoldable pub run_backend : Answers → Text → List Request × Option Error
run_backend a raw =
    let first = if not (raw == []) then start raw else shell in
    elim a.to_start [
      | none ↦ (first ∷ wait ∷ [], a.to_wait)
      | some e ↦ (
        first ∷ [],
        some (
            if not (raw == [])
            then wrap (codes "start backend command") e
            else wrap (codes "start backend shell") e),
      )
    ]

-- The PTY request, if the client made one, and what follows.
unfoldable pub forward : Answers → Option Pty → Text → List Request × Option Error
forward a none raw = run_backend a raw
forward a (some pty) raw = elim a.to_pty [
  | none ↦ let (requests, e) = run_backend a raw in (request_pty pty ∷ requests, e)
  | some e ↦ (request_pty pty ∷ [], some (wrap (codes "request backend pty") e))
]

-- `proxySSHSession`: what it does, and the error that it returns. The session is closed last.
unfoldable pub proxy_ssh_session : Answers → Context → Session → List Request × Option Error
proxy_ssh_session a ctx s = elim a.new_session [
  | some e ↦ ([], some (wrap (codes "new backend session") e))
  | none ↦
      let (requests, e) = forward a (session_pty ctx s) s.raw_command in
      (set_envs s.environ ++ requests ++ close_session ∷ [], e)
]

-- `proxySession`, given what `gossh.Dial` answers; `cloudSession`, given what `provider.Dial` does.
-- Once there is a client it is closed last.
unfoldable pub with_client :
    Option Error → Answers → Context → Session → List Request × Option Error
with_client (some e) a ctx s = ([], some e)
with_client none a ctx s =
    let (requests, e) = proxy_ssh_session a ctx s in (requests ++ close_client ∷ [], e)
