-- ===== src/Server/Proxy/Laws.antt =====
-- Which backends are trusted, and what a backend is asked.
use sshmux.Base.{
  Text, codes, true, false, Option, none, List, [], ◌∷◌, ◌++◌, text_eq, ok, is_ok, has_infix, ◌≡◌,
  ◌≢◌, ◌⊎◌, ◌↔◌, refl, arith, Any, Result-cases, inl, inr, subst, is_some, append_assoc, ap, ◌∙◌,
}
use sshmux.Errors.{Error}
use sshmux.Externals.{Libs, System}
use sshmux.Config.{RouteEntry}
use sshmux.Config.SshKey.{is_zero}
use sshmux.Server.Session.{Context, Session, session_pty}
use sshmux.Server.Proxy.{
  proxy_signer, key_methods, proxy_auth_methods, parse_proxy_public_key, parse_host_keys,
  check_host_key, proxy_host_key_callback, Request, close_session, close_client, Answers, set_envs,
  forward, proxy_ssh_session, with_client,
}

module _ (L : Libs) where
  -- A configured host key that parses to a key equal to the given one.
  abbrev pub Pins : System → L.PublicKey → Text → Type 0
  Pins sys key t =
      (allowed : L.PublicKey) × (parse_proxy_public_key L sys t ≡ ok allowed)
      × (L.keys_equal key allowed ≡ true)

  check-Pins :
      (sys : System) (ts : List Text) (keys : List L.PublicKey) (key : L.PublicKey)
      → parse_host_keys L sys ts ≡ ok keys
      → (check_host_key L keys key ≡ none) ↔ Any (Pins sys key) ts
  unfolding parse_host_keys check_host_key
  check-Pins sys [] [] key h = (λ e. cc, λ e. absurd e)
  check-Pins sys [] (k ∷ keys) key h = absurd (cc)
  check-Pins sys (t ∷ ts) keys key h = elim (Result-cases (parse_proxy_public_key L sys t)) [
    | inl (e, x) ↦ absurd (ground arith)
    | inr (k, x) ↦ elim (Result-cases (parse_host_keys L sys ts)) [
      | inl (e, y) ↦ absurd (ground arith)
      | inr (ks, y) ↦ ground (arith, check-Pins sys ts ks key y)
    ]
  ]

  -- With host keys configured, a backend is accepted exactly if its key is equal to one of them.
  pub proxy_host_key_callback_iff :
      (sys : System) (ts : List Text) (accepts : L.PublicKey → Option Error) (key : L.PublicKey)
      → ts ≢ []
      → proxy_host_key_callback L sys ts ≡ ok accepts
      → (accepts key ≡ none) ↔ Any (Pins sys key) ts
  unfolding proxy_host_key_callback
  proxy_host_key_callback_iff sys [] accepts key n h = absurd (n refl)
  proxy_host_key_callback_iff sys (t ∷ ts) accepts key n h =
      elim (Result-cases (parse_host_keys L sys (t ∷ ts))) [
        | inl (e, x) ↦ absurd (ground arith)
        | inr (ks, x) ↦
            let same : check_host_key L ks ≡ accepts = ground arith in
            subst {A = L.PublicKey → Option Error}
              (λ f. (f key ≡ none) ↔ Any (Pins sys key) (t ∷ ts)) same
              (check-Pins sys (t ∷ ts) ks key x)
      ]

  -- A first host key without `ssh-` in it is the path of a file, as it is written: if there is no such
  -- file the host keys are refused, whatever the home directory is.
  pub proxy_host_key_of_path :
      (sys : System) (home : Option Text) (t : Text) (ts : List Text)
      → has_infix t (codes "ssh-") ≡ false
      → sys.read_file t ≡ none
      → is_ok (proxy_host_key_callback L (record sys { user_home_dir = home }) (t ∷ ts)) ≡ false
  unfolding parse_proxy_public_key proxy_host_key_callback parse_host_keys
  proxy_host_key_of_path sys home t ts h e = ground arith

  -- The methods are found exactly if a private key or a password is configured, and no key that is
  -- not private.
  pub proxy_auth_methods_iff :
      (r : RouteEntry L)
      → let k = r.proxy.key in
        (is_ok (proxy_auth_methods L r) ≡ true) ↔ (
          ((is_zero L k ≡ true) × (r.proxy.password ≢ []))
          ⊎ ((is_zero L k ≡ false) × (k.fingerprint ≡ []) × (is_some k.signer ≡ true)))
  unfolding proxy_auth_methods key_methods proxy_signer
  proxy_auth_methods_iff r = ground arith

abbrev pub EndsWith : List Request → List Request → Type 0
EndsWith requests last = (before : List Request) × (requests ≡ before ++ last)

proxy_ssh_session-opened :
    (a : Answers) (ctx : Context) (s : Session)
    → a.new_session ≡ none
    → (proxy_ssh_session a ctx s).0
      ≡ (set_envs s.environ ++ (forward a (session_pty ctx s) s.raw_command).0)
        ++ close_session ∷ []
unfolding proxy_ssh_session
proxy_ssh_session-opened a ctx s h = ground arith

-- Once a session with the backend is opened, it is closed at the end, and then the client, whatever
-- the backend answers to the requests between.
pub with_client_lem :
    (a : Answers) (ctx : Context) (s : Session)
    → a.new_session ≡ none
    → EndsWith (with_client none a ctx s).0 (close_session ∷ close_client ∷ [])
unfolding with_client
with_client_lem a ctx s opened =
    let before = set_envs s.environ ++ (forward a (session_pty ctx s) s.raw_command).0 in
    (
      before,
      ap (λ rs. rs ++ close_client ∷ []) (proxy_ssh_session-opened a ctx s opened)
          ∙ append_assoc before (close_session ∷ []) (close_client ∷ []),
    )
