-- ===== src/Cloud/Unikraft/Keys.antt =====
-- The keys of an instance, at both ends: what internal/cloud/unikraft.go pins and passes on, and
-- what support/guest/config.go makes of it.
use sshmux.Base.{
  Text, codes, true, some, [], ok, ◌≡◌, ◌≢◌, refl, arith, ap, ◌∙◌, trim_space, ℤ, Option-cases, inl,
  inr, take,
}
use sshmux.Externals.{Libs}
use sshmux.Guest.Session.{
  Variables, GuestConfig, init, parse_host_key, parse_allow_key, parse_idle_timeout, is_positive,
  allow_mux_key, cmp_or,
}
use sshmux.Cloud.Unikraft.{
  Crypto, UnikraftProvider, Instance, UnikraftInstance, CreateRequest, create_request,
  instance_from_platform, derive_host_key, derive_ssh_signer, host_message,
}

-- What is documented of the encodings: what is printed parses again, once trimmed, and is not empty.
pub record RoundTrips {L : Libs} (C : Crypto L) : Type 0 where
  pub private_key :
      (seed pem : Text) (signer : L.Signer)
      → C.new_signer seed ≡ some signer
      → C.private_key_pem seed ≡ some pem
      → (trim_space pem ≢ []) × (L.parse_private_key (trim_space pem) ≡ some signer)
  pub authorized_key :
      (key : L.PublicKey)
      → (trim_space (C.marshal_authorized_key key) ≢ [])
        × (L.parse_authorized_key (trim_space (C.marshal_authorized_key key)) ≡ some key)
  pub duration :
      (d : ℤ)
      → (trim_space (C.duration_string d) ≢ [])
        × (L.parse_duration (trim_space (C.duration_string d)) ≡ some d)
  pub keys_equal-refl : (key : L.PublicKey) → L.keys_equal key key ≡ true

-- The environment of a guest, from the request that creates it.
abbrev pub guest_variables : {L : Libs} {C : Crypto L} → CreateRequest C → Text → Text → Variables
guest_variables request shell home = record {
  guest_host_key = request.guest_host_key;
  guest_allow_key = request.guest_allow_key;
  guest_idle_timeout = request.guest_idle_timeout;
  shell = shell;
  home = home;
}

module _ (L : Libs) where
  parse_host_key-ok :
      (value : Text) (signer : L.Signer)
      → trim_space value ≢ []
      → L.parse_private_key (trim_space value) ≡ some signer
      → parse_host_key L value ≡ ok signer
  unfolding parse_host_key
  parse_host_key-ok value signer h k = ground arith

  parse_allow_key-ok :
      (value : Text) (key : L.PublicKey)
      → trim_space value ≢ []
      → L.parse_authorized_key (trim_space value) ≡ some key
      → parse_allow_key L value ≡ ok key
  unfolding parse_allow_key
  parse_allow_key-ok value key h k = ground arith

  parse_idle_timeout-ok :
      (value : Text) (d : ℤ)
      → trim_space value ≢ []
      → L.parse_duration (trim_space value) ≡ some d
      → is_positive d ≡ true
      → parse_idle_timeout L value ≡ ok d
  unfolding parse_idle_timeout
  parse_idle_timeout-ok value d h k l = ground arith

  init-ok :
      (v : Variables) (signer : L.Signer) (key : L.PublicKey) (d : ℤ)
      → parse_host_key L v.guest_host_key ≡ ok signer
      → parse_allow_key L v.guest_allow_key ≡ ok key
      → parse_idle_timeout L v.guest_idle_timeout ≡ ok d
      → (g : GuestConfig L) × (init L v ≡ ok g)
        × (g.host_key ≡ signer)
        × (g.allow_key ≡ key)
        × (g.idle_timeout ≡ d)
  unfolding init
  init-ok v signer key d h k l = (
    record {
      host_key = signer;
      allow_key = key;
      idle_timeout = d;
      shell = cmp_or v.shell (codes "/bin/sh");
      home = cmp_or v.home (codes "/home/user");
    },
    ground arith,
    refl,
    refl,
    refl,
  )

  allow_mux_key-equal :
      (g : GuestConfig L) (key : L.PublicKey)
      → L.keys_equal key key ≡ true
      → g.allow_key ≡ key
      → allow_mux_key L g key ≡ true
  unfolding allow_mux_key
  allow_mux_key-equal g key h e = ground arith

module _ {L : Libs} (C : Crypto L) (p : UnikraftProvider) where
  derive_host_key_inv :
      (name pem : Text) (key : L.PublicKey)
      → derive_host_key C p name ≡ some (key, pem)
      → (seed : Text) × (signer : L.Signer) × (C.new_signer seed ≡ some signer)
        × (C.private_key_pem seed ≡ some pem)
        × (L.signer_public_key signer ≡ key)
  unfolding derive_host_key
  derive_host_key_inv name pem key h =
      let seed = take 32 (C.hmac_sha256 p.seed (host_message C name)) in
      elim (Option-cases (C.new_signer seed)) [
        | inl no_signer ↦ absurd (ground arith)
        | inr (signer, made) ↦ elim (Option-cases (C.private_key_pem seed)) [
          | inl no_pem ↦ absurd (ground arith)
          | inr (text, printed) ↦ (seed, signer, made, ground arith, ground arith)
        ]
      ]

  create_request_inv :
      (name : Text) (request : CreateRequest C)
      → create_request C p name ≡ ok request
      → (key : L.PublicKey) × (auth : L.Signer) × (derive_host_key C p name
          ≡ some (key, request.guest_host_key))
        × (derive_ssh_signer C p (codes "auth") name ≡ some auth)
        × (request.guest_allow_key ≡ C.marshal_authorized_key (L.signer_public_key auth))
        × (request.guest_idle_timeout ≡ C.duration_string p.idle_ttl)
  unfolding create_request
  create_request_inv name request h = elim (Option-cases (derive_host_key C p name)) [
    | inl no_host ↦ absurd (ground arith)
    | inr (host, made) ↦ elim (Option-cases (derive_ssh_signer C p (codes "auth") name)) [
      | inl no_auth ↦ absurd (ground arith)
      | inr (auth, derived) ↦ (host.0, auth, ground arith, derived, ground arith, ground arith)
    ]
  ]

  instance_inv :
      (i : Instance) (inst : UnikraftInstance C)
      → instance_from_platform C p i ≡ ok inst
      → (pem : Text) × (derive_host_key C p i.name ≡ some (inst.host_key, pem))
        × (derive_ssh_signer C p (codes "auth") i.name ≡ some inst.auth_key)
  unfolding instance_from_platform
  instance_inv i inst h = elim (Option-cases (derive_host_key C p i.name)) [
    | inl no_host ↦ absurd (ground arith)
    | inr (host, made) ↦ elim (Option-cases (derive_ssh_signer C p (codes "auth") i.name)) [
      | inl no_auth ↦ absurd (ground arith)
      | inr (auth, derived) ↦ (host.1, ground arith, ground arith)
    ]
  ]

  same_host :
      (n m s t : Text) (key key' : L.PublicKey)
      → m ≡ n
      → derive_host_key C p n ≡ some (key, s)
      → derive_host_key C p m ≡ some (key', t)
      → key ≡ key'
  same_host n m s t key key' e h k = ground arith

  same_auth :
      (label n m : Text) (a b : L.Signer)
      → m ≡ n
      → derive_ssh_signer C p label n ≡ some a
      → derive_ssh_signer C p label m ≡ some b
      → a ≡ b
  same_auth label n m a b e h k = ground arith

  -- A guest comes up that was created for a name, by a provider whose idle time is positive; and a
  -- later look-up of the instance of that name, also by another connection, agrees with it: the
  -- pinned host key is the guest's, the guest admits the key that the provider signs in with, and
  -- its timeout is the provider's.
  pub create_request-init :
      (name shell home : Text) (request : CreateRequest C) (i : Instance)
      (inst : UnikraftInstance C)
      → RoundTrips C
      → is_positive p.idle_ttl ≡ true
      → create_request C p name ≡ ok request
      → i.name ≡ name
      → instance_from_platform C p i ≡ ok inst
      → (g : GuestConfig L) × (init L (guest_variables request shell home) ≡ ok g)
        × (L.signer_public_key g.host_key ≡ inst.host_key)
        × (g.idle_timeout ≡ p.idle_ttl)
        × (allow_mux_key L g (L.signer_public_key inst.auth_key) ≡ true)
  create_request-init name shell home request i inst rt pos_ttl made same found =
      let (key, auth, host, derived, allow, idle) = create_request_inv name request made in
      let (seed, signer, new, pem, pub_key) =
        derive_host_key_inv name request.guest_host_key key host in
      let (inst_pem, inst_host, inst_auth) = instance_inv i inst found in
      let (pem_set, pem_parses) = rt.private_key seed request.guest_host_key signer new pem in
      let (line_set, line_parses) = rt.authorized_key (L.signer_public_key auth) in
      let (ttl_set, ttl_parses) = rt.duration p.idle_ttl in
      let (g, up, g_host, g_allow, g_idle) =
        init-ok L (guest_variables request shell home) signer (L.signer_public_key auth) p.idle_ttl
          (parse_host_key-ok L request.guest_host_key signer pem_set pem_parses)
          (ground (arith, parse_allow_key-ok L request.guest_allow_key (L.signer_public_key auth)))
          (ground (arith, parse_idle_timeout-ok L request.guest_idle_timeout p.idle_ttl)) in
      (
        g,
        up,
        ap (λ k. L.signer_public_key k) g_host
            ∙ pub_key
            ∙ same_host name i.name request.guest_host_key inst_pem key inst.host_key same host
                inst_host,
        g_idle,
        allow_mux_key-equal L g (L.signer_public_key inst.auth_key)
            (rt.keys_equal-refl (L.signer_public_key inst.auth_key))
            (g_allow
              ∙ ap (λ k. L.signer_public_key k)
                  (same_auth (codes "auth") name i.name auth inst.auth_key same derived inst_auth)),
      )
