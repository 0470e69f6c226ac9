-- ===== src/Config/SshKey.antt =====
-- internal/config/sshkey.go: keys of the configuration, given as text, as a path or as a fingerprint.
pub mod Laws
use sshmux.Base.{
  Text, codes, Bool, true, false, not, ◌&&◌, ◌||◌, Option, none, some, List, [], ◌∷◌, ◌++◌, ◌==◌,
  text_eq, Result, ok, err, ◌>>=◌, if◌then◌else◌, has_prefix, has_infix, trim_space, is_some, drop,
}
use sshmux.Externals.{Libs, System}

-- The two errors of `ParseSSHKey`, each with the text that it names.
pub data KeyError : Type 0 where
  read_ssh_key : Text → KeyError
  parse_ssh_key_failed : KeyError

-- `looksLikeSSHKeyLiteral`
unfoldable pub looks_like_ssh_key_literal : Text → Bool
looks_like_ssh_key_literal value =
    has_infix value (codes "-----BEGIN ")
    || has_prefix value (codes "ssh-")
    || has_prefix value (codes "ecdsa-")
    || has_prefix value (codes "sk-")

-- `expandHome`
unfoldable pub expand_home : System → Text → Text
expand_home sys path =
    if not (path == codes "~") && not (has_prefix path (codes "~/"))
    then path
    else elim sys.user_home_dir [
      | none ↦ path
      | some home ↦ if path == codes "~" then home else home ++ drop 1 path
    ]

module _ (L : Libs) where
  pub record SshKey : Type 0 where
    pub raw : Text
    pub path : Text
    pub fingerprint : Text
    pub public_key : Option L.PublicKey
    pub signer : Option L.Signer

  -- The zero value of the struct, with its text: `SSHKey{Raw: raw}`.
  abbrev pub only_raw : Text → SshKey
  only_raw raw = record { raw = raw; path = []; fingerprint = []; public_key = none; signer = none }

  -- The three parsers in turn, over the bytes of the key.
  unfoldable pub parse_key_data : SshKey → Text → Result KeyError SshKey
  parse_key_data key bytes = elim (L.parse_private_key bytes) [
    | some signer ↦
        ok (record key { signer = some signer; public_key = some (L.signer_public_key signer) })
    | none ↦ elim (L.parse_authorized_key bytes) [
      | some pub_key ↦ ok (record key { public_key = some pub_key })
      | none ↦ elim (L.parse_public_key bytes) [
        | some pub_key ↦ ok (record key { public_key = some pub_key })
        | none ↦ err parse_ssh_key_failed
      ]
    ]
  ]

  -- A key that is not a literal is a path: the file is read.
  unfoldable pub read_key_file : System → SshKey → Text → Result KeyError SshKey
  read_key_file sys key raw =
      let path = expand_home sys raw in
      elim (sys.read_file path) [
        | none ↦ err (read_ssh_key raw)
        | some bytes ↦ parse_key_data (record key { path = path }) bytes
      ]

  -- `ParseSSHKey`
  unfoldable pub parse_ssh_key : System → Text → Result KeyError SshKey
  parse_ssh_key sys raw =
      let key = only_raw raw in
      let text = trim_space raw in
      if text == []
      then ok key
      else if has_prefix text (codes "SHA256:")
      then ok (record key { fingerprint = text })
      else if looks_like_ssh_key_literal text
      then parse_key_data key text
      else read_key_file sys key text

  -- `SSHKey.IsZero`
  unfoldable pub is_zero : SshKey → Bool
  is_zero k =
      k.raw == []
      && k.path == []
      && k.fingerprint == []
      && not (is_some k.public_key)
      && not (is_some k.signer)
