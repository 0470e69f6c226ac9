-- ===== src/Config/SshKey/Laws.antt =====
-- What `ParseSSHKey` returns.
use sshmux.Base.{
  Text, codes, true, none, [], text_eq, ok, ◌≡◌, ◌≢◌, ◌⊎◌, has_prefix, trim_space, is_some, arith,
}
use mathlib.Core.Option
use sshmux.Externals.{Libs, System}
use sshmux.Config.SshKey.{SshKey, parse_key_data, read_key_file, parse_ssh_key}

module _ (L : Libs) where
  -- A key holds a fingerprint or a parsed key, never both, and a signer comes with its own public key.
  pub record IsWellFormed (k : SshKey L) : Type 0 where
    pub alone : (k.fingerprint ≡ []) ⊎ ((k.path ≡ []) × (k.public_key ≡ none) × (k.signer ≡ none))
    pub marked : (k.fingerprint ≡ []) ⊎ (has_prefix k.fingerprint (codes "SHA256:") ≡ true)
    pub paired : (k.signer ≡ none) ⊎ (k.public_key ≡ Option.map L.signer_public_key k.signer)
    pub found : (trim_space k.raw ≡ []) ⊎ (k.fingerprint ≢ []) ⊎ (is_some k.public_key ≡ true)

  -- A key that parses holds a fingerprint, marked `SHA256:`, or a parsed key, and never both; a
  -- signer comes with its own public key; and only a blank text gives neither.
  pub parse_ssh_key-IsWellFormed :
      (sys : System) (raw : Text) (k : SshKey L) → parse_ssh_key L sys raw ≡ ok k → IsWellFormed k
  unfolding parse_ssh_key parse_key_data read_key_file
  parse_ssh_key-IsWellFormed sys raw k h = ground arith
