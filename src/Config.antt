-- ===== src/Config.antt =====
-- internal/config/config.go: the types of the configuration.
pub mod Pattern
pub mod SshKey
pub mod Unmarshal
pub mod Validate
use sshmux.Base.{Text, Option, Bool, List, ℤ}
use sshmux.Externals.{Libs}
use Pattern.{Pattern as NamePattern}
use SshKey.{SshKey as Key}

pub record RunEntry : Type 0 where
  pub cmd : Text
  pub pty : Option Bool

pub record CloudEntry : Type 0 where
  pub provider : Text
  pub image : Text
  pub metro : Text
  pub memory_mb : ℤ
  pub session_ttl : ℤ
  pub max_instances : ℤ

module _ (L : Libs) where
  pub record AuthEntry : Type 0 where
    pub key : Key L
    pub password : Text
    pub role : List Text

  pub record ProxyEntry : Type 0 where
    pub host : Text
    pub user : Text
    pub password : Text
    pub key : Key L
    pub host_key : List Text

  pub record RouteEntry : Type 0 where
    pub username : NamePattern L
    pub role : Text
    pub run : RunEntry
    pub proxy : ProxyEntry
    pub cloud : CloudEntry

  pub record Config : Type 0 where
    pub auth : List AuthEntry
    pub routes : List RouteEntry
