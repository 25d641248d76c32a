-- ===== src/Config.antt =====
-- src/config.rs: the configuration as serde decodes it. `toml::from_str` is not modelled; a `Config`
-- is what it returns.
use text.Mathlib.Text.{◌==◌ as str_eq}
use Prim.Native.String.{String}
use alpheratz.Prelude.{ℕ, List, [], Option, none, Bool, false, Str, if◌then◌else◌, some, bytes}

-- `SavedTag` has one value.
pub data SavedTag : Type 0 where
  saved_tag : SavedTag

-- `Default` of the source.
pub data DefaultEntry : Type 0 where
  saved : SavedTag → DefaultEntry
  index : ℕ → DefaultEntry

-- `SavedTag::try_from`: the error is `none`.
unfoldable pub try_from : String → Option SavedTag
try_from s = if str_eq s "@saved" then some saved_tag else none

pub data Protocol : Type 0 where
  canicula linux : Protocol

-- `Display`
abbrev pub fmt : Protocol → Str
fmt Protocol.canicula = bytes "canicula"
fmt Protocol.linux = bytes "linux"

pub data FileType : Type 0 where
  kernel initrd cmdline : FileType

pub data SearchMethod : Type 0 where
  esp https inline : SearchMethod

pub data SelectStrategy : Type 0 where
  latest : SelectStrategy

pub data NetworkType : Type 0 where
  dhcp : NetworkType

pub record BootFile : Type 0 where
  pub file_type : FileType
  pub search : SearchMethod
  pub file : Option Str
  pub content : Option Str
  pub select : Option SelectStrategy

pub record Identity : Type 0 where
  pub hostname : Option Str
  pub uuid : Option Str
  pub mac : Option Str
  pub token : Option Str

pub record Network : Type 0 where
  pub bind : Option Str
  pub network_type : Option NetworkType

pub record Entry : Type 0 where
  pub name : Str
  pub protocol : Protocol
  pub identity : Option Identity
  pub files : List BootFile

pub record Config : Type 0 where
  pub default : DefaultEntry
  pub timeout : ℕ
  pub shutdown : Bool
  pub firmware : Bool
  pub backgrounds : List Str
  pub drivers : List Str
  pub identity : Option Identity
  pub network : Option Network
  pub entry : List Entry

unfoldable pub default_index_zero : DefaultEntry
default_index_zero = index 0

unfoldable pub default_timeout : ℕ
default_timeout = 3

entry_index : DefaultEntry → ℕ
entry_index (index i) = i
entry_index (saved _) = 0

unfoldable pub default_entry_index : Config → ℕ
unfolding entry_index
default_entry_index cfg = entry_index cfg.default

-- `Config::default()`
abbrev pub default_config : Config
default_config = record {
  default = index 0;
  timeout = 3;
  shutdown = false;
  firmware = false;
  backgrounds = [];
  drivers = [];
  identity = none;
  network = none;
  entry = [];
}
