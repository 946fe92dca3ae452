-- ===== src/Identity/Library.antt =====
-- What internal/protocol/v1/identity.go takes from Go's `net/url`, `net/netip` and `strings` and
-- the model does not write out: parameters.
use activity_relay_directory.Prelude.{Bool, Option, Bytes}

-- `*url.URL`, by the fields and accessors that the code reads.
pub record Url : Type 0 where
  pub scheme : Bytes
  pub opaque : Bytes
  pub has_user : Bool
  pub host : Bytes
  pub hostname : Bytes
  pub port : Bytes
  pub raw_query : Bytes
  pub force_query : Bool
  pub escaped_path : Bytes

-- `netip.Addr`, by `Is6` and `String`.
pub record Address : Type 0 where
  pub is_6 : Bool
  pub text : Bytes

pub record Library : Type 0 where
  pub parse : Bytes → Option Url
  pub trim_space : Bytes → Bytes
  pub equal_fold : Bytes → Bytes → Bool
  pub to_lower : Bytes → Bytes
  pub parse_addr : Bytes → Option Address
