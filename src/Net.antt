-- ===== src/Net.antt =====
-- What the program takes from Go's packages `net` and `unicode`: addresses stay abstract, and
-- every theorem holds for all functions that stand here.
pub mod Samples
use anix_ops_sd_wan.Base.{ℕ, Text, Bool, Option, map}

pub record Net : Type 1 where
  -- net.IP and net.IPNet
  pub Ip : Type 0
  pub Network : Type 0
  -- net.ParseIP; `none` is nil
  pub parse_ip : Text → Option Ip
  -- net.ParseCIDR; `none` is an error
  pub parse_cidr : Text → Option Network
  -- (*net.IPNet).Contains
  pub contains : Network → Ip → Bool
  -- unicode.ToLower
  pub lower_rune : ℕ → ℕ

-- strings.ToLower
unfoldable pub to_lower : Net → Text → Text
to_lower net s = map net.lower_rune s
