-- ===== src/Library.antt =====
-- What the program calls and does not implement: name resolution, parsers of the standard library
-- and the third-party glob matcher. Every definition that uses one of them takes it from here.
use connauth.Common.{String, Bool, Option, ℤ}
use connauth.Text.{Unicode}

-- An address is its text, `net.IP.String()`.
pub record Library : Type 0 where
  pub unicode : Unicode
  -- whether net.SplitHostPort, net.ResolveUDPAddr and net.ResolveIPAddr return no error
  pub split_host_port : String → Bool
  pub resolve_udp_addr : String → Bool
  pub resolve_ip_addr : String → Bool
  -- net.ParseCIDR, with the `Contains` of the network that it returns
  pub parse_cidr : String → Option (String → Bool)
  -- time.Parse(time.RFC3339, s), in nanoseconds since 1970
  pub parse_time : String → Option ℤ
  -- glob.Glob(pattern, subject) of github.com/ryanuber/go-glob
  pub glob : String → String → Bool
