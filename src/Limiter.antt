-- ===== src/Limiter.antt =====
-- `connectionLimiter` of cmd/authserver/forward.go: how many connections a forward port may have
-- open, over all addresses and for each. The limits are uint32 values, and 0 means no limit.
pub mod Refinement
pub mod Schedule
use connauth.Common.{
  ℕ, ◌+◌, ◌-◌, String, Bool, true, false, [], string_eq, ltb, leb, ◌&&◌, if◌then◌else◌, Map, get_or,
  lookup, insert, erase,
}

pub record ConnectionLimiter : Type 0 where
  pub global : ℕ
  pub by_ip : Map String ℕ
  pub max_global : ℕ
  pub max_per_ip : ℕ

unfoldable pub new_connection_limiter : ℕ → ℕ → ConnectionLimiter
new_connection_limiter max_global max_per_ip = record {
  global = 0;
  by_ip = [];
  max_global = max_global;
  max_per_ip = max_per_ip;
}

-- l.byIP[ip]: a missing key reads as 0
abbrev pub conns_of : ConnectionLimiter → String → ℕ
conns_of l ip = get_or (lookup ip l.by_ip) 0

unfoldable pub acquire : ConnectionLimiter → String → ConnectionLimiter × Bool
acquire l ip =
    if ltb 0 l.max_global && leb l.max_global l.global
    then (l, false)
    else if ltb 0 l.max_per_ip && leb l.max_per_ip (conns_of l ip)
    then (l, false)
    else (record l { global = l.global + 1; by_ip = insert ip (conns_of l ip + 1) l.by_ip }, true)

unfoldable pub release : ConnectionLimiter → String → ConnectionLimiter
release l ip = record l {
  global = if ltb 0 l.global then l.global - 1 else l.global;
  by_ip = if ltb 1 (conns_of l ip) then insert ip (conns_of l ip - 1) l.by_ip else erase ip l.by_ip;
}
