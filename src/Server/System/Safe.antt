-- ===== src/Server/System/Safe.antt =====
-- The server that runs on a checked configuration stays well-formed, whatever happens.
use connauth.Common.{
  ℕ, zero, suc, ◌≡◌, ◌≢◌, refl, ◌∙◌, String, Option, none, some, List, [], ◌∷◌, arith, All, ok,
}
use connauth.Library.{Library}
use connauth.World.{World}
use connauth.Pending.Invariant.{new_pending_challenge_store-IsConsistent}
use connauth.Pending.Cleanup.{cleanup-IsConsistent}
use connauth.Server.Config.{Config, ForwardConfig}
use connauth.Server.Config.Check.{config_check_valid}
use connauth.Server.Config.Check.Sound.{IsReady, config_check_valid-IsChecked}
use connauth.Server.Clients.{ClientList, refresh_client_list, is_ip_authed}
use connauth.Server.Clients.Lists.{
  refresh_client_list-eq, cleanup-Distinct, size-cleanup-le, scan_clients-Distinct,
  size-scan_clients-le,
}
use connauth.Server.Clients.Grant.{IsBounded}
use connauth.Server.Clients.Grant.Everywhere.{Served, init_client_list-Served}
use connauth.Server.Handler.{Server, Handled, handle_auth_packet}
use connauth.Server.Handler.Open.{IsGood, handle_auth_packet-Returns}
use connauth.Server.System.{
  start, clean, refresh_at, check_at, Step, packet, cleans, refreshes, checks, Reach, here, next,
}

refresh_client_list-IsBounded :
    (l : ClientList) (now : ℕ) → IsBounded l → IsBounded (refresh_client_list l now)
refresh_client_list-IsBounded l now b = rw (refresh_client_list-eq l now) (record {
  distinct = cleanup-Distinct now l b.distinct;
  limit = omega (arith, size-cleanup-le now l, b.limit);
})

is_ip_authed-IsBounded :
    (lib : Library) (c : Config) (f : ForwardConfig) (l : ClientList) (ip : String) (now : ℕ)
    → IsBounded l
    → IsBounded (is_ip_authed lib c f l ip now).1
unfolding is_ip_authed
is_ip_authed-IsBounded lib c f l ip now b = record {
  distinct = ground (arith, b.distinct, scan_clients-Distinct l ip now b.distinct);
  limit = ground (arith, b.limit, size-scan_clients-le l ip now);
}

refresh_at-Served :
    (i now : ℕ) (fs : List ForwardConfig) (ls : List ClientList)
    → Served fs ls
    → Served fs (refresh_at i now ls)
unfolding refresh_at
refresh_at-Served i now [] [] s = tt
refresh_at-Served i now [] (l ∷ ls) s = absurd s
refresh_at-Served i now (f ∷ fs) [] s = absurd s
refresh_at-Served zero now (f ∷ fs) (l ∷ ls) s = (s.0, refresh_client_list-IsBounded l now s.1, s.2)
refresh_at-Served (suc i) now (f ∷ fs) (l ∷ ls) s = (s.0, s.1, refresh_at-Served i now fs ls s.2)

check_at-Served :
    (lib : Library) (c : Config) (i : ℕ) (ip : String) (now : ℕ) (fs : List ForwardConfig)
    (ls : List ClientList)
    → Served fs ls
    → Served fs (check_at lib c i ip now fs ls)
unfolding check_at
check_at-Served lib c i ip now [] ls s = s
check_at-Served lib c i ip now (f ∷ fs) [] s = absurd s
check_at-Served lib c zero ip now (f ∷ fs) (l ∷ ls) s =
    (s.0, is_ip_authed-IsBounded lib c f l ip now s.1, s.2)
check_at-Served lib c (suc i) ip now (f ∷ fs) (l ∷ ls) s =
    (s.0, s.1, check_at-Served lib c i ip now fs ls s.2)

-- Well-formed, and with the configuration that the server was started with.
pub record IsServing (c : Config) (s : Server) : Type 0 where
  pub good : IsGood s
  pub same_config : s.config ≡ c

module _ (w : World) (c : Config) where
  packet-IsServing :
      (s : Server) (h : Handled w.crypto.Byte)
      → (r : Option (Handled w.crypto.Byte)) → r ≡ some h
      → (handled : Handled w.crypto.Byte) → r ≡ some handled
      → IsGood handled.server
      → handled.server.config ≡ s.config
      → IsServing c s
      → IsServing c h.server
  packet-IsServing s h r e handled returned good same v =
      let agree : handled ≡ h = ground (arith, e, returned) in
      rw (← agree) (record { good = good; same_config = same ∙ v.same_config })

  Step-IsServing : {s t : Server} → Step w s t → IsServing c s → IsServing c t
  unfolding clean
  Step-IsServing {s} (packet clock random_nonce random_seal peer bytes h e) v =
      let r = handle_auth_packet-Returns w s clock peer v.good random_nonce random_seal bytes in
      packet-IsServing s h (handle_auth_packet w s clock random_nonce random_seal peer bytes) e
        r.handled r.returned r.still_good r.same_config v
  Step-IsServing {s} (cleans now) v = record {
    good = record {
      consistent = cleanup-IsConsistent s.pending now v.good.consistent;
      served = v.good.served;
    };
    same_config = v.same_config;
  }
  Step-IsServing {s} (refreshes i now) v = record {
    good = record {
      consistent = v.good.consistent;
      served = refresh_at-Served i now s.config.forward_configs s.clients v.good.served;
    };
    same_config = v.same_config;
  }
  Step-IsServing {s} (checks i ip now) v = record {
    good = record {
      consistent = v.good.consistent;
      served =
          check_at-Served w.lib s.config i ip now s.config.forward_configs s.clients v.good.served;
    };
    same_config = v.same_config;
  }

  expiry_given :
      (d : Config) (fs : List ForwardConfig)
      → All (IsReady w.lib d) fs
      → All (λ (f : ForwardConfig). f.auth_expired_time ≢ none) fs
  expiry_given d [] a = tt
  expiry_given d (f ∷ fs) a = (a.0.has_expiry, expiry_given d fs a.1)

  start-IsServing :
      (raw : Config) (now : ℕ) → config_check_valid w.lib raw now ≡ ok c → IsServing c (start c)
  unfolding start
  start-IsServing raw now passed = record {
    good = record {
      consistent = new_pending_challenge_store-IsConsistent 10000 16;
      served = init_client_list-Served c (
          expiry_given raw c.forward_configs
            (config_check_valid-IsChecked w.lib raw c now passed).forwards);
    };
    same_config = refl;
  }

  -- A server that was started with a configuration that passed the check is well-formed in every
  -- state that it reaches, in whatever order packets, tickers and connections come: the pending
  -- store is consistent, every client map has distinct keys and is within its limit, and the
  -- configuration is the one that was checked.
  pub Reach-IsServing :
      (raw : Config) (now : ℕ) {s : Server}
      → config_check_valid w.lib raw now ≡ ok c
      → Reach w (start c) s
      → IsServing c s
  Reach-IsServing raw now passed here = start-IsServing raw now passed
  Reach-IsServing raw now passed (next r st) = Step-IsServing st (Reach-IsServing raw now passed r)
