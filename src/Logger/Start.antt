-- ===== src/Logger/Start.antt =====
-- When the hook starts.
use connauth.Common.{◌≡◌, ◌≢◌, String, Bool, true, some, arith, eq_iff, string_eq, ok}
use connauth.Logger.{AliyunSlsConfig, apply_sls_env, normalize_endpoint, new_sls_hook}

-- Settings with which the hook can send.
pub record IsComplete (is_uri : String → Bool) (cfg : AliyunSlsConfig) : Type 0 where
  pub enabled : cfg.enabled ≡ true
  pub endpoint : cfg.endpoint ≢ ""
  pub project_name : cfg.project_name ≢ ""
  pub log_store_name : cfg.log_store_name ≢ ""
  pub access_key_id : cfg.access_key_id ≢ ""
  pub access_key_secret : cfg.access_key_secret ≢ ""
  pub uri : is_uri (normalize_endpoint cfg.endpoint) ≡ true

-- The hook that NewSLSHook returns has the settings with the environment's overrides, and they are
-- complete: enabled, no empty endpoint, project, store or access key, and an endpoint that parses
-- with its scheme.
pub new_sls_hook-IsComplete :
    (environment : String → String) (is_uri : String → Bool) (settings cfg : AliyunSlsConfig)
    → new_sls_hook environment is_uri settings ≡ ok (some cfg)
    → (apply_sls_env environment settings ≡ cfg) × IsComplete is_uri cfg
unfolding new_sls_hook
new_sls_hook-IsComplete environment is_uri settings cfg h =
    let e : apply_sls_env environment settings ≡ cfg = ground (arith, h) in
    (
      e,
      rw (← e) (record {
        enabled = ground (arith, h);
        endpoint = ground (arith, h, eq_iff (apply_sls_env environment settings).endpoint "");
        project_name =
            ground (arith, h, eq_iff (apply_sls_env environment settings).project_name "");
        log_store_name =
            ground (arith, h, eq_iff (apply_sls_env environment settings).log_store_name "");
        access_key_id =
            ground (arith, h, eq_iff (apply_sls_env environment settings).access_key_id "");
        access_key_secret =
            ground (arith, h, eq_iff (apply_sls_env environment settings).access_key_secret "");
        uri = ground (arith, h);
      }),
    )
