-- ===== src/Tunnel.antt =====
-- internal/tunnel/manager.go: the tunnel client of frp and its status. The service of frp, the
-- addresses of the package net and the hash of a specification are parameters.
pub mod Single
use yougpu_agent.Prelude.{
  ℕ, suc, String, Bool, true, false, ◌&&◌, Option, none, some, List, [], ◌∷◌, ◌==◌, ◌<>◌, is_empty,
  is_some, atoi, if◌then◌else◌, Run,
}
use yougpu_agent.Prelude.Result.{Result, ok, err}
use yougpu_agent.Spec.{AgentTunnelSpec, TunnelProxy}

-- What buildConfig sets of v1.HTTPProxyConfig and v1.ClientCommonConfig.
pub record ProxyConfig : Type 0 where
  pub name : String
  pub local_ip : String
  pub local_port : ℕ
  pub subdomain : String
  pub use_compression : Bool

pub record ServiceConfig : Type 0 where
  pub server_addr : String
  pub server_port : ℕ
  pub slug : String
  pub token : String
  pub proxies : List ProxyConfig

-- The status of a proxy.
pub record ProxyStatus : Type 0 where
  pub phase : String
  pub err : String

-- `service` is the service with its cancel function, which are set together; `started` and `stopped`
-- count the services that were run and cancelled.
pub record Manager (V : Type 0) : Type 0 where
  pub hash : String
  pub service : Option V
  pub start_err : String
  pub started : ℕ
  pub stopped : ℕ

-- net.SplitHostPort, the service of frp and what it answers, specHash, the verb %q, and the text of
-- an error of strconv.Atoi.
pub record Frp (V : Type 0) : Type 0 where
  pub split_host_port : String → Result String (String × String)
  pub new_service : ServiceConfig → Result String V
  pub proxy_status : V → String → Option ProxyStatus
  pub spec_hash : AgentTunnelSpec → String
  pub quote : String → String
  pub atoi_error : String → String

proxy_config : TunnelProxy → ProxyConfig
proxy_config p = record {
  name = p.subdomain;
  local_ip = "127.0.0.1";
  local_port = p.local_port;
  subdomain = p.subdomain;
  use_compression = true;
}

unfoldable pub proxy_configs : List TunnelProxy → List ProxyConfig
unfolding proxy_config
proxy_configs [] = []
proxy_configs (p ∷ ps) = proxy_config p ∷ proxy_configs ps

module _ {V : Type 0} (frp : Frp V) where
  port_of : String → String → Option ℕ → Result String (String × ℕ)
  port_of host port none =
      err ("parse frps port " <> (frp.quote port <> (": " <> frp.atoi_error port)))
  port_of host port (some n) = ok (host, n)

  host_and_port : String → Result String (String × String) → Result String (String × ℕ)
  unfolding port_of
  host_and_port addr (err e) = err ("parse frps_addr " <> (frp.quote addr <> (": " <> e)))
  host_and_port addr (ok (host, port)) = port_of host port (atoi port)

  -- splitAddr
  unfoldable pub split_addr : String → Result String (String × ℕ)
  unfolding host_and_port
  split_addr addr = host_and_port addr (frp.split_host_port addr)

  config_at : AgentTunnelSpec → Result String (String × ℕ) → Result String ServiceConfig
  config_at spec (err e) = err e
  config_at spec (ok (host, port)) = ok (record {
    server_addr = host;
    server_port = port;
    slug = spec.slug;
    token = spec.frp_token;
    proxies = proxy_configs spec.proxies;
  })

  -- buildConfig; Complete, which only fills in defaults, is a part of the service.
  unfoldable pub build_config : AgentTunnelSpec → Result String ServiceConfig
  unfolding config_at
  build_config spec = config_at spec (split_addr spec.frps_addr)

  -- stopLocked
  unfoldable pub stop_locked : Manager V → Manager V
  stop_locked m = record m { hash = ""; service = none; stopped = suc m.stopped }

  unfoldable pub stop_running : Option V → Manager V → Manager V
  unfolding stop_locked
  stop_running none m = m
  stop_running (some v) m = stop_locked m

  unfoldable pub started_as : String → Result String V → Manager V → Manager V
  started_as hash (err e) m = record m { start_err = e }
  started_as hash (ok v) m = record m {
    hash = hash;
    service = some v;
    start_err = "";
    started = suc m.started;
  }

  unfoldable pub service_of : Result String ServiceConfig → Result String V
  service_of (err e) = err e
  service_of (ok c) = frp.new_service c

  -- startLocked, with the error that Reconcile keeps.
  unfoldable pub start_locked : AgentTunnelSpec → Manager V → Manager V
  unfolding started_as service_of
  start_locked spec m =
      started_as (frp.spec_hash spec) (service_of (build_config spec)) (record m { start_err = "" })

  unfoldable pub reconcile_to : AgentTunnelSpec → Manager V → Manager V
  unfolding stop_running
  reconcile_to spec m =
      if is_some m.service && frp.spec_hash spec == m.hash
      then m
      else start_locked spec (stop_running m.service m)

  -- Reconcile
  unfoldable pub reconcile : Option AgentTunnelSpec → Manager V → Manager V
  unfolding stop_running reconcile_to
  reconcile none m = stop_running m.service (record m { start_err = "" })
  reconcile (some spec) m = elim spec.proxies [
    | [] ↦ stop_running m.service (record m { start_err = "" })
    | p ∷ ps ↦ reconcile_to spec m
  ]

  phase_text : String → ProxyStatus → String
  phase_text name s = name <> (": " <> (if is_empty s.err then s.phase else s.err))

  -- The loop of Status.
  unfoldable pub proxies_status : V → List String → Bool × String
  unfolding phase_text
  proxies_status v [] = (true, "")
  proxies_status v (name ∷ names) =
      let later = proxies_status v names in
      elim (frp.proxy_status v name) [
        | none ↦ (false, "нет связи со шлюзом")
        | some s ↦ if s.phase == "running" then later else (false, phase_text name s)
      ]

  -- Status
  unfoldable pub status : List String → Manager V → Bool × String
  status names m = elim m.service [
    | none ↦ (false, if is_empty m.start_err then "туннель не запущен" else m.start_err)
    | some v ↦ proxies_status v names
  ]

  -- Ready
  unfoldable pub is_ready : List String → Manager V → Bool
  is_ready names m = (status names m).0
