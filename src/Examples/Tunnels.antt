-- ===== src/Examples/Tunnels.antt =====
-- Examples of the tunnel.
use yougpu_agent.Prelude.{ℕ, none, some, [], ◌∷◌, refl}
use yougpu_agent.Prelude.Result.{ok}
use yougpu_agent.Spec.{AgentTunnelSpec}
use yougpu_agent.Tunnel.{Manager, Frp, reconcile}
use yougpu_agent.Tunnel.Single.{IsSingle, reconcile-IsSingle}

abbrev frp : Frp ℕ
frp = record {
  split_host_port = λ a. ok ("gate", "7000");
  new_service = λ c. ok 5;
  proxy_status = λ v n. none;
  spec_hash = λ s. s.slug;
  quote = λ s. s;
  atoi_error = λ s. "invalid syntax";
}

abbrev gateway : AgentTunnelSpec
gateway = record {
  slug = "new";
  frps_addr = "gate:7000";
  frp_token = "t";
  proxies = record { subdomain = "app"; local_port = 8080 } ∷ [];
}

abbrev older : Manager ℕ
older = record { hash = "old"; service = some 4; start_err = ""; started = 3; stopped = 2 }

reconcile-IsSingle_example : IsSingle (reconcile frp (some gateway) older)
reconcile-IsSingle_example = reconcile-IsSingle frp (some gateway) older refl
