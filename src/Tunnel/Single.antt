-- ===== src/Tunnel/Single.antt =====
-- The services that Reconcile of internal/tunnel/manager.go runs, and what Status says of them.
use yougpu_agent.Prelude.{
  ℕ, ◌+◌, String, ◌&&◌, Option, none, some, List, [], ◌∷◌, ◌==◌, ◌≡◌, refl, is_some, Bool-cases,
  inl, inr, arith,
}
use yougpu_agent.Prelude.Result.{Result, ok, err}
use yougpu_agent.Spec.{AgentTunnelSpec, TunnelProxy}
use yougpu_agent.Tunnel.{
  Manager, Frp, stop_locked, stop_running, started_as, start_locked, reconcile_to, reconcile,
}

abbrev running : {V : Type 0} → Option V → ℕ
running none = 0
running (some v) = 1

-- One service runs, the one that is kept, or none.
abbrev pub IsSingle : {V : Type 0} → Manager V → Type 0
IsSingle m = m.started ≡ m.stopped + running m.service

module _ {V : Type 0} (frp : Frp V) where
  stop_running-IsSingle :
      (v : Option V) (m : Manager V)
      → m.service ≡ v
      → IsSingle m
      → IsSingle (stop_running frp v m) × ((stop_running frp v m).service ≡ none)
  unfolding stop_running stop_locked
  stop_running-IsSingle none m e h = (h, e)
  stop_running-IsSingle (some v) m e h = (omega (arith, rw e at h), refl)

  started_as-IsSingle :
      (hash : String) (r : Result String V) (m : Manager V)
      → m.service ≡ none
      → IsSingle m
      → IsSingle (started_as frp hash r m)
  unfolding started_as
  started_as-IsSingle hash (err e) m free h = h
  started_as-IsSingle hash (ok v) m free h = omega (arith, rw free at h)

  start_locked-IsSingle :
      (spec : AgentTunnelSpec) (m : Manager V)
      → m.service ≡ none
      → IsSingle m
      → IsSingle (start_locked frp spec m)
  unfolding start_locked
  start_locked-IsSingle spec m free h = started_as-IsSingle _ _ _ free h

  reconcile_to-IsSingle :
      (spec : AgentTunnelSpec) (m : Manager V) → IsSingle m → IsSingle (reconcile_to frp spec m)
  unfolding reconcile_to
  reconcile_to-IsSingle spec m h =
      elim (Bool-cases (is_some m.service && frp.spec_hash spec == m.hash)) [
        | inl same ↦ rw same h
        | inr other ↦
            let (single, free) = stop_running-IsSingle m.service m refl h in
            rw other (start_locked-IsSingle spec _ free single)
      ]

  -- However Reconcile is called, no second tunnel service runs beside the one that is kept: of the
  -- services that were started all are cancelled but that one.
  pub reconcile-IsSingle :
      (spec : Option AgentTunnelSpec) (m : Manager V) → IsSingle m → IsSingle (reconcile frp spec m)
  unfolding reconcile
  reconcile-IsSingle none m h =
      (stop_running-IsSingle m.service (record m { start_err = "" }) refl h).0
  reconcile-IsSingle (some spec) m h = by_proxies spec.proxies
    where
      by_proxies :
          (ps : List TunnelProxy)
          → IsSingle (elim ps [
            | [] ↦ stop_running frp m.service (record m { start_err = "" })
            | p ∷ ps ↦ reconcile_to frp spec m
          ])
      by_proxies [] = (stop_running-IsSingle m.service (record m { start_err = "" }) refl h).0
      by_proxies (p ∷ ps) = reconcile_to-IsSingle spec m h
