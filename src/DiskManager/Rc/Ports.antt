-- ===== src/DiskManager/Rc/Ports.antt =====
-- The port that freeRcPort of internal/disk/manager.go picks.
use yougpu_agent.Prelude.{
  ℕ, zero, suc, ◌+◌, ◌≤◌, ◌<◌, false, some, List, ◌<>◌, ◌≡◌, subst, Bool-cases, inl, inr, arith,
}
use yougpu_agent.DiskManager.{Config, Host}
use yougpu_agent.DiskManager.Rc.{rc_port_range_size, is_taken, free_from, taken_ports, free_rc_port}

module _ {W : Type 0} (config : Config) (host : Host W) where
  abbrev InRange : ℕ → ℕ → List ℕ → ℕ → Type 0
  InRange port n taken p = (port ≤ p) × (p < port + n) × (is_taken p taken ≡ false)

  free_from-InRange :
      (taken : List ℕ) (n port : ℕ) (w : W) (p : ℕ)
      → (free_from config host taken n port w).0 ≡ some p
      → InRange port n taken p
  unfolding free_from
  free_from-InRange taken zero port w p h = cc
  free_from-InRange taken (suc n) port w p h = elim (Bool-cases (is_taken port taken)) [
    | inl used ↦ later (free_from-InRange taken n (port + 1) w p (rw used at h))
    | inr unused ↦ elim (Bool-cases (host.listens port w).0) [
      | inl free ↦ at_port unused (rw (unused, free) at h)
      | inr busy ↦
          later (
            free_from-InRange taken n (port + 1) (host.listens port w).1 p (rw (unused, busy) at h))
    ]
  ]
    where
      later : InRange (port + 1) n taken p → InRange port (suc n) taken p
      later (a, b, c) = (omega (arith, a), omega (arith, b), c)

      at_port : is_taken port taken ≡ false → some port ≡ some p → InRange port (suc n) taken p
      at_port u e = moved u (some-path e)
        where
          some-path : some port ≡ some p → port ≡ p
          some-path e = cc

          moved : is_taken port taken ≡ false → port ≡ p → InRange port (suc n) taken p
          moved u e = subst (InRange port (suc n) taken) e (omega arith, omega arith, u)

  -- A port that freeRcPort picks is one of the range and is taken by no other disk.
  free_port_in_range :
      (w : W) (p : ℕ)
      → (free_rc_port config host w).0 ≡ some p
      → let files = host.glob (config.config_dir <> "/rc-*.env") w in
        (config.rc_port_base ≤ p)
        × (p < config.rc_port_base + rc_port_range_size)
        × (is_taken p (taken_ports config host files.0 files.1).0 ≡ false)
  unfolding free_rc_port
  free_port_in_range w p h =
      let (files, w') = host.glob (config.config_dir <> "/rc-*.env") w in
      let (taken, w'') = taken_ports config host files w' in
      free_from-InRange taken rc_port_range_size config.rc_port_base w'' p h
