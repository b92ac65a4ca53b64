-- ===== src/Firewall/Rules.antt =====
-- internal/firewall/manager.go: the rules of ufw after a pass that reports no error.
use yougpu_agent.Prelude.{
  pos_part, eqb, String, Bool, true, false, not, ◌&&◌, ◌||◌, Option, none, some, List, [], ◌∷◌,
  ◌++◌, ◌≡◌, refl, sym, ap, ◌∙◌, inl, inr, arith, Bool-cases, Option-cases, eqb_iff, eq_iff,
  contains,
}
use yougpu_agent.Prelude.Result.{ok, Result-cases}
use yougpu_agent.Spec.{AgentFirewallSpec, FirewallPort}
use yougpu_agent.Status.{FirewallState}
use yougpu_agent.Firewall.{
  Port, same, has_port, put, ssh, put_all, desired_set, select, diff, is_valid_port,
  normalize_proto, Ufw, report, rules_of, allow_all, delete_all, apply, apply_status, apply_enabled,
  apply_checked, reconcile,
}

-- What the agent relies on of ufw: one that is enabled without an error, or whose status does not say
-- that it is inactive, is active. An active ufw stays so; a rule that it opens or closes without an
-- error is in place or gone, no other rule changes, and its status lists the rules in place. Only the
-- rules with the comment of the agent count as rules in place: the others are not its own. Nothing is
-- said of the rules of an inactive ufw.
pub record Lawful {W : Type 0} (ufw : Ufw W) : Type 0 where
  pub is_active : W → Bool
  pub in_place : W → Port → Bool
  pub enabled : (w : W) → (ufw.enable w).0 ≡ none → is_active (ufw.enable w).1 ≡ true
  pub told :
      (text : String) (w : W)
      → (ufw.status w).0 ≡ ok text
      → contains text "Status: inactive" ≡ false
      → is_active w ≡ true
  pub allowed :
      (p q : Port) (w : W)
      → is_active w ≡ true
      → (ufw.allow p w).0 ≡ none
      → (in_place (ufw.allow p w).1 q ≡ (same p q || in_place w q))
        × (is_active (ufw.allow p w).1 ≡ true)
  pub deleted :
      (p q : Port) (w : W)
      → is_active w ≡ true
      → (ufw.delete p w).0 ≡ none
      → (in_place (ufw.delete p w).1 q ≡ (not (same p q) && in_place w q))
        × (is_active (ufw.delete p w).1 ≡ true)
  pub shown :
      (text : String) (q : Port) (w : W)
      → is_active w ≡ true
      → (ufw.status w).0 ≡ ok text
      → (in_place (ufw.status w).1 q ≡ has_port (rules_of ufw text) q)
        × (is_active (ufw.status w).1 ≡ true)

pub same-eq : (p q : Port) → same p q ≡ true → p ≡ q
same-eq p q h = elim (Bool-cases (eqb p.number q.number)) [
  | inr f ↦ absurd (cc (rw f at h))
  | inl t ↦ cc ((eqb_iff p.number q.number).0 t, (eq_iff p.protocol q.protocol).0 (rw t at h))
]

has_port-select :
    (f : Port → Bool) (ps : List Port) (q : Port)
    → has_port (select f ps) q ≡ (f q && has_port ps q)
unfolding select
has_port-select f [] q = elim (Bool-cases (f q)) [ inl t ↦ rw t refl | inr t ↦ rw t refl ]
has_port-select f (p ∷ ps) q = elim (Bool-cases (same p q)) [
  | inr other ↦ elim (Bool-cases (f p)) [
    | inl t ↦ rw (t, other) (has_port-select f ps q)
    | inr t ↦ rw (t, other) (has_port-select f ps q)
  ]
  | inl this ↦ elim (Bool-cases (f p)) [
    | inl t ↦ rw (t, this, (ap f (sym (same-eq p q this)) ∙ t)) refl
    | inr t ↦
        rw (t, this, (ap f (sym (same-eq p q this)) ∙ t))
          (has_port-select f ps q ∙ rw (ap f (sym (same-eq p q this)) ∙ t) refl)
  ]
]

has_port-put : (p q : Port) (ps : List Port) → has_port ps q ≡ true → has_port (put p ps) q ≡ true
has_port-put p q ps h = elim (Bool-cases (has_port ps p)) [
  | inl t ↦ rw t h
  | inr f ↦ rw (f, h) (or_true (same p q))
]
  where
    or_true : (b : Bool) → (b || true) ≡ true
    or_true b = ground arith

put_all-keeps :
    (fs : List FirewallPort) (ps : List Port) (q : Port)
    → has_port ps q ≡ true
    → has_port (put_all fs ps) q ≡ true
unfolding put_all
put_all-keeps [] ps q h = h
put_all-keeps (f ∷ fs) ps q h =
    let p : Port = record { number = pos_part f.port; protocol = normalize_proto f.protocol } in
    elim (Bool-cases (is_valid_port f.port)) [
      | inl t ↦ rw t (put_all-keeps fs (put p ps) q (has_port-put p q ps h))
      | inr n ↦ rw n (put_all-keeps fs ps q h)
    ]

-- Whatever the specification says, the port of ssh is wanted and never among the ports to close.
diff-ssh :
    (spec : Option AgentFirewallSpec) (observed : List Port)
    → (has_port (desired_set spec) ssh ≡ true)
      × (has_port (diff (desired_set spec) observed).1 ssh ≡ false)
unfolding desired_set diff
diff-ssh none observed = (refl, has_port-select _ observed ssh)
diff-ssh (some spec) observed =
    (put_all-keeps spec.ports (ssh ∷ []) ssh refl, has_port-select _ observed ssh)

module _ {W : Type 0} (ufw : Ufw W) (laws : Lawful ufw) where
  allow_all-in_place :
      (ps : List Port) (q : Port) (w : W)
      → laws.is_active w ≡ true
      → (allow_all ufw ps w).0 ≡ []
      → (laws.in_place (allow_all ufw ps w).1 q ≡ (has_port ps q || laws.in_place w q))
        × (laws.is_active (allow_all ufw ps w).1 ≡ true)
  unfolding allow_all
  allow_all-in_place [] q w on h = (refl, on)
  allow_all-in_place (p ∷ ps) q w on h = elim (Option-cases (ufw.allow p w).0) [
    | inr (e, f) ↦ absurd (cc (rw f at h))
    | inl t ↦
        let (now, stays) = laws.allowed p q w on t in
        let (then, active) = allow_all-in_place ps q (ufw.allow p w).1 stays (rw t at h) in
        (then ∙ rw now (ground arith), active)
  ]

  delete_all-in_place :
      (ps : List Port) (q : Port) (w : W)
      → laws.is_active w ≡ true
      → (delete_all ufw ps w).0 ≡ []
      → laws.in_place (delete_all ufw ps w).1 q ≡ (not (has_port ps q) && laws.in_place w q)
  unfolding delete_all
  delete_all-in_place [] q w on h = refl
  delete_all-in_place (p ∷ ps) q w on h = elim (Option-cases (ufw.delete p w).0) [
    | inr (e, f) ↦ absurd (cc (rw f at h))
    | inl t ↦
        let (now, stays) = laws.deleted p q w on t in
        delete_all-in_place ps q (ufw.delete p w).1 stays (rw t at h) ∙ rw now (ground arith)
  ]

  no_errors :
      (added removed : List String)
      → (report (added ++ removed)).observed_state ≡ FirewallState.applied
      → (added ≡ []) × (removed ≡ [])
  no_errors [] [] h = (refl, refl)
  no_errors [] (b ∷ removed) h = absurd (cc h)
  no_errors (a ∷ added) removed h = absurd (cc h)

  -- Opening what is missing and closing what is left over leaves what is wanted.
  reached :
      (is_ssh wanted seen : Bool)
      → (is_ssh ≡ true → wanted ≡ true)
      → (not ((not is_ssh && not wanted) && seen) && ((not seen && wanted) || seen)) ≡ wanted
  reached is_ssh wanted seen h = ground arith

  ssh_wanted :
      (spec : AgentFirewallSpec) (q : Port)
      → same q ssh ≡ true
      → has_port (desired_set (some spec)) q ≡ true
  ssh_wanted spec q e =
      ap (has_port (desired_set (some spec))) (same-eq q ssh e) ∙ (diff-ssh (some spec) []).0

  apply-in_place :
      (spec : AgentFirewallSpec) (text : String) (q : Port) (w : W)
      → laws.is_active w ≡ true
      → ((p : Port) → laws.in_place w p ≡ has_port (rules_of ufw text) p)
      → (apply ufw spec text w).0.observed_state ≡ FirewallState.applied
      → laws.in_place (apply ufw spec text w).1 q ≡ has_port (desired_set (some spec)) q
  unfolding apply diff
  apply-in_place spec text q w on shown h =
      let wanted : List Port = desired_set (some spec) in
      let seen : List Port = rules_of ufw text in
      let add : List Port = (diff wanted seen).0 in
      let rem : List Port = (diff wanted seen).1 in
      let w' : W = (allow_all ufw add w).1 in
      let (no_add, no_rem) = no_errors (allow_all ufw add w).0 (delete_all ufw rem w').0 h in
      rw
        (
          delete_all-in_place rem q w' (allow_all-in_place add q w on no_add).1 no_rem,
          (allow_all-in_place add q w on no_add).0,
          shown q,
          has_port-select (λ p. not (has_port seen p)) wanted q,
          has_port-select (λ p. not (same p ssh) && not (has_port wanted p)) seen q,
        )
        (reached (same q ssh) (has_port wanted q) (has_port seen q) (ssh_wanted spec q))

  apply_status-in_place :
      (spec : AgentFirewallSpec) (q : Port) (w : W)
      → laws.is_active w ≡ true
      → (apply_status ufw spec (ufw.status w).0 (ufw.status w).1).0.observed_state
        ≡ FirewallState.applied
      → laws.in_place (apply_status ufw spec (ufw.status w).0 (ufw.status w).1).1 q
        ≡ has_port (desired_set (some spec)) q
  unfolding apply_status
  apply_status-in_place spec q w on h = elim (Result-cases (ufw.status w).0) [
    | inr (e, f) ↦ absurd (cc (rw f at h))
    | inl (text, t) ↦ rw t (
        apply-in_place spec text q (ufw.status w).1 (laws.shown text q w on t).1
          (λ p. (laws.shown text p w on t).0) (rw t at h))
  ]

  -- When ufw keeps to its rules and the pass reports that the firewall is applied, the agent's rules
  -- in place are exactly the desired set, whether ufw was active or had to be enabled first.
  pub reconcile-in_place :
      (spec : AgentFirewallSpec) (q : Port) (w : W)
      → (reconcile ufw (some spec) w).0.observed_state ≡ FirewallState.applied
      → laws.in_place (reconcile ufw (some spec) w).1 q ≡ has_port (desired_set (some spec)) q
  unfolding reconcile apply_checked apply_enabled
  reconcile-in_place spec q w h = elim (Result-cases (ufw.status w).0) [
    | inr (e, f) ↦ absurd (cc (rw f at h))
    | inl (text, t) ↦ elim (Bool-cases (contains text "Status: inactive")) [
      | inr active ↦
          let on : laws.is_active w ≡ true = laws.told text w t active in
          rw (t, active)
            (apply-in_place spec text q (ufw.status w).1 (laws.shown text q w on t).1
              (λ p. (laws.shown text p w on t).0) (rw (t, active) at h))
      | inl off ↦ elim (Option-cases (ufw.enable (ufw.status w).1).0) [
        | inr (e, f) ↦ absurd (cc (rw (t, off, f) at h))
        | inl on ↦
            rw (t, off, on)
              (apply_status-in_place spec q (ufw.enable (ufw.status w).1).1
                (laws.enabled (ufw.status w).1 on) (rw (t, off, on) at h))
      ]
    ]
  ]
