-- ===== src/Agent/Disks/Remounts.antt =====
-- internal/agent/agent.go: followRemounts restarts the container once for a remount.
use yougpu_agent.Prelude.{
  In, arith, String, Bool, true, false, not, ◌||◌, ◌&&◌, List, [], ◌∷◌, ◌==◌, is_empty, ◌≡◌, refl,
  sym, ap, ◌∙◌, ◌⊎◌, inl, inr, All, Bool-cases, eq_iff,
}
use yougpu_agent.Prelude.Result.{Result, ok, err}
use yougpu_agent.Spec.{AgentSpec, AgentDiskSpec, desired_mounted}
use yougpu_agent.Status.{ContainerState}
use yougpu_agent.Agent.{Agent, Parts}
use yougpu_agent.Agent.Disks.{
  id_of, current_id, note_id, remounted, mount_ids, follow_remounts, restart, forget_readiness,
  is_alive,
}

-- What the noted ids say of one disk: nothing, or the value v.
abbrev Says : List (String × String) → String → String → Type 0
Says ids id v = (is_empty (id_of ids id) ≡ true) ⊎ (id_of ids id ≡ v)

note_id-Says :
    (id v other value : String) (ids : List (String × String))
    → (id ≡ other → v ≡ value)
    → Says ids other value
    → Says (note_id id v ids) other value
note_id-Says id v other value ids same h =
    elim (Bool-cases (is_empty v || not (is_empty (id_of ids id)))) [
      | inl t ↦ rw t h
      | inr f ↦ elim (Bool-cases (id == other)) [
        | inl e ↦ rw (f, e) (inr (same ((eq_iff id other).0 e)))
        | inr n ↦ rw (f, n) h
      ]
    ]

module _ {W : Type 0} (parts : Parts W) (answer : String → Result String String)
    (steady : (id : String) (w : W) → (parts.mount_id id w).0 ≡ answer id) where
  -- The id that is noted for a disk.
  abbrev noted : List (String × String) → String → String
  noted before id = current_id (answer id) (id_of before id)

  mount_ids-Says :
      (before : List (String × String)) (ds : List AgentDiskSpec) (w : W) (id : String)
      → Says (mount_ids parts before ds w).0 id (noted before id)
  unfolding mount_ids
  mount_ids-Says before [] w id = inl refl
  mount_ids-Says before (d ∷ ds) w id = elim (Bool-cases (d.desired_state == desired_mounted)) [
    | inr f ↦ rw f (mount_ids-Says before ds w id)
    | inl t ↦
        rw (t, steady d.id w)
          (note_id-Says d.id (noted before d.id) id (noted before id) _ (ap (noted before))
            (mount_ids-Says before ds _ id))
  ]

  note_id-All :
      (P : String × String → Type 0) (id v : String) (ids : List (String × String))
      → P (id, v)
      → All P ids
      → All P (note_id id v ids)
  note_id-All P id v ids p h = elim (Bool-cases (is_empty v || not (is_empty (id_of ids id)))) [
    | inl t ↦ rw t h
    | inr f ↦ rw f (p, h)
  ]

  abbrev IsNoted : List (String × String) → String × String → Type 0
  IsNoted before (id, v) = v ≡ noted before id

  mount_ids-All :
      (before : List (String × String)) (ds : List AgentDiskSpec) (w : W)
      → All (IsNoted before) (mount_ids parts before ds w).0
  unfolding mount_ids
  mount_ids-All before [] w = tt
  mount_ids-All before (d ∷ ds) w = elim (Bool-cases (d.desired_state == desired_mounted)) [
    | inr f ↦ rw f (mount_ids-All before ds w)
    | inl t ↦
        rw (t, steady d.id w)
          (note_id-All (IsNoted before) d.id (noted before d.id) _ refl (mount_ids-All before ds _))
  ]

  -- A second look finds the id that the first one noted.
  noted_again :
      (before first : List (String × String)) (id : String)
      → Says first id (noted before id)
      → Says first id (noted first id)
  noted_again before first id (inl e) = inl e
  noted_again before first id (inr e) = inr (again (answer id) refl)
    where
      again :
          (r : Result String String)
          → answer id ≡ r
          → id_of first id ≡ current_id r (id_of first id)
      again (err x) h = refl
      again (ok now) h = elim (Bool-cases (is_empty now)) [
        | inl t ↦ rw t refl
        | inr f ↦ e ∙ rw (h, f) refl
      ]

  quiet :
      (first ids : List (String × String))
      → ((id : String) → Says first id (noted first id))
      → All (IsNoted first) ids
      → remounted first ids ≡ false
  unfolding remounted
  quiet first [] says h = refl
  quiet first ((id, v) ∷ ids) says (e, h) = elim (says id) [
    | inl t ↦ rw t (quiet first ids says h)
    | inr same ↦ elim (Bool-cases (is_empty (id_of first id))) [
      | inl t ↦ rw t (quiet first ids says h)
      | inr f ↦ rw (f, (eq_iff (id_of first id) v).1 (same ∙ sym e)) (quiet first ids says h)
    ]
  ]

  quiet_again :
      (before : List (String × String)) (ds : List AgentDiskSpec) (w later : W)
      → remounted
          (mount_ids parts before ds w).0
          (mount_ids parts (mount_ids parts before ds w).0 ds later).0
        ≡ false
  quiet_again before ds w later =
      let first = (mount_ids parts before ds w).0 in
      quiet first _ (λ id. noted_again before first id (mount_ids-Says before ds w id))
        (mount_ids-All first ds later)

  follow_remounts-mount_ids :
      (spec : AgentSpec) (state : ContainerState) (a : Agent W)
      → (follow_remounts parts spec state a).1.mount_ids
        ≡ (mount_ids parts a.mount_ids spec.disks a.world).0
  unfolding follow_remounts restart forget_readiness
  follow_remounts-mount_ids spec state a = refl

  follow_remounts-quiet :
      (spec : AgentSpec) (state : ContainerState) (b : Agent W)
      → remounted b.mount_ids (mount_ids parts b.mount_ids spec.disks b.world).0 ≡ false
      → (follow_remounts parts spec state b).1.world
        ≡ (mount_ids parts b.mount_ids spec.disks b.world).1
  unfolding follow_remounts
  follow_remounts-quiet spec state b still =
      rw (still, and_false (is_alive state) b.container_alive) refl
    where
      and_false : (x y : Bool) → (x && y && false) ≡ false
      and_false x y = ground arith

  -- A remount is followed once: a pass that comes after one that looked at the same disks, with the
  -- ids that this one noted and whatever else has changed since, only asks systemd for the ids and
  -- does not restart the container, while systemd answers the same for every disk.
  pub remounted_once :
      (spec : AgentSpec) (state then : ContainerState) (a b : Agent W)
      → b.mount_ids ≡ (follow_remounts parts spec state a).1.mount_ids
      → (follow_remounts parts spec then b).1.world
        ≡ (mount_ids parts b.mount_ids spec.disks b.world).1
  remounted_once spec state then a b same =
      let ids = same ∙ follow_remounts-mount_ids spec state a in
      follow_remounts-quiet spec then b
        (rw ids (quiet_again a.mount_ids spec.disks a.world b.world))

  id_of-In :
      (ids : List (String × String)) (id now : String)
      → id_of ids id ≡ now
      → is_empty now ≡ false
      → In (id, now) ids
  id_of-In [] id now e h = absurd (cc (← e, h))
  id_of-In ((j, v) ∷ ids) id now e h = elim (Bool-cases (j == id)) [
    | inl t ↦ let key = (eq_iff j id).0 t in let value : v ≡ now = rw t at e in inl (cc)
    | inr f ↦ inr (id_of-In ids id now (rw f at e) h)
  ]

  note_id-In :
      (c : String × String) (id v : String) (ids : List (String × String))
      → In c ids
      → In c (note_id id v ids)
  note_id-In c id v ids h = elim (Bool-cases (is_empty v || not (is_empty (id_of ids id)))) [
    | inl t ↦ rw t h
    | inr f ↦ rw f (inr h)
  ]

  -- The id that systemd tells of a wanted disk is noted.
  mount_ids-In :
      (before : List (String × String)) (ds : List AgentDiskSpec) (w : W) (d : AgentDiskSpec)
      (now : String)
      → In d ds
      → (d.desired_state == desired_mounted) ≡ true
      → answer d.id ≡ ok now
      → is_empty now ≡ false
      → In (d.id, now) (mount_ids parts before ds w).0
  unfolding mount_ids
  mount_ids-In before [] w d now m wanted told full = absurd m
  mount_ids-In before (e ∷ ds) w d now (inl same) wanted told full =
      rw (same, wanted, steady d.id w, told, full)
        (here (mount_ids parts before ds (parts.mount_id d.id w).1).0
          (mount_ids-Says before ds (parts.mount_id d.id w).1 d.id))
    where
      here :
          (rest : List (String × String))
          → Says rest d.id (noted before d.id)
          → In (d.id, now) (note_id d.id now rest)
      here rest says = elim (Bool-cases (is_empty (id_of rest d.id))) [
        | inl new ↦ rw (full, new) (inl refl)
        | inr old ↦ rw (full, old) (id_of-In rest d.id now (noted_value says old) full)
      ]
        where
          noted_value :
              Says rest d.id (noted before d.id)
              → is_empty (id_of rest d.id) ≡ false
              → id_of rest d.id ≡ now
          noted_value (inl none) old = absurd (cc (none, old))
          noted_value (inr v) old = v ∙ rw (told, full) refl
  mount_ids-In before (e ∷ ds) w d now (inr m) wanted told full =
      elim (Bool-cases (e.desired_state == desired_mounted)) [
        | inr f ↦ rw f (mount_ids-In before ds w d now m wanted told full)
        | inl t ↦
            rw t
              (note_id-In (d.id, now) e.id _ _ (mount_ids-In before ds _ d now m wanted told full))
      ]

  remounted-In :
      (before ids : List (String × String)) (id now : String)
      → In (id, now) ids
      → is_empty (id_of before id) ≡ false
      → (id_of before id == now) ≡ false
      → remounted before ids ≡ true
  unfolding remounted
  remounted-In before [] id now m full other = absurd m
  remounted-In before ((j, v) ∷ ids) id now (inl same) full other =
      let key : j ≡ id = ap (λ c. c.0) same in
      let value : v ≡ now = ap (λ c. c.1) same in rw (key, value, full, other) refl
  remounted-In before (c ∷ ids) id now (inr m) full other =
      rw (remounted-In before ids id now m full other) (or_true _)
    where
      or_true : (b : Bool) → (b || true) ≡ true
      or_true b = ground arith

  -- A remount is followed: where systemd tells of a wanted disk another mount id than the one noted
  -- before, and answers the same while the pass asks, a container that was and is alive is restarted
  -- once the ids are known.
  pub remounted_restarts :
      (spec : AgentSpec) (state : ContainerState) (a : Agent W) (d : AgentDiskSpec) (now : String)
      → In d spec.disks
      → (d.desired_state == desired_mounted) ≡ true
      → is_alive state ≡ true
      → a.container_alive ≡ true
      → answer d.id ≡ ok now
      → is_empty now ≡ false
      → is_empty (id_of a.mount_ids d.id) ≡ false
      → (id_of a.mount_ids d.id == now) ≡ false
      → (follow_remounts parts spec state a).1.world
        ≡ (parts.container_restart (mount_ids parts a.mount_ids spec.disks a.world).1).1
  unfolding follow_remounts restart forget_readiness
  remounted_restarts spec state a d now there wanted alive was told full known other =
      let seen : remounted a.mount_ids (mount_ids parts a.mount_ids spec.disks a.world).0 ≡ true =
        remounted-In a.mount_ids _ d.id now
          (mount_ids-In a.mount_ids spec.disks a.world d now there wanted told full) known other in
      rw (alive, was, seen) refl
