-- ===== src/Agent/Intake.antt =====
-- internal/agent/agent.go: intake, the inbox, and the context of the work of a living machine.
use yougpu_agent.Prelude.{
  ℤ, negsuc, ltb_ℤ, ◌≤ℤ◌, Bool, true, false, Option, none, some, List, [], ◌∷◌, is_some,
  if◌then◌else◌, ◌≡◌, ◌⊎◌, inl, inr, arith, Bool-cases, In,
}
use yougpu_agent.Spec.{AgentSpec}

-- aliveCtx: none before the first use; the Boolean is whether it is cancelled.
pub record Inbox : Type 0 where
  pub highest : ℤ
  pub latest : Option AgentSpec
  pub alive : Option Bool
  pub deleting : Bool

abbrev pub cancel : Option Bool → Option Bool
cancel none = none
cancel (some c) = some true

-- stopAlive
unfoldable pub stop_alive : Inbox → Inbox
stop_alive b = record b { deleting = true; alive = cancel b.alive }

abbrev pub renewed : Option Bool → Bool → Bool
renewed none parent = parent
renewed (some true) parent = parent
renewed (some false) parent = false

-- aliveContext under a parent that is cancelled or not: whether the context is cancelled.
unfoldable pub alive_context : Bool → Inbox → Bool × Inbox
alive_context parent b =
    if b.deleting
    then (true, b)
    else (renewed b.alive parent, record b { alive = some (renewed b.alive parent) })

-- The body of the loop of intake.
unfoldable pub receive : Inbox → AgentSpec → Inbox
unfolding stop_alive
receive b spec =
    if ltb_ℤ spec.generation b.highest
    then b
    else (let b' : Inbox = record b { highest = spec.generation; latest = some spec } in
        if is_some spec.deletion_requested_at then stop_alive b' else b')

unfoldable pub intake : Inbox → List AgentSpec → Inbox
intake b [] = b
intake b (s ∷ ss) = intake (receive b s) ss

abbrev pub fresh : Inbox
fresh = record { highest = negsuc 0; latest = none; alive = none; deleting = false }

-- The inbox holds a specification of the highest generation received.
pub record IsNewest (b : Inbox) : Type 0 where
  pub newest : (s : AgentSpec) → b.latest ≡ some s → s.generation ≡ b.highest

receive-IsNewest : (b : Inbox) (s : AgentSpec) → IsNewest b → IsNewest (receive b s)
unfolding receive
receive-IsNewest b s h = elim (Bool-cases (ltb_ℤ s.generation b.highest)) [
  | inl old ↦ rw old h
  | inr fresh ↦ elim (Bool-cases (is_some s.deletion_requested_at)) [
    | inl ends ↦ rw (fresh, ends) (record { newest = λ t e. cc })
    | inr goes ↦ rw (fresh, goes) (record { newest = λ t e. cc })
  ]
]

receive-highest :
    (b : Inbox) (s : AgentSpec)
    → (b.highest ≤ℤ (receive b s).highest) × (s.generation ≤ℤ (receive b s).highest)
unfolding receive
receive-highest b s = ground arith

le_trans_ℤ : (a b c : ℤ) → a ≤ℤ b → b ≤ℤ c → a ≤ℤ c
le_trans_ℤ a b c h k = omega arith

intake-highest : (ss : List AgentSpec) (b : Inbox) → b.highest ≤ℤ (intake b ss).highest
unfolding intake
intake-highest [] b = omega arith
intake-highest (s ∷ ss) b =
    le_trans_ℤ b.highest (receive b s).highest _ (receive-highest b s).0
      (intake-highest ss (receive b s))

intake_above :
    (ss : List AgentSpec) (b : Inbox) (s : AgentSpec)
    → In s ss
    → s.generation ≤ℤ (intake b ss).highest
unfolding intake
intake_above [] b s m = absurd m
intake_above (t ∷ ss) b s (inl e) = rw (← e) (
    le_trans_ℤ t.generation (receive b t).highest _ (receive-highest b t).1
      (intake-highest ss (receive b t)))
intake_above (t ∷ ss) b s (inr m) = intake_above ss (receive b t) s m

intake-IsNewest : (ss : List AgentSpec) (b : Inbox) → IsNewest b → IsNewest (intake b ss)
unfolding intake
intake-IsNewest [] b h = h
intake-IsNewest (s ∷ ss) b h = intake-IsNewest ss (receive b s) (receive-IsNewest b s h)

-- In whatever order the stream brings the specifications, the one in the inbox is of a generation
-- that no specification received so far exceeds.
pub intake_newest :
    (ss : List AgentSpec) (kept s : AgentSpec)
    → (intake fresh ss).latest ≡ some kept
    → In s ss
    → s.generation ≤ℤ kept.generation
intake_newest ss kept s e m =
    let n : IsNewest fresh = record { newest = λ t h. cc } in
    rw ((intake-IsNewest ss fresh n).newest kept e) (intake_above ss fresh s m)

-- Stopped: no context is given any more, and one that was given before is cancelled.
abbrev IsStopped : Inbox → Type 0
IsStopped b = (b.deleting ≡ true) × ((b.alive ≡ none) ⊎ (b.alive ≡ some true))
