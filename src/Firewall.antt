-- ===== src/Firewall.antt =====
-- internal/firewall/manager.go: the ports that ufw opens. A Go map of ports is a list of its keys,
-- each once; the calls of ufw and the matches of ruleRe are parameters.
pub mod Rules
use yougpu_agent.Prelude.{
  ℕ, ℤ, pos, negsuc, pos_part, ◌+◌, ltb, leb, eqb, String, Char, code, Bool, true, false, not, ◌&&◌,
  ◌||◌, Option, none, some, List, [], ◌∷◌, ◌++◌, ◌==◌, ◌<>◌, trim_space, contains, join, atoi,
  if◌then◌else◌, is_some, Run, pure, ◌>>=◌, ◌>>◌,
}
use yougpu_agent.Prelude.Result.{Result, ok, err}
use yougpu_agent.Fetch.{clip}
use yougpu_agent.Spec.{AgentFirewallSpec, FirewallPort}
use yougpu_agent.Status.{AgentFirewallObserved, FirewallState}

pub record Port : Type 0 where
  pub number : ℕ
  pub protocol : String

abbrev pub same : Port → Port → Bool
same p q = eqb p.number q.number && p.protocol == q.protocol

abbrev pub has_port : List Port → Port → Bool
has_port [] q = false
has_port (p ∷ ps) q = same p q || has_port ps q

abbrev pub put : Port → List Port → List Port
put p ps = if has_port ps p then ps else p ∷ ps

abbrev pub ssh : Port
ssh = record { number = 22; protocol = "tcp" }

abbrev pub lower : Char → ℕ
lower c = if leb b'A' (code c) && leb (code c) b'Z' then code c + 32 else code c

-- strings.ToLower(s) == "udp"; no character outside ASCII has one of these as its lower case.
unfoldable pub is_udp : String → Bool
is_udp String.[] = false
is_udp (String.◌∷◌ a String.[]) = false
is_udp (String.◌∷◌ a (String.◌∷◌ b String.[])) = false
is_udp (String.◌∷◌ a (String.◌∷◌ b (String.◌∷◌ c String.[]))) =
    eqb (lower a) b'u' && eqb (lower b) b'd' && eqb (lower c) b'p'
is_udp (String.◌∷◌ a (String.◌∷◌ b (String.◌∷◌ c (String.◌∷◌ d s)))) = false

unfoldable pub normalize_proto : String → String
unfolding is_udp
normalize_proto p = if is_udp (trim_space p) then "udp" else "tcp"

unfoldable pub is_valid_port : ℤ → Bool
is_valid_port (pos n) = ltb 0 n && leb n 65535
is_valid_port (negsuc n) = false

unfoldable pub put_all : List FirewallPort → List Port → List Port
unfolding is_valid_port normalize_proto
put_all [] ps = ps
put_all (f ∷ fs) ps =
    let added =
      put_all fs
        (put (record { number = pos_part f.port; protocol = normalize_proto f.protocol }) ps) in
    let left = put_all fs ps in if is_valid_port f.port then added else left

unfoldable pub desired_set : Option AgentFirewallSpec → List Port
unfolding put_all
desired_set none = ssh ∷ []
desired_set (some spec) = put_all spec.ports (ssh ∷ [])

unfoldable pub select : (Port → Bool) → List Port → List Port
select f [] = []
select f (p ∷ ps) = let rest = select f ps in if f p then p ∷ rest else rest

-- Diff
unfoldable pub diff : List Port → List Port → List Port × List Port
unfolding select
diff desired observed = (
  select (λ p. not (has_port observed p)) desired,
  select (λ p. not (same p ssh) && not (has_port desired p)) observed,
)

unfoldable pub add_rule : Option ℕ → String → List Port → List Port
add_rule none protocol ps = ps
add_rule (some n) protocol ps = put (record { number = n; protocol = protocol }) ps

-- The loop of ParseYougpuRules over the matches of ruleRe: the port and the protocol of each.
unfoldable pub parse_rules : List (String × String) → List Port → List Port
unfolding add_rule
parse_rules [] ps = ps
parse_rules ((n, protocol) ∷ rest) ps = parse_rules rest (add_rule (atoi n) protocol ps)

abbrev pub max_error : ℕ
max_error = 1024

abbrev pub report : List String → AgentFirewallObserved
report [] = record { observed_state = FirewallState.applied; last_error = none }
report (e ∷ errs) = record {
  observed_state = FirewallState.error;
  last_error = some (clip (join "; " (e ∷ errs)) max_error);
}

-- The runs of ufw, and the matches of ruleRe in its output.
pub record Ufw (W : Type 0) : Type 0 where
  pub status : Run W (Result String String)
  pub enable : Run W (Option String)
  pub allow : Port → Run W (Option String)
  pub delete : Port → Run W (Option String)
  pub matches : String → List (String × String)

abbrev pub note : Option String → List String → List String
note none errs = errs
note (some e) errs = e ∷ errs

-- ParseYougpuRules
abbrev pub rules_of : {W : Type 0} → Ufw W → String → List Port
rules_of ufw text = parse_rules (ufw.matches text) []

module _ {W : Type 0} (ufw : Ufw W) where
  unfoldable pub allow_all : List Port → Run W (List String)
  allow_all [] = pure []
  allow_all (p ∷ ps) = do e ← ufw.allow p; errs ← allow_all ps; pure (note e errs)

  unfoldable pub delete_all : List Port → Run W (List String)
  delete_all [] = pure []
  delete_all (p ∷ ps) = do e ← ufw.delete p; errs ← delete_all ps; pure (note e errs)

  unfoldable pub apply : AgentFirewallSpec → String → Run W AgentFirewallObserved
  apply spec text = do
    let (to_add, to_remove) = diff (desired_set (some spec)) (rules_of ufw text)
    added ← allow_all to_add
    removed ← delete_all to_remove
    pure (report (added ++ removed))

  unfoldable pub apply_status :
      AgentFirewallSpec → Result String String → Run W AgentFirewallObserved
  apply_status spec (err e) = pure (report (e ∷ []))
  apply_status spec (ok text) = apply spec text

  unfoldable pub apply_enabled : AgentFirewallSpec → Option String → Run W AgentFirewallObserved
  apply_enabled spec (some e) = pure (report (e ∷ []))
  apply_enabled spec none = do again ← ufw.status; apply_status spec again

  unfoldable pub apply_checked :
      AgentFirewallSpec → Result String String → Run W AgentFirewallObserved
  unfolding apply_enabled
  apply_checked spec (err e) = pure (report (e ∷ []))
  apply_checked spec (ok text) =
      let enabling : Run W AgentFirewallObserved = (do e ← ufw.enable; apply_enabled spec e) in
      let now : Run W AgentFirewallObserved = apply spec text in
      if contains text "Status: inactive" then enabling else now

  -- Reconcile
  unfoldable pub reconcile : Option AgentFirewallSpec → Run W AgentFirewallObserved
  unfolding apply_checked
  reconcile none = pure (report [])
  reconcile (some spec) = do status ← ufw.status; apply_checked spec status
