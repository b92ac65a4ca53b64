-- ===== src/Examples/Network.antt =====
-- Examples of the client and of ufw, over a world that counts.
use yougpu_agent.Prelude.{
  has_prefix, ℕ, suc, ◌≤◌, ℤ, pos, negsuc, ◌≤ℤ◌, String, Bool, true, false, not, ◌&&◌, ◌||◌, eqb,
  Option, none, some, List, [], ◌∷◌, ◌==◌, atoi, arith, inl, inr, Bool-cases, ◌≡◌, refl, ◌⊎◌,
  trim_space, contains, if◌then◌else◌,
}
use yougpu_agent.Prelude.Result.{ok}
use yougpu_agent.Spec.{AgentFirewallSpec}
use yougpu_agent.Client.{Response, Http, request, parse_retry_after, positive_atoi, Stream}
use yougpu_agent.Client.Retry.{
  IsWait, Counted, parse_retry_after-IsWait, parse_retry_after_wraps, request_sends,
}
use yougpu_agent.Client.Events.{Event}
use yougpu_agent.Firewall.{
  Port, ssh, rules_of, parse_rules, diff, apply, apply_checked, apply_enabled, apply_status,
  allow_all, delete_all, Ufw, has_port, same, desired_set, reconcile,
}
use yougpu_agent.Firewall.Rules.{same-eq, Lawful, reconcile-in_place}

abbrev no_date : String → Option ℤ
no_date h = none

seventeen : (n : ℕ) → positive_atoi "17" ≡ some n → n ≤ 9223372036
unfolding positive_atoi atoi
seventeen n e = let same_number : 17 ≡ n = cc in omega arith

parse_retry_after-IsWait_example : IsWait (parse_retry_after no_date "17")
parse_retry_after-IsWait_example = parse_retry_after-IsWait no_date "17" seventeen

wraps_low : 9223372037 ≤ 9300000000
wraps_low = omega arith

wraps_high : 9300000000 ≤ 18446744073
wraps_high = omega arith

parse_retry_after_wraps_example : parse_retry_after no_date "9300000000" ≤ℤ negsuc 0
unfolding positive_atoi atoi
parse_retry_after_wraps_example =
    parse_retry_after_wraps no_date "9300000000" 9300000000 refl refl wraps_low wraps_high

-- A backend that limits the first request.
abbrev limited : ℕ → ℕ
limited n = if eqb n 0 then 429 else 204

abbrev net : Http ℕ
net = record {
  send = λ n. (ok (record { status = limited n; retry_after = "1"; body = "" }), suc n);
  wait = λ d n. (ok tt, n);
  date = no_date;
  envelope = λ body. none;
  snippet = λ body. body;
  read = λ body. ok body;
}

abbrev counted : Counted net
counted = record { count = λ n. n; counts = λ n. refl; keeps = λ d n. refl }

request_sends_example :
    (counted.count (request net true 0).1 ≡ 1)
    ⊎ ((counted.count (request net true 0).1 ≡ 2)
        × ((r : Response) × ((net.send 0).0 ≡ ok r) × (r.status ≡ 429)))
request_sends_example = request_sends net counted true 0

abbrev any : String → Bool
any p = true

abbrev noted_event : String → Event
noted_event p = record { before = " ping" ∷ []; between = []; behind = "" ∷ []; payload = p }

abbrev two_events : List Event
two_events = noted_event "{1}" ∷ noted_event "{2}" ∷ []

-- The fields of an event that broke off.
abbrev halfway : Stream
halfway = record { event = "spec"; payload = "{"; sent = [] }

-- A scanner that stops at a line it cannot hold: here one that begins with an exclamation mark.
abbrev fits : String → Bool
fits l = not (has_prefix "!" l)

abbrev scan : List String → List String
scan [] = []
scan (l ∷ ls) = let rest = scan ls in if fits l then l ∷ rest else []

-- A firewall that knows one more port than that of ssh: the world is whether it is active, and whether
-- that port is open. It accepts a rule also while it is inactive.
abbrev extra : Port
extra = record { number = 8080; protocol = "tcp" }

abbrev shown_rules : Bool → List (String × String)
shown_rules true = ("22", "tcp") ∷ ("8080", "tcp") ∷ []
shown_rules false = ("22", "tcp") ∷ []

abbrev listing : Bool × Bool → String
listing (true, true) = "22 8080"
listing (true, false) = "22"
listing (false, b) = "Status: inactive"

abbrev open_rule : Bool → Bool × Bool → Option String × (Bool × Bool)
open_rule true (on, b) = (none, (on, true))
open_rule false w = (some "unknown port", w)

abbrev enable : Bool × Bool → Option String × (Bool × Bool)
enable (on, b) = (none, (true, b))

abbrev ufw : Ufw (Bool × Bool)
ufw = record {
  status = λ w. (ok (listing w), w);
  enable = enable;
  allow = λ p w. open_rule (same p extra) w;
  delete = λ p w. (some "refused", w);
  matches = λ text. shown_rules (text == "22 8080");
}

abbrev is_open : Bool × Bool → Port → Bool
is_open (on, b) q = same ssh q || (b && same extra q)

enabled_on : (w : Bool × Bool) → (ufw.enable w).0 ≡ none → (ufw.enable w).1.0 ≡ true
enabled_on (on, b) h = refl

told_on :
    (text : String) (w : Bool × Bool)
    → (ufw.status w).0 ≡ ok text
    → contains text "Status: inactive" ≡ false
    → w.0 ≡ true
unfolding contains
told_on text (true, b) h off = refl
told_on text (false, b) h off =
    let told : "Status: inactive" ≡ text = cc in absurd (cc (rw (← told) at off))

allowed_rule :
    (p q : Port) (w : Bool × Bool)
    → w.0 ≡ true
    → (ufw.allow p w).0 ≡ none
    → (is_open (ufw.allow p w).1 q ≡ (same p q || is_open w q)) × ((ufw.allow p w).1.0 ≡ true)
allowed_rule p q (on, b) active h = elim (Bool-cases (same p extra)) [
  | inr f ↦ absurd (cc (rw f at h))
  | inl t ↦ rw (same-eq p extra t) (more (same ssh q) (same extra q) b, active)
]
  where
    more : (a b w : Bool) → (a || (true && b)) ≡ (b || (a || (w && b)))
    more a b w = ground arith

deleted_rule :
    (p q : Port) (w : Bool × Bool)
    → w.0 ≡ true
    → (ufw.delete p w).0 ≡ none
    → (is_open (ufw.delete p w).1 q ≡ (not (same p q) && is_open w q))
      × ((ufw.delete p w).1.0 ≡ true)
deleted_rule p q w active h = absurd (cc h)

shown_rule :
    (text : String) (q : Port) (w : Bool × Bool)
    → w.0 ≡ true
    → (ufw.status w).0 ≡ ok text
    → (is_open w q ≡ has_port (rules_of ufw text) q) × (w.0 ≡ true)
unfolding parse_rules atoi
shown_rule text q (false, b) active h = absurd (cc active)
shown_rule text q (true, true) active h =
    let told : "22 8080" ≡ text = cc in rw (← told) (swap (same ssh q) (same extra q), refl)
  where
    swap : (a b : Bool) → (a || b) ≡ (b || (a || false))
    swap a b = ground arith
shown_rule text q (true, false) active h = let told : "22" ≡ text = cc in rw (← told) (refl, refl)

abbrev laws : Lawful ufw
laws = record {
  is_active = λ w. w.0;
  in_place = is_open;
  enabled = enabled_on;
  told = told_on;
  allowed = allowed_rule;
  deleted = deleted_rule;
  shown = shown_rule;
}

abbrev web : AgentFirewallSpec
web = record { ports = record { port = pos 8080; protocol = "TCP" } ∷ [] }

reconcile-in_place_example :
    laws.in_place (reconcile ufw (some web) (false, false)).1 extra
    ≡ has_port (desired_set (some web)) extra
unfolding reconcile apply_checked apply_enabled apply_status contains apply allow_all diff
    desired_set parse_rules atoi trim_space delete_all
reconcile-in_place_example = reconcile-in_place ufw laws web extra (false, false) refl
