-- ===== src/Content/Failures.antt =====
-- internal/content/manager.go: what is noted of the targets whose fetch failed, and when one is
-- fetched again.
use yougpu_agent.Prelude.{
  ℕ, ◌+◌, ◌*◌, ◌^◌, leb, ltb, String, Bool, true, false, ◌||◌, Option, none, some, List, [], ◌∷◌,
  ◌==◌, if◌then◌else◌,
}
use yougpu_agent.Content.{Failure, Manager}

abbrev pub fetch_attempts : ℕ
fetch_attempts = 3

abbrev pub entry : String → List (String × Failure) → Option Failure
entry target [] = none
entry target ((t, f) ∷ fs) = if t == target then some f else entry target fs

-- delete(m.failures, target)
abbrev pub without : String → List (String × Failure) → List (String × Failure)
without target [] = []
without target ((t, f) ∷ fs) =
    let rest = without target fs in if t == target then rest else (t, f) ∷ rest

abbrev pub or_new : Option Failure → Failure
or_new none = record { attempts = 0; next = 0; permanent = false; msg = "" }
or_new (some f) = f

-- The entry of a target after one more failure.
unfoldable pub failed_once : ℕ → ℕ → String → Bool → Failure → Failure
failed_once base now msg final f =
    if final || leb fetch_attempts (f.attempts + 1)
    then record f { attempts = f.attempts + 1; msg = msg; permanent = true }
    else record f { attempts = f.attempts + 1; msg = msg; next = now + base * 2 ^ f.attempts }

-- fail, at the time `now`.
unfoldable pub fail : {W : Type 0} → ℕ → String → String → Bool → Manager W → Manager W
fail now target msg final m = record m {
  failures =
      (target, failed_once m.retry_base now msg final (or_new (entry target m.failures)))
      ∷ m.failures;
}

-- Whether a target is left out of a pass.
unfoldable pub is_held : ℕ → Option Failure → Bool
is_held now none = false
is_held now (some f) = f.permanent || ltb now f.next
