-- ===== src/Examples/Texts.antt =====
-- Examples of texts that are cut, and of paths.
use yougpu_agent.Prelude.{◌*◌, ◌^◌, ◌≤◌, min, String, [], ◌∷◌, ◌<>◌, ◌≡◌}
use yougpu_agent.Fetch.{clip}
use yougpu_agent.Fetch.Cut.{units, Full, clip_longest}
use yougpu_agent.Archive.Paths.{Key}
use yougpu_agent.State.Save.{retry_after, max_retry_delay}
use yougpu_agent.State.Save.Retry.{retry_after_exact}

clip_longest_example :
    (t : String) × ("диск 😀 занят" ≡ clip "диск 😀 занят" 6 <> t)
    × (units (clip "диск 😀 занят" 6) ≤ 6)
    × Full 6 (units (clip "диск 😀 занят" 6)) t
clip_longest_example = clip_longest "диск 😀 занят" 6

retry_after_exact_example : retry_after 3 5000 ≡ min (5000 * 2 ^ 3) max_retry_delay
retry_after_exact_example = retry_after_exact 3 5000

abbrev model_path : Key
model_path = "a.bin" ∷ "models" ∷ []
