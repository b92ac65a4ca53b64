-- ===== src/Examples/Contents.antt =====
-- Examples of the content manager.
use yougpu_agent.Prelude.{
  ℕ, ◌+◌, ◌≤◌, String, true, false, none, List, [], ◌∷◌, ◌≡◌, refl, All, arith,
}
use yougpu_agent.Prelude.Result.{ok}
use yougpu_agent.Spec.{AgentContentSpec}
use yougpu_agent.Content.{Task, Manager, no_job, downloading_obs}
use yougpu_agent.Content.Host.{Host, Texts, made}
use yougpu_agent.Content.{is_permanent}
use yougpu_agent.Content.Ranges.{
  judge, note_error, Reply, File, Part, answered, parts_of, result_of, here, there, rest, more,
  Runs, attempt, settle, download_range, write_at, is_running,
}
use yougpu_agent.Content.Ranges.Whole.{ranges_whole}
use yougpu_agent.Content.Ranges.Requests.{
  Steps, stay, step, asks, unasked, requests, AtMostThree, ranges_end,
}
use yougpu_agent.Content.Failures.{entry}
use yougpu_agent.Content.Plan.{plan, tasks_of}
use yougpu_agent.Content.Plan.Inside.{IsInside, plan-IsInside}
use yougpu_agent.Content.Pass.{carry_out, held_by, work, go_on, unless_stopped, verdict, note}
use yougpu_agent.Content.Fetch.{
  fetch, transfer, wrapped, mkdir_all, try, or_undo, closing, fill, conclude,
}
use yougpu_agent.Content.Pass.Settled.{AllFetched, ready_settled}

abbrev content : File
content k = 100 + k

abbrev zeros : File
zeros k = 0

-- Eight parts of a byte each, in turn.
abbrev eight_turns : (ps : List Part) × (after : File) × Runs content 8 (parts_of 8) zeros ps after
unfolding parts_of attempt settle download_range write_at is_running
eight_turns = (
  _,
  _,
  (more (here (answered 206 (100 ∷ []) none) false refl (λ s. (refl, tt))) (
      more (there (here (answered 206 (101 ∷ []) none) false refl (λ s. (refl, tt)))) (
        more (there (there (here (answered 206 (102 ∷ []) none) false refl (λ s. (refl, tt))))) (
          more
            (there
              (there (there (here (answered 206 (103 ∷ []) none) false refl (λ s. (refl, tt))))))
            (more
              (there (
                there (
                  there
                    (there (here (answered 206 (104 ∷ []) none) false refl (λ s. (refl, tt)))))))
              (more
                (there (
                  there (
                    there (
                      there (
                        there
                          (here (answered 206 (105 ∷ []) none) false refl (λ s. (refl, tt))))))))
                (more
                  (there (
                    there (
                      there (
                        there (
                          there (
                            there (
                              here (answered 206 (106 ∷ []) none) false refl
                                (λ s. (refl, tt)))))))))
                  (more
                    (there (
                      there (
                        there (
                          there (
                            there (
                              there (
                                there (
                                  here (answered 206 (107 ∷ []) none) false refl
                                    (λ s. (refl, tt))))))))))
                    rest)))))))),
)

ranges_whole_example : eight_turns.1 3 ≡ content 3
unfolding parts_of attempt settle download_range write_at is_running result_of
ranges_whole_example =
    ranges_whole content zeros eight_turns.1 8 8 eight_turns.0 (omega arith) eight_turns.2 refl 3
      (omega arith)

-- A server that never answers with a part, asked three times for the first one.
abbrev refused : Reply
refused = answered 503 [] none

abbrev three_refused :
    (ps : List (ℕ × Part)) × (after : File) × Steps (unasked (parts_of 8)) zeros ps after
unfolding parts_of attempt settle download_range write_at is_running judge note_error is_permanent
three_refused = (
  _,
  _,
  step (asks refused false refl)
      (step (asks refused false refl) (step (asks refused false refl) stay)),
)

ranges_end_example : All AtMostThree three_refused.0 × (requests three_refused.0 ≤ 24)
ranges_end_example = ranges_end 8 three_refused.0 zeros three_refused.1 three_refused.2

abbrev texts : Texts
texts = record {
  quote = λ s. s;
  equal_fold = λ s t. true;
  part_name = λ s. ".part";
  is_html = λ s. false;
}

-- Nothing is there yet, and nothing fails.
abbrev host : Host (Unit {0})
host = record {
  now = λ w. (1000, w);
  is_cancelled = λ w. (false, w);
  open_root = λ p w. (none, w);
  make_all = λ p w. (none, w);
  mkdir = λ p w. (made, w);
  stat = λ p w. (none, w);
  hash = λ p w. (none, w);
  dir_exists = λ p w. (false, w);
  open_folder = λ p w. (none, w);
  create = λ d p w. (none, w);
  write = λ t w. (none, w);
  close = λ w. (none, w);
  info = λ w. (ok 5, w);
  hash_written = λ w. (ok "", w);
  remove = λ d p w. (tt, w);
  rename = λ d p q w. (none, w);
  get = λ u w. (
    ok (record { status = 200; content_type = ""; content_range = ""; length = 5; final_url = u }),
    w,
  );
  free = λ w. (none, w);
  copy = λ w. ((5, none), w);
  ranged = λ u n w. (none, w);
  git = λ ts w. ((none, ""), w);
  remove_all = λ p w. (tt, w);
}

abbrev manager : Manager (Unit {0})
manager = record {
  key = "1";
  job = no_job;
  observed = downloading_obs 0 "";
  settled = false;
  verified = [];
  failures = [];
  range_min = 1000;
  retry_base = 60000;
  reports = [];
  notified = 0;
  world = tt;
}

abbrev spec : AgentContentSpec
spec = record {
  workspace_files =
      record { url = "https://host/a.txt?x"; content = ""; dest = "data"; name = "" } ∷ [];
  models =
      record {
        url = "https://host/m.bin";
        type = "loras";
        name = "m.bin";
        sha256 = "";
        size_bytes = 5;
      }
      ∷ [];
  dirs = [];
  repos = record { url = "https://host/r.git"; ref = ""; dest = "../r" } ∷ [];
}

plan-IsInside_example :
    All (IsInside "/srv/work") (tasks_of (plan host texts spec "/srv/work" manager).0)
plan-IsInside_example = plan-IsInside host texts "/srv/work" spec manager

abbrev tasks : List Task
tasks =
    record {
      target = "/srv/work/a.txt";
      dir = "";
      base = "a.txt";
      url = "";
      inline = "hello";
      sha256 = "";
      size = 0;
      label = "a.txt";
      model = false;
      repo = none;
    }
    ∷ []

ready_settled_example :
    ◌≡◌ {A = List String} [] []
    × AllFetched host texts tasks (host.now manager.world).1
    × All (λ t. entry t.target (carry_out host texts [] tasks manager).1.failures ≡ none) tasks
unfolding carry_out held_by work go_on unless_stopped verdict note fetch transfer wrapped mkdir_all
    try or_undo closing fill conclude
ready_settled_example = ready_settled host texts [] tasks manager refl
