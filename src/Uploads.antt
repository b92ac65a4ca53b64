-- ===== src/Uploads.antt =====
-- internal/disk/manager.go and internal/lifecycle/manager.go: the upload counters of rclone, their
-- sum over the disks, and the test for progress. The counters are never negative.
use yougpu_agent.Prelude.{
  ℕ, ◌+◌, ltb, eqb, String, Bool, false, ◌&&◌, ◌||◌, is_empty, if◌then◌else◌,
}

pub record Uploads : Type 0 where
  pub in_progress : ℕ
  pub queued : ℕ
  pub errored : ℕ
  pub out_of_space : Bool
  pub sent : ℕ
  pub completed : ℕ
  pub errors : ℕ
  pub last_error : String

abbrev pub no_uploads : Uploads
no_uploads = record {
  in_progress = 0;
  queued = 0;
  errored = 0;
  out_of_space = false;
  sent = 0;
  completed = 0;
  errors = 0;
  last_error = "";
}

unfoldable pub pending : Uploads → ℕ
pending u = u.in_progress + u.queued

unfoldable pub sum : Uploads → Uploads → Uploads
sum a b = record {
  in_progress = a.in_progress + b.in_progress;
  queued = a.queued + b.queued;
  errored = a.errored + b.errored;
  out_of_space = a.out_of_space || b.out_of_space;
  sent = a.sent + b.sent;
  completed = a.completed + b.completed;
  errors = a.errors + b.errors;
  last_error = if is_empty b.last_error then a.last_error else b.last_error;
}

unfoldable pub moved : Uploads → Uploads → Bool
unfolding pending
moved prev cur =
    ltb prev.completed cur.completed
    || ltb (pending cur) (pending prev)
    || (ltb prev.sent cur.sent && eqb cur.errors prev.errors)
