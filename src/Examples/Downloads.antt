-- ===== src/Examples/Downloads.antt =====
-- Examples of the download of an archive and of a restore.
use yougpu_agent.Prelude.{
  inl, inr, Option, Run, true, ℕ, zero, suc, false, none, some, List, [], ◌∷◌, ◌≡◌, refl, subst,
  arith, has_prefix, atoi, trim_prefix,
}
use yougpu_agent.Prelude.Result.{Result, ok}
use yougpu_agent.Spec.{StateRestore, AgentStateSpec}
use yougpu_agent.State.{Error, plain}
use yougpu_agent.State.Download.{
  Response, Host, range_start, download, answer_of, is_final, or_first, Rounds, first, next, round,
}
use yougpu_agent.State.Download.Attempt.{IsStart, drop, IsHonest, AllHonest}
use yougpu_agent.Examples.{saving_spec}
use yougpu_agent.State.Steps
use yougpu_agent.State.Steps.{Folder, workspace, unpacked, laid, restore}
use yougpu_agent.State.Steps.Untouched.{IsAside, IsTemporary, Ends, restore-Ends}
use yougpu_agent.State.Download.Resumed.{fetched_whole}

abbrev archive : List ℕ
archive = 11 ∷ 12 ∷ 13 ∷ 14 ∷ []

-- The first answer breaks off after two bytes, the later ones give the rest.
abbrev broken_off : Response
broken_off = record {
  status = 200;
  content_range = "";
  body = 11 ∷ 12 ∷ [];
  broken = some (plain "unexpected EOF");
}

abbrev the_rest : Response
the_rest = record {
  status = 206;
  content_range = "bytes 2-3/4";
  body = 13 ∷ 14 ∷ [];
  broken = none;
}

abbrev answer_at : ℕ → Response
answer_at zero = broken_off
answer_at (suc n) = the_rest

abbrev store : Host ℕ
store = record {
  create = λ w. (none, w);
  truncate = λ w. (none, w);
  get = λ url range w. (ok (answer_at w), suc w);
  is_cancelled = λ w. (false, w);
  is_late = λ w. (false, w);
  sleep = λ d w. (false, w);
  restore_timeout = "30m";
}

abbrev wanted : StateRestore
wanted = record { url = "https://store/2"; sha256 = "ab"; size_bytes = 4 }

same_ok : (a b : Response) → Path (Result Error Response) (ok a) (ok b) → a ≡ b
same_ok a b e = cc

store-IsHonest : AllHonest store archive
unfolding range_start has_prefix atoi trim_prefix
store-IsHonest url range zero r e =
    subst (IsHonest archive) (same_ok broken_off r e)
      ((λ s. (13 ∷ 14 ∷ [], refl)), (λ n s. absurd (differ s)))
  where
    differ : ◌≡◌ {A = ℕ} 200 206 → ⊥
    differ s = omega (arith, s)
store-IsHonest url range (suc w) r e = subst (IsHonest archive) (same_ok the_rest r e) (
  (λ s. absurd (differ s)),
  (λ n s g. subst (λ k. IsStart (13 ∷ 14 ∷ []) (drop k archive)) (two n g) ([], refl)),
)
  where
    differ : ◌≡◌ {A = ℕ} 206 200 → ⊥
    differ s = omega (arith, s)

    two : (n : ℕ) → range_start "bytes 2-3/4" ≡ some n → 2 ≡ n
    two n g = some-path g
      where
        some-path : some 2 ≡ some n → 2 ≡ n
        some-path g = cc

broken-Rounds :
    Rounds store wanted
      (some (plain "unexpected EOF"))
      10
      (round store wanted 5 none (record { file = []; world = 0 })).1
unfolding round download answer_of is_final or_first
broken-Rounds = next (plain "unexpected EOF") 10 (first 5 0) refl

fetched_whole_example :
    (round store wanted 10
      (some (plain "unexpected EOF"))
      (round store wanted 5 none (record { file = []; world = 0 })).1).1.file
    ≡ archive
unfolding round download answer_of is_final or_first range_start has_prefix atoi trim_prefix
fetched_whole_example = fetched_whole store archive broken-Rounds store-IsHonest refl refl

-- A host of a restore whose world counts the moves into the workspace.
abbrev moved : Folder → Folder → Run ℕ (Option Error)
moved f workspace w = (none, suc w)
moved f unpacked w = (none, w)
moved f laid w = (none, w)

-- Emptying the workspace counts as well.
abbrev wiped : Folder → Run ℕ (Option Error)
wiped workspace w = (none, suc w)
wiped unpacked w = (none, w)
wiped laid w = (none, w)

abbrev machine : Steps.Host ℕ
machine = record {
  make_workspace = λ w. (none, w);
  remove = λ a w. (none, w);
  fetch = λ s a w. (none, w);
  hash = λ a w. (ok "ab", w);
  remove_all = wiped;
  make_dir = λ f w. (none, w);
  unpack = λ a f ds w. (none, w);
  safe_rel = λ d. none;
  has = λ f d w. (ok true, w);
  remove_rel = λ f d w. (none, w);
  move_into = moved;
}

abbrev restoring : AgentStateSpec
restoring = record saving_spec {
  restore = some wanted;
  overlay = some (record { archive = wanted; include = "venv" ∷ [] });
}

abbrev NoMove : ℕ → Type 0
NoMove w = w ≡ 0

cleared :
    (f : Folder)
    → IsTemporary NoMove machine f
    → (w : ℕ) → NoMove w
    → NoMove (machine.remove_all f w).1
cleared unpacked t w p = p
cleared laid t w p = p
cleared workspace (inl e) w p = cc
cleared workspace (inr e) w p = cc

machine-IsAside : IsAside NoMove machine
machine-IsAside = record {
  make_workspace = λ w p. p;
  remove = λ a w p. p;
  fetch = λ s a w p. p;
  hash = λ a w p. p;
  remove_all = cleared;
  make_dir = λ f t w p. p;
  unpack = λ a f ds t w p. p;
  has = λ f d w p. p;
  remove_rel = λ d w p. p;
  lay = λ w p. p;
}

restore-Ends_example :
    Ends NoMove machine machine-IsAside restoring
      (restore machine restoring 0).0
      (restore machine restoring 0).1
restore-Ends_example = restore-Ends NoMove machine machine-IsAside restoring 0 refl
