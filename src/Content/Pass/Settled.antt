-- ===== src/Content/Pass/Settled.antt =====
-- A pass of internal/content/manager.go that reports the content ready has nothing left that failed.
use yougpu_agent.Prelude.{
  ℕ, ◌+◌, ◌*◌, ◌/◌, eqb, String, Bool, true, false, Option, none, some, List, [], ◌∷◌, ◌++◌, ◌≡◌,
  refl, sym, subst, ap, ◌∙◌, All, is_empty, Bool-cases, inl, inr, arith,
}
use yougpu_agent.Prelude.Result.{Result, ok, err}
use yougpu_agent.Fetch.{clip}
use yougpu_agent.Content.{
  Error, Task, Failure, FileInfo, Manager, ready_obs, err_obs, emit, call, clamp, max_detail,
  downloading_obs,
}
use yougpu_agent.Content.Host.{Host, Texts}
use yougpu_agent.Content.Failures.{entry, without}
use yougpu_agent.Content.Fetch.{fetch, conclude, remember_it}
use yougpu_agent.Content.Plan.{remember}
use yougpu_agent.Content.Pass.{
  Queue, queue_of, queued, held_msgs, after, verdict, outcome, note, work, carry_out,
  unless_stopped, go_on,
}

verdict_ready : (es : List String) → verdict es ≡ ready_obs → es ≡ []
unfolding verdict err_obs
verdict_ready [] h = refl
verdict_ready (e ∷ es) h = cc

outcome_ready : (r : Option (List String)) → outcome r ≡ ready_obs → r ≡ some []
unfolding err_obs
outcome_ready none h = cc
outcome_ready (some es) h = ap some (verdict_ready es h)

append_none : (xs ys : List String) → xs ++ ys ≡ [] → (xs ≡ []) × (ys ≡ [])
append_none [] ys h = (refl, h)
append_none (x ∷ xs) ys h = cc

after_none :
    (xs : List String) (r : Option (List String)) → after xs r ≡ some [] → (xs ≡ []) × (r ≡ some [])
after_none xs none h = cc
after_none xs (some ys) h = both_none (append_none xs ys (some-path h))
  where
    some-path : {A : Type 0} {a b : A} → some a ≡ some b → a ≡ b
    some-path e = cc

    both_none : (xs ≡ []) × (ys ≡ []) → (xs ≡ []) × (some ys ≡ some [])
    both_none (a, b) = (a, ap some b)

without-entry :
    (t u : String) (fs : List (String × Failure))
    → entry u fs ≡ none
    → entry u (without t fs) ≡ none
without-entry t u [] h = refl
without-entry t u ((v, f) ∷ fs) h = ground (arith, without-entry t u fs)

entry-without : (t : String) (fs : List (String × Failure)) → entry t (without t fs) ≡ none
entry-without t [] = refl
entry-without t ((v, f) ∷ fs) = ground (arith, entry-without t fs)

module _ {W : Type 0} (host : Host W) (texts : Texts) where
  conclude-failures :
      (t : Task) (r : Result Error (Unit {0})) (m : Manager W)
      → (conclude host texts t r m).1.failures ≡ m.failures
  unfolding conclude remember_it remember
  conclude-failures t (err e) m = refl
  conclude-failures t (ok a) m = elim (Bool-cases (is_empty t.sha256)) [
    | inl unchecked ↦ rw unchecked refl
    | inr checked ↦ rw checked (kept _ _)
  ]
    where
      kept :
          (info : Option FileInfo) (n : Manager W)
          → (remember_it host texts t info n).failures ≡ n.failures
      kept none n = refl
      kept (some i) n = refl

  -- A fetch keeps the notes of failures.
  fetch-failures : (t : Task) (m : Manager W) → (fetch host texts t m).1.failures ≡ m.failures
  unfolding fetch
  fetch-failures t m = conclude-failures t _ _

  -- What is noted of no failure before a pass is noted of none after it, when nothing failed in it.
  note-kept :
      (t : Task) (e : Option Error) (u : String) (m : Manager W)
      → (note host texts t e m).0 ≡ []
      → entry u m.failures ≡ none
      → (e ≡ none) × (entry u (note host texts t e m).1.failures ≡ none)
  unfolding note
  note-kept t none u m h k = (refl, without-entry t.target u m.failures k)
  note-kept t (some e) u m h k = cc

  -- The manager after the fetch of a task, and the error.
  abbrev fetching : ℕ → ℕ → Task → Manager W → Option Error × Manager W
  fetching total idx t m =
      fetch host texts t
        (emit (downloading_obs (clamp (idx * 100 / total)) (clip t.label max_detail)) m).1

  abbrev fetched : ℕ → ℕ → Task → Manager W → Option Error × Manager W
  fetched total idx t m = let (e, m') = fetching total idx t m in (e, (call host.is_cancelled m').1)

  fetched-failures :
      (total idx : ℕ) (t : Task) (m : Manager W) → (fetched total idx t m).1.failures ≡ m.failures
  unfolding emit
  fetched-failures total idx t m = fetch-failures t _

  abbrev noted : ℕ → ℕ → Task → Manager W → List String × Manager W
  noted total idx t m = note host texts t (fetched total idx t m).0 (fetched total idx t m).1

  not_stopped :
      (b : Bool) (act : Manager W → Option (List String) × Manager W) (m : Manager W)
      → (unless_stopped host texts b act m).0 ≡ some []
      → act m ≡ unless_stopped host texts b act m
  unfolding unless_stopped
  not_stopped true act m h = cc
  not_stopped false act m h = refl

  -- A round of the loop that leads to no message.
  round :
      (total idx : ℕ) (t : Task) (q : Queue) (m : Manager W)
      → (work host texts total idx ((t, none) ∷ q) m).0 ≡ some []
      → let n = noted total idx t m in
        (n.0 ≡ [])
        × ((work host texts total (idx + 1) q n.1).0 ≡ some [])
        × ((work host texts total (idx + 1) q n.1).1
            ≡ (work host texts total idx ((t, none) ∷ q) m).1)
  unfolding work go_on
  round total idx t q m h =
      let (e, m') = fetching total idx t m in
      let (stop, m'') = call host.is_cancelled m' in
      let same =
        not_stopped stop (go_on host texts t e (work host texts total (idx + 1) q)) m'' h in
      let (a, b) = after_none _ _ (ap (λ r. r.0) same ∙ h) in (a, b, ap (λ r. r.1) same)

  -- The tasks of a queue whose loop ended with no message: none of them is left out.
  work-kept :
      (total idx : ℕ) (q : Queue) (u : String) (m : Manager W)
      → (work host texts total idx q m).0 ≡ some []
      → entry u m.failures ≡ none
      → entry u (work host texts total idx q m).1.failures ≡ none
  unfolding work
  work-kept total idx [] u m h k = k
  work-kept total idx ((t, some f) ∷ q) u m h k = cc ((after_none (f.msg ∷ []) _ h).0)
  work-kept total idx ((t, none) ∷ q) u m h k =
      let (a, b, c) = round total idx t q m h in
      let kept = (note-kept t _ u _ a (ap (entry u) (fetched-failures total idx t m) ∙ k)).1 in
      subst (λ n. entry u n.failures ≡ none) c (work-kept total (idx + 1) q u _ b kept)

  abbrev Cleared : Manager W → Task × Option Failure → Type 0
  Cleared m (t, held) = entry t.target m.failures ≡ none

  -- After a loop with no message there is no note of a failure of any of the tasks.
  work-Cleared :
      (total idx : ℕ) (q : Queue) (m : Manager W)
      → (work host texts total idx q m).0 ≡ some []
      → All (Cleared (work host texts total idx q m).1) q
  unfolding work note
  work-Cleared total idx [] m h = tt
  work-Cleared total idx ((t, some f) ∷ q) m h = cc ((after_none (f.msg ∷ []) _ h).0)
  work-Cleared total idx ((t, none) ∷ q) m h =
      let (a, b, c) = round total idx t q m h in
      subst (λ n. All (Cleared n) ((t, none) ∷ q)) c
        (
          work-kept total (idx + 1) q t.target _ b (cleared (fetched total idx t m).0 _ a),
          work-Cleared total (idx + 1) q _ b,
        )
    where
      cleared :
          (e : Option Error) (n : Manager W)
          → (note host texts t e n).0 ≡ []
          → entry t.target (note host texts t e n).1.failures ≡ none
      cleared none n k = entry-without t.target n.failures
      cleared (some e) n k = cc

  tasks-Cleared :
      (now : ℕ) (fs : List (String × Failure)) (ts : List Task) (m : Manager W)
      → All (Cleared m) (queue_of now fs ts)
      → All (λ t. entry t.target m.failures ≡ none) ts
  tasks-Cleared now fs [] m h = tt
  tasks-Cleared now fs (t ∷ ts) m (c, h) = (c, tasks-Cleared now fs ts m h)

  idle_queue : (q : Queue) → eqb (queued q) 0 ≡ true → held_msgs q ≡ [] → q ≡ []
  idle_queue [] e h = refl
  idle_queue ((t, none) ∷ q) e h = ground arith
  idle_queue ((t, some f) ∷ q) e h = cc

  empty_queue :
      (now : ℕ) (fs : List (String × Failure)) (ts : List Task) → queue_of now fs ts ≡ [] → ts ≡ []
  empty_queue now fs [] e = refl
  empty_queue now fs (t ∷ ts) e = cc

  -- The tasks were fetched one after the other, each without an error, from the world w on: after a
  -- fetch the context is asked once, and the next fetch begins in the world that this leaves.
  abbrev pub AllFetched : List Task → W → Type 0
  AllFetched [] w = Unit {0}
  AllFetched (t ∷ ts) w =
      (a : Manager W) × (a.world ≡ w)
      × ((fetch host texts t a).0 ≡ none)
      × AllFetched ts (host.is_cancelled (fetch host texts t a).1.world).1

  note-world :
      (t : Task) (e : Option Error) (n : Manager W)
      → (note host texts t e n).0 ≡ []
      → (e ≡ none) × ((note host texts t e n).1.world ≡ n.world)
  unfolding note
  note-world t none n h = (refl, refl)
  note-world t (some e) n h = cc

  abbrev in_queue : Queue → List Task
  in_queue [] = []
  in_queue ((t, held) ∷ q) = t ∷ in_queue q

  in_queue-queue_of :
      (now : ℕ) (fs : List (String × Failure)) (ts : List Task) → in_queue (queue_of now fs ts) ≡ ts
  in_queue-queue_of now fs [] = refl
  in_queue-queue_of now fs (t ∷ ts) = ap (λ us. t ∷ us) (in_queue-queue_of now fs ts)

  work-AllFetched :
      (total idx : ℕ) (q : Queue) (m : Manager W)
      → (work host texts total idx q m).0 ≡ some []
      → AllFetched (in_queue q) m.world
  unfolding work emit
  work-AllFetched total idx [] m h = tt
  work-AllFetched total idx ((t, some f) ∷ q) m h = cc ((after_none (f.msg ∷ []) _ h).0)
  work-AllFetched total idx ((t, none) ∷ q) m h =
      let (a, b, c) = round total idx t q m h in
      let (fine, same) = note-world t (fetched total idx t m).0 (fetched total idx t m).1 a in
      (
        (emit (downloading_obs (clamp (idx * 100 / total)) (clip t.label max_detail)) m).1,
        refl,
        fine,
        subst (λ w. AllFetched (in_queue q) w) same
            (work-AllFetched total (idx + 1) q (noted total idx t m).1 b),
      )

  -- What carrying out a plan reports: when it is "ready", then nothing had failed before, each of the
  -- tasks was fetched in this pass without an error, one after the other, and of none of them is a
  -- failure noted.
  pub ready_settled :
      (failed : List String) (tasks : List Task) (m : Manager W)
      → (carry_out host texts failed tasks m).0.0 ≡ ready_obs
      → (failed ≡ [])
        × AllFetched tasks (host.now m.world).1
        × All (λ t. entry t.target (carry_out host texts failed tasks m).1.failures ≡ none) tasks
  unfolding carry_out emit
  ready_settled failed tasks m h =
      let (now, m') = call host.now m in
      let q = queue_of now m'.failures tasks in
      let m'' : Manager W =
        (emit (downloading_obs 0 "подготовка") (record m' { settled = false })).1 in
      elim (Bool-cases (eqb (queued q) 0)) [
        | inl idle ↦
            let (a, b) = append_none failed _ (verdict_ready _ (rw idle at h)) in
            (
              a,
              subst (λ ts. AllFetched ts m'.world)
                  (sym (empty_queue now m'.failures tasks (idle_queue q idle b))) tt,
              subst
                  (λ ts.
                    All
                      (λ t. entry t.target (carry_out host texts failed tasks m).1.failures ≡ none)
                      ts)
                  (sym (empty_queue now m'.failures tasks (idle_queue q idle b))) tt,
            )
        | inr busy ↦
            let (a, b) = after_none failed _ (outcome_ready _ (rw busy at h)) in
            (
              a,
              subst (λ ts. AllFetched ts m'.world) (in_queue-queue_of now m'.failures tasks)
                  (work-AllFetched (queued q) 0 q m'' b),
              rw busy (
                  tasks-Cleared now m'.failures tasks (work host texts (queued q) 0 q m'').1
                    (work-Cleared (queued q) 0 q m'' b)),
            )
      ]
