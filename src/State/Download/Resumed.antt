-- ===== src/State/Download/Resumed.antt =====
-- What fetchArchive of internal/state/manager.go leaves in the file, over rounds that resume it.
use yougpu_agent.Prelude.{
  ℕ, Option, none, List, ◌≡◌, refl, sym, ◌∙◌, subst, length, Bool-cases, inl, inr,
}
use yougpu_agent.Prelude.Result.{Result, ok, err}
use yougpu_agent.Spec.{StateRestore}
use yougpu_agent.State.{Error}
use yougpu_agent.State.Download.{
  Host, Dest, download, Round, ended, is_final, given_up, after_sleep, after_attempt, round, Rounds,
  first, next,
}
use yougpu_agent.State.Download.Attempt.{IsStart, Good, AllHonest, same_start, download-Kept}

module _ {W : Type 0} (host : Host W) (content : List ℕ) where
  -- What a round does after its attempt leaves the file as it is, and ends with no error only after
  -- an attempt with none.
  Settled : Result Error (Unit {0}) → Dest W → Round × Dest W → Type 0
  Settled r d (end, d') = (d'.file ≡ d.file) × (end ≡ ended none → r ≡ ok tt)

  after_attempt-Settled :
      (delay : ℕ) (cause : Option Error) (r : Result Error (Unit {0})) (d : Dest W)
      → Settled r d (after_attempt host delay cause r d)
  unfolding Settled after_attempt after_sleep given_up
  after_attempt-Settled delay cause (ok a) d = (refl, λ h. refl)
  after_attempt-Settled delay cause (err e) d = elim (Bool-cases (is_final e)) [
    | inl over ↦ rw over (refl, λ h. cc)
    | inr more ↦ elim (Bool-cases (host.is_cancelled d.world).0) [
      | inl cancelled ↦ rw (more, cancelled) (refl, λ h. cc)
      | inr live ↦ elim (Bool-cases (host.sleep delay (host.is_cancelled d.world).1).0) [
        | inl cut ↦ rw (more, live, cut) (refl, λ h. cc)
        | inr slept ↦ rw (more, live, slept) (refl, λ h. cc)
      ]
    ]
  ]

  round-Good :
      (spec : StateRestore) (delay : ℕ) (cause : Option Error) (d : Dest W)
      → AllHonest host content
      → Good host content d
      → Good host content (round host spec delay cause d).1
  unfolding round Settled
  round-Good spec delay cause d honest h =
      subst (λ f. IsStart f content)
        (sym
          (after_attempt-Settled delay cause (download host spec d).0 (download host spec d).1).0)
        (download-Kept host content spec d honest h).0

  Rounds-Good :
      {spec : StateRestore} {cause : Option Error} {delay : ℕ} {d : Dest W}
      → Rounds host spec cause delay d
      → AllHonest host content
      → Good host content d
  Rounds-Good (first delay w) honest = (content, refl)
  Rounds-Good (next {cause} {delay} {d} e later before more) honest =
      round-Good _ delay cause d honest (Rounds-Good before honest)

  -- An archive that is fetched from an empty file, over any number of rounds that resume it, is the
  -- content when fetchArchive ends with no error: byte for byte, where the server answers from the
  -- content, which has the size of the spec, but may break off anywhere.
  pub fetched_whole :
      {spec : StateRestore} {cause : Option Error} {delay : ℕ} {d : Dest W}
      → Rounds host spec cause delay d
      → AllHonest host content
      → spec.size_bytes ≡ length content
      → (round host spec delay cause d).0 ≡ ended none
      → (round host spec delay cause d).1.file ≡ content
  unfolding round Settled
  fetched_whole {spec} {cause} {delay} {d} rounds honest size h =
      let (r, d') = download host spec d in
      let (start, full) = download-Kept host content spec d honest (Rounds-Good rounds honest) in
      let (same, ended_well) = after_attempt-Settled delay cause r d' in
      same ∙ same_start d'.file content start (full (ended_well h) ∙ size)
