-- ===== src/Examples/Containers.antt =====
-- Examples of containers: a docker with one running container, known by the hash of its label.
use yougpu_agent.Prelude.{
  ℕ, zero, suc, String, Bool, true, false, ◌&&◌, ◌==◌, ◌<>◌, eq_iff, trim_prefix, contains,
  has_prefix, trim_space, none, some, List, [], ◌∷◌, ◌≡◌, refl, ◌∙◌, arith, inl, inr, Bool-cases,
  Run, if◌then◌else◌,
}
use yougpu_agent.Prelude.Result.{ok, err}
use yougpu_agent.Container.{
  apply, remove, Docker, Manager, Observed, parse, read_inspect, is_not_found, observe, decide,
  converge, perform, report, reconcile,
}
use yougpu_agent.Container.Running.{RunsAs, Lawful, reconcile_running}
use yougpu_agent.Container.Gated.{Closed, reconcile_gated}
use yougpu_agent.Examples.{app}

abbrev at : ℕ → List String → String
at n [] = ""
at zero (x ∷ xs) = x
at (suc n) (x ∷ xs) = at n xs

abbrev shows : String → Bool
shows h = (parse ("true|" <> h)).running && (parse ("true|" <> h)).spec_hash == h

-- The world is the hash of the container that runs; one that cannot be shown is not told.
abbrev docker : Docker String
docker = record {
  inspect = λ h. (if shows h then ok ("true|" <> h) else err "silent", h);
  rm = λ h. (none, h);
  run = λ args h. (none, trim_prefix "yougpu.spec.hash=" (at 12 args));
  pull = λ image h. (none, h);
  mkdir = λ path h. (none, h);
  mark = λ h. (tt, h);
  sorted = λ env. env;
  hash = λ spec. "abc";
}

abbrev container : String → Observed
container h = record { exists = true; running = true; spec_hash = h }

parts_of : (b c : Bool) → (b && c) ≡ true → (b ≡ true) × (c ≡ true)
parts_of b c h = ground arith

told_right :
    (p : Observed) (h : String)
    → p.exists ≡ true
    → (p.running && p.spec_hash == h) ≡ true
    → container h ≡ p
told_right p h there t =
    let (runs, label) = parts_of p.running (p.spec_hash == h) t in
    let same_hash = (eq_iff p.spec_hash h).0 label in cc

container-shown :
    (o : Observed) (h : String) → read_inspect (docker.inspect h).0 ≡ ok o → container h ≡ o
unfolding read_inspect is_not_found contains has_prefix parse
container-shown o h e = elim (Bool-cases (shows h)) [
  | inr f ↦ absurd (cc (rw f at e))
  | inl t ↦
      let told : parse ("true|" <> h) ≡ o = cc (rw t at e) in
      told_right (parse ("true|" <> h)) h refl t ∙ told
]

abbrev laws : Lawful docker
laws = record {
  container = container;
  shown = container-shown;
  inspected = λ h. refl;
  marked = λ h. refl;
}

abbrev manager : Manager String
manager = record { name = "app_container"; last = none; emitted = []; world = "abc" }

abbrev gate : Run String Bool
gate h = (false, h)

-- Another docker, which always shows a container: the world is whether it runs, and a run starts it.
abbrev simple : Docker Bool
simple = record {
  inspect = λ b. (ok (if b then "true|abc" else "false|abc"), b);
  rm = λ b. (none, b);
  run = λ args b. (none, true);
  pull = λ image b. (none, b);
  mkdir = λ path b. (none, b);
  mark = λ b. (tt, b);
  sorted = λ env. env;
  hash = λ spec. "abc";
}

abbrev stopped_or_not : Bool → Observed
stopped_or_not b = record { exists = true; running = b; spec_hash = "abc" }

simple-answers : (b : Bool) → (o : Observed) × (read_inspect (simple.inspect b).0 ≡ ok o)
unfolding read_inspect parse trim_space
simple-answers true = (stopped_or_not true, refl)
simple-answers false = (stopped_or_not false, refl)

simple-shown :
    (o : Observed) (b : Bool) → read_inspect (simple.inspect b).0 ≡ ok o → stopped_or_not b ≡ o
unfolding read_inspect parse trim_space
simple-shown o true e = cc
simple-shown o false e = cc

abbrev simple_laws : Lawful simple
simple_laws = record {
  container = stopped_or_not;
  shown = simple-shown;
  inspected = λ b. refl;
  marked = λ b. refl;
}

abbrev starting : Manager Bool
starting = record { name = "app_container"; last = none; emitted = []; world = false }

abbrev may : Run Bool Bool
may b = (true, b)

reconcile_running_example :
    RunsAs
      (reconcile simple (some app) may starting).0
      (stopped_or_not (reconcile simple (some app) may starting).1.world)
unfolding reconcile read_inspect trim_space observe converge perform decide report apply remove
reconcile_running_example =
    reconcile_running simple simple_laws simple-answers app may starting refl

abbrev other : Manager String
other = record manager { world = "old" }

abbrev closed : Closed docker laws gate
closed = record { shut = λ h. refl; asked = λ h. refl; made = λ p h. refl; fetched = λ i h. refl }

reconcile_gated_example :
    container (reconcile docker (some app) gate other).1.world ≡ container "old"
reconcile_gated_example = reconcile_gated docker laws gate closed app other
