-- ===== src/Archive/Safe.antt =====
-- The unpacking of internal/state/archive.go stays below its folder and keeps every folder there.
use yougpu_agent.Prelude.{
  String, true, false, none, some, [], ◌∷◌, ◌≡◌, refl, ◌↔◌, inl, inr, eq_iff, arith, if◌then◌else◌,
}
use yougpu_agent.Prelude.Result.{ok, ◌>>=◌, Result-cases}
use yougpu_agent.Archive.Paths.{Key, key_eq}
use yougpu_agent.Archive.Files.{dir, Nodes, lookup, without, Fs, Act, all_proper, walk, way, clear}

pub key_eq_iff : (a b : Key) → (key_eq a b ≡ true) ↔ (a ≡ b)
unfolding key_eq
key_eq_iff [] [] = (λ h. refl, λ h. refl)
key_eq_iff [] (t ∷ b) = (λ h. cc, λ h. cc)
key_eq_iff (s ∷ a) [] = (λ h. cc, λ h. cc)
key_eq_iff (s ∷ a) (t ∷ b) = ground (arith, eq_iff s t, key_eq_iff a b)

pub lookup-without :
    (k j : Key) (m : Nodes) → lookup j (without k m) ≡ (if key_eq k j then none else lookup j m)
unfolding lookup without
lookup-without k j [] = ground arith
lookup-without k j ((i, n) ∷ m) =
    ground (arith, lookup-without k j m, key_eq_iff i k, key_eq_iff i j, key_eq_iff k j)

pub AllDirs : Nodes → Key → Type 0
AllDirs m [] = Unit {0}
AllDirs m (s ∷ ks) = (lookup (s ∷ ks) m ≡ some dir) × AllDirs m ks

pub AllDirs-nil : (m : Nodes) → AllDirs m []
unfolding AllDirs
AllDirs-nil m = tt

pub AllDirs-cons :
    (s : String) (ks : Key) (m : Nodes)
    → lookup (s ∷ ks) m ≡ some dir
    → AllDirs m ks
    → AllDirs m (s ∷ ks)
unfolding AllDirs
AllDirs-cons s ks m e h = (e, h)

walk-clear : (m : Nodes) (k : Key) → AllDirs m k → walk m k ≡ clear
unfolding walk AllDirs
walk-clear m [] h = refl
walk-clear m (s ∷ ks) (e, h) = rw (walk-clear m ks h, e)

-- A call that does not leave the folder, and takes no folder away.
pub record Grows (a b : Fs) : Type 0 where
  pub inside : a.escaped ≡ false → b.escaped ≡ false
  pub dirs_stay : (d : Key) → lookup d a.nodes ≡ some dir → lookup d b.nodes ≡ some dir

pub Grows-refl : (a : Fs) → Grows a a
Grows-refl a = record { inside = λ h. h; dirs_stay = λ d h. h }

pub Grows-trans : {a b c : Fs} → Grows a b → Grows b c → Grows a c
Grows-trans g h = record {
  inside = λ e. h.inside (g.inside e);
  dirs_stay = λ d e. h.dirs_stay d (g.dirs_stay d e);
}

pub AllDirs-Grows : {a b : Fs} (k : Key) → Grows a b → AllDirs a.nodes k → AllDirs b.nodes k
unfolding AllDirs
AllDirs-Grows [] g h = tt
AllDirs-Grows (s ∷ ks) g (e, h) = (g.dirs_stay (s ∷ ks) e, AllDirs-Grows ks g h)

-- A path whose folders are all there and are no links.
pub record IsClear (fs : Fs) (k : Key) : Type 0 where
  pub clear_way : way fs.nodes k ≡ clear

pub IsClear-cons :
    (fs : Fs) (s : String) (ks : Key)
    → all_proper (s ∷ ks) ≡ true
    → AllDirs fs.nodes ks
    → IsClear fs (s ∷ ks)
IsClear-cons fs s ks p h = record { clear_way = rw p (walk-clear fs.nodes ks h) }

module _ {A B : Type 0} where
  pub bind-Grows :
      (m : Act A) (f : A → Act B) (fs : Fs)
      → Grows fs (m fs).1
      → ((a : A) → (m fs).0 ≡ ok a → Grows (m fs).1 (f a (m fs).1).1)
      → Grows fs ((m >>= f) fs).1
  bind-Grows m f fs g h = elim (Result-cases (m fs).0) [
    | inl (a, e) ↦ rw e (Grows-trans g (h a e))
    | inr (x, e) ↦ rw e g
  ]
