-- ===== src/DiskManager/Units/Names.antt =====
-- The names of unit files give back the ids of the disks, in internal/disk/manager.go.
use yougpu_agent.Prelude.{
  ℕ, suc, ◌+◌, String, Char, true, false, some, List, [], ◌∷◌, ◌<>◌, ◌==◌, ◌≡◌, refl, ap, is_empty,
  has_prefix, trim_prefix, eq_iff, eq_refl, Bool-cases, inl, inr, arith, map, All,
}
use yougpu_agent.DiskManager.{unit_prefix, unit_name_for}
use yougpu_agent.DiskManager.Remotes.{has_suffix, trim_suffix}
use yougpu_agent.DiskManager.Units.{id_of_unit, ids_of_units}

abbrev size : String → ℕ
size String.[] = 0
size (String.◌∷◌ c s) = suc (size s)

size-append : (s t : String) → size (s <> t) ≡ size s + size t
size-append String.[] t = omega arith
size-append (String.◌∷◌ c s) t = omega (arith, size-append s t)

-- A text is not the end of itself with something before.
longer : (p : String) (c : Char) (s : String) → (p == String.◌∷◌ c (s <> p)) ≡ false
longer p c s = elim (Bool-cases (p == String.◌∷◌ c (s <> p))) [
  | inl e ↦ absurd (contradiction (ap size ((eq_iff _ _).0 e)))
  | inr f ↦ f
]
  where
    contradiction : size p ≡ suc (size (s <> p)) → ⊥
    contradiction h = omega (arith, h, size-append s p)

has_suffix-append : (p s : String) → has_suffix p (s <> p) ≡ true
unfolding has_suffix
has_suffix-append String.[] String.[] = refl
has_suffix-append (String.◌∷◌ c p) String.[] = rw (eq_refl (String.◌∷◌ c p)) refl
has_suffix-append p (String.◌∷◌ c s) = rw (longer p c s) (has_suffix-append p s)

trim_suffix-append : (p s : String) → trim_suffix p (s <> p) ≡ s
unfolding trim_suffix
trim_suffix-append String.[] String.[] = refl
trim_suffix-append (String.◌∷◌ c p) String.[] = rw (eq_refl (String.◌∷◌ c p)) refl
trim_suffix-append p (String.◌∷◌ c s) =
    rw (longer p c s) (ap (String.◌∷◌ c) (trim_suffix-append p s))

-- The id in the name of the unit of a disk is the id of the disk.
pub id_of_unit-unit_name_for :
    (id : String) → is_empty id ≡ false → id_of_unit (unit_name_for id) ≡ some id
unfolding id_of_unit unit_name_for has_prefix trim_prefix
id_of_unit-unit_name_for id h =
    rw (has_suffix-append ".service" (unit_prefix <> id), trim_suffix-append ".service" id, h) refl

abbrev HasText : String → Type 0
HasText s = is_empty s ≡ false

-- The names of the units of disks, listed with the folder that they are in, give the ids of the
-- disks back, all of them and in the same order.
pub ids_of_units-unit_name_for :
    (ids : List String)
    → All HasText ids
    → ids_of_units (map (λ id. (unit_name_for id, false)) ids) ≡ ids
unfolding ids_of_units
ids_of_units-unit_name_for [] h = refl
ids_of_units-unit_name_for (id ∷ ids) (e, h) =
    rw (id_of_unit-unit_name_for id e) (ap (λ r. id ∷ r) (ids_of_units-unit_name_for ids h))
