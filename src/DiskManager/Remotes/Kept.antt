-- ===== src/DiskManager/Remotes/Kept.antt =====
-- What putRemote and dropRemote of internal/disk/remotes.go make of the sections.
use yougpu_agent.Prelude.{
  String, true, false, Option, none, some, List, [], ◌∷◌, ◌==◌, ◌≡◌, refl, sym, ap, subst, eq_iff,
  eq_refl, if◌then◌else◌, Bool-cases, inl, inr, arith,
}
use yougpu_agent.DiskManager.Remotes.{Section, put_section, drop_section}

-- The section of a name, the first where several have it.
unfoldable pub section_of : String → List Section → Option Section
section_of name [] = none
section_of name (s ∷ ss) = let rest = section_of name ss in if s.name == name then some s else rest

put_same : (s : Section) (ss : List Section) → section_of s.name (put_section s ss) ≡ some s
unfolding section_of put_section
put_same s [] = ground (arith, eq_refl s.name)
put_same s (t ∷ ts) = ground (arith, eq_refl s.name, put_same s ts)

put_other :
    (s : Section) (name : String) (ss : List Section)
    → (s.name == name) ≡ false
    → section_of name (put_section s ss) ≡ section_of name ss
unfolding section_of put_section
put_other s name [] h = ground arith
put_other s name (t ∷ ts) h = elim (Bool-cases (t.name == s.name)) [
  | inl e ↦ rw (e, h, same_name e) refl
  | inr e ↦ rw e (ap (λ r. if t.name == name then some t else r) (put_other s name ts h))
]
  where
    same_name : (t.name == s.name) ≡ true → (t.name == name) ≡ false
    same_name e = subst (λ n. (n == name) ≡ false) (sym ((eq_iff _ _).0 e)) h

drop_other :
    (name other : String) (ss : List Section)
    → (name == other) ≡ false
    → section_of other (drop_section name ss) ≡ section_of other ss
unfolding section_of drop_section
drop_other name other [] h = refl
drop_other name other (t ∷ ts) h = elim (Bool-cases (t.name == name)) [
  | inl e ↦ rw (e, same_name e) refl
  | inr e ↦ rw e (ap (λ r. if t.name == other then some t else r) (drop_other name other ts h))
]
  where
    same_name : (t.name == name) ≡ true → (t.name == other) ≡ false
    same_name e = subst (λ n. (n == other) ≡ false) (sym ((eq_iff _ _).0 e)) h

-- The configuration of rclone keeps the keys of the other disks: putting the section of a disk makes
-- it the section of its name, and neither putting nor dropping it changes that of another name.
sections_kept :
    (s : Section) (other : String) (ss : List Section)
    → (s.name == other) ≡ false
    → (section_of s.name (put_section s ss) ≡ some s)
      × (section_of other (put_section s ss) ≡ section_of other ss)
      × (section_of other (drop_section s.name ss) ≡ section_of other ss)
sections_kept s other ss h = (put_same s ss, put_other s other ss h, drop_other s.name other ss h)
