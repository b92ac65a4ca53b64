-- ===== src/Archive/Proper.antt =====
-- safeRel of internal/state/archive.go lets only proper relative paths pass.
use yougpu_agent.Prelude.{
  String, Bool, true, false, ◌||◌, ◌<>◌, some, List, [], ◌∷◌, ◌==◌, ◌≡◌, ◌≢◌, refl, subst, ◌⊎◌, inl,
  inr, eq_iff, is_empty, arith, Bool-cases,
}
use yougpu_agent.Archive.Paths.{
  Key, Clean, clean_step, clean_from, clean, starts_up, check_rel, safe_rel, up, back, nonempty,
  trim_slash, split, is_rooted, is_slash,
}
use yougpu_agent.Archive.Files.{is_proper, all_proper}

AllUp : Key → Type 0
AllUp [] = Unit {0}
AllUp (s ∷ ks) = (s ≡ "..") × AllUp ks

-- A cleaned path has all its ".." segments at its beginning.
Shape : Key → Type 0
Shape [] = Unit {0}
Shape (s ∷ ks) = ((is_proper s ≡ true) × Shape ks) ⊎ ((s ≡ "..") × AllUp ks)

not_proper_up : (s : String) → s ≡ ".." → ¬ (is_proper s ≡ true)
unfolding is_proper
not_proper_up s e h = cc (rw e at h)

back-Shape : (rooted : Bool) (kept : Key) → Shape kept → Shape (back rooted kept)
unfolding Shape AllUp
back-Shape true [] h = tt
back-Shape false [] h = inr (refl, tt)
back-Shape rooted (k ∷ ks) h = elim (Bool-cases (k == "..")) [
  | inl dots ↦ rw dots (up_shape rooted k ks ((eq_iff _ _).0 dots) h)
  | inr other ↦
      rw other (elim h [ inl (p, rest) ↦ rest | inr (e, ups) ↦ cc (other, (eq_iff _ _).1 e) ])
]
  where
    up_shape :
        (rooted : Bool) (k : String) (ks : Key)
        → k ≡ ".."
        → Shape (k ∷ ks)
        → Shape (up rooted (k ∷ ks))
    up_shape true k ks e h = h
    up_shape false k ks e (inl (p, rest)) = absurd (not_proper_up k e p)
    up_shape false k ks e (inr ups) = inr (refl, ups)

proper_by_tests :
    (s : String) → (is_empty s || s == ".") ≡ false → (s == "..") ≡ false → is_proper s ≡ true
unfolding is_proper
proper_by_tests s h k = ground arith

clean_step-Shape :
    (rooted : Bool) (kept : Key) (s : String) → Shape kept → Shape (clean_step rooted kept s)
unfolding clean_step Shape
clean_step-Shape rooted kept s h = elim (Bool-cases (is_empty s || s == ".")) [
  | inl skipped ↦ rw skipped h
  | inr kept_on ↦ elim (Bool-cases (s == "..")) [
    | inl dots ↦ rw (kept_on, dots) (back-Shape rooted kept h)
    | inr other ↦ rw (kept_on, other) (inl (proper_by_tests s kept_on other, h))
  ]
]

clean_from-Shape :
    (rooted : Bool) (ss : List String) (kept : Key) → Shape kept → Shape (clean_from rooted kept ss)
unfolding clean_from
clean_from-Shape rooted [] kept h = h
clean_from-Shape rooted (s ∷ ss) kept h =
    clean_from-Shape rooted ss (clean_step rooted kept s) (clean_step-Shape rooted kept s h)

back-all_proper : (kept : Key) → all_proper kept ≡ true → all_proper (back true kept) ≡ true
back-all_proper [] h = h
back-all_proper (k ∷ ks) h = ground arith

clean_step-all_proper :
    (kept : Key) (s : String) → all_proper kept ≡ true → all_proper (clean_step true kept s) ≡ true
unfolding clean_step
clean_step-all_proper kept s h = elim (Bool-cases (is_empty s || s == ".")) [
  | inl skipped ↦ rw skipped h
  | inr kept_on ↦ elim (Bool-cases (s == "..")) [
    | inl dots ↦ rw (kept_on, dots) (back-all_proper kept h)
    | inr other ↦ rw (kept_on, other, proper_by_tests s kept_on other) h
  ]
]

clean_from-all_proper :
    (ss : List String) (kept : Key)
    → all_proper kept ≡ true
    → all_proper (clean_from true kept ss) ≡ true
unfolding clean_from
clean_from-all_proper [] kept h = h
clean_from-all_proper (s ∷ ss) kept h =
    clean_from-all_proper ss (clean_step true kept s) (clean_step-all_proper kept s h)

AllUp-starts_up : (s : String) (ks : Key) → s ≡ ".." → AllUp ks → starts_up (s ∷ ks) ≡ true
unfolding AllUp
AllUp-starts_up s [] e h = (eq_iff _ _).1 e
AllUp-starts_up s (k ∷ ks) e (d, h) = AllUp-starts_up k ks d h

Shape-all_proper : (k : Key) → Shape k → starts_up k ≡ false → all_proper k ≡ true
unfolding Shape
Shape-all_proper [] h n = refl
Shape-all_proper (s ∷ []) (inl (p, h)) n = rw p
Shape-all_proper (s ∷ t ∷ ks) (inl (p, h)) n = rw p (Shape-all_proper (t ∷ ks) h n)
Shape-all_proper (s ∷ ks) (inr (e, h)) n = cc (n, AllUp-starts_up s ks e h)

nonempty-some : (c : Key) (k : Key) → nonempty c ≡ some k → (c ≡ k) × (k ≢ [])
nonempty-some [] k h = cc
nonempty-some (s ∷ ks) k h = (cc, λ e. cc)

check_rel-all_proper :
    (c : Clean) (k : Key) → Shape c.key → check_rel c ≡ some k → (all_proper k ≡ true) × (k ≢ [])
unfolding check_rel
check_rel-all_proper c k shape h = elim (Bool-cases (c.rooted || starts_up c.key)) [
  | inl bad ↦ cc (rw bad at h)
  | inr fine ↦
      let (same, some_segment) = nonempty-some c.key k (rw fine at h) in
      (
        subst (λ j. all_proper j ≡ true) same (Shape-all_proper c.key shape (or_right _ _ fine)),
        some_segment,
      )
]
  where
    or_right : (a b : Bool) → (a || b) ≡ false → b ≡ false
    or_right a b e = ground arith

-- A path that safeRel accepts is not empty, and no segment of it is empty, "." or "..".
pub safe_rel-all_proper :
    (name : String) (k : Key) → safe_rel name ≡ some k → (all_proper k ≡ true) × (k ≢ [])
unfolding safe_rel clean Shape
safe_rel-all_proper name k h =
    let c = clean (trim_slash name) in
    check_rel-all_proper c k (clean_from-Shape c.rooted (split (trim_slash name)) [] tt) h

-- A rooted path is cleaned to proper segments.
pub rooted-all_proper : (p : String) → all_proper (clean ("/" <> p)).key ≡ true
unfolding clean is_rooted is_slash
rooted-all_proper p = clean_from-all_proper (split ("/" <> p)) [] refl
