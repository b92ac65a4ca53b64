-- ===== src/Fetch/Cut.antt =====
-- What Clip and ClipTail of internal/fetch/fetch.go keep of a text.
use yougpu_agent.Prelude.{
  ℕ, ◌+◌, ◌≤◌, ◌<◌, ltb, String, ◌≡◌, refl, sym, ap, ◌∙◌, inl, inr, false, ◌<>◌, arith, Bool-cases,
  ltb→lt, subst,
}
use yougpu_agent.Fetch.{rune_len, clip_from, clip, reverse_onto, clip_tail_from, clip_tail}

-- The length of a text in UTF-16 units.
abbrev pub units : String → ℕ
units String.[] = 0
units (String.◌∷◌ c s) = rune_len c + units s

-- Past the cut: nothing, or a text whose first character no longer fits.
abbrev pub Full : ℕ → ℕ → String → Type 0
Full n u String.[] = Unit {0}
Full n u (String.◌∷◌ c s) = n < u + rune_len c

not_below : (a b : ℕ) → ltb a b ≡ false → b ≤ a
not_below a b h = ground arith

clip_from-split :
    (n u : ℕ) (s : String)
    → u ≤ n
    → (t : String) × (s ≡ clip_from n u s <> t)
      × (u + units (clip_from n u s) ≤ n)
      × Full n (u + units (clip_from n u s)) t
unfolding clip_from
clip_from-split n u String.[] h = ("", refl, omega arith, tt)
clip_from-split n u (String.◌∷◌ c s) h = elim (Bool-cases (ltb n (u + rune_len c))) [
  | inl over ↦ rw over (String.◌∷◌ c s, refl, omega arith, omega (arith, ltb→lt n _ over))
  | inr fits ↦
      let (t, e, le, full) = clip_from-split n (u + rune_len c) s (not_below _ _ fits) in
      rw fits (t, ap (String.◌∷◌ c) e, omega arith, subst (λ k. Full n k t) (omega arith) full)
]

-- Clip keeps a beginning of the text of at most n UTF-16 units, and stops only at the end of the
-- text or before a character that no longer fits.
pub clip_longest :
    (s : String) (n : ℕ)
    → (t : String) × (s ≡ clip s n <> t) × (units (clip s n) ≤ n) × Full n (units (clip s n)) t
unfolding clip
clip_longest s n =
    let (t, e, le, full) = clip_from-split n 0 s (omega arith) in
    (t, e, omega arith, subst (λ k. Full n k t) (omega arith) full)

clip_from_fits : (n u : ℕ) (s : String) → u + units s ≤ n → clip_from n u s ≡ s
unfolding clip_from
clip_from_fits n u String.[] h = refl
clip_from_fits n u (String.◌∷◌ c s) h = elim (Bool-cases (ltb n (u + rune_len c))) [
  | inl over ↦ absurd (omega (arith, ltb→lt n _ over))
  | inr fits ↦ rw fits (ap (String.◌∷◌ c) (clip_from_fits n (u + rune_len c) s (omega arith)))
]

-- A text that fits is not cut, so clipping twice to one limit is clipping once.
clip_idem : (s : String) (n : ℕ) → (units s ≤ n → clip s n ≡ s) × (clip (clip s n) n ≡ clip s n)
unfolding clip
clip_idem s n = (
  λ h. clip_from_fits n 0 s (omega arith),
  let (t, e, le, full) = clip_from-split n 0 s (omega arith) in clip_from_fits n 0 _ le,
)

reverse_onto-append : (s t r : String) → reverse_onto s (t <> r) ≡ reverse_onto s t <> r
reverse_onto-append String.[] t r = refl
reverse_onto-append (String.◌∷◌ c s) t r = reverse_onto-append s (String.◌∷◌ c t) r

reverse-reverse_onto : (s t : String) → reverse_onto (reverse_onto s t) "" ≡ reverse_onto t s
reverse-reverse_onto String.[] t = refl
reverse-reverse_onto (String.◌∷◌ c s) t = reverse-reverse_onto s (String.◌∷◌ c t)

clip_tail_from-split :
    (n u : ℕ) (s out : String)
    → u ≡ units out
    → u ≤ n
    → (t : String) × (reverse_onto s out ≡ t <> clip_tail_from n u s out)
      × (units (clip_tail_from n u s out) ≤ n)
unfolding clip_tail_from
clip_tail_from-split n u String.[] out e h = ("", refl, omega arith)
clip_tail_from-split n u (String.◌∷◌ c s) out e h = elim (Bool-cases (ltb n (u + rune_len c))) [
  | inl over ↦
      rw over
        (reverse_onto s (String.◌∷◌ c ""), reverse_onto-append s (String.◌∷◌ c "") out, omega arith)
  | inr fits ↦ rw fits (
      clip_tail_from-split n (u + rune_len c) s (String.◌∷◌ c out) (omega arith)
        (not_below _ _ fits))
]

-- ClipTail keeps an end of the text, of at most n UTF-16 units.
clip_tail_end :
    (s : String) (n : ℕ) → (t : String) × (s ≡ t <> clip_tail s n) × (units (clip_tail s n) ≤ n)
unfolding clip_tail
clip_tail_end s n =
    let (t, e, le) = clip_tail_from-split n 0 (reverse_onto s "") "" refl (omega arith) in
    (t, sym (reverse-reverse_onto s "") ∙ e, le)
