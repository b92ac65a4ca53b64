-- ===== src/Content/Ranges/Whole.antt =====
-- internal/content/manager.go: a download in ranges that succeeds has every byte.
use yougpu_agent.Prelude.{
  ℕ, zero, suc, ◌+◌, ◌*◌, ◌/◌, ◌≤◌, ◌<◌, ltb, eqb, eqb_iff, ltb→lt, Bool, true, false, Option, none,
  some, List, [], ◌∷◌, length, if◌then◌else◌, ◌≡◌, refl, sym, ◌∙◌, ap, ◌⊎◌, inl, inr, arith,
  Bool-cases, Option-cases, All,
}
use yougpu_agent.Content.{Error}
use yougpu_agent.Content.Ranges.{
  range_parts, File, Reply, lost, answered, write_at, download_range, Part, is_running, note_error,
  judge, settle, attempt, parts_from, parts_of, result_of, Agrees, Serves, Turn, here, there, Runs,
  rest, more,
}

-- The bytes from `lo` up to `hi` are those of the content.
abbrev pub Right : File → File → ℕ → ℕ → Type 0
Right content f lo hi = (k : ℕ) → lo ≤ k → k < hi → f k ≡ content k

write_at-Right :
    (content f : File) (at : ℕ) (bs : List ℕ)
    → Agrees content at bs
    → (k : ℕ) → (f k ≡ content k) ⊎ ((at ≤ k) × (k < at + length bs))
    → write_at at bs f k ≡ content k
unfolding write_at
write_at-Right content f at [] h k (inl e) = e
write_at-Right content f at [] h k (inr (lo, hi)) = absurd (omega arith)
write_at-Right content f at (b ∷ bs) (e, h) k old =
    write_at-Right content (λ j. if eqb j at then b else f j) (suc at) bs h k (now old)
  where
    now :
        (f k ≡ content k) ⊎ ((at ≤ k) × (k < at + length (b ∷ bs)))
        → ((if eqb k at then b else f k) ≡ content k) ⊎ ((suc at ≤ k) × (k < suc at + length bs))
    now known = elim (Bool-cases (eqb k at)) [
      | inl t ↦ inl (rw t (e ∙ ap content (sym ((eqb_iff k at).0 t))))
      | inr n ↦ elim known [ inl x ↦ inl (rw n x) | inr (lo, hi) ↦ inr (ground arith, omega arith) ]
    ]

-- What holds of a part and the file all along.
pub record IsSound (content f : File) (p : Part) : Type 0 where
  pub forward : p.start ≤ p.from
  pub right : Right content f p.start p.from
  pub whole : p.ended ≡ some none → p.to < p.from

download_range-Right :
    (content f : File) (p : Part) (r : Reply)
    → Serves content p r
    → (k : ℕ) → (f k ≡ content k) ⊎ ((p.from ≤ k) × (k < p.from + (download_range r p.from f).0.0))
    → (download_range r p.from f).1 k ≡ content k
unfolding download_range
download_range-Right content f p (lost e) s k (inl x) = x
download_range-Right content f p (lost e) s k (inr (lo, hi)) = absurd (omega arith)
download_range-Right content f p (answered status bytes e) s k old =
    elim (Bool-cases (eqb status 206)) [
      | inl t ↦
          rw t
            (write_at-Right content f p.from bytes (s ((eqb_iff status 206).0 t)) k (rw t at old))
      | inr n ↦ rw n (unwritten (rw n at old))
    ]
  where
    unwritten : (f k ≡ content k) ⊎ ((p.from ≤ k) × (k < p.from + 0)) → f k ≡ content k
    unwritten (inl x) = x
    unwritten (inr (lo, hi)) = absurd (omega arith)

-- A round keeps the limits of the part, and ends it without an error only past its last byte.
settle_lem :
    (stop : Bool) (e : Option Error) (p : Part)
    → ((settle stop e p).start ≡ p.start)
      × ((settle stop e p).from ≡ p.from)
      × ((settle stop e p).to ≡ p.to)
      × (p.ended ≡ none → (settle stop e p).ended ≡ some none → p.to < p.from)
unfolding settle judge note_error
settle_lem stop none p = ground arith
settle_lem stop (some e) p = ground arith

pub running_none : (p : Part) → is_running p ≡ true → p.ended ≡ none
unfolding is_running
running_none p h = elim (Option-cases p.ended) [ inl e ↦ e | inr (x, e) ↦ absurd (cc (rw e at h)) ]

-- What is right stays right, whichever part writes.
attempt-keeps :
    (content f : File) (p : Part) (r : Reply) (stop : Bool)
    → Serves content p r
    → (k : ℕ) → f k ≡ content k
    → (attempt r stop p f).1 k ≡ content k
unfolding attempt
attempt-keeps content f p r stop s k e = download_range-Right content f p r s k (inl e)

attempt-IsSound :
    (content f : File) (p : Part) (r : Reply) (stop : Bool)
    → is_running p ≡ true
    → Serves content p r
    → IsSound content f p
    → IsSound content (attempt r stop p f).1 (attempt r stop p f).0
unfolding attempt
attempt-IsSound content f p r stop runs s h =
    let copied = (download_range r p.from f).0 in
    let q : Part = record p { from = p.from + copied.0 } in
    let (same_start, same_from, same_to, ends) = settle_lem stop copied.1 q in
    let starts = h.forward in
    record {
      forward = omega arith;
      right = λ k lo hi. download_range-Right content f p r s k (elim (Bool-cases (ltb k p.from)) [
        | inl old ↦ inl (h.right k (omega arith) (ltb→lt k p.from old))
        | inr new ↦ inr (ground arith, omega arith)
      ]);
      whole = λ e. let past = ends (running_none p runs) e in omega arith;
    }

-- The first and the last byte of a part.
abbrev pub limits : List Part → List (ℕ × ℕ)
limits [] = []
limits (p ∷ ps) = (p.start, p.to) ∷ limits ps

-- The parts follow one another from `lo` on up to `hi`, without a gap.
abbrev pub Covers : ℕ → ℕ → List (ℕ × ℕ) → Type 0
Covers lo hi [] = hi ≤ lo
Covers lo hi ((start, to) ∷ ps) = (start ≤ lo) × Covers (suc to) hi ps

module _ (content : File) where
  Turn-keeps :
      {ps qs : List Part} {f g : File}
      → Turn content ps f qs g
      → (k : ℕ) → f k ≡ content k
      → g k ≡ content k
  Turn-keeps (here {p} {ps} {f} r stop runs s) k e = attempt-keeps content f p r stop s k e
  Turn-keeps (there t) k e = Turn-keeps t k e

  IsSound-keeps :
      (f g : File) (ps : List Part)
      → ((k : ℕ) → f k ≡ content k → g k ≡ content k)
      → All (IsSound content f) ps
      → All (IsSound content g) ps
  IsSound-keeps f g [] keeps h = tt
  IsSound-keeps f g (p ∷ ps) keeps (h, hs) = (
    record { forward = h.forward; right = λ k lo hi. keeps k (h.right k lo hi); whole = h.whole },
    IsSound-keeps f g ps keeps hs,
  )

  Turn-IsSound :
      {ps qs : List Part} {f g : File}
      → Turn content ps f qs g
      → All (IsSound content f) ps
      → All (IsSound content g) qs × (limits qs ≡ limits ps)
  Turn-IsSound (here {p} {ps} {f} r stop runs s) (h, hs) = (
    (
      attempt-IsSound content f p r stop runs s h,
      IsSound-keeps f (attempt r stop p f).1 ps (attempt-keeps content f p r stop s) hs,
    ),
    attempt-limits r stop p ps f,
  )
    where
      attempt-limits :
          (r : Reply) (stop : Bool) (p : Part) (ps : List Part) (f : File)
          → limits ((attempt r stop p f).0 ∷ ps) ≡ limits (p ∷ ps)
      attempt-limits r stop p ps f =
          let copied = (download_range r p.from f).0 in
          let q : Part = record p { from = p.from + copied.0 } in
          let (same_start, same_from, same_to, ends) = settle_lem stop copied.1 q in
          unfold attempt in rw (same_start, same_to) refl
  Turn-IsSound (there {p} {f} {g} t) (h, hs) =
      let (all, same) = Turn-IsSound t hs in
      let (kept, unit) = IsSound-keeps f g (p ∷ []) (Turn-keeps t) (h, tt) in
      ((kept, all), ap (λ l. (p.start, p.to) ∷ l) same)

  Runs-IsSound :
      {n : ℕ} {ps qs : List Part} {f g : File}
      → Runs content n ps f qs g
      → All (IsSound content f) ps
      → All (IsSound content g) qs × (limits qs ≡ limits ps)
  Runs-IsSound rest h = (h, refl)
  Runs-IsSound (more t run) h =
      let (all, same) = Turn-IsSound t h in
      let (last, same') = Runs-IsSound run all in (last, same' ∙ same)

  ended_well : (ps : List Part) → result_of ps ≡ some none → All (λ p. p.ended ≡ some none) ps
  unfolding result_of
  ended_well [] e = tt
  ended_well (p ∷ ps) e = elim (Option-cases p.ended) [
    | inl n ↦ absurd (cc (rw n at e))
    | inr (x, t) ↦ elim (Option-cases (result_of ps)) [
      | inl n ↦ absurd (cc (rw (t, n) at e))
      | inr (y, u) ↦ elim (Option-cases x) [
        | inl z ↦ (t ∙ ap some z, ended_well ps (u ∙ rw (t, u, z) at e))
        | inr (w, z) ↦ absurd (cc (rw (t, u, z) at e))
      ]
    ]
  ]

  Covers-Right :
      (ps : List Part) (f : File) (lo hi : ℕ)
      → Covers lo hi (limits ps)
      → All (IsSound content f) ps
      → All (λ p. p.ended ≡ some none) ps
      → Right content f lo hi
  Covers-Right [] f lo hi c h e k above below = absurd (omega arith)
  Covers-Right (p ∷ ps) f lo hi (first, c) (h, hs) (e, es) k above below =
      let past = h.whole e in
      elim (Bool-cases (ltb p.to k)) [
        | inl t ↦ Covers-Right ps f (suc p.to) hi c hs es k (ltb→lt p.to k t) below
        | inr n ↦ h.right k (omega arith) (ground arith)
      ]

next_start : (i chunk : ℕ) → (i + 1) * chunk ≡ i * chunk + chunk
next_start i chunk = grind arith

not_last : (n : ℕ) → eqb (suc n) 0 ≡ false
not_last n = ground arith

parts_from-Covers :
    (n i chunk size lo : ℕ)
    → 0 < chunk
    → 0 < size
    → i * chunk ≤ lo
    → Covers lo size (limits (parts_from (suc n) i chunk size))
unfolding parts_from
parts_from-Covers zero i chunk size lo c s first = (first, omega arith)
parts_from-Covers (suc n) i chunk size lo c s first = (
  first,
  rw (not_last n)
      (parts_from-Covers n (i + 1) chunk size _ c s (omega (arith, next_start i chunk))),
)

parts_from-IsSound :
    (content f : File) (n i chunk size : ℕ) → All (IsSound content f) (parts_from n i chunk size)
unfolding parts_from
parts_from-IsSound content f zero i chunk size = tt
parts_from-IsSound content f (suc n) i chunk size = (
  record {
    forward = omega arith;
    right = λ k lo hi. absurd (omega arith);
    whole = λ e. absurd (cc e);
  },
  parts_from-IsSound content f n (i + 1) chunk size,
)

-- A download in ranges that ends without an error has every byte of the content, in whatever order
-- the parts take their turns, however often they are cut short or fail and start again, and
-- whenever they are cancelled, if a range is answered with bytes of the content from its first on.
pub ranges_whole :
    (content before after : File) (size n : ℕ) (ps : List Part)
    → range_parts ≤ size
    → Runs content n (parts_of size) before ps after
    → result_of ps ≡ some none
    → (k : ℕ) → k < size
    → after k ≡ content k
ranges_whole content before after size n ps large run good k below =
    let start = parts_from-IsSound content before 8 0 (size / 8) size in
    let (sound, same) = Runs-IsSound content run (unfold parts_of in start) in
    let covers =
      parts_from-Covers 7 0 (size / 8) size 0 (omega arith) (omega arith) (omega arith) in
    Covers-Right content ps after 0 size (rw same (unfold parts_of in covers)) sound
      (ended_well content ps good) k (omega arith) below
