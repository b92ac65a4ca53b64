-- ===== src/State/Download/Attempt.antt =====
-- What one download of internal/state/manager.go leaves in the file.
use yougpu_agent.Prelude.{
  ℕ, zero, suc, ◌+◌, ◌-◌, ltb, eqb, true, String, Option, none, some, List, [], ◌∷◌, ◌++◌, ◌≡◌,
  refl, sym, ap, ◌∙◌, length, length-append, Bool-cases, eqb_iff, inl, inr, arith,
}
use yougpu_agent.Prelude.Result.{Result, ok, err, continue}
use yougpu_agent.Spec.{StateRestore}
use yougpu_agent.State.{Error}
use yougpu_agent.State.Download.{
  Response, Host, Dest, range_start, starts_at, take, Answer, resumed, whole, misplaced, refused,
  failed, answer_of, range_from, cut_to_none, restart, restart_fail, check_size, take_body,
  on_answer, on_result, get_rest, fit, opened, download,
}

-- Whether a list is the beginning of another.
abbrev pub IsStart : List ℕ → List ℕ → Type 0
IsStart xs ys = (rest : List ℕ) × (xs ++ rest ≡ ys)

abbrev pub drop : ℕ → List ℕ → List ℕ
drop zero xs = xs
drop (suc n) [] = []
drop (suc n) (x ∷ xs) = drop n xs

-- What a server that has the content answers with: its beginning to a request for the whole, and
-- what follows from the start that it names to a request for a part. It may break off.
abbrev pub IsHonest : List ℕ → Response → Type 0
IsHonest content r =
    (r.status ≡ 200 → IsStart r.body content)
    × ((n : ℕ)
        → r.status ≡ 206
        → range_start r.content_range ≡ some n
        → IsStart r.body (drop n content))

append_assoc : (xs ys zs : List ℕ) → (xs ++ ys) ++ zs ≡ xs ++ (ys ++ zs)
append_assoc [] ys zs = refl
append_assoc (x ∷ xs) ys zs = ap (λ l. x ∷ l) (append_assoc xs ys zs)

take-IsStart : (n : ℕ) (xs ys : List ℕ) → IsStart xs ys → IsStart (take n xs) ys
take-IsStart zero xs ys h = (ys, refl)
take-IsStart (suc n) [] ys h = h
take-IsStart (suc n) (x ∷ xs) ys (rest, h) =
    let (more, g) = take-IsStart n xs (xs ++ rest) (rest, refl) in (more, ap (λ l. x ∷ l) g ∙ h)

drop-append : (xs ys : List ℕ) → drop (length xs) (xs ++ ys) ≡ ys
drop-append [] ys = refl
drop-append (x ∷ xs) ys = drop-append xs ys

-- What follows a beginning makes it longer.
longer-IsStart :
    (xs ys content : List ℕ)
    → IsStart xs content
    → IsStart ys (drop (length xs) content)
    → IsStart (xs ++ ys) content
longer-IsStart xs ys content (r, h) (s, g) = (
  s,
  append_assoc xs ys s
      ∙ ap (λ l. xs ++ l) (g ∙ ap (drop (length xs)) (sym h) ∙ drop-append xs r)
      ∙ h,
)

append_nil : (xs : List ℕ) → xs ++ [] ≡ xs
append_nil [] = refl
append_nil (x ∷ xs) = ap (λ l. x ∷ l) (append_nil xs)

pub same_start : (xs ys : List ℕ) → IsStart xs ys → length xs ≡ length ys → xs ≡ ys
same_start xs ys ([], h) e = sym (append_nil xs) ∙ h
same_start xs ys (z ∷ zs, h) e = absurd (too_long (ap length h))
  where
    too_long : length (xs ++ z ∷ zs) ≡ length ys → ⊥
    too_long g = omega (arith, g, e, length-append xs (z ∷ zs))

answer-resumed :
    (have : ℕ) (r : Response)
    → answer_of have r ≡ resumed
    → (r.status ≡ 206) × (range_start r.content_range ≡ some have)
unfolding answer_of
answer-resumed have r h = (ground arith, at_start (range_start r.content_range) (ground arith))
  where
    at_start : (o : Option ℕ) → starts_at have o ≡ true → o ≡ some have
    at_start none g = cc
    at_start (some n) g = ap some ((eqb_iff n have).0 g)

answer-whole : (have : ℕ) (r : Response) → answer_of have r ≡ whole → r.status ≡ 200
unfolding answer_of
answer-whole have r h = ground arith

module _ {W : Type 0} (host : Host W) (content : List ℕ) where
  abbrev pub Good : Dest W → Type 0
  Good d = IsStart d.file content

  restart-Good : (d : Dest W) → Good d → Good (restart host d).1
  unfolding restart cut_to_none
  restart-Good d h = cut (host.truncate d.world).0 (host.truncate d.world).1
    where
      cut : (e : Option Error) (w : W) → Good (cut_to_none host e (record d { world = w })).1
      cut none w = (content, refl)
      cut (some e) w = h

  check_size-Good :
      (size : ℕ) (e : Option Error) (d : Dest W) → Good d → Good (check_size host size e d).1
  unfolding check_size restart_fail
  check_size-Good size (some e) d h = h
  check_size-Good size none d h = elim (Bool-cases (ltb size (length d.file))) [
    | inl over ↦ rw over (restart-Good d h)
    | inr within ↦ elim (Bool-cases (ltb (length d.file) size)) [
      | inl short ↦ rw (within, short) h
      | inr full ↦ rw (within, full) h
    ]
  ]

  check_size-full :
      (size : ℕ) (e : Option Error) (d : Dest W)
      → (check_size host size e d).0 ≡ ok tt
      → length (check_size host size e d).1.file ≡ size
  unfolding check_size restart_fail
  check_size-full size (some e) d h = cc
  check_size-full size none d h = elim (Bool-cases (ltb size (length d.file))) [
    | inl over ↦ cc (rw over at h)
    | inr within ↦ elim (Bool-cases (ltb (length d.file) size)) [
      | inl short ↦ cc (rw (within, short) at h)
      | inr full ↦ rw (within, full) (ground arith)
    ]
  ]

  take_body-Good :
      (size : ℕ) (r : Response) (d : Dest W)
      → Good d
      → IsStart r.body (drop (length d.file) content)
      → Good (take_body host size r d).1
  unfolding take_body
  take_body-Good size r d h b =
      check_size-Good size _ _
        (longer-IsStart d.file _ content h (take-IsStart (size - length d.file + 1) r.body _ b))

  take_body-full :
      (size : ℕ) (r : Response) (d : Dest W)
      → (take_body host size r d).0 ≡ ok tt
      → length (take_body host size r d).1.file ≡ size
  unfolding take_body
  take_body-full size r d h = check_size-full size _ _ h

  -- What a step has to keep: the beginning of the content, and the whole size where it ends well.
  abbrev pub Kept : ℕ → Result Error (Unit {0}) × Dest W → Type 0
  Kept size (r, d) = Good d × (r ≡ ok tt → length d.file ≡ size)

  take_body-Kept :
      (size : ℕ) (r : Response) (d : Dest W)
      → Good d
      → IsStart r.body (drop (length d.file) content)
      → Kept size (take_body host size r d)
  take_body-Kept size r d h b = (take_body-Good size r d h b, take_body-full size r d)

  restarted-Kept :
      (size : ℕ) (r : Response) (e : Option Error) (d : Dest W)
      → Good d
      → IsStart r.body content
      → Kept size
          (continue (cut_to_none host e d).0 (λ a. take_body host size r) (cut_to_none host e d).1)
  unfolding cut_to_none
  restarted-Kept size r none d h b =
      take_body-Kept size r (record d { file = [] }) (content, refl) b
  restarted-Kept size r (some e) d h b = (h, λ g. cc)

  on_answer-Kept :
      (size : ℕ) (r : Response) (d : Dest W) (a : Answer)
      → Good d
      → (a ≡ resumed → IsStart r.body (drop (length d.file) content))
      → (a ≡ whole → IsStart r.body content)
      → Kept size (on_answer host size r a d)
  unfolding on_answer restart restart_fail
  on_answer-Kept size r d resumed h part all = take_body-Kept size r d h (part refl)
  on_answer-Kept size r d whole h part all =
      restarted-Kept size r (host.truncate d.world).0
        (record d { world = (host.truncate d.world).1 }) h (all refl)
  on_answer-Kept size r d misplaced h part all = (restart-Good d h, λ g. cc)
  on_answer-Kept size r d refused h part all = (h, λ g. cc)
  on_answer-Kept size r d failed h part all = (h, λ g. cc)

  on_result-Kept :
      (size : ℕ) (r : Result Error Response) (d : Dest W)
      → Good d
      → ((a : Response) → r ≡ ok a → IsHonest content a)
      → Kept size (on_result host size r d)
  unfolding on_result
  on_result-Kept size (err e) d h honest = (h, λ g. cc)
  on_result-Kept size (ok r) d h honest =
      let (all, part) = honest r refl in
      on_answer-Kept size r d (answer_of (length d.file) r) h
        (λ e. let (s, n) = answer-resumed (length d.file) r e in part (length d.file) s n)
        (λ e. all (answer-whole (length d.file) r e))

  -- A server that has the content, whatever it is asked for.
  abbrev pub AllHonest : Type 0
  AllHonest =
      (url range : String) (w : W) (r : Response)
      → (host.get url range w).0 ≡ ok r
      → IsHonest content r

  get_rest-Kept :
      (spec : StateRestore) (d : Dest W)
      → AllHonest
      → Good d
      → Kept spec.size_bytes (get_rest host spec d)
  unfolding get_rest
  get_rest-Kept spec d honest h = elim (Bool-cases (eqb (length d.file) spec.size_bytes)) [
    | inl full ↦ rw full (h, λ g. (eqb_iff _ _).0 full)
    | inr missing ↦ rw missing (
        on_result-Kept spec.size_bytes _ _ h (honest spec.url (range_from (length d.file)) d.world))
  ]

  opened-Kept :
      (spec : StateRestore) (e : Option Error) (d : Dest W)
      → AllHonest
      → Good d
      → Kept spec.size_bytes (opened host spec e d)
  unfolding opened fit restart cut_to_none
  opened-Kept spec (some e) d honest h = (h, λ g. cc)
  opened-Kept spec none d honest h = elim (Bool-cases (ltb spec.size_bytes (length d.file))) [
    | inl over ↦
        rw over (cut (host.truncate d.world).0 (record d { world = (host.truncate d.world).1 }) h)
    | inr within ↦ rw within (get_rest-Kept spec d honest h)
  ]
    where
      cut :
          (e : Option Error) (n : Dest W)
          → Good n
          → Kept spec.size_bytes
              (continue (cut_to_none host e n).0 (λ a. get_rest host spec) (cut_to_none host e n).1)
      cut none n g = get_rest-Kept spec (record n { file = [] }) honest (content, refl)
      cut (some e) n g = (g, λ k. cc)

  pub download-Kept :
      (spec : StateRestore) (d : Dest W)
      → AllHonest
      → Good d
      → Kept spec.size_bytes (download host spec d)
  unfolding download
  download-Kept spec d honest h = opened-Kept spec _ _ honest h
