-- ===== src/Prelude/Decimal.antt =====
-- Numbers printed in decimal read back, alone and behind a space.
use yougpu_agent.Prelude.Text.{
  digit, itoa_fuel, itoa, is_digit, atoi_from, atoi, cut_space, is_space, trim_left, trim_right,
  trim_space, is_empty, ◌<>◌,
}
use yougpu_agent.Prelude.Tests.{ltb, eqb, ltb→lt, Bool-cases}
use Prim.Native.Nat.{ℕ, zero, suc, ◌+◌, ◌-◌, ◌*◌, ◌/◌, ◌%◌, ◌<◌}
use Prim.Native.Char.{Char, code}
use Prim.Native.String.{String}
use mathlib.Core.Path.{◌≡◌, refl, ap, ◌∙◌}
use mathlib.Core.Logic.{inl, inr}
use mathlib.Core.Bool.{Bool, true, false, ◌&&◌}
use mathlib.Core.Option.{some}
use native.Mathlib.Omega.{arith}

-- A text of digits only.
abbrev pub AllDigits : String → Type 0
AllDigits String.[] = Unit {0}
AllDigits (String.◌∷◌ c s) = (is_digit c ≡ true) × AllDigits s

AllDigits-append : (s t : String) → AllDigits s → AllDigits t → AllDigits (s <> t)
AllDigits-append String.[] t h k = k
AllDigits-append (String.◌∷◌ c s) t (d, h) k = (d, AllDigits-append s t h k)

atoi_from-append :
    (n m : ℕ) (s t : String)
    → atoi_from n s ≡ some m
    → AllDigits s
    → atoi_from n (s <> t) ≡ atoi_from m t
unfolding atoi_from
atoi_from-append n m String.[] t e d = ap (λ k. atoi_from k t) (some_eq n m e)
  where
    some_eq : (a b : ℕ) → some a ≡ some b → a ≡ b
    some_eq a b e = cc
atoi_from-append n m (String.◌∷◌ c s) t e (d, ds) =
    rw d (atoi_from-append (n * 10 + (code c - b'0')) m s t (rw d at e) ds)

digit-AllDigits : (n : ℕ) → AllDigits (digit n)
digit-AllDigits zero = (refl, tt)
digit-AllDigits (suc zero) = (refl, tt)
digit-AllDigits (suc (suc zero)) = (refl, tt)
digit-AllDigits (suc (suc (suc zero))) = (refl, tt)
digit-AllDigits (suc (suc (suc (suc zero)))) = (refl, tt)
digit-AllDigits (suc (suc (suc (suc (suc zero))))) = (refl, tt)
digit-AllDigits (suc (suc (suc (suc (suc (suc zero)))))) = (refl, tt)
digit-AllDigits (suc (suc (suc (suc (suc (suc (suc zero))))))) = (refl, tt)
digit-AllDigits (suc (suc (suc (suc (suc (suc (suc (suc zero)))))))) = (refl, tt)
digit-AllDigits (suc (suc (suc (suc (suc (suc (suc (suc (suc n))))))))) = (refl, tt)

atoi_from-digit : (n d : ℕ) → d < 10 → atoi_from n (digit d) ≡ some (n * 10 + d)
unfolding atoi_from
atoi_from-digit n zero h = refl
atoi_from-digit n (suc zero) h = refl
atoi_from-digit n (suc (suc zero)) h = refl
atoi_from-digit n (suc (suc (suc zero))) h = refl
atoi_from-digit n (suc (suc (suc (suc zero)))) h = refl
atoi_from-digit n (suc (suc (suc (suc (suc zero))))) h = refl
atoi_from-digit n (suc (suc (suc (suc (suc (suc zero)))))) h = refl
atoi_from-digit n (suc (suc (suc (suc (suc (suc (suc zero))))))) h = refl
atoi_from-digit n (suc (suc (suc (suc (suc (suc (suc (suc zero)))))))) h = refl
atoi_from-digit n (suc (suc (suc (suc (suc (suc (suc (suc (suc zero))))))))) h = refl
atoi_from-digit n (suc (suc (suc (suc (suc (suc (suc (suc (suc (suc d)))))))))) h =
    absurd (omega arith)

itoa_fuel-AllDigits : (fuel n : ℕ) → AllDigits (itoa_fuel fuel n)
unfolding itoa_fuel
itoa_fuel-AllDigits zero n = tt
itoa_fuel-AllDigits (suc fuel) n = elim (Bool-cases (ltb n 10)) [
  | inl small ↦ rw small (digit-AllDigits n)
  | inr large ↦ rw large (
      AllDigits-append (itoa_fuel fuel (n / 10)) _ (itoa_fuel-AllDigits fuel (n / 10))
        (digit-AllDigits (n % 10)))
]

atoi_from-itoa_fuel : (fuel n : ℕ) → n < fuel → atoi_from 0 (itoa_fuel fuel n) ≡ some n
unfolding itoa_fuel
atoi_from-itoa_fuel zero n h = absurd (omega arith)
atoi_from-itoa_fuel (suc fuel) n h = elim (Bool-cases (ltb n 10)) [
  | inl small ↦ rw small (atoi_from-digit 0 n (ltb→lt n 10 small) ∙ ap some (omega arith))
  | inr large ↦ rw large (
      atoi_from-append 0 (n / 10) (itoa_fuel fuel (n / 10)) (digit (n % 10))
        (atoi_from-itoa_fuel fuel (n / 10) (ground arith)) (itoa_fuel-AllDigits fuel (n / 10))
      ∙ (atoi_from-digit (n / 10) (n % 10) (omega arith) ∙ ap some (omega arith)))
]

digit-is_empty : (d : ℕ) → is_empty (digit d) ≡ false
digit-is_empty zero = refl
digit-is_empty (suc zero) = refl
digit-is_empty (suc (suc zero)) = refl
digit-is_empty (suc (suc (suc zero))) = refl
digit-is_empty (suc (suc (suc (suc zero)))) = refl
digit-is_empty (suc (suc (suc (suc (suc zero))))) = refl
digit-is_empty (suc (suc (suc (suc (suc (suc zero)))))) = refl
digit-is_empty (suc (suc (suc (suc (suc (suc (suc zero))))))) = refl
digit-is_empty (suc (suc (suc (suc (suc (suc (suc (suc zero)))))))) = refl
digit-is_empty (suc (suc (suc (suc (suc (suc (suc (suc (suc n))))))))) = refl

append-is_empty : (s t : String) → is_empty t ≡ false → is_empty (s <> t) ≡ false
append-is_empty String.[] t h = h
append-is_empty (String.◌∷◌ c s) t h = refl

itoa-is_empty : (n : ℕ) → is_empty (itoa n) ≡ false
unfolding itoa itoa_fuel
itoa-is_empty n = elim (Bool-cases (ltb n 10)) [
  | inl small ↦ rw small (digit-is_empty n)
  | inr large ↦ rw large (append-is_empty (itoa_fuel n (n / 10)) _ (digit-is_empty (n % 10)))
]

-- What is printed reads back.
pub atoi-itoa : (n : ℕ) → atoi (itoa n) ≡ some n
unfolding atoi
atoi-itoa n = rw (itoa-is_empty n) (unfold itoa in atoi_from-itoa_fuel (suc n) n (omega arith))

-- A text with no white space.
abbrev pub IsWord : String → Type 0
IsWord String.[] = Unit {0}
IsWord (String.◌∷◌ c s) = (is_space c ≡ false) × IsWord s

AllDigits-IsWord : (s : String) → AllDigits s → IsWord s
AllDigits-IsWord String.[] h = tt
AllDigits-IsWord (String.◌∷◌ c s) (d, h) = (digit_no_space c d, AllDigits-IsWord s h)
  where
    digit_no_space : (c : Char) → is_digit c ≡ true → is_space c ≡ false
    digit_no_space c d = unfold is_space in ground arith

itoa-IsWord : (n : ℕ) → IsWord (itoa n)
unfolding itoa
itoa-IsWord n = AllDigits-IsWord _ (itoa_fuel-AllDigits (suc n) n)

word-cut_space : (s t : String) → IsWord s → cut_space (s <> (" " <> t)) ≡ (s, t)
unfolding cut_space
word-cut_space String.[] t h = refl
word-cut_space (String.◌∷◌ c s) t (b, h) = rw (not_blank c b, word-cut_space s t h)
  where
    not_blank : (c : Char) → is_space c ≡ false → eqb (code c) 32 ≡ false
    not_blank c b = unfold is_space in ground arith

word-trim_right : (s : String) → IsWord s → trim_right s ≡ s
unfolding trim_right
word-trim_right String.[] h = refl
word-trim_right (String.◌∷◌ c s) (b, h) = rw (word-trim_right s h, b, and_false (is_empty s))
  where
    and_false : (b : Bool) → (b && false) ≡ false
    and_false b = ground arith

append-trim_right :
    (s t : String) → is_empty t ≡ false → trim_right t ≡ t → trim_right (s <> t) ≡ s <> t
unfolding trim_right
append-trim_right String.[] t h e = e
append-trim_right (String.◌∷◌ c s) t h e = rw (append-trim_right s t h e, append-is_empty s t h)

trim_space-pair :
    (s t : String)
    → IsWord s
    → is_empty s ≡ false
    → IsWord t
    → is_empty t ≡ false
    → trim_space (s <> (" " <> t)) ≡ s <> (" " <> t)
unfolding trim_space trim_left
trim_space-pair String.[] t hs ns ht nt = cc
trim_space-pair (String.◌∷◌ c s) t (b, hs) ns ht nt = rw b (
    append-trim_right (String.◌∷◌ c s) (" " <> t) refl
      (append-trim_right " " t nt (word-trim_right t ht)))

-- "sum size", as the agent writes it, is read back as it was.
pub cut_space-pair :
    (s : String) (n : ℕ)
    → IsWord s
    → is_empty s ≡ false
    → cut_space (trim_space (s <> (" " <> itoa n))) ≡ (s, itoa n)
cut_space-pair s n h ne =
    rw (trim_space-pair s (itoa n) h ne (itoa-IsWord n) (itoa-is_empty n))
      (word-cut_space s (itoa n) h)

-- A space in front is trimmed.
pub trim_space-blank : (s : String) → trim_space (" " <> s) ≡ trim_space s
unfolding trim_space trim_left is_space
trim_space-blank s = refl
