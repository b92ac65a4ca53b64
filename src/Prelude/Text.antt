-- ===== src/Prelude/Text.antt =====
-- What the program uses of Go's strings package, on native texts.
use Prim.Native.Nat.{ℕ, zero, suc, ◌+◌, ◌-◌, ◌*◌, ◌/◌, ◌%◌}
use Prim.Native.Char.{Char, code}
use Prim.Native.String.{String}
use mathlib.Core.Bool.{Bool, true, false, ◌&&◌, ◌||◌}
use mathlib.Core.Option.{Option, none, some}
use mathlib.Core.List.{List, [], ◌∷◌}
use yougpu_agent.Prelude.Tests.{ltb, leb, eqb, if◌then◌else◌}

infixr 65 ◌<>◌
-- Concatenation of texts.
abbrev pub ◌<>◌ : String → String → String
◌<>◌ String.[] t = t
◌<>◌ (String.◌∷◌ c s) t = String.◌∷◌ c (s <> t)

abbrev pub is_empty : String → Bool
is_empty String.[] = true
is_empty (String.◌∷◌ c s) = false

-- unicode.IsSpace.
unfoldable pub is_space : Char → Bool
is_space c =
    (leb 9 (code c) && leb (code c) 13)
    || eqb (code c) 32
    || eqb (code c) 0x85
    || eqb (code c) 0xa0
    || eqb (code c) 0x1680
    || (leb 0x2000 (code c) && leb (code c) 0x200a)
    || eqb (code c) 0x2028
    || eqb (code c) 0x2029
    || eqb (code c) 0x202f
    || eqb (code c) 0x205f
    || eqb (code c) 0x3000

unfoldable pub trim_left : String → String
unfolding is_space
trim_left String.[] = ""
trim_left (String.◌∷◌ c s) = if is_space c then trim_left s else String.◌∷◌ c s

unfoldable pub trim_right : String → String
unfolding is_space
trim_right String.[] = ""
trim_right (String.◌∷◌ c s) =
    let rest = trim_right s in if is_empty rest && is_space c then "" else String.◌∷◌ c rest

-- strings.TrimSpace.
unfoldable pub trim_space : String → String
unfolding trim_left trim_right
trim_space s = trim_right (trim_left s)

-- strings.Join.
unfoldable pub join : String → List String → String
join sep [] = ""
join sep (x ∷ []) = x
join sep (x ∷ y ∷ r) = x <> (sep <> join sep (y ∷ r))

fields_from : String → String → List String
unfolding is_space
fields_from word String.[] = if is_empty word then [] else word ∷ []
fields_from word (String.◌∷◌ c s) =
    let next = fields_from "" s in
    let longer = fields_from (word <> String.◌∷◌ c "") s in
    if is_space c then (if is_empty word then next else word ∷ next) else longer

-- strings.Fields.
unfoldable pub fields : String → List String
unfolding fields_from
fields s = fields_from "" s

abbrev pub digit : ℕ → String
digit zero = "0"
digit (suc zero) = "1"
digit (suc (suc zero)) = "2"
digit (suc (suc (suc zero))) = "3"
digit (suc (suc (suc (suc zero)))) = "4"
digit (suc (suc (suc (suc (suc zero))))) = "5"
digit (suc (suc (suc (suc (suc (suc zero)))))) = "6"
digit (suc (suc (suc (suc (suc (suc (suc zero))))))) = "7"
digit (suc (suc (suc (suc (suc (suc (suc (suc zero)))))))) = "8"
digit (suc (suc (suc (suc (suc (suc (suc (suc (suc n))))))))) = "9"

unfoldable pub itoa_fuel : ℕ → ℕ → String
itoa_fuel zero n = ""
itoa_fuel (suc fuel) n =
    let front = itoa_fuel fuel (n / 10) in if ltb n 10 then digit n else front <> digit (n % 10)

-- The decimal digits of a number, as %d prints them; each round drops one digit.
unfoldable pub itoa : ℕ → String
unfolding itoa_fuel
itoa n = itoa_fuel (suc n) n

abbrev pub is_digit : Char → Bool
is_digit c = leb b'0' (code c) && leb (code c) b'9'

unfoldable pub atoi_from : ℕ → String → Option ℕ
atoi_from n String.[] = some n
atoi_from n (String.◌∷◌ c s) =
    let rest = atoi_from (n * 10 + (code c - b'0')) s in if is_digit c then rest else none

-- strconv.ParseInt on an unsigned decimal number; none is an error.
unfoldable pub atoi : String → Option ℕ
unfolding atoi_from
atoi s = if is_empty s then none else atoi_from 0 s

-- strings.Cut(s, " "), without the third result.
unfoldable pub cut_space : String → String × String
cut_space String.[] = ("", "")
cut_space (String.◌∷◌ c s) =
    let (before, after) = cut_space s in
    if eqb (code c) 32 then ("", s) else (String.◌∷◌ c before, after)

-- strings.HasPrefix.
unfoldable pub has_prefix : String → String → Bool
has_prefix String.[] s = true
has_prefix (String.◌∷◌ c p) String.[] = false
has_prefix (String.◌∷◌ c p) (String.◌∷◌ d s) = eqb (code c) (code d) && has_prefix p s

-- strings.Contains.
unfoldable pub contains : String → String → Bool
unfolding has_prefix
contains String.[] part = has_prefix part ""
contains (String.◌∷◌ c s) part = has_prefix part (String.◌∷◌ c s) || contains s part

-- strings.TrimPrefix, for a text that has the prefix.
unfoldable pub trim_prefix : String → String → String
trim_prefix String.[] s = s
trim_prefix (String.◌∷◌ c p) String.[] = ""
trim_prefix (String.◌∷◌ c p) (String.◌∷◌ d s) = trim_prefix p s
