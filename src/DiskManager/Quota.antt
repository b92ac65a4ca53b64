-- ===== src/DiskManager/Quota.antt =====
-- internal/disk/manager.go: perDriveQuotaGB, the part of the free space that a disk may cache.
use yougpu_agent.Prelude.{
  ℕ, ◌-◌, ◌/◌, ◌^◌, ltb, eqb, String, Char, code, Bool, ◌&&◌, not, Option, none, some, List, [],
  ◌∷◌, ◌<>◌, is_empty, atoi, fields, max, if◌then◌else◌, length, Run,
}
use yougpu_agent.Prelude.Result.{Result, ok, err}
use yougpu_agent.DiskManager.{Error, Config, Host, reserved_free_gb}
use yougpu_agent.DiskManager.Units.{list_units}
use yougpu_agent.DiskManager.Rc.{lines_of}

abbrev pub default_quota_gb : ℕ
default_quota_gb = 5

abbrev pub min_quota_gb : ℕ
min_quota_gb = 2

is_digit : Char → Bool
is_digit c = ltb 47 (code c) && ltb (code c) 58

-- dfFreeGB: the first digits that a G follows.
gb_from : String → String → Option String
unfolding is_digit
gb_from word String.[] = none
gb_from word (String.◌∷◌ c s) =
    let more = gb_from (word <> String.◌∷◌ c "") s in
    let fresh = gb_from "" s in
    if is_digit c
    then more
    else if eqb (code c) b'G' && not (is_empty word)
    then some word
    else fresh

-- strconv.Atoi of digits.
in_int : Option ℕ → Option ℕ
in_int none = none
in_int (some n) = if ltb n (2 ^ 63) then some n else none

free_in_field : Option String → Option ℕ
unfolding in_int
free_in_field none = none
free_in_field (some digits) = in_int (atoi digits)

free_in_fields : List String → Option ℕ
unfolding free_in_field gb_from
free_in_fields (a ∷ b ∷ c ∷ d ∷ rest) = free_in_field (gb_from "" d)
free_in_fields _ = none

-- The free space in GB that df prints, on its second line.
unfoldable pub free_of : List String → Option ℕ
unfolding free_in_fields
free_of (a ∷ b ∷ rest) = free_in_fields (fields b)
free_of _ = none

-- The quota, of the free space and the number of disks. What is free below the reserve counts as
-- none, which is below the least total as a number below 0 is.
unfoldable pub quota_of : ℕ → ℕ → ℕ
quota_of free disks = max (max (free - reserved_free_gb) min_quota_gb / max disks 1) min_quota_gb

units_in : Result Error (List String) → ℕ
units_in (ok ids) = length ids
units_in (err e) = 0

free_out : Result String String → Option ℕ
unfolding free_of
free_out (ok out) = free_of (lines_of out)
free_out (err e) = none

module _ {W : Type 0} (config : Config) (host : Host W) where
  quota_by : Option ℕ → Run W ℕ
  unfolding units_in
  quota_by none w = (default_quota_gb, w)
  quota_by (some free) w =
      let (ids, w') = list_units config host w in (quota_of free (units_in ids), w')

  -- perDriveQuotaGB
  unfoldable pub per_drive_quota_gb : Run W ℕ
  unfolding quota_by free_out
  per_drive_quota_gb w =
      let (r, w') = host.run ("df" ∷ "-BG" ∷ "/" ∷ []) w in quota_by (free_out r) w'
