-- ===== src/DiskManager/Remotes.antt =====
-- internal/disk/remotes.go: the sections of the configuration of rclone.
pub mod Kept
use yougpu_agent.Prelude.{
  ℕ, suc, eqb, String, code, Char, Bool, true, false, ◌&&◌, ◌||◌, not, Option, none, some, List, [],
  ◌∷◌, ◌++◌, ◌<>◌, ◌==◌, is_empty, has_prefix, trim_prefix, trim_space, if◌then◌else◌, Run,
}
use yougpu_agent.Prelude.Result.{Result, ok, err, Exec, done, fail, continue, ◌>>=◌, ◌>>◌}
use yougpu_agent.DiskManager.{
  Error, plain, ReadError, not_exist, other, Config, Host, Manager, StorageCredentials, remote_name,
  lift, try,
}

-- confSection
pub record Section : Type 0 where
  pub name : String
  pub body : String

-- strings.HasSuffix
unfoldable pub has_suffix : String → String → Bool
has_suffix p String.[] = is_empty p
has_suffix p (String.◌∷◌ c s) = p == String.◌∷◌ c s || has_suffix p s

-- strings.TrimSuffix
unfoldable pub trim_suffix : String → String → String
trim_suffix p String.[] = ""
trim_suffix p (String.◌∷◌ c s) =
    let rest = trim_suffix p s in if p == String.◌∷◌ c s then "" else String.◌∷◌ c rest

lines_from : String → String → List String
lines_from line String.[] = line ∷ []
lines_from line (String.◌∷◌ c s) =
    let next = lines_from "" s in
    let longer = lines_from (line <> String.◌∷◌ c "") s in
    if eqb (code c) 10 then (line <> String.◌∷◌ c "") ∷ next else longer

-- strings.SplitAfter(s, "\n")
unfoldable pub split_after : String → List String
unfolding lines_from
split_after s = lines_from "" s

abbrev no_section : Section
no_section = record { name = ""; body = "" }

-- flush
flush : Section → List Section → List Section
flush s later = if is_empty s.name && is_empty (trim_space s.body) then later else s ∷ later

-- The name of the section that a line begins.
heading : String → Option String
heading line =
    let t = trim_space line in
    if has_prefix "[" t && has_suffix "]" t
    then some (trim_space (trim_suffix "]" (trim_prefix "[" t)))
    else none

with_line : Section → String → Section
with_line s line = record s { body = s.body <> line }

-- The loop of readConf, with the current section.
sections_from : Section → List String → List Section
unfolding flush heading with_line
sections_from current [] = flush current []
sections_from current (line ∷ lines) =
    let same = sections_from (with_line current line) lines in
    elim (heading line) [
      | none ↦ same
      | some name ↦ flush current (sections_from (record { name = name; body = line }) lines)
    ]

-- What readConf makes of the text of the file.
unfoldable pub sections_of : String → List Section
unfolding sections_from
sections_of raw = sections_from no_section (split_after raw)

-- strings.TrimRight(s, "\n")
trim_newlines : String → String
trim_newlines String.[] = ""
trim_newlines (String.◌∷◌ c s) =
    let rest = trim_newlines s in if is_empty rest && eqb (code c) 10 then "" else String.◌∷◌ c rest

-- The text that writeConf writes.
unfoldable pub conf_text : List Section → String
unfolding trim_newlines
conf_text [] = ""
conf_text (s ∷ []) = trim_newlines s.body <> "\n"
conf_text (s ∷ t ∷ ss) = (trim_newlines s.body <> "\n") <> ("\n" <> conf_text (t ∷ ss))

-- findSection
unfoldable pub find_section : String → List Section → Option ℕ
find_section name [] = none
find_section name (s ∷ ss) =
    let later = find_section name ss in
    if s.name == name then some 0 else elim later [ none ↦ none | some i ↦ some (suc i) ]

-- The section put in the place of the first of its name, or at the end.
unfoldable pub put_section : Section → List Section → List Section
put_section s [] = s ∷ []
put_section s (t ∷ ts) =
    let rest = put_section s ts in if t.name == s.name then s ∷ ts else t ∷ rest

-- append(sections[:i], sections[i+1:]...), at the first section of the name.
unfoldable pub drop_section : String → List Section → List Section
drop_section name [] = []
drop_section name (s ∷ ss) =
    let rest = drop_section name ss in if s.name == name then ss else s ∷ rest

unfoldable pub remote_body : String → StorageCredentials → String
remote_body name c =
    "["
    <> (name
        <> ("]\ntype = s3\nprovider = Other\nenv_auth = false\naccess_key_id = "
            <> (c.access_key
                <> ("\nsecret_access_key = "
                    <> (c.secret_key
                        <> ("\nendpoint = "
                            <> (c.endpoint <> "\nforce_path_style = false\nacl = private\n")))))))

-- strings.ContainsAny(v, "\r\n")
unfoldable pub has_line_end : String → Bool
has_line_end String.[] = false
has_line_end (String.◌∷◌ c s) = eqb (code c) 10 || eqb (code c) 13 || has_line_end s

is_malformed : StorageCredentials → Bool
is_malformed c = has_line_end c.access_key || has_line_end c.secret_key || has_line_end c.endpoint

module _ {W : Type 0} (config : Config) (host : Host W) where
  read_result : Result ReadError String → Result Error (List Section)
  read_result (ok raw) = ok (sections_of raw)
  read_result (err not_exist) = ok []
  read_result (err (other e)) = err (plain e)

  -- readConf
  unfoldable pub read_conf : Exec W Error (List Section)
  unfolding read_result
  read_conf w = let (r, w') = host.read_file config.config_path w in (read_result r, w')

  -- writeConf; the file's writing, mode, sync and close are one call.
  unfoldable pub write_conf : List Section → Exec W Error (Unit {0})
  write_conf ss = do
    try "" (host.make_dir config.config_dir)
    try "" (host.write_file (config.config_path <> ".tmp") (conf_text ss))
    try "" (host.rename (config.config_path <> ".tmp") config.config_path)

  -- putRemote
  unfoldable pub put_remote : String → StorageCredentials → Exec W Error (Unit {0})
  unfolding is_malformed
  put_remote id c =
      if is_malformed c
      then fail (plain ("storage key of " <> (id <> " has a malformed value")))
      else do
        ss ← read_conf
        write_conf (
            put_section (record { name = remote_name id; body = remote_body (remote_name id) c })
              ss)

  abbrev pub without_key : String → List (String × ℕ) → List (String × ℕ)
  without_key id [] = []
  without_key id ((k, at) ∷ ks) =
      let rest = without_key id ks in if k == id then rest else (k, at) ∷ rest

  drop_found : String → Result Error (List Section) → Exec (Manager W) Error (Unit {0})
  drop_found id (err e) m = (err e, m)
  drop_found id (ok ss) m = elim (find_section (remote_name id) ss) [
    | none ↦ (ok tt, m)
    | some i ↦
        let (r, w) = write_conf (drop_section (remote_name id) ss) m.world in
        (r, record m { key_asked = without_key id m.key_asked; world = w })
  ]

  -- dropRemote
  unfoldable pub drop_remote : String → Exec (Manager W) Error (Unit {0})
  unfolding drop_found
  drop_remote id m = let (r, w) = read_conf m.world in drop_found id r (record m { world = w })
