-- ===== src/Content/Fetch.antt =====
-- internal/content/manager.go: fetch, fill, download and clone, and the functions they use. What they
-- return is a result or an error, as an Exec over the world; only fetch touches the manager.
use yougpu_agent.Prelude.{
  ℕ, zero, suc, ltb, leb, eqb, String, code, not, ◌&&◌, ◌||◌, Option, none, some, List, [], ◌∷◌,
  ◌++◌, ◌<>◌, ◌==◌, is_empty, join, itoa, trim_space, if◌then◌else◌, Run,
}
use yougpu_agent.Prelude.Result.{Result, ok, err, Exec, done, fail, ◌>>=◌, ◌>>◌}
use yougpu_agent.Fetch.{clip}
use yougpu_agent.Client.{positive_atoi}
use yougpu_agent.Spec.{ContentRepo}
use yougpu_agent.Archive.Paths.{split, clean}
use yougpu_agent.Content.{
  Error, permanent, cancelled, plain, text, Task, FileInfo, Manager, Act, max_item_error,
}
use yougpu_agent.Content.Host.{Host, Texts, Made, made, exists, not_made, Response}
use yougpu_agent.Content.Paths.{path_join, but_last, clean_text}
use yougpu_agent.Content.Plan.{remember}

-- fmt.Errorf with %w: what an error is in isPermanent stays.
unfoldable pub wrap : String → Error → Error
wrap what (permanent e) = permanent (what <> e)
wrap what cancelled = plain (what <> text cancelled)
wrap what (plain e) = plain (what <> e)

unfoldable pub with_text : String → Error → Error
with_text more (permanent e) = permanent (e <> more)
with_text more cancelled = plain (text cancelled <> more)
with_text more (plain e) = plain (e <> more)

abbrev slash_suffix : String → Option String → Option String
slash_suffix s none = some s
slash_suffix s (some later) = some later

-- v[strings.LastIndex(v, "/")+1:], none when there is no slash.
unfoldable pub after_last_slash : String → Option String
after_last_slash String.[] = none
after_last_slash (String.◌∷◌ c s) =
    let later = after_last_slash s in if eqb (code c) b'/' then slash_suffix s later else later

abbrev parsed : Option ℕ → ℕ
parsed none = 0
parsed (some n) = n

abbrev total_in : Option String → ℕ
total_in none = 0
total_in (some s) = parsed (positive_atoi (trim_space s))

-- totalFromContentRange, with 0 for a total below 0.
unfoldable pub total_from_content_range : String → ℕ
total_from_content_range v = total_in (after_last_slash v)

-- sum[:n]
abbrev pub first_chars : ℕ → String → String
first_chars zero s = ""
first_chars (suc n) String.[] = ""
first_chars (suc n) (String.◌∷◌ c s) = String.◌∷◌ c (first_chars n s)

-- filepath.Dir
unfoldable pub folder_of : List String → String
folder_of [] = "."
folder_of (s ∷ ss) = clean_text (clean (join "/" (s ∷ ss) <> "/"))

-- The arguments of git in clone.
unfoldable pub clone_args : ContentRepo → String → List String
clone_args r target =
    ("clone" ∷ "--depth" ∷ "1" ∷ [])
    ++ (if is_empty r.ref then [] else "--branch" ∷ r.ref ∷ [])
    ++ ("--" ∷ r.url ∷ target ∷ [])

module _ {W : Type 0} where
  -- What a call that may only fail gives to the code after it.
  unfoldable pub try : Run W (Option Error) → Exec W Error (Unit {0})
  try f w = let (e, w') = f w in (elim e [ none ↦ ok tt | some x ↦ err x ], w')

  unfoldable pub wrapped : {A : Type 0} → String → Exec W Error A → Exec W Error A
  wrapped what f w = let (r, w') = f w in (elim r [ ok a ↦ ok a | err e ↦ err (wrap what e) ], w')

  -- The calls made whatever the result of the first, and the error of the close after it.
  unfoldable pub closing :
      Exec W Error (Unit {0}) → Exec W Error (Unit {0}) → Exec W Error (Unit {0})
  closing f close w =
      let (r, w') = f w in let (c, w'') = close w' in (elim r [ ok a ↦ c | err e ↦ err e ], w'')

  -- A step that is undone by `undo` when it fails.
  unfoldable pub or_undo : Run W (Unit {0}) → Exec W Error (Unit {0}) → Exec W Error (Unit {0})
  or_undo undo f w =
      let (r, w') = f w in elim r [ ok a ↦ (ok a, w') | err e ↦ (err e, (undo w').1) ]

module _ {W : Type 0} (host : Host W) (texts : Texts) where
  -- The result of a Mkdir in mkdirAll.
  made_or : Made → Exec W Error (Unit {0})
  made_or made = done tt
  made_or exists = done tt
  made_or (not_made e) = fail e

  mkdirs : String → List String → Exec W Error (Unit {0})
  unfolding made_or
  mkdirs current [] = done tt
  mkdirs current (seg ∷ segs) = do
    r ← (λ w. let (r, w') = host.mkdir (path_join (current ∷ seg ∷ [])) w in (ok r, w'))
    made_or r
    mkdirs (path_join (current ∷ seg ∷ [])) segs

  -- mkdirAll
  unfoldable pub mkdir_all : String → Exec W Error (Unit {0})
  unfolding mkdirs
  mkdir_all rel = if is_empty rel || rel == "." then done tt else mkdirs "" (split rel)

  unfoldable pub ensure_space : ℕ → Exec W Error (Unit {0})
  ensure_space need w =
      let (free, w') = host.free w in
      (
        elim free [
          | none ↦ ok tt
          | some n ↦
              if ltb n need
              then err (
                  permanent
                    ("not enough disk space: need " <> (itoa need <> (" bytes, free " <> itoa n))))
              else ok tt
        ],
        w',
      )

  -- The total of a response: its length, or what its Content-Range says.
  total_of : Response → ℕ
  total_of r = if eqb r.status 206 then total_from_content_range r.content_range else r.length

  check_total : Task → ℕ → Exec W Error (Unit {0})
  unfolding ensure_space
  check_total t total =
      if eqb total 0
      then done tt
      else if ltb 0 t.size && not (eqb total t.size)
      then fail (permanent ("size " <> (itoa total <> (", expected " <> itoa t.size))))
      else ensure_space total

  -- The body of the response copied as a whole.
  copy_all : ℕ → Exec W Error (Unit {0})
  copy_all total w =
      let ((written, e), w') = host.copy w in
      (
        elim e [
          | some x ↦ err (wrap "download: " x)
          | none ↦
              if ltb 0 total && not (eqb written total)
              then err (
                  plain
                    ("download: got " <> (itoa written <> (" of " <> (itoa total <> " bytes")))))
              else ok tt
        ],
        w',
      )

  take_body : Task → ℕ → Response → Exec W Error (Unit {0})
  unfolding total_of check_total copy_all
  take_body t range_min r =
      if not (eqb r.status 200) && not (eqb r.status 206)
      then fail (plain ("http " <> itoa r.status))
      else if texts.is_html r.content_type
      then fail (permanent "got an html page instead of the file")
      else do
        check_total t (total_of r)
        if eqb r.status 206 && leb range_min (total_of r)
            then wrapped "download: " (try (host.ranged r.final_url (total_of r)))
            else copy_all (total_of r)

  -- download, with rangeMin; the truncation that downloadRanged begins with is a part of `ranged`.
  unfoldable pub download : Task → ℕ → Exec W Error (Unit {0})
  unfolding take_body
  download t range_min = do r ← host.get t.url; take_body t range_min r

  check_hash : Task → String → Exec W Error (Unit {0})
  check_hash t sum =
      if texts.equal_fold sum t.sha256
      then done tt
      else fail (permanent ("sha256 mismatch (got " <> (first_chars 12 sum <> ")")))

  check_file : Task → ℕ → Exec W Error (Unit {0})
  unfolding check_hash
  check_file t size =
      if ltb 0 t.size && not (eqb size t.size)
      then fail (permanent ("size " <> (itoa size <> (", expected " <> itoa t.size))))
      else if t.model && eqb size 0
      then fail (plain "empty file")
      else if is_empty t.sha256
      then done tt
      else do sum ← wrapped "hash: " host.hash_written; check_hash t sum

  -- fill
  unfoldable pub fill : Task → ℕ → Exec W Error (Unit {0})
  unfolding check_file
  fill t range_min =
      if not (is_empty t.inline) && is_empty t.url
      then wrapped "write inline: " (try (host.write t.inline))
      else do download t range_min; size ← host.info; check_file t size

  -- clone
  unfoldable pub clone : String → ContentRepo → Exec W Error (Unit {0})
  clone target r = do
    wrapped "mkdir: " (try (host.make_all (folder_of (but_last (split target)))))
    or_undo (host.remove_all target) (λ w.
        let ((e, out), w') = host.git (clone_args r target) w in
        (
          elim e [
            | none ↦ ok tt
            | some x ↦
                err
                  (wrap "git clone: " (with_text (": " <> clip (trim_space out) max_item_error) x))
          ],
          w',
        ))

  -- The rest of fetch up to the rename, in the folder `folder`.
  fill_and_rename : Task → String → ℕ → Exec W Error (Unit {0})
  fill_and_rename t folder range_min =
      let part = texts.part_name t.base in
      do
        wrapped "create: " (try (host.create folder part))
        or_undo (host.remove folder part)
            (closing (fill t range_min) (wrapped "close: " (try host.close)))
        or_undo (host.remove folder part)
            (wrapped "rename: " (try (host.rename folder part t.base)))

  -- fetch without what it remembers.
  unfoldable pub transfer : Task → ℕ → Exec W Error (Unit {0})
  unfolding fill_and_rename
  transfer t range_min =
      let folder = if is_empty t.dir then "." else t.dir in
      elim t.repo [
        | some r ↦ clone t.target r
        | none ↦ do
          wrapped "mkdir: " (mkdir_all t.dir)
          wrapped "open folder: " (try (host.open_folder folder))
          fill_and_rename t folder range_min
      ]

  unfoldable pub remember_it : Task → Option FileInfo → Manager W → Manager W
  remember_it t none m = m
  remember_it t (some info) m = (remember host texts t.target info t.sha256 m).1

  unfoldable pub conclude : Task → Result Error (Unit {0}) → Act W (Option Error)
  unfolding remember_it
  conclude t (err e) m = (some e, m)
  conclude t (ok a) m =
      if is_empty t.sha256
      then (none, m)
      else let (info, w) = host.stat (path_join (t.dir ∷ t.base ∷ [])) m.world in
        (none, remember_it t info (record m { world = w }))

  -- fetch: none is no error.
  unfoldable pub fetch : Task → Act W (Option Error)
  unfolding conclude
  fetch t m = let (r, w) = transfer t m.range_min m.world in conclude t r (record m { world = w })
