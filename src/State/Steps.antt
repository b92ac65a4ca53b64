-- ===== src/State/Steps.antt =====
-- internal/state/manager.go: restore and what it calls, from the download of the archives to the move
-- into the workspace. Fetching, unpacking and moving are calls of a Host; a deferred removal is made
-- whatever the result, and its own error is left aside.
pub mod Untouched
use yougpu_agent.Prelude.{
  String, Bool, true, false, Option, none, some, List, [], ◌∷◌, ◌<>◌, ◌==◌, if◌then◌else◌, Run,
}
use yougpu_agent.Prelude.Result.{Result, ok, err, Exec, done, fail, continue, ◌>>=◌, ◌>>◌}
use yougpu_agent.Spec.{AgentStateSpec, StateRestore, StateOverlay}
use yougpu_agent.State.{Error, final, too_large, plain}

-- The archives and the folders of a restore.
pub data Archive : Type 0 where
  full overlay : Archive

-- The folder of the workspace, the one that the archive is unpacked into, and the overlay's.
pub data Folder : Type 0 where
  workspace unpacked laid : Folder

-- `has` and `remove_rel` act on a path below a folder, with the error of safeRel where it is unsafe.
pub record Host (W : Type 0) : Type 0 where
  pub make_workspace : Run W (Option Error)
  pub remove : Archive → Run W (Option Error)
  pub fetch : StateRestore → Archive → Run W (Option Error)
  pub hash : Archive → Run W (Result Error String)
  pub remove_all : Folder → Run W (Option Error)
  pub make_dir : Folder → Run W (Option Error)
  pub unpack : Archive → Folder → List String → Run W (Option Error)
  pub safe_rel : String → Option Error
  pub has : Folder → String → Run W (Result Error Bool)
  pub remove_rel : Folder → String → Run W (Option Error)
  pub move_into : Folder → Folder → Run W (Option Error)

-- fmt.Errorf with %w: what an error is stays.
unfoldable pub prefixed : String → Error → Error
prefixed what (final e) = final (what <> e)
prefixed what (too_large e) = too_large (what <> e)
prefixed what (plain e) = plain (what <> e)

unfoldable pub result_of : Option Error → Result Error (Unit {0})
result_of none = ok tt
result_of (some e) = err e

unfoldable pub prefixed_result : String → Result Error (Unit {0}) → Result Error (Unit {0})
prefixed_result what (ok a) = ok a
prefixed_result what (err e) = err (prefixed what e)

module _ {W : Type 0} where
  unfoldable pub try : Run W (Option Error) → Exec W Error (Unit {0})
  unfolding result_of
  try f w = let (e, w') = f w in (result_of e, w')

  unfoldable pub wrapped : String → Exec W Error (Unit {0}) → Exec W Error (Unit {0})
  unfolding prefixed_result
  wrapped what f w = let (r, w') = f w in (prefixed_result what r, w')

  -- defer
  unfoldable pub deferring :
      Run W (Option Error) → Exec W Error (Unit {0}) → Exec W Error (Unit {0})
  deferring last f w = let (r, w') = f w in (r, (last w').1)

module _ {W : Type 0} (host : Host W) where
  unfoldable pub compare_sums : String → String → Exec W Error (Unit {0})
  compare_sums want got =
      if got == want then done tt else fail (plain ("state sha256 mismatch: " <> got))

  -- verify
  unfoldable pub verify : Archive → String → Exec W Error (Unit {0})
  verify archive want = host.hash archive >>= compare_sums want

  -- fetchVerified; that the archive is not there is no error of its removal.
  unfoldable pub fetch_verified : StateRestore → Archive → Exec W Error (Unit {0})
  fetch_verified a archive =
      try (host.remove archive) >> (try (host.fetch a archive) >> verify archive a.sha256)

  unfoldable pub fetch_full : Option StateRestore → Exec W Error (Unit {0})
  fetch_full none = done tt
  fetch_full (some a) = fetch_verified a full

  unfoldable pub fetch_overlay : Option StateOverlay → Exec W Error (Unit {0})
  fetch_overlay none = done tt
  fetch_overlay (some o) = wrapped "overlay: " (fetch_verified o.archive overlay)

  unfoldable pub fresh : Folder → Exec W Error (Unit {0})
  fresh folder = try (host.remove_all folder) >> try (host.make_dir folder)

  unfoldable pub unpack_full : AgentStateSpec → Option StateRestore → Exec W Error (Unit {0})
  unpack_full spec none = done tt
  unpack_full spec (some a) = try (host.unpack full unpacked spec.include)

  -- The first loop of layOverlay.
  unfoldable pub all_safe : List String → Exec W Error (Unit {0})
  all_safe [] w = (ok tt, w)
  all_safe (dir ∷ dirs) w = continue (result_of (host.safe_rel dir)) (λ a. all_safe dirs) w

  unfoldable pub replace_there : String → Bool → Exec W Error (Unit {0})
  replace_there dir false = done tt
  replace_there dir true = try (host.remove_rel unpacked dir)

  -- The second loop of layOverlay: what the overlay has takes the place of what was unpacked.
  unfoldable pub clear_all : List String → Exec W Error (Unit {0})
  clear_all [] w = (ok tt, w)
  clear_all (dir ∷ dirs) w = ((host.has laid dir >>= replace_there dir) >> clear_all dirs) w

  -- layOverlay
  unfoldable pub lay_overlay : List String → Exec W Error (Unit {0})
  lay_overlay include =
      all_safe include
      >> (fresh laid
          >> deferring (host.remove_all laid) (
              try (host.unpack overlay laid include)
              >> (clear_all include >> try (host.move_into laid unpacked))))

  unfoldable pub lay : Option StateOverlay → Exec W Error (Unit {0})
  lay none = done tt
  lay (some o) = wrapped "overlay: " (lay_overlay o.include)

  unfoldable pub unpack_and_move : AgentStateSpec → Exec W Error (Unit {0})
  unpack_and_move spec =
      unpack_full spec spec.restore >> (lay spec.overlay >> try (host.move_into unpacked workspace))

  unfoldable pub with_archives : AgentStateSpec → Exec W Error (Unit {0})
  with_archives spec =
      fetch_full spec.restore
      >> (fetch_overlay spec.overlay
          >> (fresh unpacked >> deferring (host.remove_all unpacked) (unpack_and_move spec)))

  -- restore
  unfoldable pub restore : AgentStateSpec → Exec W Error (Unit {0})
  restore spec =
      try host.make_workspace
      >> deferring (host.remove full) (deferring (host.remove overlay) (with_archives spec))
