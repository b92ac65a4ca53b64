-- ===== src/State/Steps/Untouched.antt =====
-- What restore of internal/state/manager.go does to the workspace before the archives are verified.
use yougpu_agent.Prelude.{
  String, Bool, true, false, Option, none, some, List, [], ◌∷◌, ◌==◌, ◌≡◌, refl, ap, ◌⊎◌, inl, inr,
  eq_iff, Bool-cases, Option-cases, Run,
}
use yougpu_agent.Prelude.Result.{Result, ok, err, Exec, continue, ◌>>=◌, ◌>>◌}
use yougpu_agent.Spec.{AgentStateSpec, StateRestore, StateOverlay}
use yougpu_agent.State.{Error}
use yougpu_agent.State.Steps.{
  Archive, full, overlay, Folder, workspace, unpacked, laid, Host, result_of, prefixed_result, try,
  wrapped, deferring, compare_sums, verify, fetch_verified, fetch_full, fetch_overlay, fresh,
  unpack_full, all_safe, replace_there, clear_all, lay_overlay, lay, unpack_and_move, with_archives,
  restore,
}

abbrev Step : Type 0 → Type 0
Step W = Exec W Error (Unit {0})

module _ {W : Type 0} (P : W → Type 0) where
  -- A call that keeps what holds of the world.
  abbrev pub Keeps : {A : Type 0} → Run W A → Type 0
  Keeps f = (w : W) → P w → P (f w).1

  -- A step that keeps it too, and that has shown V when it ends well.
  abbrev Shows : Type 0 → Step W → Type 0
  Shows V f = (w : W) → P w → P (f w).1 × ((f w).0 ≡ ok tt → V)

  try-Shows : (f : Run W (Option Error)) → Keeps f → Shows (Unit {0}) (try f)
  unfolding try
  try-Shows f keeps w p = (keeps w p, λ h. tt)

  then-Shows : (V U : Type 0) (f g : Step W) → Shows V f → (V → Shows U g) → Shows U (f >> g)
  then-Shows V U f g first second w p = go (f w).0 (f w).1 (first w p).0 (first w p).1
    where
      go :
          (r : Result Error (Unit {0})) (w' : W)
          → P w'
          → (r ≡ ok tt → V)
          → P (continue r (λ a. g) w').1 × ((continue r (λ a. g) w').0 ≡ ok tt → U)
      go (ok a) w' q v = second (v refl) w' q
      go (err e) w' q v = (q, λ h. cc)

  wrapped-Shows : (V : Type 0) (what : String) (f : Step W) → Shows V f → Shows V (wrapped what f)
  unfolding wrapped prefixed_result
  wrapped-Shows V what f shows w p = ((shows w p).0, λ h. (shows w p).1 (same (f w).0 h))
    where
      same : (r : Result Error (Unit {0})) → prefixed_result what r ≡ ok tt → r ≡ ok tt
      same (ok a) h = refl
      same (err e) h = cc

  deferring-Shows :
      (V : Type 0) (last : Run W (Option Error)) (f : Step W)
      → Keeps last
      → Shows V f
      → Shows V (deferring last f)
  unfolding deferring
  deferring-Shows V last f keeps shows w p = (keeps (f w).1 (shows w p).0, (shows w p).1)

  module _ (host : Host W) where
    -- What is left aside: the folders in which archives are unpacked.
    abbrev pub IsTemporary : Folder → Type 0
    IsTemporary f = (f ≡ unpacked) ⊎ (f ≡ laid)

    -- The calls on the archives, on the two temporary folders and for the making of the workspace
    -- keep what P says of the workspace. Nothing is said of a call that empties, makes or fills the
    -- workspace, nor of the move into it.
    pub record IsAside : Type 0 where
      pub make_workspace : Keeps host.make_workspace
      pub remove : (a : Archive) → Keeps (host.remove a)
      pub fetch : (s : StateRestore) (a : Archive) → Keeps (host.fetch s a)
      pub hash : (a : Archive) → Keeps (host.hash a)
      pub remove_all : (f : Folder) → IsTemporary f → Keeps (host.remove_all f)
      pub make_dir : (f : Folder) → IsTemporary f → Keeps (host.make_dir f)
      pub unpack :
          (a : Archive) (f : Folder) (ds : List String) → IsTemporary f → Keeps (host.unpack a f ds)
      pub has : (f : Folder) (d : String) → Keeps (host.has f d)
      pub remove_rel : (d : String) → Keeps (host.remove_rel unpacked d)
      pub lay : Keeps (host.move_into laid unpacked)

    -- An archive that was fetched without an error, and whose hash in the world that the fetch left
    -- was the one of the spec.
    abbrev pub Verified : StateRestore → Archive → Type 0
    Verified s a =
        (w : W) × ((host.fetch s a w).0 ≡ none)
        × ((host.hash a (host.fetch s a w).1).0 ≡ ok s.sha256)

    abbrev pub FullVerified : Option StateRestore → Type 0
    FullVerified none = Unit {0}
    FullVerified (some s) = Verified s full

    abbrev pub OverlayVerified : Option StateOverlay → Type 0
    OverlayVerified none = Unit {0}
    OverlayVerified (some o) = Verified o.archive overlay

    module _ (aside : IsAside) where
      verify-Keeps :
          (a : Archive) (sum : String) (w : W)
          → P w
          → P (verify host a sum w).1
            × ((verify host a sum w).0 ≡ ok tt → (host.hash a w).0 ≡ ok sum)
      unfolding verify compare_sums
      verify-Keeps a sum w p = go (host.hash a w).0 (host.hash a w).1 (aside.hash a w p)
        where
          go :
              (r : Result Error String) (w' : W)
              → P w'
              → P (continue r (compare_sums host sum) w').1
                × ((continue r (compare_sums host sum) w').0 ≡ ok tt → r ≡ ok sum)
          go (err e) w' q = (q, λ k. cc)
          go (ok got) w' q = elim (Bool-cases (got == sum)) [
            | inl same ↦ rw same (q, λ k. ap ok ((eq_iff _ _).0 same))
            | inr other ↦ rw other (q, λ k. cc)
          ]

      fetch-verify-Shows :
          (s : StateRestore) (a : Archive)
          → Shows (Verified s a) (try (host.fetch s a) >> verify host a s.sha256)
      unfolding try result_of
      fetch-verify-Shows s a w p = elim (Option-cases (host.fetch s a w).0) [
        | inl fetched ↦
            let (q, v) = verify-Keeps a s.sha256 (host.fetch s a w).1 (aside.fetch s a w p) in
            rw fetched (q, λ k. (w, fetched, v k))
        | inr (e, failed) ↦ rw failed (aside.fetch s a w p, λ k. cc)
      ]

      fetch_verified-Shows :
          (s : StateRestore) (a : Archive) → Shows (Verified s a) (fetch_verified host s a)
      unfolding fetch_verified
      fetch_verified-Shows s a =
          then-Shows _ _ _ _ (try-Shows _ (aside.remove a)) (λ u. fetch-verify-Shows s a)

      fetch_full-Shows : (s : Option StateRestore) → Shows (FullVerified s) (fetch_full host s)
      unfolding fetch_full
      fetch_full-Shows none w p = (p, λ h. tt)
      fetch_full-Shows (some s) w p = fetch_verified-Shows s full w p

      fetch_overlay-Shows :
          (o : Option StateOverlay) → Shows (OverlayVerified o) (fetch_overlay host o)
      unfolding fetch_overlay
      fetch_overlay-Shows none w p = (p, λ h. tt)
      fetch_overlay-Shows (some o) w p =
          wrapped-Shows _ "overlay: " _ (fetch_verified-Shows o.archive overlay) w p

      fresh-Shows : (f : Folder) → IsTemporary f → Shows (Unit {0}) (fresh host f)
      unfolding fresh
      fresh-Shows f t =
          then-Shows _ _ _ _ (try-Shows _ (aside.remove_all f t))
            (λ u. try-Shows _ (aside.make_dir f t))

      unpack_full-Shows :
          (spec : AgentStateSpec) (s : Option StateRestore)
          → Shows (Unit {0}) (unpack_full host spec s)
      unfolding unpack_full
      unpack_full-Shows spec none w p = (p, λ h. tt)
      unpack_full-Shows spec (some s) w p =
          try-Shows _ (aside.unpack full unpacked spec.include (inl refl)) w p

      all_safe-Shows : (dirs : List String) → Shows (Unit {0}) (all_safe host dirs)
      unfolding all_safe
      all_safe-Shows [] w p = (p, λ h. tt)
      all_safe-Shows (dir ∷ dirs) w p =
          then-Shows (Unit {0}) _ (λ v. (result_of (host.safe_rel dir), v)) _ (λ v q. (q, λ h. tt))
            (λ u. all_safe-Shows dirs) w p

      replace-Shows :
          (dir : String) → Shows (Unit {0}) (host.has laid dir >>= replace_there host dir)
      unfolding replace_there
      replace-Shows dir w p =
          go (host.has laid dir w).0 (host.has laid dir w).1 (aside.has laid dir w p)
        where
          go :
              (r : Result Error Bool) (w' : W)
              → P w'
              → P (continue r (replace_there host dir) w').1
                × ((continue r (replace_there host dir) w').0 ≡ ok tt → Unit {0})
          go (err e) w' q = (q, λ h. tt)
          go (ok false) w' q = (q, λ h. tt)
          go (ok true) w' q = try-Shows _ (aside.remove_rel dir) w' q

      clear_all-Shows : (dirs : List String) → Shows (Unit {0}) (clear_all host dirs)
      unfolding clear_all
      clear_all-Shows [] w p = (p, λ h. tt)
      clear_all-Shows (dir ∷ dirs) w p =
          then-Shows (Unit {0}) _ _ _ (replace-Shows dir) (λ u. clear_all-Shows dirs) w p

      lay-Shows : (o : Option StateOverlay) → Shows (Unit {0}) (lay host o)
      unfolding lay lay_overlay
      lay-Shows none w p = (p, λ h. tt)
      lay-Shows (some o) w p =
          wrapped-Shows (Unit {0}) "overlay: " _
            (then-Shows _ _ _ _ (all_safe-Shows o.include) (λ a.
              then-Shows _ _ _ _ (fresh-Shows laid (inr refl)) (λ b.
                deferring-Shows _ _ _ (aside.remove_all laid (inr refl)) (
                  then-Shows _ _ _ _ (try-Shows _ (aside.unpack overlay laid o.include (inr refl)))
                    (λ c.
                      then-Shows _ _ _ _ (clear_all-Shows o.include)
                        (λ d. try-Shows _ aside.lay))))))
            w p

      -- How a restore ends: with the result of the move into a workspace that it had left as it was,
      -- every archive being verified by then, or with an error and the workspace as it was.
      abbrev pub Ends : AgentStateSpec → Result Error (Unit {0}) → W → Type 0
      Ends spec r w =
          (FullVerified spec.restore
            × OverlayVerified spec.overlay
            × ((w' : W) × P w' × (r ≡ result_of (host.move_into unpacked workspace w').0)))
          ⊎ (P w × ((e : Error) × (r ≡ err e)))

      then-Ends :
          (spec : AgentStateSpec) (V : Type 0) (f g : Step W)
          → Shows V f
          → (V → (w : W) → P w → Ends spec (g w).0 (g w).1)
          → (w : W) → P w
          → Ends spec ((f >> g) w).0 ((f >> g) w).1
      then-Ends spec V f g first second w p = go (f w).0 (f w).1 (first w p).0 (first w p).1
        where
          go :
              (r : Result Error (Unit {0})) (w' : W)
              → P w'
              → (r ≡ ok tt → V)
              → Ends spec (continue r (λ a. g) w').0 (continue r (λ a. g) w').1
          go (ok a) w' q v = second (v refl) w' q
          go (err e) w' q v = inr (q, (e, refl))

      deferring-Ends :
          (spec : AgentStateSpec) (last : Run W (Option Error)) (f : Step W)
          → Keeps last
          → (w : W) → Ends spec (f w).0 (f w).1
          → Ends spec (deferring last f w).0 (deferring last f w).1
      unfolding deferring
      deferring-Ends spec last f keeps w (inl h) = inl h
      deferring-Ends spec last f keeps w (inr (p, h)) = inr (keeps (f w).1 p, h)

      -- A restore either ends with the result of the move of what it unpacked into the workspace,
      -- every archive of the spec having been fetched without an error with the hash that the spec
      -- names and the workspace being as it was, or it ends with an error and the workspace is as it
      -- was, where the calls on the archives and the two temporary folders leave the workspace alone.
      pub restore-Ends :
          (spec : AgentStateSpec) (w : W)
          → P w
          → Ends spec (restore host spec w).0 (restore host spec w).1
      unfolding restore with_archives unpack_and_move try
      restore-Ends spec =
          then-Ends spec (Unit {0}) (try host.make_workspace) _ (try-Shows _ aside.make_workspace)
            (λ u w p. deferring-Ends spec (host.remove full) _ (aside.remove full) w (
              deferring-Ends spec (host.remove overlay) _ (aside.remove overlay) w (
                then-Ends spec (FullVerified spec.restore) (fetch_full host spec.restore) _
                  (fetch_full-Shows spec.restore)
                  (λ whole.
                    then-Ends spec (OverlayVerified spec.overlay) (fetch_overlay host spec.overlay)
                      _ (fetch_overlay-Shows spec.overlay)
                      (λ over.
                        then-Ends spec (Unit {0}) (fresh host unpacked) _
                          (fresh-Shows unpacked (inl refl))
                          (λ a w' q.
                            deferring-Ends spec (host.remove_all unpacked) _
                              (aside.remove_all unpacked (inl refl)) w'
                              (then-Ends spec (Unit {0}) (unpack_full host spec spec.restore) _
                                (unpack_full-Shows spec spec.restore)
                                (λ b.
                                  then-Ends spec (Unit {0}) (lay host spec.overlay)
                                    (try (host.move_into unpacked workspace))
                                    (lay-Shows spec.overlay)
                                    (λ c w'' q'. inl (whole, over, (w'', q', refl))))
                                w' q))))
                  w p)))
