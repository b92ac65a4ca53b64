-- ===== src/Archive/Contained.antt =====
-- Whatever the archive holds, its unpacking acts only below the folder.
use yougpu_agent.Prelude.{
  ℕ, String, Bool, true, false, Option, none, some, List, [], ◌∷◌, ◌≡◌, ◌≢◌, refl, inl, inr, arith,
  Bool-cases, Option-cases, ◌∙◌, ◌%◌,
}
use yougpu_agent.Prelude.Result.{Result, ok, ◌>>=◌, ◌>>◌, Result-cases, continue}
use yougpu_agent.Archive.Paths.{Key, included, safe_rel}
use yougpu_agent.Archive.Files.{
  Node, dir, file, symlink, lookup, Fs, Error, all_proper, lstat, create,
}
use yougpu_agent.Archive.Proper.{safe_rel-all_proper}
use yougpu_agent.Archive.Safe.{
  Grows, Grows-refl, Grows-trans, IsClear, IsClear-cons, AllDirs, AllDirs-nil, AllDirs-cons,
  AllDirs-Grows, bind-Grows,
}
use yougpu_agent.Archive.Calls.{
  lstat-Grows, lstat-nodes, lstat-ok, create-Grows, create-ok, rewrite-Grows, remove-Grows,
}
use yougpu_agent.Archive.{
  Header, Stream, eof, broken, entry, Limits, Counter, add, counted_size, Typeflag, type_dir,
  type_reg, type_symlink, type_other, as_directory, mkdir_inside, replaced, replace, finish_file,
  write_regular, place, parent, place_rel, unpack_entry, unpack_from, unpack,
}

proper_tail : (s : String) (ks : Key) → all_proper (s ∷ ks) ≡ true → all_proper ks ≡ true
proper_tail s ks h = ground arith

ok_unit : (u : Unit {0}) → ◌≡◌ {A = Result Error (Unit {0})} (ok u) (ok tt)
ok_unit u = refl

-- A folder that was found stays clear through a call that changes no node.
IsClear-nodes : (a b : Fs) (k : Key) → b.nodes ≡ a.nodes → IsClear a k → IsClear b k
IsClear-nodes a b k e c = record { clear_way = rw e c.clear_way }

module _ (fails : ℕ → Bool) where
  as_directory-Grows :
      (k : Key) (o : Option Node) (fs : Fs) → IsClear fs k → Grows fs (as_directory fails k o fs).1
  unfolding as_directory
  as_directory-Grows k none fs c = create-Grows fails k dir fs c
  as_directory-Grows k (some dir) fs c = Grows-refl fs
  as_directory-Grows k (some (file mode size mtime)) fs c = Grows-refl fs
  as_directory-Grows k (some (symlink target)) fs c = Grows-refl fs

  as_directory-ok :
      (k : Key) (o : Option Node) (fs : Fs)
      → IsClear fs k
      → lookup k fs.nodes ≡ o
      → (as_directory fails k o fs).0 ≡ ok tt
      → lookup k (as_directory fails k o fs).1.nodes ≡ some dir
  unfolding as_directory
  as_directory-ok k none fs c l e = create-ok fails k dir fs c e
  as_directory-ok k (some dir) fs c l e = l
  as_directory-ok k (some (file mode size mtime)) fs c l e = cc
  as_directory-ok k (some (symlink target)) fs c l e = cc

  -- One folder of the path, whose own folders are all there.
  make-Grows :
      (s : String) (ks : Key) (fs : Fs)
      → IsClear fs (s ∷ ks)
      → Grows fs ((lstat fails (s ∷ ks) >>= as_directory fails (s ∷ ks)) fs).1
  make-Grows s ks fs c =
      bind-Grows (lstat fails (s ∷ ks)) (as_directory fails (s ∷ ks)) fs
        (lstat-Grows fails (s ∷ ks) fs c)
        λ o e.
          as_directory-Grows (s ∷ ks) o (lstat fails (s ∷ ks) fs).1
            (IsClear-nodes fs _ (s ∷ ks) (lstat-nodes fails (s ∷ ks) fs c) c)

  make-ok :
      (s : String) (ks : Key) (fs : Fs)
      → IsClear fs (s ∷ ks)
      → ((lstat fails (s ∷ ks) >>= as_directory fails (s ∷ ks)) fs).0 ≡ ok tt
      → lookup (s ∷ ks) ((lstat fails (s ∷ ks) >>= as_directory fails (s ∷ ks)) fs).1.nodes
        ≡ some dir
  make-ok s ks fs c h = elim (Result-cases (lstat fails (s ∷ ks) fs).0) [
    | inl (o, e) ↦
        rw (e, continue)
          (as_directory-ok (s ∷ ks) o (lstat fails (s ∷ ks) fs).1
            (IsClear-nodes fs _ (s ∷ ks) (lstat-nodes fails (s ∷ ks) fs c) c)
            (rw (lstat-nodes fails (s ∷ ks) fs c) (lstat-ok fails (s ∷ ks) fs o c e))
            (rw (e, continue) at h))
    | inr (x, e) ↦ cc (rw (e, continue) at h)
  ]

  mkdir_inside-Grows :
      (k : Key) (fs : Fs)
      → all_proper k ≡ true
      → Grows fs (mkdir_inside fails k fs).1
        × ((mkdir_inside fails k fs).0 ≡ ok tt → AllDirs (mkdir_inside fails k fs).1.nodes k)
  unfolding mkdir_inside
  mkdir_inside-Grows [] fs p = (Grows-refl fs, λ e. AllDirs-nil fs.nodes)
  mkdir_inside-Grows (s ∷ ks) fs p =
      let (g, dirs) = mkdir_inside-Grows ks fs (proper_tail s ks p) in
      let fs' = (mkdir_inside fails ks fs).1 in
      elim (Result-cases (mkdir_inside fails ks fs).0) [
        | inl (u, e) ↦
            let c = IsClear-cons fs' s ks p (dirs e) in
            let more = make-Grows s ks fs' c in
            rw (e, continue)
              (
                Grows-trans g more,
                λ h. AllDirs-cons s ks _ (make-ok s ks fs' c h) (AllDirs-Grows ks more (dirs e)),
              )
        | inr (x, e) ↦ rw (e, continue) (g, λ h. cc)
      ]

  replaced-Grows :
      (k : Key) (o : Option Node) (fs : Fs)
      → IsClear fs k
      → lookup k fs.nodes ≡ o
      → Grows fs (replaced fails k o fs).1
  unfolding replaced
  replaced-Grows k none fs c l = Grows-refl fs
  replaced-Grows k (some dir) fs c l = Grows-refl fs
  replaced-Grows k (some (file mode size mtime)) fs c l = remove-Grows fails k fs c (λ e. cc)
  replaced-Grows k (some (symlink target)) fs c l = remove-Grows fails k fs c (λ e. cc)

  replace-Grows : (k : Key) (fs : Fs) → IsClear fs k → Grows fs (replace fails k fs).1
  unfolding replace
  replace-Grows k fs c =
      let same = lstat-nodes fails k fs c in
      bind-Grows (lstat fails k) (replaced fails k) fs (lstat-Grows fails k fs c) λ o e.
        replaced-Grows k o (lstat fails k fs).1 (IsClear-nodes fs _ k same c)
          (rw same (lstat-ok fails k fs o c e))

  -- A step that leaves the path's folders as they are.
  IsClear-Grows :
      (s : String) (ks : Key) (a b : Fs)
      → all_proper (s ∷ ks) ≡ true
      → AllDirs a.nodes ks
      → Grows a b
      → IsClear b (s ∷ ks)
  IsClear-Grows s ks a b p dirs g = IsClear-cons b s ks p (AllDirs-Grows ks g dirs)

  create_over-Grows :
      (s : String) (ks : Key) (n : Node) (fs : Fs)
      → all_proper (s ∷ ks) ≡ true
      → AllDirs fs.nodes ks
      → Grows fs ((replace fails (s ∷ ks) >> create fails (s ∷ ks) n) fs).1
  create_over-Grows s ks n fs p dirs =
      let g = replace-Grows (s ∷ ks) fs (IsClear-cons fs s ks p dirs) in
      bind-Grows (replace fails (s ∷ ks)) (λ u. create fails (s ∷ ks) n) fs g
        λ u e. create-Grows fails (s ∷ ks) n _ (IsClear-Grows s ks fs _ p dirs g)

  finish_file-Grows :
      (k : Key) (h : Header) (whole : Option Error) (fs : Fs)
      → IsClear fs k
      → lookup k fs.nodes ≢ some dir
      → Grows fs (finish_file fails k h whole fs).1
  unfolding finish_file
  finish_file-Grows k h none fs c free = rewrite-Grows fails k _ fs c free
  finish_file-Grows k h (some e) fs c free = Grows-refl fs

  write_regular-Grows :
      (s : String) (ks : Key) (h : Header) (fs : Fs)
      → all_proper (s ∷ ks) ≡ true
      → AllDirs fs.nodes ks
      → Grows fs (write_regular fails (s ∷ ks) h fs).1
  unfolding write_regular
  write_regular-Grows s ks h fs p dirs =
      let k = s ∷ ks in
      let g = replace-Grows k fs (IsClear-cons fs s ks p dirs) in
      let empty : Node = file (h.mode % 512) 0 0 in
      bind-Grows (replace fails k) (λ u. create fails k empty >> finish_file fails k h h.whole) fs g
        λ u e.
          let b = (replace fails k fs).1 in
          let c = IsClear-Grows s ks fs b p dirs g in
          let g' = create-Grows fails k empty b c in
          bind-Grows (create fails k empty) (λ v. finish_file fails k h h.whole) b g'
            λ v e'.
              finish_file-Grows k h h.whole (create fails k empty b).1
                (IsClear-Grows s ks fs _ p dirs (Grows-trans g g'))
                (λ is_dir. cc (create-ok fails k empty b c (e' ∙ ok_unit v), is_dir))

  place-Grows :
      (t : Typeflag) (s : String) (ks : Key) (h : Header) (fs : Fs)
      → all_proper (s ∷ ks) ≡ true
      → AllDirs fs.nodes ks
      → Grows fs (place fails t (s ∷ ks) h fs).1
  unfolding place
  place-Grows type_dir s ks h fs p dirs = (mkdir_inside-Grows (s ∷ ks) fs p).0
  place-Grows type_reg s ks h fs p dirs = write_regular-Grows s ks h fs p dirs
  place-Grows type_symlink s ks h fs p dirs = create_over-Grows s ks (symlink h.linkname) fs p dirs
  place-Grows type_other s ks h fs p dirs = Grows-refl fs

  inside-Grows :
      (include : List String) (h : Header) (k : Key) (fs : Fs)
      → all_proper k ≡ true
      → k ≢ []
      → Grows fs (place_rel fails include h (ok k) fs).1
  unfolding place_rel parent
  inside-Grows include h [] fs p ne = absurd (ne refl)
  inside-Grows include h (s ∷ ks) fs p ne = elim (Bool-cases (included include (s ∷ ks))) [
    | inr skipped ↦ rw skipped (Grows-refl fs)
    | inl kept ↦
        let (g, dirs) = mkdir_inside-Grows ks fs (proper_tail s ks p) in
        rw kept (
          bind-Grows (mkdir_inside fails ks) (λ u. place fails h.typeflag (s ∷ ks) h) fs g
            λ u e. place-Grows h.typeflag s ks h _ p (dirs (e ∙ ok_unit u)))
  ]

  unpack_entry-Grows :
      (include : List String) (h : Header) (fs : Fs) → Grows fs (unpack_entry fails include h fs).1
  unfolding unpack_entry
  unpack_entry-Grows include h fs = elim (Option-cases (safe_rel h.name)) [
    | inl refused ↦ rw refused (unfold place_rel in Grows-refl fs)
    | inr (k, e) ↦
        let (p, ne) = safe_rel-all_proper h.name k e in rw e (inside-Grows include h k fs p ne)
  ]

  unpack_from-Grows :
      (limits : Limits) (include : List String) (stream : Stream) (c : Counter) (fs : Fs)
      → Grows fs (unpack_from fails limits include stream c fs).1
  unfolding unpack_from
  unpack_from-Grows limits include eof c fs = Grows-refl fs
  unpack_from-Grows limits include broken c fs = Grows-refl fs
  unpack_from-Grows limits include (entry h rest) c fs =
      elim (Result-cases (add limits (counted_size h.typeflag h.size) c)) [
        | inl (c', e) ↦ rw e (
            bind-Grows (unpack_entry fails include h)
              (λ u. unpack_from fails limits include rest c') fs (unpack_entry-Grows include h fs)
              λ u e'. unpack_from-Grows limits include rest c' _)
        | inr (x, e) ↦ rw e (Grows-refl fs)
      ]

  -- Whatever entries an archive has, links and paths with ".." among them, whatever is in the
  -- folder already and whichever calls fail: unpacking makes no call on a path that leads through a
  -- symbolic link or out of the folder, and every directory of the folder is still one afterwards.
  pub unpack_contained :
      (stream : Stream) (include : List String) (limits : Limits) (fs : Fs)
      → (fs.escaped ≡ false → (unpack fails stream include limits fs).1.escaped ≡ false)
        × ((d : Key)
            → lookup d fs.nodes ≡ some dir
            → lookup d (unpack fails stream include limits fs).1.nodes ≡ some dir)
  unfolding unpack
  unpack_contained stream include limits fs =
      let g = unpack_from-Grows limits include stream (record { bytes = 0; entries = 0 }) fs in
      (g.inside, g.dirs_stay)
