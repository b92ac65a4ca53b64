-- ===== src/Archive/Calls.antt =====
-- What each call of the os package does on a clear path.
use yougpu_agent.Prelude.{
  ℕ, suc, Bool, Option, some, ◌∷◌, ◌≡◌, ◌≢◌, refl, inl, inr, Bool-cases, Option-cases,
}
use yougpu_agent.Prelude.Result.{Result, ok, err}
use yougpu_agent.Archive.Paths.{Key, key_eq}
use yougpu_agent.Archive.Files.{
  Node, dir, Nodes, lookup, without, Fs, Error, Act, along, on_path, lstat, create, put,
  unless_there, rewrite, remove, remove_node,
}
use yougpu_agent.Archive.Safe.{Grows, IsClear, key_eq_iff, lookup-without}

put_stays :
    (k d : Key) (n : Node) (m : Nodes)
    → lookup k m ≢ some dir
    → lookup d m ≡ some dir
    → lookup d ((k, n) ∷ without k m) ≡ some dir
unfolding lookup
put_stays k d n m free h = elim (Bool-cases (key_eq k d)) [
  | inl same ↦ absurd (free (rw ((key_eq_iff k d).0 same) h))
  | inr other ↦ rw (other, lookup-without k d m, other) h
]

without_stays :
    (k d : Key) (m : Nodes)
    → lookup k m ≢ some dir
    → lookup d m ≡ some dir
    → lookup d (without k m) ≡ some dir
without_stays k d m free h = elim (Bool-cases (key_eq k d)) [
  | inl same ↦ absurd (free (rw ((key_eq_iff k d).0 same) h))
  | inr other ↦ rw (lookup-without k d m, other) h
]

lookup-put : (k : Key) (n : Node) (m : Nodes) → lookup k ((k, n) ∷ m) ≡ some n
unfolding lookup
lookup-put k n m = rw ((key_eq_iff k k).1 refl)

module _ (fails : ℕ → Bool) where
  -- A call on a clear path fails as a whole, or acts.
  on_path_ind :
      {A : Type 0} (Q : Result Error A × Fs → Type 0) (k : Key) (act absent : Act A) (fs : Fs)
      → IsClear fs k
      → Q (err Error.os, record fs { calls = suc fs.calls })
      → Q (act (record fs { calls = suc fs.calls }))
      → Q (on_path fails k act absent fs)
  unfolding on_path
  on_path_ind Q k act absent fs c failing acting = elim (Bool-cases (fails fs.calls)) [
    | inl bad ↦ rw bad failing
    | inr fine ↦ rw (fine, c.clear_way, along) acting
  ]

  pub lstat-Grows : (k : Key) (fs : Fs) → IsClear fs k → Grows fs (lstat fails k fs).1
  unfolding lstat
  lstat-Grows k fs c =
      on_path_ind (λ r. Grows fs r.1) k _ _ fs c (record { inside = λ h. h; dirs_stay = λ d h. h })
        (record { inside = λ h. h; dirs_stay = λ d h. h })

  pub lstat-nodes : (k : Key) (fs : Fs) → IsClear fs k → (lstat fails k fs).1.nodes ≡ fs.nodes
  unfolding lstat
  lstat-nodes k fs c = on_path_ind (λ r. r.1.nodes ≡ fs.nodes) k _ _ fs c refl refl

  pub lstat-ok :
      (k : Key) (fs : Fs) (n : Option Node)
      → IsClear fs k
      → (lstat fails k fs).0 ≡ ok n
      → lookup k fs.nodes ≡ n
  unfolding lstat
  lstat-ok k fs n c =
      on_path_ind (λ r. r.0 ≡ ok n → lookup k fs.nodes ≡ n) k _ _ fs c (λ e. cc) (λ e. cc)

  pub create-Grows :
      (k : Key) (n : Node) (fs : Fs) → IsClear fs k → Grows fs (create fails k n fs).1
  unfolding create put
  create-Grows k n fs c =
      on_path_ind (λ r. Grows fs r.1) k _ _ fs c (record { inside = λ h. h; dirs_stay = λ d h. h })
        (elim (Option-cases (lookup k fs.nodes)) [
          | inl free ↦
              rw (free, unless_there)
                (record {
                  inside = λ h. h;
                  dirs_stay = λ d h. put_stays k d n fs.nodes (λ e. cc (free, e)) h;
                })
          | inr (x, there) ↦
              rw (there, unless_there) (record { inside = λ h. h; dirs_stay = λ d h. h })
        ])

  pub create-ok :
      (k : Key) (n : Node) (fs : Fs)
      → IsClear fs k
      → (create fails k n fs).0 ≡ ok tt
      → lookup k (create fails k n fs).1.nodes ≡ some n
  unfolding create put
  create-ok k n fs c =
      on_path_ind (λ r. r.0 ≡ ok tt → lookup k r.1.nodes ≡ some n) k _ _ fs c (λ e. cc)
        (elim (Option-cases (lookup k fs.nodes)) [
          | inl free ↦ rw (free, unless_there) (λ e. lookup-put k n _)
          | inr (x, there) ↦ rw (there, unless_there) (λ e. cc)
        ])

  pub rewrite-Grows :
      (k : Key) (n : Node) (fs : Fs)
      → IsClear fs k
      → lookup k fs.nodes ≢ some dir
      → Grows fs (rewrite fails k n fs).1
  unfolding rewrite put
  rewrite-Grows k n fs c free =
      on_path_ind (λ r. Grows fs r.1) k _ _ fs c (record { inside = λ h. h; dirs_stay = λ d h. h })
        (record { inside = λ h. h; dirs_stay = λ d h. put_stays k d n fs.nodes free h })

  pub remove-Grows :
      (k : Key) (fs : Fs)
      → IsClear fs k
      → lookup k fs.nodes ≢ some dir
      → Grows fs (remove fails k fs).1
  unfolding remove
  remove-Grows k fs c free =
      on_path_ind (λ r. Grows fs r.1) k _ _ fs c (record { inside = λ h. h; dirs_stay = λ d h. h })
        (elim (Option-cases (lookup k fs.nodes)) [
          | inl absent ↦ rw (absent, remove_node) (record { inside = λ h. h; dirs_stay = λ d h. h })
          | inr (x, there) ↦
              rw (there, remove_node)
                (record { inside = λ h. h; dirs_stay = λ d h. without_stays k d fs.nodes free h })
        ])
