-- ===== src/Lifecycle/Stall.antt =====
-- When internal/lifecycle/manager.go reports that the uploads do not move.
use yougpu_agent.Prelude.{
  Option, none, ◌⊎◌, ℕ, ◌+◌, ◌≤◌, ◌<◌, ltb, String, Bool, true, false, some, ◌≡◌, refl, inl, inr,
  arith, Bool-cases, is_empty, ltb→lt, lt→ltb, sym, ◌∙◌, ◌&&◌, ◌↔◌, if◌then◌else◌,
}
use yougpu_agent.Fetch.{clip, rune_len}
use yougpu_agent.Uploads.{Uploads, pending, sum, moved}
use yougpu_agent.Lifecycle.{
  Manager, Host, shows_progress, started, watch, follow, is_young, stall_message, max_last_error,
}

-- The uploads have moved on from a reading that was noted: more were completed, fewer are pending, or
-- more was sent without a new error.
abbrev pub HasMoved : Option Uploads → Uploads → Type 0
HasMoved none cur = ⊥
HasMoved (some prev) cur =
    (prev.completed < cur.completed)
    ⊎ (pending cur < pending prev)
    ⊎ ((prev.sent < cur.sent) × (cur.errors ≡ prev.errors))

moved-HasMoved : (prev cur : Uploads) → moved prev cur ≡ true → HasMoved (some prev) cur
unfolding moved
moved-HasMoved prev cur h = ground arith

not-HasMoved : (prev cur : Uploads) → moved prev cur ≡ false → ¬ HasMoved (some prev) cur
unfolding moved
not-HasMoved prev cur h (inl a) = ground arith
not-HasMoved prev cur h (inr (inl a)) = ground arith
not-HasMoved prev cur h (inr (inr (a, b))) = ground arith

-- Since when the uploads have not moved, as a call at `now` sees it: since now, if the disks answer
-- and have moved on, and else since the time noted before.
abbrev still_since : {W : Type 0} → Uploads → Bool → ℕ → Manager W → ℕ
still_since cur known now m =
    if known && shows_progress m.mark cur then now else started m.moved_at now

-- No disk shows progress between two equal readings.
pub moved_self : (u : Uploads) → moved u u ≡ false
unfolding moved
moved_self u = ground arith

pub pending-sum_le : (a b : Uploads) → pending a ≤ pending (sum a b)
unfolding pending sum
pending-sum_le a b = omega arith

started-exact :
    (before : Option ℕ) (now : ℕ)
    → (before ≡ some (started before now)) ⊎ ((before ≡ none) × (started before now ≡ now))
started-exact none now = inr (refl, refl)
started-exact (some at) now = inl refl

module _ {W : Type 0} where
  still_since-exact :
      (cur : Uploads) (known : Bool) (now : ℕ) (m : Manager W)
      → ((still_since cur known now m ≡ now) × (known ≡ true) × HasMoved m.mark cur)
        ⊎ (¬ ((known ≡ true) × HasMoved m.mark cur)
            × ((m.moved_at ≡ some (still_since cur known now m))
                ⊎ ((m.moved_at ≡ none) × (still_since cur known now m ≡ now))))
  still_since-exact cur false now m = inr (λ h. cc (h.0), started-exact m.moved_at now)
  still_since-exact cur true now m = of_mark m.mark
    where
      of_mark :
          (mark : Option Uploads)
          → (((if shows_progress mark cur then now else started m.moved_at now) ≡ now)
              × (true ≡ true)
              × HasMoved mark cur)
            ⊎ (¬ ((true ≡ true) × HasMoved mark cur)
                × ((m.moved_at
                      ≡ some (if shows_progress mark cur then now else started m.moved_at now))
                    ⊎ ((m.moved_at ≡ none)
                        × ((if shows_progress mark cur then now else started m.moved_at now)
                            ≡ now))))
      of_mark none = inr (λ h. h.1, started-exact m.moved_at now)
      of_mark (some prev) = elim (Bool-cases (moved prev cur)) [
        | inl t ↦ rw t (inl (refl, refl, moved-HasMoved prev cur t))
        | inr f ↦ rw f (inr (λ h. not-HasMoved prev cur f (h.1), started-exact m.moved_at now))
      ]

module _ {W : Type 0} (cur : Uploads) (known : Bool) (now : ℕ) (m : Manager W) where
  follow-moved_at : (follow cur known now m).moved_at ≡ some (still_since cur known now m)
  unfolding follow
  follow-moved_at = ground arith

  follow-mark :
      ((known ≡ true) × ((follow cur known now m).mark ≡ some cur))
      ⊎ ((known ≡ false) × ((follow cur known now m).mark ≡ m.mark))
  unfolding follow
  follow-mark = elim (Bool-cases known) [
    | inl t ↦ rw t (inl (refl, refl))
    | inr f ↦ rw f (inr (refl, refl))
  ]

  follow-stall : (follow cur known now m).stall ≡ m.stall
  unfolding follow
  follow-stall = ground arith

  is_young-follow :
      is_young now (follow cur known now m) ≡ ltb now (still_since cur known now m + m.stall_after)
  unfolding follow is_young
  is_young-follow = ground arith

empty_text : (s : String) → is_empty s ≡ true → s ≡ ""
empty_text String.[] h = refl
empty_text (String.◌∷◌ c s) h = cc

module _ {W : Type 0} (host : Host W) where
  message_is_text :
      (after : ℕ) (cur : Uploads) (known : Bool)
      → is_empty (clip (stall_message host after cur known) max_last_error) ≡ false
  unfolding clip stall_message rune_len
  message_is_text after cur known = refl

  -- Where nothing has stalled yet: the call notes since when the uploads have been still, stays silent
  -- exactly while that is less than the limit, and keeps what it says else as the stall. They are
  -- still since now if the disks answer and have moved on from the reading noted before, else since
  -- the time noted before, or since now if none was. A reading that the disks gave is noted, and
  -- only then.
  pub watch_exact :
      (cur : Uploads) (known : Bool) (m : Manager W)
      → is_empty m.stall ≡ true
      → ((at : ℕ) × ((watch host cur known m).1.moved_at ≡ some at)
          × ((is_empty (watch host cur known m).0 ≡ true)
              ↔ ((host.now m.world).0 < at + m.stall_after))
          × ((watch host cur known m).1.stall ≡ (watch host cur known m).0)
          × (((at ≡ (host.now m.world).0) × (known ≡ true) × HasMoved m.mark cur)
              ⊎ (¬ ((known ≡ true) × HasMoved m.mark cur)
                  × ((m.moved_at ≡ some at)
                      ⊎ ((m.moved_at ≡ none) × (at ≡ (host.now m.world).0))))))
        × (((known ≡ true) × ((watch host cur known m).1.mark ≡ some cur))
            ⊎ ((known ≡ false) × ((watch host cur known m).1.mark ≡ m.mark)))
  unfolding watch
  watch_exact cur known m quiet =
      let now = (host.now m.world).0 in
      let m' : Manager W = record m { world = (host.now m.world).1 } in
      let next = follow cur known now m' in
      let young : is_young now next ≡ ltb now (still_since cur known now m + m.stall_after) =
        is_young-follow cur known now m' in
      let text = message_is_text m.stall_after cur known in
      let since = still_since-exact cur known now m in
      let marks = follow-mark cur known now m' in
      elim (Bool-cases (is_young now next)) [
        | inl y ↦
            rw (quiet, y)
              (
                (
                  still_since cur known now m,
                  follow-moved_at cur known now m',
                  (λ e. ltb→lt _ _ (sym young ∙ y), λ h. refl),
                  follow-stall cur known now m' ∙ empty_text _ quiet,
                  since,
                ),
                marks,
              )
        | inr n ↦
            rw (quiet, n)
              (
                (
                  still_since cur known now m,
                  follow-moved_at cur known now m',
                  (λ e. cc (text, e), λ h. cc (lt→ltb _ _ h, young, n)),
                  refl,
                  since,
                ),
                marks,
              )
      ]
