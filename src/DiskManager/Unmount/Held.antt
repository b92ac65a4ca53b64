-- ===== src/DiskManager/Unmount/Held.antt =====
-- When Unmount of internal/disk/manager.go keeps a disk mounted, and that it does not do so for ever.
use yougpu_agent.Prelude.{
  ℕ, ◌+◌, ◌-◌, ◌≤◌, leb, String, true, false, none, some, ◌≡◌, refl, ap, ◌∙◌, ◌⊎◌, inl, inr,
  Bool-cases, arith, eq_refl,
}
use yougpu_agent.Prelude.Result.{Result, ok}
use yougpu_agent.Uploads.{Uploads, pending}
use yougpu_agent.DiskManager.{Config, Host, Manager}
use yougpu_agent.DiskManager.Rc.{uploads}
use yougpu_agent.DiskManager.Unmount.{unmount_gap, wait_of, asked, is_flushing}

module _ {W : Type 0} (config : Config) (host : Host W) where
  -- Why a disk may be unmounted: it has waited for the limit, or its cache has nothing to upload.
  abbrev pub MayGo : String → Manager W → Type 0
  MayGo id m =
      let (now, w) = host.now m.world in
      (config.flush_limit ≤ now - (asked now (wait_of id m.unmounting)).since)
      ⊎ ((up : Uploads) × ((uploads config host id w).0 ≡ ok up) × (pending up ≡ 0))

  -- The world once the clock was read, and once rclone was asked for the uploads as well.
  abbrev pub timed : Manager W → W
  timed m = (host.now m.world).1

  abbrev pub queried : String → Manager W → W
  queried id m = (uploads config host id (timed m)).1

  -- The manager after Unmount has asked, at `since` first and at `last` most recently, whether the
  -- disk is still flushing. In between anything else may change, but the note of the disk.
  pub data Waits (id : String) : ℕ → ℕ → Manager W → Type 0 where
    first :
        (m : Manager W)
        → wait_of id m.unmounting ≡ none
        → Waits id (host.now m.world).0 (host.now m.world).0 (is_flushing config host id m).1
    again :
        {since last : ℕ} {m : Manager W}
        → Waits id since last m
        → (m' : Manager W) → wait_of id m'.unmounting ≡ wait_of id m.unmounting
        → last ≤ (host.now m'.world).0
        → (host.now m'.world).0 ≤ last + unmount_gap
        → Waits id since (host.now m'.world).0 (is_flushing config host id m').1

  is_flushing-wait_of :
      (id : String) (m : Manager W)
      → wait_of id (is_flushing config host id m).1.unmounting
        ≡ some (asked (host.now m.world).0 (wait_of id m.unmounting))
  unfolding is_flushing
  is_flushing-wait_of id m =
      let now = (host.now m.world).0 in
      elim (Bool-cases
        (leb config.flush_limit (now - (asked now (wait_of id m.unmounting)).since))) [
          | inl late ↦ rw (late, eq_refl id) refl
          | inr early ↦ rw (early, eq_refl id) refl
        ]

  asked_again :
      (since last now : ℕ)
      → now ≤ last + unmount_gap
      → asked now (some (record { since = since; seen = last }))
        ≡ record { since = since; seen = now }
  unfolding asked
  asked_again since last now soon = ground arith

  Waits-wait_of :
      {id : String} {since last : ℕ} {m : Manager W}
      → Waits id since last m
      → wait_of id m.unmounting ≡ some (record { since = since; seen = last })
  unfolding asked
  Waits-wait_of {id} (first m fresh) =
      is_flushing-wait_of id m ∙ ap (λ w. some (asked (host.now m.world).0 w)) fresh
  Waits-wait_of {id} (again {since} {last} {m} before m' same late soon) =
      is_flushing-wait_of id m'
      ∙ ap (λ w. some (asked (host.now m'.world).0 w)) (same ∙ Waits-wait_of before)
      ∙ ap some (asked_again since last (host.now m'.world).0 soon)

  -- A disk that Unmount is asked for again and again, at gaps of at most five minutes, is held no
  -- longer once the limit has passed since the first time, whatever rclone answers.
  pub flush_ends :
      {id : String} {since last : ℕ} {m : Manager W}
      → Waits id since last m
      → (m' : Manager W) → wait_of id m'.unmounting ≡ wait_of id m.unmounting
      → last ≤ (host.now m'.world).0
      → (host.now m'.world).0 ≤ last + unmount_gap
      → since + config.flush_limit ≤ (host.now m'.world).0
      → (is_flushing config host id m').0 ≡ false
  unfolding is_flushing
  flush_ends {id} {since} {last} waits m' same late soon over =
      rw
        (
          same ∙ Waits-wait_of waits,
          asked_again since last (host.now m'.world).0 soon,
          limit_passed,
        )
        refl
    where
      limit_passed : leb config.flush_limit ((host.now m'.world).0 - since) ≡ true
      limit_passed = ground arith
