-- ===== src/Host/Camera/Newest.antt =====
-- Only the newest camera has the webcam.
use network_computer.Prelude.{
  ℕ, suc, ◌≡◌, sym, ap, ◌∙◌, true, false, not, ◌||◌, some, ◌==◌, ==_iff, if◌then◌else◌, arith,
  Bool-cases, subst, inl, inr,
}
use network_computer.Host.Camera.{
  ready, running, leaving, refusing, ignoring, draining, Cam, new_cam, cancel_run, context_done,
  take, release, set_stage, preempted, Step, refuses, stops, releases, drains, Steps, here, then_,
}
use network_computer.Host.Camera.Owned.{
  stretch, run_of, IsOwned, Steps-IsOwned, new-IsOwned, old_cancelled,
}

-- In whatever order the tracks' frames come, stop and start again and their sessions close: the context
-- of a stretch that runs is done exactly if the stretch is not the newest or the session of its track
-- has closed, and no two tracks run the same stretch; so at most one track goes on writing to the
-- webcam.
pub newest_writes :
    (d : Cam) (t u id j : ℕ)
    → Steps new_cam d
    → d.stages t ≡ running id
    → d.stages u ≡ running j
    → (context_done t id d ≡ (not (id == d.id) || d.closed t)) × (id ≡ j → t ≡ u)
newest_writes d t u id j steps e f =
    let o : IsOwned d = Steps-IsOwned new_cam d steps new-IsOwned in
    (
      ap (λ b. b || d.closed t) (o.live t id (ap run_of e)),
      λ same. o.apart t u id (ap stretch e) (ap stretch f ∙ ap some (sym same)),
    )

-- The camera that refuses, the one that had the webcam, and what is left when both are done.
module _ (c : Cam) (t u : ℕ) where
  abbrev refused : Cam
  refused = set_stage u (refusing (suc c.id)) (take c)

  abbrev stopped : Cam
  stopped = set_stage t (leaving c.id (preempted true c.id refused)) (cancel_run c.id refused)

  abbrev pub taken_over : Cam
  taken_over =
      set_stage u draining (release (suc c.id) (set_stage t ignoring (release c.id stopped)))

  other_track : c.stages t ≡ running c.id → c.stages u ≡ ready → (t == u) ≡ false
  other_track e f = elim (Bool-cases (t == u)) [
    | inl same ↦ absurd (ground (arith, ap stretch e, ap stretch f, same, ==_iff t u))
    | inr other ↦ other
  ]

  lost_camera : preempted true c.id refused ≡ true
  unfolding preempted take
  lost_camera = ground arith

  still_runs : c.stages t ≡ running c.id → c.stages u ≡ ready → refused.stages t ≡ running c.id
  unfolding take
  still_runs e f = rw (other_track e f) e

  leaves : stopped.stages t ≡ leaving c.id (preempted true c.id refused)
  leaves = ground arith

  still_refusing :
      c.stages t ≡ running c.id
      → c.stages u ≡ ready
      → (set_stage t ignoring (release c.id stopped)).stages u ≡ refusing (suc c.id)
  unfolding release
  still_refusing e f = ground (arith, other_track e f, ==_iff t u, ==_iff u t)

  all_cancelled :
      Steps new_cam c
      → (v id : ℕ) → run_of (taken_over.stages v) ≡ some id
      → taken_over.cancelled id ≡ true
  unfolding release take
  all_cancelled steps v id g =
      let o : IsOwned c = Steps-IsOwned new_cam c steps new-IsOwned in
      ground (arith, g, old_cancelled c o v id)

  -- A camera whose codec is not supported takes the webcam from the one that has it before it is
  -- refused: that one's frames are then ignored, and every stretch that still runs is cancelled.
  pub unsupported_takes :
      Steps new_cam c
      → c.stages t ≡ running c.id
      → c.stages u ≡ ready
      → Steps c taken_over
        × ((v id : ℕ) → taken_over.stages v ≡ running id → taken_over.cancelled id ≡ true)
  unsupported_takes steps e f = (
    then_
        (then_ (then_ (then_ here (refuses u f)) (stops t c.id true (still_runs e f))) (
          subst
            (λ b. Step stopped (set_stage t (if b then ignoring else ready) (release c.id stopped)))
            lost_camera (releases t c.id (preempted true c.id refused) leaves)))
        (drains u (suc c.id) (still_refusing e f)),
    λ v id g. all_cancelled steps v id (ap run_of g),
  )
