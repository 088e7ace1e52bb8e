-- ===== src/Host/Camera/Owned.antt =====
-- The stretches and the owner of the webcam, over any steps.
use network_computer.Prelude.{
  ℕ, suc, ◌≡◌, ◌≢◌, ◌≤◌, ◌<◌, refl, ap, ◌∙◌, Bool, true, false, not, Option, none, some, ◌==◌,
  ==_iff, if◌then◌else◌, arith, Option-cases, inl, inr,
}
use network_computer.Host.Camera.{
  Stage, ready, running, leaving, refusing, ignoring, draining, ended, Cam, new_cam, cancel_run,
  cancel_old, take, release, set_stage, preempted, Step, closes, starts, refuses, fails, stops,
  releases, drains, idles, ends, ends_ignored, ends_drained, Steps, here, then_,
}

-- The stretch of a track that is not yet released.
abbrev pub stretch : Stage → Option ℕ
stretch ready = none
stretch (running id) = some id
stretch (leaving id taken) = some id
stretch (refusing id) = some id
stretch ignoring = none
stretch draining = none
stretch ended = none

-- The stretch that runs.
abbrev pub run_of : Stage → Option ℕ
run_of (running id) = some id
run_of ready = none
run_of (leaving id taken) = none
run_of (refusing id) = none
run_of ignoring = none
run_of draining = none
run_of ended = none

run_of-stretch : (s : Stage) (id : ℕ) → run_of s ≡ some id → stretch s ≡ some id
run_of-stretch (running id) j e = e
run_of-stretch ready j e = absurd (ground (arith, e))
run_of-stretch (leaving id taken) j e = absurd (ground (arith, e))
run_of-stretch (refusing id) j e = absurd (ground (arith, e))
run_of-stretch ignoring j e = absurd (ground (arith, e))
run_of-stretch draining j e = absurd (ground (arith, e))
run_of-stretch ended j e = absurd (ground (arith, e))

pub record IsOwned (c : Cam) : Type 0 where
  pub bounded : (t id : ℕ) → stretch (c.stages t) ≡ some id → id ≤ c.id
  pub apart : (t u id : ℕ) → stretch (c.stages t) ≡ some id → stretch (c.stages u) ≡ some id → t ≡ u
  pub live : (t id : ℕ) → run_of (c.stages t) ≡ some id → c.cancelled id ≡ not (id == c.id)
  pub kept : (t : ℕ) → run_of (c.stages t) ≡ some c.id → c.cancel ≡ some c.id
  pub owner : (j : ℕ) → c.cancel ≡ some j → j ≡ c.id
  pub unused : (j : ℕ) → c.id < j → c.cancelled j ≡ false

module _ (c : Cam) (o : IsOwned c) where
  -- A track goes on with no stretch of its own that runs.
  rest-IsOwned :
      (t : ℕ) (s : Stage)
      → run_of s ≡ none
      → ((id : ℕ) → stretch s ≡ some id → stretch (c.stages t) ≡ some id)
      → IsOwned (set_stage t s c)
  rest-IsOwned t s quiet same = record {
    bounded = λ u id e. ground (arith, e, o.bounded u id, o.bounded t id, same id);
    apart = λ u v id e f. ground (
      arith,
      e,
      f,
      ==_iff u t,
      ==_iff v t,
      o.apart u v id,
      o.apart t v id,
      o.apart u t id,
      same id,
    );
    live = λ u id e. ground (arith, e, quiet, o.live u id);
    kept = λ u e. ground (arith, e, quiet, o.kept u);
    owner = o.owner;
    unused = o.unused;
  }

  -- A stretch that no track runs is cancelled, or released.
  module _ (id : ℕ) (gone : (u : ℕ) → run_of (c.stages u) ≢ some id) (old : id ≤ c.id) where
    cancel_run-IsOwned : IsOwned (cancel_run id c)
    cancel_run-IsOwned = record {
      bounded = o.bounded;
      apart = o.apart;
      live = λ u j e. ground (arith, e, o.live u j, gone u, ==_iff j id);
      kept = o.kept;
      owner = o.owner;
      unused = λ j h. ground (arith, h, old, o.unused j);
    }

    release-IsOwned : IsOwned (release id c)
    unfolding release
    release-IsOwned = record {
      bounded = o.bounded;
      apart = o.apart;
      live = o.live;
      kept = λ u e. ground (arith, e, o.kept u, gone u, ==_iff c.id id);
      owner = λ j e. ground (arith, e, o.owner j);
      unused = o.unused;
    }

  -- A stretch of before, when the camera is taken.
  pub old_cancelled :
      (u id : ℕ) → run_of (c.stages u) ≡ some id → cancel_old c.cancel c.cancelled id ≡ true
  old_cancelled u id e = elim (Option-cases c.cancel) [
    | inl none_ ↦ rw (none_) (ground (arith, e, none_, o.live u id, o.kept u, ==_iff id c.id))
    | inr (j, some_) ↦
        rw (some_) (ground (arith, e, some_, o.live u id, o.owner j, ==_iff id c.id, ==_iff id j))
  ]

  still_unused : (j : ℕ) → c.id < j → cancel_old c.cancel c.cancelled j ≡ false
  still_unused j h = elim (Option-cases c.cancel) [
    | inl none_ ↦ rw (none_) (o.unused j h)
    | inr (k, some_) ↦ rw (some_) (ground (arith, h, some_, o.owner k, o.unused j))
  ]

  -- A track takes the camera.
  take-IsOwned :
      (t : ℕ) (s : Stage)
      → stretch s ≡ some (suc c.id)
      → stretch (c.stages t) ≡ none
      → IsOwned (set_stage t s (take c))
  unfolding take
  take-IsOwned t s new free = record {
    bounded = λ u id e. ground (arith, e, new, o.bounded u id);
    apart = λ u v id e f.
        ground (
          arith,
          e,
          f,
          new,
          ==_iff u t,
          ==_iff v t,
          o.apart u v id,
          o.bounded u id,
          o.bounded v id,
        );
    live = λ u id e. ground (
      arith,
      e,
      new,
      run_of-stretch s id,
      run_of-stretch (c.stages u) id,
      o.bounded u id,
      old_cancelled u id,
      still_unused (suc c.id),
    );
    kept = λ u e. refl;
    owner = λ j e. ground (arith, e);
    unused = λ j h. still_unused j (omega (arith, h));
  }

-- Once a track has stopped its stretch, no track runs it.
gone :
    (c : Cam) (t id : ℕ) (s : Stage)
    → IsOwned c
    → stretch (c.stages t) ≡ some id
    → run_of s ≡ none
    → (u : ℕ) → run_of (if u == t then s else c.stages u) ≢ some id
gone c t id s o e quiet u f =
    ground (arith, e, f, quiet, ==_iff u t, o.apart u t id, run_of-stretch (c.stages u) id)

-- A stretch that stops is cancelled; one that is done with is released.
stopped-IsOwned :
    (c : Cam) (t id : ℕ) (taken : Bool)
    → IsOwned c
    → c.stages t ≡ running id
    → IsOwned (set_stage t (leaving id taken) (cancel_run id c))
stopped-IsOwned c t id taken o e =
    let holds : stretch (c.stages t) ≡ some id = ap stretch e in
    cancel_run-IsOwned (set_stage t (leaving id taken) c)
      (rest-IsOwned c o t (leaving id taken) refl (λ j f. holds ∙ f)) id
      (gone c t id (leaving id taken) o holds refl) (o.bounded t id holds)

released-IsOwned :
    (c : Cam) (t id : ℕ) (s : Stage)
    → IsOwned c
    → stretch (c.stages t) ≡ some id
    → run_of s ≡ none
    → stretch s ≡ none
    → IsOwned (set_stage t s (release id c))
unfolding release
released-IsOwned c t id s o holds quiet free =
    release-IsOwned (set_stage t s c)
      (rest-IsOwned c o t s quiet (λ j f. absurd (ground (arith, f, free)))) id
      (gone c t id s o holds quiet) (o.bounded t id holds)

free-IsOwned :
    (c : Cam) (t : ℕ) (s : Stage)
    → IsOwned c
    → run_of s ≡ none
    → stretch s ≡ none
    → IsOwned (set_stage t s c)
free-IsOwned c t s o quiet free =
    rest-IsOwned c o t s quiet (λ j f. absurd (ground (arith, f, free)))

Step-IsOwned : (c d : Cam) → Step c d → IsOwned c → IsOwned d
Step-IsOwned c _ (closes t) o = record {
  bounded = o.bounded;
  apart = o.apart;
  live = o.live;
  kept = o.kept;
  owner = o.owner;
  unused = o.unused;
}
Step-IsOwned c _ (starts t e) o = take-IsOwned c o t (running (suc c.id)) refl (ap stretch e)
Step-IsOwned c _ (refuses t e) o = take-IsOwned c o t (refusing (suc c.id)) refl (ap stretch e)
Step-IsOwned c _ (fails t id e) o = stopped-IsOwned c t id false o e
Step-IsOwned c _ (stops t id alive e) o = stopped-IsOwned c t id (preempted alive id c) o e
Step-IsOwned c _ (releases t id true e) o =
    released-IsOwned c t id ignoring o (ap stretch e) refl refl
Step-IsOwned c _ (releases t id false e) o =
    released-IsOwned c t id ready o (ap stretch e) refl refl
Step-IsOwned c _ (drains t id e) o = released-IsOwned c t id draining o (ap stretch e) refl refl
Step-IsOwned c _ (idles t e) o = free-IsOwned c t ready o refl refl
Step-IsOwned c _ (ends t e) o = free-IsOwned c t ended o refl refl
Step-IsOwned c _ (ends_ignored t e) o = free-IsOwned c t ended o refl refl
Step-IsOwned c _ (ends_drained t e) o = free-IsOwned c t ended o refl refl

pub Steps-IsOwned : (c d : Cam) → Steps c d → IsOwned c → IsOwned d
Steps-IsOwned c _ here o = o
Steps-IsOwned c e (then_ {d = d} ss s) o = Step-IsOwned d e s (Steps-IsOwned c d ss o)

pub new-IsOwned : IsOwned new_cam
new-IsOwned = record {
  bounded = λ t id e. absurd (ground (arith, e));
  apart = λ t u id e f. absurd (ground (arith, e));
  live = λ t id e. absurd (ground (arith, e));
  kept = λ t e. absurd (ground (arith, e));
  owner = λ j e. absurd (ground (arith, e));
  unused = λ j h. refl;
}
