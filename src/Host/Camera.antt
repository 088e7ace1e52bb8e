-- ===== src/Host/Camera.antt =====
-- cmd/nc-host/camera.go: which client's camera has the webcam. A track is a number, and so is each
-- stretch of frames: the number that `take` gives it, which also stands for its context. What the
-- tracks' goroutines do, one section under the mutex at a time and in any order, is the relation Step.
pub mod Newest
pub mod Owned
use network_computer.Prelude.{
  ℕ, suc, ◌≡◌, Bool, true, false, not, ◌&&◌, ◌||◌, Option, none, some, ◌==◌, if◌then◌else◌,
}

-- Where playCamera and cameraRun have come to for a track: it waits for a frame, a stretch runs, it
-- has stopped and is to be released (taken over by another camera, or not), its codec is not
-- supported, its frames are ignored, or read and dropped, or it has ended.
pub data Stage : Type 0 where
  ready : Stage
  running : ℕ → Stage
  leaving : ℕ → Bool → Stage
  refusing : ℕ → Stage
  ignoring : Stage
  draining : Stage
  ended : Stage

-- camOwner, the stretches whose own cancel has been called, and the tracks whose session has closed.
pub record Cam : Type 0 where
  pub id : ℕ
  pub cancel : Option ℕ
  pub cancelled : ℕ → Bool
  pub closed : ℕ → Bool
  pub stages : ℕ → Stage

abbrev pub new_cam : Cam
new_cam = record {
  id = 0;
  cancel = none;
  cancelled = λ _. false;
  closed = λ _. false;
  stages = λ _. ready;
}

-- Whether the context of a track's stretch is done: it derives from that of the track's session.
abbrev pub context_done : ℕ → ℕ → Cam → Bool
context_done t id c = c.cancelled id || c.closed t

-- The session of a track closes: its context is cancelled.
abbrev pub session_closes : ℕ → Cam → Cam
session_closes t c = record c { closed = λ u. u == t || c.closed u }

abbrev pub cancel_run : ℕ → Cam → Cam
cancel_run j c = record c { cancelled = λ k. k == j || c.cancelled k }

-- `if c.cancel != nil { c.cancel() }`
abbrev pub cancel_old : Option ℕ → (ℕ → Bool) → ℕ → Bool
cancel_old none cancelled = cancelled
cancel_old (some j) cancelled = λ k. k == j || cancelled k

unfoldable pub take : Cam → Cam
take c = record c {
  id = suc c.id;
  cancel = some (suc c.id);
  cancelled = cancel_old c.cancel c.cancelled;
}

unfoldable pub release : ℕ → Cam → Cam
release id c = record c { cancel = if c.id == id then none else c.cancel }

abbrev pub set_stage : ℕ → Stage → Cam → Cam
set_stage t s c = record c { stages = λ u. if u == t then s else c.stages u }

-- Whether cameraRun returns errPreempted, with the session still there or not.
unfoldable pub preempted : Bool → ℕ → Cam → Bool
preempted alive id c = alive && not (c.id == id)

pub data Step : Cam → Cam → Type 0 where
  closes : {c : Cam} (t : ℕ) → Step c (session_closes t c)
  starts :
      {c : Cam} (t : ℕ) → c.stages t ≡ ready → Step c (set_stage t (running (suc c.id)) (take c))
  refuses :
      {c : Cam} (t : ℕ) → c.stages t ≡ ready → Step c (set_stage t (refusing (suc c.id)) (take c))
  fails :
      {c : Cam} (t id : ℕ)
      → c.stages t ≡ running id
      → Step c (set_stage t (leaving id false) (cancel_run id c))
  stops :
      {c : Cam} (t id : ℕ) (alive : Bool)
      → c.stages t ≡ running id
      → Step c (set_stage t (leaving id (preempted alive id c)) (cancel_run id c))
  releases :
      {c : Cam} (t id : ℕ) (taken : Bool)
      → c.stages t ≡ leaving id taken
      → Step c (set_stage t (if taken then ignoring else ready) (release id c))
  drains :
      {c : Cam} (t id : ℕ) → c.stages t ≡ refusing id → Step c (set_stage t draining (release id c))
  idles : {c : Cam} (t : ℕ) → c.stages t ≡ ignoring → Step c (set_stage t ready c)
  ends : {c : Cam} (t : ℕ) → c.stages t ≡ ready → Step c (set_stage t ended c)
  ends_ignored : {c : Cam} (t : ℕ) → c.stages t ≡ ignoring → Step c (set_stage t ended c)
  ends_drained : {c : Cam} (t : ℕ) → c.stages t ≡ draining → Step c (set_stage t ended c)

-- Any number of steps.
pub data Steps : Cam → Cam → Type 0 where
  here : {c : Cam} → Steps c c
  then_ : {c d e : Cam} → Steps c d → Step d e → Steps c e
