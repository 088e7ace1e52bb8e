-- ===== src/Rendezvous/Auth/Throttle.antt =====
-- The counting of wrong passwords: how many guesses an address gets, and what the table holds.
use network_computer.Prelude.{
  ℕ, suc, ◌+◌, ◌≤◌, ◌≡◌, ◌&&◌, not, List, [], ◌∷◌, Option, none, some, arith, length, if◌then◌else◌,
  Option-cases, inl, inr,
}
use network_computer.Prelude.Assoc.{lookup, length-insert-le, length-insert_old}
use network_computer.Prelude.Bytes.{Bytes, bytes_key, bytes_eq}
use network_computer.Rendezvous.Auth.{
  Platform, Authority, FailCount, Checked, fails_limit, live_entry, make_room, count_failure,
  failed, check_creds_at,
}

pub record Attempt : Type 0 where
  pub now : ℕ
  pub addr : Bytes
  pub user : Bytes
  pub pass : Bytes

-- The entry that a failure leaves behind.
abbrev bump : ℕ → Option FailCount → FailCount
bump now none = record { n = 1; since = now }
bump now (some f) = record f { n = suc f.n }

pub length-make_room : (fs : List (Bytes × FailCount)) → length (make_room fs) ≤ fails_limit
unfolding make_room
length-make_room fs = ground arith

live_entry-some :
    (now : ℕ) (o : Option FailCount) {f : FailCount} → live_entry now o ≡ some f → o ≡ some f
unfolding live_entry
live_entry-some now none h = cc
live_entry-some now (some g) h = ground arith

-- At most one entry is added.
failed-length :
    (now : ℕ) (addr : Bytes) (a : Authority)
    → (length (failed now addr a).fails ≤ suc (length a.fails))
      × (length a.fails ≤ suc fails_limit → length (failed now addr a).fails ≤ suc fails_limit)
unfolding failed
failed-length now addr a = elim (Option-cases (live_entry now (lookup addr a.fails))) [
  | inl e ↦ rw e (
      unfold count_failure in
      (
        omega (arith, length-insert-le addr first (make_room a.fails), length-make_room-le a.fails),
        λ _.
            omega
              (arith, length-insert-le addr first (make_room a.fails), length-make_room a.fails),
      ))
  | inr (f, e) ↦ rw e (
      unfold count_failure in
      (
        omega (
          arith,
          length-insert_old addr (record f { n = suc f.n }) f a.fails
              (live_entry-some now (lookup addr a.fails) e),
        ),
        λ h. omega (
          arith,
          length-insert_old addr (record f { n = suc f.n }) f a.fails
              (live_entry-some now (lookup addr a.fails) e),
        ),
      ))
]
  where
    first : FailCount
    first = record { n = 1; since = now }

    length-make_room-le : (fs : List (Bytes × FailCount)) → length (make_room fs) ≤ length fs
    length-make_room-le fs = ground arith

module _ (os : Platform) where
  unfoldable pub attempt : Authority → Attempt → Checked
  attempt a x = check_creds_at os x.now x.addr a x.user x.pass

  -- The authority after a run of attempts.
  unfoldable pub attempts : Authority → List Attempt → Authority
  attempts a [] = a
  attempts a (x ∷ xs) = attempts (attempt a x).state xs

  -- How many passwords from one address were compared, and found wrong, in a run of attempts.
  unfoldable pub wrong_guesses : Bytes → Authority → List Attempt → ℕ
  wrong_guesses v a [] = 0
  wrong_guesses v a (x ∷ xs) =
      let r = attempt a x in
      (if bytes_eq x.addr v && (not r.limited && not r.ok) then 1 else 0)
      + wrong_guesses v r.state xs

  attempt-length :
      (a : Authority) (x : Attempt)
      → (length (attempt a x).state.fails ≤ suc (length a.fails))
        × (length a.fails ≤ suc fails_limit → length (attempt a x).state.fails ≤ suc fails_limit)
  unfolding attempt check_creds_at
  attempt-length a x = ground (arith, failed-length x.now x.addr a)

  -- The table of failures never holds more than 10001 addresses, whoever tries whatever and when.
  pub fails_bounded :
      (a : Authority) (xs : List Attempt)
      → length a.fails ≤ suc fails_limit
      → length (attempts a xs).fails ≤ suc fails_limit
  unfolding attempts
  fails_bounded a [] h = h
  fails_bounded a (x ∷ xs) h = fails_bounded (attempt a x).state xs ((attempt-length a x).1 h)

  -- A failure count that is not older than `t0`, and its number.
  abbrev Since : ℕ → Option FailCount → Type 0
  Since t0 none = Unit {0}
  Since t0 (some f) = t0 ≤ f.since

  abbrev tally : Option FailCount → ℕ
  tally none = 0
  tally (some f) = f.n
