-- ===== src/Host/Capture/Nals/Rounds.antt =====
-- The rounds of the inner loop: what a scan finds, and what it leaves behind.
use network_computer.Prelude.{
  ℕ, zero, suc, ◌+◌, ◌-◌, ◌^◌, ◌≤◌, ◌<◌, ◌≡◌, refl, sym, ap, ◌∙◌, Bool, true, false, List, [], ◌++◌,
  Option, none, some, length, get_or, take, drop, ltb, ◌==◌, if◌then◌else◌, arith, Option-cases,
  Bool-cases, inl, inr, append_assoc, length-drop, drop-append_le, take-append_le,
}
use network_computer.Prelude.Bytes.{Bytes}
use network_computer.Host.Capture.Nals.{
  index_code, Scan, from, slice, unit_end, found, restart_at, scan,
}
use network_computer.Host.Capture.Nals.Code.{
  trim, closed, units, units-at_code, index_code-IsFound, index_code-append, drop-drop, get_or-drop,
  trim-take,
}

-- A scan looks at the bytes since the last start code, which ends in 1.
abbrev pub pending : Scan → Bytes
pending s = drop (from s.start) s.buf

abbrev pub is_started : Scan → Bool
is_started s = elim s.start [ none ↦ false | some _ ↦ true ]

pub record IsOk (s : Scan) : Type 0 where
  pub bound : from s.start ≤ length s.buf
  pub after_one : (j : ℕ) → suc j ≡ from s.start → get_or s.buf j 1 ≡ 1

restart_at-pending : (st : ℕ) (buf : Bytes) → pending (restart_at st buf) ≡ drop st buf
unfolding restart_at
restart_at-pending st buf = ground arith

restart_at-started : (st : ℕ) (buf : Bytes) → is_started (restart_at st buf) ≡ true
unfolding restart_at
restart_at-started st buf = ground arith

restart_at-IsOk :
    (st : ℕ) (buf : Bytes)
    → st ≤ length buf
    → ((j : ℕ) → suc j ≡ st → get_or buf j 1 ≡ 1)
    → IsOk (restart_at st buf)
unfolding restart_at
restart_at-IsOk st buf h one = elim (Bool-cases (ltb (2 ^ 20) st)) [
  | inl e ↦
      rw (e, restart_at)
        (record { bound = omega arith; after_one = λ j e. absurd (omega (arith, e)) })
  | inr e ↦ rw (e, restart_at) (record { bound = h; after_one = one })
]

slice-take :
    (n st k : ℕ) (buf : Bytes)
    → k ≡ n + st
    → n + st ≤ length buf
    → slice st k buf ≡ some (take n (drop st buf))
unfolding slice
slice-take n st k buf same h =
    let e : k - st ≡ n = omega (arith, same) in
    ground (arith, same, ap (λ k. take k (drop st buf)) e)

unit_end-suc :
    (k n : ℕ) (buf : Bytes)
    → k ≡ suc n
    → unit_end k buf ≡ (if get_or buf n 1 == 0 then n else suc n)
unit_end-suc k n buf e = rw e refl

slice-trim :
    (i st : ℕ) (buf : Bytes)
    → ((j : ℕ) → suc j ≡ st → get_or buf j 1 ≡ 1)
    → i + st ≤ length buf
    → slice st (unit_end (i + st) buf) buf ≡ some (trim (take i (drop st buf)))
unfolding trim
slice-trim zero zero buf one h = slice-take 0 0 0 buf (omega arith) h
slice-trim zero (suc st) buf one h =
    rw (unit_end-suc (0 + suc st) st buf (omega arith), one st refl)
      (slice-take 0 (suc st) (suc st) buf (omega arith) h)
slice-trim (suc i) st buf one h =
    rw
      (
        unit_end-suc (suc i + st) (i + st) buf (omega arith),
        trim-take i (drop st buf) inside,
        get_or-drop i st buf,
      )
      (elim (Bool-cases (get_or buf (i + st) 1 == 0)) [
        | inl e ↦ rw e (slice-take i st (i + st) buf refl (omega (arith, h)))
        | inr e ↦ rw e (slice-take (suc i) st (suc (i + st)) buf (omega arith) h)
      ])
  where
    inside : suc i ≤ length (drop st buf)
    inside = omega (arith, length-drop st buf, h)

found_lem :
    (s : Scan) (i : ℕ)
    → IsOk s
    → i + from s.start ≤ length s.buf
    → found s.start (i + from s.start) s.buf ≡ some (closed (is_started s) (take i (pending s)))
unfolding found
found_lem s i ok h = go s.start refl
  where
    go :
        (st : Option ℕ)
        → s.start ≡ st
        → found st (i + from st) s.buf
          ≡ some (closed (elim st [ none ↦ false | some _ ↦ true ]) (take i (drop (from st) s.buf)))
    go none e = refl
    go (some st) e = ground (arith, slice-trim i st s.buf)

-- What a scan leaves behind, and what it has found.
pub record IsScanned (s : Scan) (r : Option (Scan × List Bytes)) : Type 0 where
  pub next : Scan
  pub nals : List Bytes
  pub result : r ≡ some (next, nals)
  pub ok : IsOk next
  pub no_code : index_code (pending next) ≡ none
  pub same :
      (more : Bytes)
      → units (is_started s) [] (pending s ++ more)
        ≡ nals ++ units (is_started next) [] (pending next ++ more)

module _ (s : Scan) (i : ℕ) (ok : IsOk s) (at_i : index_code (pending s) ≡ some i) where
  abbrev after : Scan
  after = restart_at (i + from s.start + 3) s.buf

  in_pending : suc (suc (suc i)) + from s.start ≤ length s.buf
  in_pending = omega (
    arith,
    (index_code-IsFound (pending s) i at_i).bound,
    length-drop (from s.start) s.buf,
    ok.bound,
  )

  after-pending : pending after ≡ drop (suc (suc (suc i))) (pending s)
  after-pending =
      restart_at-pending _ s.buf
      ∙ ap (λ n. drop n s.buf) (omega arith)
      ∙ drop-drop (suc (suc (suc i))) (from s.start) s.buf

  after-IsOk : IsOk after
  after-IsOk = restart_at-IsOk _ s.buf (omega (arith, in_pending)) (λ j e.
      ap (λ n. get_or s.buf n 1) (omega (arith, e))
      ∙ sym (get_or-drop (suc (suc i)) (from s.start) s.buf)
      ∙ (index_code-IsFound (pending s) i at_i).ends_in_one)

  after-units :
      (more : Bytes)
      → units (is_started s) [] (pending s ++ more)
        ≡ closed (is_started s) (take i (pending s))
          ++ units (is_started after) [] (pending after ++ more)
  after-units more =
      let bound = (index_code-IsFound (pending s) i at_i).bound in
      units-at_code (is_started s) [] (pending s ++ more)
      ∙ rw
          (
            index_code-append (pending s) more i at_i,
            take-append_le i (pending s) more (omega (arith, bound)),
            drop-append_le (suc (suc (suc i))) (pending s) more bound,
            after-pending,
            restart_at-started (i + from s.start + 3) s.buf,
          )
          refl

  after-shorter : (rounds : ℕ) → length (pending s) < suc rounds → length (pending after) < rounds
  after-shorter rounds enough = omega (
    arith,
    ap length after-pending,
    length-drop (suc (suc (suc i))) (pending s),
    (index_code-IsFound (pending s) i at_i).bound,
    enough,
  )

  with_first :
      (rest : Option (Scan × List Bytes))
      → IsScanned after rest
      → IsScanned s (elim rest [
        | none ↦ none
        | some (s', more) ↦ some (s', closed (is_started s) (take i (pending s)) ++ more)
      ])
  with_first rest r =
      let first = closed (is_started s) (take i (pending s)) in
      rw r.result (record {
        next = r.next;
        nals = first ++ r.nals;
        result = refl;
        ok = r.ok;
        no_code = r.no_code;
        same = λ more.
            after-units more
            ∙ ap (◌++◌ first) (r.same more)
            ∙ sym
                (append_assoc first r.nals (units (is_started r.next) [] (pending r.next ++ more)));
      })

pub scan-IsScanned :
    (rounds : ℕ) (s : Scan) → IsOk s → length (pending s) < rounds → IsScanned s (scan rounds s)
unfolding scan
scan-IsScanned zero s ok enough = absurd (omega (arith, enough))
scan-IsScanned (suc rounds) s ok enough = elim (Option-cases (index_code (pending s))) [
  | inl none_ ↦
      rw (none_, scan)
        (record {
          next = s;
          nals = [];
          result = refl;
          ok = ok;
          no_code = none_;
          same = λ more. refl;
        })
  | inr (i, at_i) ↦
      let next : Scan = after s i ok at_i in
      rw (at_i, scan, found_lem s i ok (omega (arith, in_pending s i ok at_i)))
        (with_first s i ok at_i (scan rounds next) (
          scan-IsScanned rounds next (after-IsOk s i ok at_i)
            (after-shorter s i ok at_i rounds enough)))
]
