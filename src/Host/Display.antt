-- ===== src/Host/Display.antt =====
-- cmd/nc-host/display.go: the size of the screen. A scale is of a type S, with what `normalize` makes
-- of it and with its equality as arguments, since it is a float; `set` tells whether nc-display
-- succeeds (it is not run, and counts as a success, on other systems than Linux).
use network_computer.Prelude.{
  ℕ, ◌*◌, ◌/◌, ◌%◌, ◌≤◌, ◌≡◌, Bool, true, false, ◌&&◌, arith, ltb, ◌==◌, ==_iff, if◌then◌else◌,
}
use network_computer.Prelude.Decimal.{ℤ, pos, negsuc}

abbrev pub min_w : ℕ
min_w = 640

abbrev pub min_h : ℕ
min_h = 360

abbrev pub max_w : ℕ
max_w = 2560

abbrev pub max_h : ℕ
max_h = 1600

unfoldable pub clamp : ℤ → ℕ → ℕ → ℕ
clamp (pos v) lo hi = if ltb v lo then lo else if ltb hi v then hi else v
clamp (negsuc v) lo hi = lo

module _ (S : Type 0) where
  pub record DisplayReq : Type 0 where
    pub w : ℕ
    pub h : ℕ
    pub s : S

module _ {S : Type 0} (scale : S → S) (same : S → S → Bool) where
  unfoldable pub normalize : ℤ → ℤ → S → DisplayReq S
  unfolding clamp
  normalize w h s = record {
    w = clamp w min_w max_w / 8 * 8;
    h = clamp h min_h max_h / 2 * 2;
    s = scale s;
  }

  abbrev pub req_eq : DisplayReq S → DisplayReq S → Bool
  req_eq a b = a.w == b.w && (a.h == b.h && same a.s b.s)

  -- The last request after `apply`, and whether it changed the screen.
  unfoldable pub apply_req : Bool → DisplayReq S → DisplayReq S → DisplayReq S × Bool
  apply_req set req last =
      if req_eq req last then (last, false) else if set then (req, true) else (last, false)

  -- Whatever size a client asks for, the width is from 640 to 2560 and a multiple of 8 and the
  -- height from 360 to 1600 and even; and asking for the size that came out gives it again, if a
  -- scale that has been normalised stays as it is.
  pub normalize_bounds :
      (w h : ℤ) (s : S)
      → scale (scale s) ≡ scale s
      → let r = normalize w h s in
        ((min_w ≤ r.w) × (r.w ≤ max_w) × (r.w % 8 ≡ 0))
        × ((min_h ≤ r.h) × (r.h ≤ max_h) × (r.h % 2 ≡ 0))
        × (normalize (pos r.w) (pos r.h) r.s ≡ r)
  unfolding normalize clamp
  normalize_bounds (pos w) (pos h) s e = (ground arith, ground arith, ground arith)
  normalize_bounds (pos w) (negsuc h) s e = (ground arith, ground arith, ground arith)
  normalize_bounds (negsuc w) (pos h) s e = (ground arith, ground arith, ground arith)
  normalize_bounds (negsuc w) (negsuc h) s e = (ground arith, ground arith, ground arith)

  -- A request that has been applied is not applied again; after one that was not, asking again does
  -- what it would have done in the first place; and `changed` is true exactly for a request that
  -- differs from the last one and succeeds. A scale must be equal to itself.
  pub apply_once :
      (set again : Bool) (req last : DisplayReq S)
      → same req.s req.s ≡ true
      → let (last', changed) = apply_req set req last in
        (apply_req again req last' ≡ (if changed then (last', false) else apply_req again req last))
        × (changed ≡ (set && (if req_eq req last then false else true)))
  unfolding apply_req
  apply_once set again req last e = ground (arith, ==_iff req.w req.w, ==_iff req.h req.h)
