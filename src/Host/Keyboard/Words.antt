-- ===== src/Host/Keyboard/Words.antt =====
-- What a client's text can put on a command line of the desk.
use network_computer.Prelude.{
  ℕ, ◌≡◌, ◌↔◌, refl, ap, ◌∙◌, Bool, true, false, ◌||◌, not, List, [], ◌∷◌, ◌++◌, All, ◌==◌, arith,
  if◌then◌else◌,
}
use network_computer.Prelude.Bytes.{Bytes, codes, has_prefix, contains}
use network_computer.Prelude.Regexp.{Regexp, class, seq, range, between, match_string}
use network_computer.Prelude.Regexp.Language.{Matches, match_string_lem, Over-Matches, Over-between}
use network_computer.Host.Keyboard.{
  Desk, Command, lower, layout_byte, zone_tail, layout_re, tz_re, set_keyboard, set_timezone,
  has_suffix,
}

-- A letter, a digit, or one of _ + - / :
abbrev pub is_word : ℕ → Bool
is_word c =
    range b'A' b'Z' c
    || range b'a' b'z' c
    || range b'0' b'9' c
    || c == b'_'
    || c == b'+'
    || c == b'-'
    || c == b'/'
    || c == b':'

-- A text that begins with a letter and has only such bytes.
abbrev pub IsWord : Bytes → Type 0
IsWord s =
    ((c : ℕ) × (u : Bytes) × (s ≡ c ∷ u) × ((range b'A' b'Z' c || range b'a' b'z' c) ≡ true))
    × All (λ c. is_word c ≡ true) s

letter_first :
    (k : ℕ → Bool) (r : Regexp) (s : Bytes)
    → Matches (seq (class k) r) s
    → (c : ℕ) × (u : Bytes) × (s ≡ c ∷ u) × (k c ≡ true)
letter_first k r s (t, u, e, (c, h, e1), q) = (c, u, e ∙ ap (◌++ u) e1, h)

upper_or_lower :
    (c : ℕ) → range b'a' b'z' c ≡ true → (range b'A' b'Z' c || range b'a' b'z' c) ≡ true
upper_or_lower c h = ground arith

lower_over : (c : ℕ) → range b'a' b'z' c ≡ true → is_word c ≡ true
lower_over c h = ground arith

layout_over :
    (c : ℕ)
    → (range b'a' b'z' c || range b'0' b'9' c || c == b'_' || c == b'-') ≡ true
    → is_word c ≡ true
layout_over c h = ground arith

colon_over : (c : ℕ) → (c == b':') ≡ true → is_word c ≡ true
colon_over c h = ground arith

layout_first :
    (s : Bytes)
    → Matches layout_re s
    → (c : ℕ) × (u : Bytes) × (s ≡ c ∷ u) × ((range b'A' b'Z' c || range b'a' b'z' c) ≡ true)
layout_first s (t, u, e, p, q) =
    let (c, v, e1, k) = letter_first (range b'a' b'z') (between 1 2 lower) t p in
    (c, v ++ u, e ∙ ap (◌++ u) e1, upper_or_lower c k)

layout-IsWord : (s : Bytes) → Matches layout_re s → IsWord s
layout-IsWord s h =
    let P = λ (c : ℕ). is_word c ≡ true in
    (
      layout_first s h,
      Over-Matches P layout_re s
          (
            Over-between P 2 3 lower lower_over,
            (tt, (colon_over, Over-between P 1 32 layout_byte layout_over)),
          )
          h,
    )

zone_over :
    (c : ℕ)
    → (range b'A' b'Z' c
        || range b'a' b'z' c
        || range b'0' b'9' c
        || c == b'_'
        || c == b'+'
        || c == b'-')
      ≡ true
    → is_word c ≡ true
zone_over c h = ground arith

letter_over : (c : ℕ) → (range b'A' b'Z' c || range b'a' b'z' c) ≡ true → is_word c ≡ true
letter_over c h = ground arith

slash_over : (c : ℕ) → (c == b'/') ≡ true → is_word c ≡ true
slash_over c h = ground arith

tz-IsWord : (s : Bytes) → Matches tz_re s → IsWord s
tz-IsWord s h = (
  letter_first (λ c. range b'A' b'Z' c || range b'a' b'z' c) zone_tail s h,
  Over-Matches (λ c. is_word c ≡ true) tz_re s
      (
        letter_over,
        (
          zone_over,
          (
            tt,
            (
              (slash_over, (zone_over, zone_over)),
              (tt, ((slash_over, (zone_over, zone_over)), tt)),
            ),
          ),
        ),
      )
      h,
)

word_dots : (s : Bytes) → All (λ c. is_word c ≡ true) s → contains s (codes "..") ≡ false
unfolding contains has_prefix
word_dots [] h = refl
word_dots (c ∷ s) (h, hs) = ground (arith, word_dots s hs)

-- No text that the zone's pattern describes has a dot.
no_dots : (s : Bytes) → Matches tz_re s → contains s (codes "..") ≡ false
no_dots s h = word_dots s (tz-IsWord s h).1

layout_runs :
    (linux fits : Bool) (c : Command)
    → ((if not fits then [] else if not linux then [] else c ∷ []) ≡ c ∷ [])
      ↔ ((linux ≡ true) × (fits ≡ true))
layout_runs true true c = (λ h. (refl, refl), λ h. refl)
layout_runs true false c = (λ h. cc, λ h. cc)
layout_runs false true c = (λ h. cc, λ h. cc)
layout_runs false false c = (λ h. cc, λ h. cc)

abbrev zone_commands : Bool → Bool → Bool → Bool → Bool → List Command → List Command
zone_commands linux fits dots zone now l =
    if not linux || not fits || dots then [] else if not zone then [] else if now then [] else l

zone_ran :
    (linux fits dots zone now : Bool) (c : Command) (l m : List Command)
    → zone_commands linux fits dots zone now l ≡ c ∷ m
    → (linux ≡ true) × (fits ≡ true) × (zone ≡ true) × (now ≡ false)
zone_ran true true false true false c l m h = (refl, refl, refl, refl)
zone_ran true true false true true c l m h = cc
zone_ran true true false false now c l m h = cc
zone_ran true true true zone now c l m h = cc
zone_ran true false dots zone now c l m h = cc
zone_ran false fits dots zone now c l m h = cc

zone_open :
    (linux fits dots zone now : Bool) (l : List Command)
    → linux ≡ true
    → fits ≡ true
    → dots ≡ false
    → zone ≡ true
    → now ≡ false
    → zone_commands linux fits dots zone now l ≡ l
zone_open linux fits dots zone now l a b c d e = ground arith

zone_runs :
    (d : Desk) (s : Bytes)
    → d.linux ≡ true
    → Matches tz_re s
    → d.stat (codes "/usr/share/zoneinfo/" ++ s) ≡ true
    → has_suffix d.localtime (codes "/" ++ s) ≡ false
    → (more : List Command) × (set_timezone d s
        ≡ (codes "timedatectl" ∷ codes "set-timezone" ∷ s ∷ []) ∷ more)
unfolding set_timezone
zone_runs d s l m z n =
    (_, zone_open _ _ _ _ _ _ l ((match_string_lem tz_re s).1 m) (no_dots s m) z n)

-- What a client names is run only as a word that begins with a letter, so never as an option nor as a
-- path that leaves the zones: on Linux nc-keyboard is run, with the text, exactly for the texts of
-- its pattern, and timedatectl exactly for those of its pattern that are a zone and not the one that
-- the desk has; the pattern alone keeps ".." out.
pub client_words :
    (d : Desk) (s : Bytes)
    → ((set_keyboard d s ≡ (codes "nc-keyboard" ∷ s ∷ []) ∷ [])
        ↔ ((d.linux ≡ true) × Matches layout_re s))
      × (((more : List Command) × (set_timezone d s
              ≡ (codes "timedatectl" ∷ codes "set-timezone" ∷ s ∷ []) ∷ more))
          ↔ ((d.linux ≡ true)
              × Matches tz_re s
              × (d.stat (codes "/usr/share/zoneinfo/" ++ s) ≡ true)
              × (has_suffix d.localtime (codes "/" ++ s) ≡ false)))
      × (Matches layout_re s → IsWord s)
      × (Matches tz_re s → IsWord s)
unfolding set_keyboard set_timezone
client_words d s =
    let fits = match_string_lem tz_re s in
    let layout = match_string_lem layout_re s in
    let ran = layout_runs d.linux (match_string layout_re s) (codes "nc-keyboard" ∷ s ∷ []) in
    (
      (λ h. let (l, m) = ran.0 h in (l, layout.0 m), λ (l, m). ran.1 (l, layout.1 m)),
      (
        λ (more, h).
            let (l, m, z, n) =
              zone_ran d.linux (match_string tz_re s) (contains s (codes "..")) _ _ _ _ more h in
            (l, fits.0 m, z, n),
        λ (l, m, z, n). zone_runs d s l m z n,
      ),
      layout-IsWord s,
      tz-IsWord s,
    )
