-- ===== src/Host/Keyboard.antt =====
-- cmd/nc-host/keyboard.go: what a client may set of the desk: its keyboard's layout and its time zone.
-- A command is its words; what the system has is the record Desk.
pub mod Words
use network_computer.Prelude.{
  Bool, true, false, ◌||◌, ◌&&◌, not, List, [], ◌∷◌, ◌++◌, ◌==◌, length, drop, ◌-◌, if◌then◌else◌,
}
use network_computer.Prelude.Bytes.{Bytes, bytes_eq, codes, contains}
use network_computer.Prelude.Regexp.{
  Regexp, class, byte, seq, alt, star, plus, opt, at_most, between, range, match_string,
}

abbrev pub Command : Type 0
Command = List Bytes

pub record Desk : Type 0 where
  pub linux : Bool  -- runtime.GOOS
  pub stat : Bytes → Bool  -- os.Stat succeeds
  pub localtime : Bytes  -- os.Readlink of /etc/localtime, empty when it fails
  pub set_ok : Bool  -- timedatectl succeeds
  pub hook : Bytes  -- where exec.LookPath finds nc-input-hook, empty when it does not

abbrev pub layout_byte : Regexp
layout_byte = class (λ c. range b'a' b'z' c || range b'0' b'9' c || c == b'_' || c == b'-')

abbrev pub lower : Regexp
lower = class (range b'a' b'z')

-- ^[a-z]{2,3}(:[a-z0-9_-]{1,32})?$
abbrev pub layout_re : Regexp
layout_re = seq (between 2 3 lower) (opt (seq (byte b':') (between 1 32 layout_byte)))

-- The commands that setKeyboard runs.
unfoldable pub set_keyboard : Desk → Bytes → List Command
set_keyboard d layout =
    if not (match_string layout_re layout)
    then []
    else if not d.linux
    then []
    else (codes "nc-keyboard" ∷ layout ∷ []) ∷ []

abbrev pub letter : Regexp
letter = class (λ c. range b'A' b'Z' c || range b'a' b'z' c)

abbrev pub zone_byte : Regexp
zone_byte = class (λ c.
    range b'A' b'Z' c
    || range b'a' b'z' c
    || range b'0' b'9' c
    || c == b'_'
    || c == b'+'
    || c == b'-')

abbrev pub zone_tail : Regexp
zone_tail = seq (star zone_byte) (at_most 2 (seq (byte b'/') (plus zone_byte)))

-- ^[A-Za-z][A-Za-z0-9_+-]*(/[A-Za-z0-9_+-]+){0,2}$
abbrev pub tz_re : Regexp
tz_re = seq letter zone_tail

-- `strings.HasSuffix(s, suffix)`
abbrev pub has_suffix : Bytes → Bytes → Bool
has_suffix s suffix = bytes_eq (drop (length s - length suffix) s) suffix

-- The commands that setTimezone runs.
unfoldable pub set_timezone : Desk → Bytes → List Command
set_timezone d tz =
    if not d.linux || not (match_string tz_re tz) || contains tz (codes "..")
    then []
    else if not (d.stat (codes "/usr/share/zoneinfo/" ++ tz))
    then []
    else if has_suffix d.localtime (codes "/" ++ tz)
    then []
    else (codes "timedatectl" ∷ codes "set-timezone" ∷ tz ∷ [])
      ∷ (if d.set_ok then (codes "nc-as-user" ∷ codes "xfce4-panel" ∷ codes "-r" ∷ []) ∷ [] else [])

-- The command of runInputHook.
unfoldable pub run_input_hook : Desk → List Command
run_input_hook d = if not d.linux then [] else if bytes_eq d.hook [] then [] else (d.hook ∷ []) ∷ []

-- The command of launch.
unfoldable pub launch : Desk → List Command
launch d = if not d.linux then [] else (codes "nc-launch" ∷ []) ∷ []
