-- ===== src/Tests/Naming.antt =====
-- Names of received files, at concrete inputs.
use network_computer.Prelude.{
  List, [], ◌≡◌, ◌≤◌, refl, true, false, ◌∷◌, ◌++◌, replicate, length, some, if◌then◌else◌, arith,
}
use network_computer.Prelude.Decimal.{format_int}
use network_computer.Prelude.Bytes.{Bytes, bytes_eq, codes}
use network_computer.Host.Names.{
  safe_name, cleaned, encode, encode_rune, shortened, ext, cut_back, valid_on, base, printable,
  strip_left, strip_right, behind_slash,
}
use network_computer.Host.Names.Unique.{
  Stat, missing, there, is_missing, among, unique_on, unique_path, unique_path_found,
}
use network_computer.Host.Names.Safe.{all, plain_byte, dotted, safe_name_lem}

safe_name_lem_example :
    (all plain_byte (safe_name (codes "../../.profile")) ≡ true)
    × (dotted (safe_name (codes "../../.profile")) ≡ false)
    × (length (safe_name (codes "../../.profile")) ≤ 200)
safe_name_lem_example = safe_name_lem (codes "../../.profile")

profile : safe_name (codes "..\\.. /.profile") ≡ codes "profile"
unfolding safe_name cleaned encode encode_rune shortened base printable strip_left strip_right
    behind_slash
profile = refl

-- An a, a hundred of é and ".txt": the cut falls within an é, and taking it away takes the
-- extension away too.
no_ext : safe_name (97 ∷ (replicate 100 233 ++ codes ".txt")) ≡ 97 ∷ encode (replicate 97 233)
unfolding safe_name cleaned encode encode_rune shortened ext cut_back valid_on base printable
    strip_left strip_right behind_slash
no_ext = refl

-- A directory with a.txt and its second one.
abbrev names : List Bytes
names = codes "a.txt" ∷ codes "a (2).txt" ∷ []

abbrev lstat : Bytes → Stat
lstat p = if among p names then there else missing

unique_path_found_example :
    (p : Bytes) × (unique_path 3 lstat (codes "a.txt") ≡ some p) × (is_missing (lstat p) ≡ true)
unique_path_found_example = unique_path_found lstat (codes "a.txt") names (λ p e. ground (arith, e))

third : unique_path 3 lstat (codes "a.txt") ≡ some (codes "a (3).txt")
unfolding unique_path unique_on ext bytes_eq format_int
third = refl
