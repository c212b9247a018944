-- ===== src/Box/EnvFile.antt =====
-- The environment files of lib/box/srv.go: `WriteEnvironment` and `ReadEnvironment`. `parent` stands for
-- Go's `filepath.Dir`.
pub mod RoundTrip
pub mod Fitting
use planet.Trace.{ok, system, lift, err, pure, Result, Error, Exec, ◌>>=◌, ◌>>◌}
use planet.Strings.Unquote.{unquote}
use planet.Strings.{cut, scan_lines}
use planet.Env.{EnvPair, EnvVars, upsert}
use planet.Strings.Quote.{quote}
use planet.Os.{read, create, write, open_file, mkdir_all, Disk}
use planet.Base.{Option, none, some, List, [], ◌∷◌, ◌++◌, if◌then◌else◌, Text, codes}

-- The file as a whole is written pair by pair, the values quoted.
unfoldable pub env_line : EnvPair → Text
unfolding quote
env_line v = v.name ++ (codes "=" ++ (quote v.val ++ codes "\n"))

unfoldable pub write_pairs : Text → EnvVars → Exec Disk (Unit {0})
write_pairs path [] = pure tt
write_pairs path (v ∷ vs) = do write path (env_line v); write_pairs path vs

unfoldable pub write_environment : (Text → Text) → Text → EnvVars → Exec Disk (Unit {0})
write_environment parent path env = do mkdir_all (parent path); create path; write_pairs path env

-- A value that is not quoted is taken as it is.
abbrev pub raw_or : Text → Option Text → Text
raw_or raw none = raw
raw_or raw (some val) = val

-- A line without `=` is passed over.
unfoldable pub read_entry : EnvVars → Text → EnvVars
unfolding upsert cut
read_entry vars line = elim (cut b'=' line) [
  | none ↦ vars
  | some (key, raw) ↦ upsert vars key (raw_or raw (unquote raw))
]

unfoldable pub read_entries : EnvVars → List Text → EnvVars
read_entries vars [] = vars
read_entries vars (l ∷ ls) = read_entries (read_entry vars l) ls

-- A line that is too long for the scanner is an error.
unfoldable pub parse_environment : Text → Option Error → Result EnvVars
unfolding scan_lines read_entries
parse_environment text (some e) = err e
parse_environment text none =
    if (scan_lines text).1 then err (system 3) else ok (read_entries [] (scan_lines text).0)

unfoldable pub read_environment : Text → Exec Disk EnvVars
unfolding parse_environment
read_environment path = do
  text ← open_file path
  (got, failed) ← read text
  lift (parse_environment got failed)
