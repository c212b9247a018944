-- ===== src/Box/EnvFile/RoundTrip.antt =====
-- An environment that is written to a file is read back.
use planet.Trace.{◌>>◌, ok}
use planet.Strings.Unquote.RoundTrip.{quote-Lacks, unquote-quote, IsAscii}
use planet.Env.{upsert, has, EnvVars, EnvPair}
use planet.Box.EnvFile.{
  raw_or, parse_environment, read_environment, env_line, write_environment, write_pairs, read_entry,
  read_entries,
}
use planet.Os.{read, create, mkdir_all, file, update, calm, Node}
use planet.Strings.{scan_lines, max_token}
use planet.Strings.Quote.{quote}
use planet.Strings.Split.{cut-append, Lacks}
use planet.Env.Names.{IsUnique, has-upsert}
use planet.Strings.Lines.{scan_lines-cons, scan_lines-nil, IsLine}
use planet.Os.Laws.{update_same, open_file-calm, write-calm}
use planet.Base.{
  ◌<◌, ◌≡◌, refl, sym, ap, ◌∙◌, ◌≢◌, false, Option, some, [], ◌∷◌, ◌++◌, map, append_assoc,
  append-nil, arith, Text, codes, text_eq_iff, text_eq_sym, length, All, All-append,
}

-- A pair that a line of the file holds: the name has no `=` and no line break, the value is ASCII, and
-- the line fits the scanner's buffer.
pub record IsWritable (v : EnvPair) : Type 0 where
  pub no_equals : Lacks b'=' v.name
  pub no_newline : Lacks 10 v.name
  pub no_return : Lacks 13 v.name
  pub ascii : IsAscii v.val
  pub fits : length (v.name ++ b'=' ∷ quote v.val) < max_token

-- The line without its end.
abbrev pub line_of : EnvPair → Text
line_of v = v.name ++ b'=' ∷ quote v.val

pub file_text : EnvVars → Text
file_text [] = []
file_text (v ∷ vs) = line_of v ++ 10 ∷ file_text vs

line_of-IsLine : (v : EnvPair) → IsWritable v → IsLine (line_of v)
line_of-IsLine v h = record {
  no_newline =
      All-append (λ c. c ≢ 10) v.name (b'=' ∷ quote v.val) h.no_newline
        (ground arith, quote-Lacks 10 v.val h.ascii (omega arith));
  no_return =
      All-append (λ c. c ≢ 13) v.name (b'=' ∷ quote v.val) h.no_return
        (ground arith, quote-Lacks 13 v.val h.ascii (omega arith));
  fits = h.fits;
}

pub scan_file :
    (env : EnvVars) → All IsWritable env → scan_lines (file_text env) ≡ (map line_of env, false)
unfolding file_text
scan_file [] h = scan_lines-nil
scan_file (v ∷ vs) h =
    rw (scan_lines-cons (line_of v) (file_text vs) (line_of-IsLine v h.0), scan_file vs h.1) refl

-- A name that is not set is added behind the others.
upsert-new :
    (vars : EnvVars) (k v : Text)
    → has vars k ≡ false
    → upsert vars k v ≡ vars ++ record { name = k; val = v } ∷ []
unfolding upsert has
upsert-new [] k v h = refl
upsert-new (p ∷ ps) k v h = ground (arith, upsert-new ps k v)

pub read_entry_of :
    (vars : EnvVars) (v : EnvPair)
    → IsWritable v
    → read_entry vars (line_of v) ≡ upsert vars v.name v.val
unfolding read_entry
read_entry_of vars v h =
    rw (cut-append b'=' v.name (quote v.val) h.no_equals, read_entry)
      (ap (λ x. upsert vars v.name (raw_or (quote v.val) x)) (unquote-quote v.val h.ascii))

Absent : EnvVars → EnvVars → Type 0
Absent vars = All (λ q. has vars q.name ≡ false)

Absent-nil : (env : EnvVars) → Absent [] env
unfolding has Absent
Absent-nil [] = tt
Absent-nil (v ∷ vs) = (refl, Absent-nil vs)

Absent-upsert :
    (vars rest : EnvVars) (k v : Text)
    → Absent vars rest
    → has rest k ≡ false
    → Absent (upsert vars k v) rest
unfolding Absent has
Absent-upsert vars [] k v h n = tt
Absent-upsert vars (q ∷ rest) k v h n = (
  ground (
    arith,
    has-upsert vars k v q.name,
    text_eq_sym k q.name,
    text_eq_iff k q.name,
    text_eq_iff q.name k,
  ),
  Absent-upsert vars rest k v h.1 (ground arith),
)

read_entries-file :
    (vars env : EnvVars)
    → IsUnique env
    → Absent vars env
    → All IsWritable env
    → read_entries vars (map line_of env) ≡ vars ++ env
unfolding read_entries Absent
read_entries-file vars [] u a h = sym (append-nil vars)
read_entries-file vars (v ∷ vs) u a h =
    let rest =
      read_entries-file (upsert vars v.name v.val) vs u.1
        (Absent-upsert vars vs v.name v.val a.1 u.0) h.1 in
    ap (λ x. read_entries x (map line_of vs)) (read_entry_of vars v h.0)
    ∙ rest
    ∙ ap (λ x. x ++ vs) (upsert-new vars v.name v.val a.0)
    ∙ append_assoc vars (v ∷ []) vs

env_line-append : (v : EnvPair) (t : Text) → env_line v ++ t ≡ line_of v ++ 10 ∷ t
unfolding env_line
env_line-append v t =
    append_assoc v.name (b'=' ∷ quote v.val ++ codes "\n") t
    ∙ ap (λ x. v.name ++ b'=' ∷ x) (append_assoc (quote v.val) (codes "\n") t)
    ∙ sym (append_assoc v.name (b'=' ∷ quote v.val) (10 ∷ t))

write_pairs-calm :
    (path : Text) (nodes : Text → Option Node) (s : Text) (env : EnvVars)
    → write_pairs path env (calm (update nodes path (some (file s))))
      ≡ (ok tt, calm (update nodes path (some (file (s ++ file_text env)))))
unfolding write_pairs file_text
write_pairs-calm path nodes s [] = rw (append-nil s) refl
write_pairs-calm path nodes s (v ∷ vs) =
    rw (write-calm nodes path s (env_line v), write_pairs-calm path nodes (s ++ env_line v) vs)
      (ap (λ x. (ok tt, calm (update nodes path (some (file x)))))
        (append_assoc s (env_line v) (file_text vs)
          ∙ ap (λ x. s ++ x) (env_line-append v (file_text vs))))

-- The disk behind the write.
abbrev pub stored : (Text → Text) → Text → (Text → Option Node) → EnvVars → Text → Option Node
stored parent path nodes env =
    update (mkdir_all (parent path) (calm nodes)).1.nodes path (some (file (file_text env)))

pub write_environment-calm :
    (parent : Text → Text) (path : Text) (nodes : Text → Option Node) (env : EnvVars)
    → write_environment parent path env (calm nodes) ≡ (ok tt, calm (stored parent path nodes env))
unfolding write_environment mkdir_all create
write_environment-calm parent path nodes env =
    write_pairs-calm path (mkdir_all (parent path) (calm nodes)).1.nodes [] env

read_environment-calm :
    (path : Text) (nodes : Text → Option Node) (env : EnvVars)
    → IsUnique env
    → All IsWritable env
    → read_environment path (calm (update nodes path (some (file (file_text env)))))
      ≡ (ok env, calm (update nodes path (some (file (file_text env)))))
unfolding read_environment read parse_environment
read_environment-calm path nodes env u h =
    rw
      (
        open_file-calm path (update nodes path (some (file (file_text env)))) (file_text env)
            (update_same nodes path (some (file (file_text env)))),
        scan_file env h,
      )
      (ap (λ x. (ok x, calm (update nodes path (some (file (file_text env))))))
        (read_entries-file [] env u (Absent-nil env) h))

-- Where no call fails, writing an environment in which no name stands twice and whose pairs fit on a
-- line succeeds, and reading the file then gives the environment.
pub write-read :
    (parent : Text → Text) (path : Text) (nodes : Text → Option Node) (env : EnvVars)
    → IsUnique env
    → All IsWritable env
    → (write_environment parent path env >> read_environment path) (calm nodes)
      ≡ (ok env, (write_environment parent path env (calm nodes)).1)
write-read parent path nodes env u h =
    rw (write_environment-calm parent path nodes env)
      (read_environment-calm path (mkdir_all (parent path) (calm nodes)).1.nodes env u h)
