-- ===== src/Os.antt =====
-- The operating system as the program calls it (Go's `os` and `io/ioutil`): paths to nodes, and for
-- each call to come whether it fails. Every call takes one entry of `faults`; past its end no call
-- fails. Symbolic links are nodes that are not followed, and parents of a path are not tracked.
pub mod Laws
use planet.Base.{
  ℕ, Bool, false, ◌||◌, Option, none, some, List, [], ◌∷◌, ◌++◌, if◌then◌else◌, Text, codes,
  text_eq,
}
use planet.Strings.{has_prefix, take}
use planet.Trace.{Error, not_found, already_exists, system, Result, ok, err, Exec}

pub data Node : Type 0 where
  file : Text → Node
  directory : Node
  link : Text → Node

-- What a call that fails leaves behind: the number of bytes that a write or a read has got through,
-- and the paths that a recursive removal has not reached.
pub record Fault : Type 0 where
  pub error : Error
  pub done : ℕ
  pub kept : Text → Bool

pub record Disk : Type 0 where
  pub nodes : Text → Option Node
  pub faults : List (Option Fault)

abbrev pub head_fault : List (Option Fault) → Option Fault
head_fault [] = none
head_fault (f ∷ fs) = f

abbrev pub tail_faults : List (Option Fault) → List (Option Fault)
tail_faults [] = []
tail_faults (f ∷ fs) = fs

abbrev pub outcome : Option Fault → Result (Unit {0})
outcome none = ok tt
outcome (some f) = err f.error

abbrev pub update : (Text → Option Node) → Text → Option Node → Text → Option Node
update nodes p n q = if text_eq p q then n else nodes q

-- The call fails with the fault that is due, or makes the change.
abbrev call : (Disk → Result (Unit {0}) × (Text → Option Node)) → Exec Disk (Unit {0})
call f d = elim (head_fault d.faults) [
  | some x ↦ (err x.error, record d { faults = tail_faults d.faults })
  | none ↦ ((f d).0, record { nodes = (f d).1; faults = tail_faults d.faults })
]

-- `os.MkdirAll`; a directory that is there stays.
unfoldable pub mkdir_all : Text → Exec Disk (Unit {0})
mkdir_all p =
    call λ d. (ok tt, update d.nodes p (some (elim (d.nodes p) [ some n ↦ n | none ↦ directory ])))

-- `os.Create`: an empty file, whatever stood there.
unfoldable pub create : Text → Exec Disk (Unit {0})
create p = call λ d. (ok tt, update d.nodes p (some (file [])))

abbrev pub contents : Option Node → Text
contents (some (file t)) = t
contents _ = []

abbrev written : Option Fault → Text → Text
written none t = t
written (some f) t = take f.done t

-- A write to the end of an open file. One that fails may have written a part.
unfoldable pub write : Text → Text → Exec Disk (Unit {0})
write p t d = (
  outcome (head_fault d.faults),
  record {
    nodes =
        update d.nodes p (some (file (contents (d.nodes p) ++ written (head_fault d.faults) t)));
    faults = tail_faults d.faults;
  },
)

-- `os.Open` for reading.
unfoldable pub open_file : Text → Exec Disk Text
open_file p d = elim (head_fault d.faults) [
  | some x ↦ (err x.error, record d { faults = tail_faults d.faults })
  | none ↦ (
    elim (d.nodes p) [ some (file t) ↦ ok t | some _ ↦ err (system 21) | none ↦ err not_found ],
    record d { faults = tail_faults d.faults },
  )
]

-- What a reader gets of the contents `t`: a read that fails ends it early, with the error.
unfoldable pub read : Text → Exec Disk (Text × Option Error)
read t d = elim (head_fault d.faults) [
  | some x ↦ (ok (take x.done t, some x.error), record d { faults = tail_faults d.faults })
  | none ↦ (ok (t, none), record d { faults = tail_faults d.faults })
]

-- `p` or a path below it.
abbrev pub below : Text → Text → Bool
below p q = text_eq p q || has_prefix (p ++ codes "/") q

abbrev left_over : Option Fault → Text → Bool
left_over none q = false
left_over (some f) q = f.kept q

-- `os.RemoveAll`: no error where nothing is there; one that fails has removed a part.
unfoldable pub remove_all : Text → Exec Disk (Unit {0})
remove_all p d = (
  outcome (head_fault d.faults),
  record {
    nodes = λ q.
        if below p q
        then (if left_over (head_fault d.faults) q then d.nodes q else none)
        else d.nodes q;
    faults = tail_faults d.faults;
  },
)

-- `os.Remove`
unfoldable pub remove : Text → Exec Disk (Unit {0})
remove p = call λ d. elim (d.nodes p) [
  | some _ ↦ (ok tt, update d.nodes p none)
  | none ↦ (err not_found, d.nodes)
]

-- `os.Symlink(target, p)`
unfoldable pub symlink : Text → Text → Exec Disk (Unit {0})
symlink target p = call λ d. elim (d.nodes p) [
  | some _ ↦ (err already_exists, d.nodes)
  | none ↦ (ok tt, update d.nodes p (some (link target)))
]

-- `os.OpenFile(p, os.O_WRONLY|os.O_TRUNC, ...)`: a file that is there becomes empty.
unfoldable pub truncate : Text → Exec Disk (Unit {0})
truncate p = call λ d. elim (d.nodes p) [
  | some (file t) ↦ (ok tt, update d.nodes p (some (file [])))
  | some _ ↦ (err (system 21), d.nodes)
  | none ↦ (err not_found, d.nodes)
]

-- `os.Stat`: an error where nothing is there.
unfoldable pub stat : Text → Exec Disk (Unit {0})
stat p = call λ d. elim (d.nodes p) [ some _ ↦ (ok tt, d.nodes) | none ↦ (err not_found, d.nodes) ]

-- `os.Rename`
unfoldable pub rename : Text → Text → Exec Disk (Unit {0})
rename p q = call λ d. elim (d.nodes p) [
  | some n ↦ (ok tt, update (update d.nodes p none) q (some n))
  | none ↦ (err not_found, d.nodes)
]

-- `os.Chmod` and `os.Chown`; modes and owners are not modelled.
unfoldable pub change_mode : Text → Exec Disk (Unit {0})
change_mode p =
    call λ d. elim (d.nodes p) [ some _ ↦ (ok tt, d.nodes) | none ↦ (err not_found, d.nodes) ]

-- No call fails from here on.
abbrev pub calm : (Text → Option Node) → Disk
calm nodes = record { nodes = nodes; faults = [] }
