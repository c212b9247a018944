-- ===== src/Users/Container/Interrupted.antt =====
-- What the databases of the container hold when calls fail.
use planet.Base.{
  ℕ, zero, suc, ◌+◌, ◌≡◌, refl, sym, ap, ◌∙◌, ◌≢◌, ◌⊎◌, inl, inr, Option, none, some, List, [], ◌∷◌,
  ◌++◌, map, append_assoc, append-nil, arith, Text, codes, text_eq_refl, length,
}
use planet.Strings.{take, drop}
use planet.Trace.{Result, Error, ok, err}
use planet.Os.{Disk, Fault, Node, file, update, open_file, read, truncate}
use planet.Users.{User, user_text, upsert_user, write_lines, LineBuffer, cut_write}
use planet.Users.Writing.{lines_text, write_lines_done, write_lines_failed, Option-cases}
use planet.Users.Container.{
  rewrite_database, write_lines_to, add_user_to_container, users_database, as_service_user,
  read_all, flushed,
}

take-drop : (n : ℕ) (t : Text) → take n t ++ drop n t ≡ t
take-drop n [] = refl
take-drop zero (c ∷ t) = refl
take-drop (suc n) (c ∷ t) = ap (λ x. c ∷ x) (take-drop n t)

-- `s` is the begin of `t`.
abbrev pub IsPrefix : Text → Text → Type 0
IsPrefix s t = (r : Text) × (s ++ r ≡ t)

cut_write-IsPrefix : (f : Option Fault) (t : Text) → IsPrefix (cut_write f t) t
cut_write-IsPrefix none t = ([], append-nil t)
cut_write-IsPrefix (some f) t = (drop f.done t, take-drop f.done t)

abbrev buffer : Text → List (Option Fault) → LineBuffer
buffer text faults = record { text = text; error = none; faults = faults }

-- What stands in the buffer: the text before and the begin of the lines.
abbrev Wrote : ℕ → List Text → Text → List (Option Fault) → Type 0
Wrote n lines text faults =
    (s : Text) × ((write_lines n lines (buffer text faults)).1.text ≡ text ++ s)
    × IsPrefix s (lines_text lines)

-- A line that is written whole.
Wrote-line :
    (n : ℕ) (l : Text) (ls : List Text) (text : Text) (faults : List (Option Fault))
    → Wrote (n + length (l ++ codes "\n")) ls (text ++ (l ++ codes "\n")) faults
    → Wrote n (l ∷ ls) text (none ∷ faults)
unfolding write_lines lines_text
Wrote-line n l ls text faults (s, e, (r, k)) = (
  (l ++ codes "\n") ++ s,
  e ∙ append_assoc text (l ++ codes "\n") s,
  (r, append_assoc (l ++ codes "\n") s r ∙ ap (λ x. (l ++ codes "\n") ++ x) k),
)

write_lines-IsPrefix :
    (n : ℕ) (lines : List Text) (text : Text) (faults : List (Option Fault))
    → Wrote n lines text faults
unfolding write_lines lines_text
write_lines-IsPrefix n [] text faults = ([], sym (append-nil text), ([], refl))
write_lines-IsPrefix n (l ∷ ls) text [] =
    Wrote-line n l ls text []
      (write_lines-IsPrefix (n + length (l ++ codes "\n")) ls (text ++ (l ++ codes "\n")) [])
write_lines-IsPrefix n (l ∷ ls) text (none ∷ fs) =
    Wrote-line n l ls text fs
      (write_lines-IsPrefix (n + length (l ++ codes "\n")) ls (text ++ (l ++ codes "\n")) fs)
write_lines-IsPrefix n (l ∷ ls) text (some f ∷ fs) =
    let part : Text = cut_write (some f) (l ++ codes "\n") in
    let (r, k) = cut_write-IsPrefix (some f) (l ++ codes "\n") in
    (
      part,
      ap (λ x. x.1.text) (write_lines_failed (n + length part) ls _ f.error refl),
      (
        r ++ lines_text ls,
        sym (append_assoc part r (lines_text ls)) ∙ ap (λ x. x ++ lines_text ls) k,
      ),
    )

-- What a call of the writer leaves: the new text, or an error and the begin of it.
abbrev Written : Text → Text → Result (Unit {0}) × Disk → Type 0
Written path new (r, d) =
    ((r ≡ ok tt) × (d.nodes path ≡ some (file new)))
    ⊎ ((r ≢ ok tt) × (s : Text) × (d.nodes path ≡ some (file s)) × IsPrefix s new)

module _ (path : Text) (lines : List Text) (nodes : Text → Option Node)
    (faults : List (Option Fault)) where
  abbrev filled : LineBuffer
  filled = (write_lines 0 lines (buffer [] faults)).1

  abbrev emptied : Disk
  emptied = record { nodes = update nodes path (some (file [])); faults = faults }

  write_lines_to-node : (write_lines_to path lines emptied).1.nodes path ≡ some (file filled.text)
  unfolding write_lines_to
  write_lines_to-node = rw (text_eq_refl path) refl

  flushed_done : (b : LineBuffer) → (flushed b).0 ≡ ok tt → b.error ≡ none
  flushed_done b h = elim (Option-cases b.error) [
    | inl e ↦ e
    | inr (x, e) ↦ absurd (flushed_err b x e h)
  ]
    where
      flushed_err : (b : LineBuffer) (x : Error) → b.error ≡ some x → (flushed b).0 ≡ ok tt → ⊥
      flushed_err b x e k = ground (arith, e, k)

  write_lines_to-Written : Written path (lines_text lines) (write_lines_to path lines emptied)
  unfolding write_lines_to
  write_lines_to-Written = result (flushed filled).0 refl
    where
      result :
          (r : Result (Unit {0}))
          → (flushed filled).0 ≡ r
          → Written path (lines_text lines) (write_lines_to path lines emptied)
      result (ok u) e = inl (
        e,
        write_lines_to-node
            ∙ ap (λ x. some (file x))
                (write_lines_done 0 lines (buffer [] faults) refl (flushed_done filled e)).0,
      )
      result (err x) e =
          let (s, k, p) = write_lines-IsPrefix 0 lines [] faults in
          inr ((λ z. cc (sym e ∙ z)), s, write_lines_to-node ∙ ap (λ y. some (file y)) k, p)

-- What a rewrite leaves: the new text, or an error and the old file, or an error and the begin of the new
-- text.
abbrev pub Rewritten : Text → (Text → Option Node) → Text → Result (Unit {0}) × Disk → Type 0
Rewritten path nodes new (r, d) =
    ((r ≡ ok tt) × (d.nodes path ≡ some (file new)))
    ⊎ ((r ≢ ok tt) × (d.nodes path ≡ nodes path))
    ⊎ ((r ≢ ok tt) × (s : Text) × (d.nodes path ≡ some (file s)) × IsPrefix s new)

from_Wrote :
    (path : Text) (nodes : Text → Option Node) (new : Text) (x : Result (Unit {0}) × Disk)
    → Written path new x
    → Rewritten path nodes new x
from_Wrote path nodes new x (inl a) = inl a
from_Wrote path nodes new x (inr b) = inr (inr b)

Rewritten-lines :
    (path : Text) (lines : List Text) (nodes : Text → Option Node) (rest : List (Option Fault))
    (x : Result (Unit {0}) × Disk)
    → x ≡ write_lines_to path lines (emptied path lines nodes rest)
    → Rewritten path nodes (lines_text lines) x
Rewritten-lines path lines nodes rest x e =
    from_Wrote path nodes (lines_text lines) x (rw e (write_lines_to-Written path lines nodes rest))

module _ {A : Type 0} (text_of : A → Text) (parse : Text → Result (List A)) where
  abbrev run :
      Text
      → (List A → List A)
      → (Text → Option Node)
      → List (Option Fault)
      → Result (Unit {0}) × Disk
  run path change nodes faults =
      rewrite_database text_of parse path change (record { nodes = nodes; faults = faults })

  rewrite_database-Rewritten :
      (path t : Text) (change : List A → List A) (xs : List A) (nodes : Text → Option Node)
      (faults : List (Option Fault))
      → nodes path ≡ some (file t)
      → parse t ≡ ok xs
      → Rewritten path nodes (lines_text (map text_of (change xs))) (run path change nodes faults)
  unfolding rewrite_database open_file read read_all truncate
  rewrite_database-Rewritten path t change xs nodes [] h k =
      Rewritten-lines path (map text_of (change xs)) nodes [] (run path change nodes [])
        (rw h (rw k (rw h refl)))
  rewrite_database-Rewritten path t change xs nodes (some f ∷ fs) h k = inr (inl ((λ e. cc), refl))
  rewrite_database-Rewritten path t change xs nodes (none ∷ []) h k =
      Rewritten-lines path (map text_of (change xs)) nodes [] (run path change nodes (none ∷ []))
        (rw h (rw k (rw h refl)))
  rewrite_database-Rewritten path t change xs nodes (none ∷ some f ∷ fs) h k =
      rw h (inr (inl ((λ e. cc), h)))
  rewrite_database-Rewritten path t change xs nodes (none ∷ none ∷ []) h k =
      Rewritten-lines path (map text_of (change xs)) nodes []
        (run path change nodes (none ∷ none ∷ [])) (rw h (rw k (rw h refl)))
  rewrite_database-Rewritten path t change xs nodes (none ∷ none ∷ some f ∷ fs) h k =
      rw h (rw k (inr (inl ((λ e. cc), h))))
  rewrite_database-Rewritten path t change xs nodes (none ∷ none ∷ none ∷ fs) h k =
      Rewritten-lines path (map text_of (change xs)) nodes fs
        (run path change nodes (none ∷ none ∷ none ∷ fs)) (rw h (rw k (rw h refl)))

-- Whatever calls fail while the service user is added: the call succeeds and the database of users holds
-- the new entry, or it fails and the database is as it was, or it fails and the database holds a begin of
-- the new text, since it is truncated before it is written.
pub add_user_interrupted :
    (parse : Text → Result (List User)) (rootfs t : Text) (nodes : Text → Option Node) (u : User)
    (users : List User) (faults : List (Option Fault))
    → nodes (rootfs ++ users_database) ≡ some (file t)
    → parse t ≡ ok users
    → Rewritten
        (rootfs ++ users_database)
        nodes
        (lines_text (map user_text (upsert_user (as_service_user u) users)))
        (add_user_to_container parse rootfs u (record { nodes = nodes; faults = faults }))
unfolding add_user_to_container
add_user_interrupted parse rootfs t nodes u users faults h k =
    rewrite_database-Rewritten user_text parse (rootfs ++ users_database) t
      (upsert_user (as_service_user u)) users nodes faults h k
