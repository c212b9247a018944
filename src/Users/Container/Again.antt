-- ===== src/Users/Container/Again.antt =====
-- The databases of the container once the service user is added: on a disk without faults, and with any.
use planet.Base.{
  ℕ, ◌+◌, ◌≡◌, refl, ap, ◌∙◌, inl, inr, Option, none, some, List, [], ◌∷◌, ◌++◌, map, append_assoc,
  append-nil, Bool-cases, Text, codes, text_eq, text_eq_refl, length,
}
use planet.Trace.{Result, ok}
use planet.Os.{Node, file, calm, update, read, truncate}
use planet.Os.Laws.{update_same, update_twice, open_file-calm}
use planet.Users.{User, user_text, upsert_named, upsert_user, write_lines}
use planet.Users.Writing.{lines_text}
use planet.Users.Container.{
  rewrite_database, write_lines_to, add_user_to_container, users_database, as_service_user,
  read_all,
}

upsert_named_again :
    {A : Type 0}
    → (name_of : A → Text) (u : A) (xs : List A)
    → upsert_named name_of u (upsert_named name_of u xs) ≡ upsert_named name_of u xs
unfolding upsert_named
upsert_named_again name_of u [] = rw (text_eq_refl (name_of u)) refl
upsert_named_again name_of u (x ∷ xs) = elim (Bool-cases (text_eq (name_of x) (name_of u))) [
  | inl e ↦ rw e (rw (text_eq_refl (name_of u)) refl)
  | inr e ↦ rw e (rw e (ap (λ r. x ∷ r) (upsert_named_again name_of u xs)))
]

write_lines-calm :
    (n : ℕ) (lines : List Text) (s : Text)
    → (write_lines n lines (record { text = s; error = none; faults = [] })).1
      ≡ record { text = s ++ lines_text lines; error = none; faults = [] }
unfolding write_lines lines_text
write_lines-calm n [] s = rw append-nil refl
write_lines-calm n (l ∷ ls) s =
    write_lines-calm (n + length (l ++ codes "\n")) ls (s ++ (l ++ codes "\n"))
    ∙ ap (λ x. record { text = x; error = none; faults = [] })
        (append_assoc s (l ++ codes "\n") (lines_text ls))

write_lines_to-calm :
    (p : Text) (lines : List Text) (nodes : Text → Option Node)
    → write_lines_to p lines (calm (update nodes p (some (file []))))
      ≡ (ok tt, calm (update nodes p (some (file (lines_text lines)))))
unfolding write_lines_to
write_lines_to-calm p lines nodes =
    rw (write_lines-calm 0 lines [], update_same nodes p (some (file [])))
      (ap (λ x. (ok tt, calm x)) (update_twice nodes p _ (some (file (lines_text lines)))))

truncate-calm :
    (p t : Text) (nodes : Text → Option Node)
    → nodes p ≡ some (file t)
    → truncate p (calm nodes) ≡ (ok tt, calm (update nodes p (some (file []))))
unfolding truncate
truncate-calm p t nodes h = rw h refl

module _ {A : Type 0} (text_of : A → Text) (parse : Text → Result (List A)) where
  pub rewrite_database-calm :
      (path t : Text) (nodes : Text → Option Node) (change : List A → List A) (xs : List A)
      → nodes path ≡ some (file t)
      → parse t ≡ ok xs
      → rewrite_database text_of parse path change (calm nodes)
        ≡ (ok tt, calm (update nodes path (some (file (lines_text (map text_of (change xs)))))))
  unfolding rewrite_database read read_all
  rewrite_database-calm path t nodes change xs h k = rw (open_file-calm path nodes t h) (
      rw k (
        rw (truncate-calm path t nodes h, write_lines_to-calm path (map text_of (change xs)) nodes)
          refl))

-- Where no call fails and the parser reads back what was written: adding the service user a second time
-- succeeds and leaves every file as the first time left it.
add_user_again :
    (parse : Text → Result (List User)) (rootfs t : Text) (nodes : Text → Option Node) (u : User)
    (users : List User)
    → nodes (rootfs ++ users_database) ≡ some (file t)
    → parse t ≡ ok users
    → parse (lines_text (map user_text (upsert_user (as_service_user u) users)))
      ≡ ok (upsert_user (as_service_user u) users)
    → ((add_user_to_container parse rootfs u (calm nodes)).0 ≡ ok tt)
      × (add_user_to_container parse rootfs u (add_user_to_container parse rootfs u (calm nodes)).1
          ≡ (ok tt, (add_user_to_container parse rootfs u (calm nodes)).1))
unfolding add_user_to_container
add_user_again parse rootfs t nodes u users h k back =
    let path : Text = rootfs ++ users_database in
    let change : List User → List User = upsert_user (as_service_user u) in
    let new : Text = lines_text (map user_text (change users)) in
    let first = rewrite_database-calm user_text parse path t nodes change users h k in
    rw first (
      refl,
      rewrite_database-calm user_text parse path new (update nodes path (some (file new))) change
            (change users) (update_same nodes path (some (file new))) back
          ∙ ap (λ n. (ok tt, calm n))
              (update_twice nodes path (some (file new))
                  (some (file (lines_text (map user_text (change (change users))))))
                ∙ ap (λ us. update nodes path (some (file (lines_text (map user_text us)))))
                    (upsert_named_again (λ x. x.name) (as_service_user u) users)),
    )
