-- ===== src/Box/Enter/Proxy.antt =====
-- Which value a process sees for a name that the environment file of the container sets.
use planet.Env.{EnvVars, get, upsert, has, EnvPair}
use planet.Env.Names.{IsUnique}
use planet.Box.Enter.{inherit}
use mathlib.Core.Path.{subst}
use planet.Env.Laws.{get-upsert}
use planet.Base.{
  ◌≡◌, ◌∙◌, inl, inr, true, false, ◌&&◌, [], ◌∷◌, arith, if◌then◌else◌, Bool-cases, Text, text_eq,
  text_eq_iff, is_empty,
}

-- The first pair of the file is taken, or it changes nothing.
module _ (own es : EnvVars) (e : EnvPair) (j : Text) (u : has es e.name ≡ false) where
  inherit_one :
      is_empty (get own e.name) ≡ true
      → (if is_empty (get (upsert own e.name e.val) j) && has es j
          then get es j
          else get (upsert own e.name e.val) j)
        ≡ (if is_empty (get own j) && has (e ∷ es) j then get (e ∷ es) j else get own j)
  unfolding has get
  inherit_one k = elim (Bool-cases (text_eq e.name j)) [
    | inl same ↦
        (let eq = (text_eq_iff e.name j).0 same in
          let kj = subst (λ n. is_empty (get own n) ≡ true) eq k in
          let uj = subst (λ n. has es n ≡ false) eq u in
          ground (arith, get-upsert own e.name e.val j, same, kj, uj))
    | inr other ↦ ground (arith, get-upsert own e.name e.val j, other)
  ]

  keep_one :
      is_empty (get own e.name) ≡ false
      → (if is_empty (get own j) && has es j then get es j else get own j)
        ≡ (if is_empty (get own j) && has (e ∷ es) j then get (e ∷ es) j else get own j)
  unfolding has get
  keep_one k = elim (Bool-cases (text_eq e.name j)) [
    | inl same ↦
        (let kj = subst (λ n. is_empty (get own n) ≡ false) ((text_eq_iff e.name j).0 same) k in
          ground (arith, same, kj))
    | inr other ↦ ground (arith, other)
  ]

-- A value that the process is given and that is not empty is kept; any other name reads as in the file.
pub get-inherit :
    (own file_env : EnvVars) (j : Text)
    → IsUnique file_env
    → get (inherit own file_env) j
      ≡ (if is_empty (get own j) && has file_env j then get file_env j else get own j)
unfolding inherit get has
get-inherit own [] j u = ground arith
get-inherit own (e ∷ es) j u =
    let other = get-inherit own es j u.1 in
    let more = get-inherit (upsert own e.name e.val) es j u.1 in
    elim (Bool-cases (is_empty (get own e.name))) [
      | inl k ↦ rw k (more ∙ inherit_one own es e j u.0 k)
      | inr k ↦ rw k (other ∙ keep_one own es e j u.0 k)
    ]
