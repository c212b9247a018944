-- ===== src/Os/Laws.antt =====
-- Calls that do not fail, and paths that lie below one another.
use mathlib.Core.Path.{fun_ext}
use planet.Base.{
  ◌≡◌, refl, ap, inl, inr, false, Option, none, some, [], ◌∷◌, ◌++◌, arith, if◌then◌else◌,
  Bool-cases, Text, text_eq, text_eq_refl,
}
use planet.Strings.{has_prefix}
use planet.Strings.Split.{Lacks}
use planet.Trace.{ok, err, not_found, already_exists}
use planet.Os.{open_file, symlink, remove, link, below, remove_all, Node, file, update, write, calm}

pub update_same : (nodes : Text → Option Node) (p : Text) (n : Option Node) → update nodes p n p ≡ n
update_same nodes p n = rw text_eq_refl

pub update_twice :
    (nodes : Text → Option Node) (p : Text) (m n : Option Node)
    → update (update nodes p m) p n ≡ update nodes p n
update_twice nodes p m n =
    fun_ext λ q. elim (Bool-cases (text_eq p q)) [ inl e ↦ rw e refl | inr e ↦ rw e refl ]

-- A write goes to the end of the file.
pub write-calm :
    (nodes : Text → Option Node) (p s t : Text)
    → write p t (calm (update nodes p (some (file s))))
      ≡ (ok tt, calm (update nodes p (some (file (s ++ t)))))
unfolding write
write-calm nodes p s t =
    rw text_eq_refl
      (ap (λ n. (ok tt, calm n)) (update_twice nodes p (some (file s)) (some (file (s ++ t)))))

-- A path that ends in a name without a slash does not lie below one that has a slash further in.
pub has_prefix-slash : (a b q : Text) → Lacks b'/' q → has_prefix (a ++ b'/' ∷ b) q ≡ false
unfolding has_prefix
has_prefix-slash [] b [] h = refl
has_prefix-slash [] b (c ∷ q) h = ground arith
has_prefix-slash (x ∷ a) b [] h = refl
has_prefix-slash (x ∷ a) b (c ∷ q) h = ground (arith, has_prefix-slash a b q h.1)

pub text_eq-slash : (a b q : Text) → Lacks b'/' q → text_eq (a ++ b'/' ∷ b) q ≡ false
unfolding text_eq
text_eq-slash [] b [] h = refl
text_eq-slash [] b (c ∷ q) h = ground arith
text_eq-slash (x ∷ a) b [] h = refl
text_eq-slash (x ∷ a) b (c ∷ q) h = ground (arith, text_eq-slash a b q h.1)

abbrev pub removed : Text → (Text → Option Node) → Text → Option Node
removed p nodes q = if below p q then none else nodes q

pub remove_all-calm :
    (p : Text) (nodes : Text → Option Node)
    → remove_all p (calm nodes) ≡ (ok tt, calm (removed p nodes))
unfolding remove_all
remove_all-calm p nodes = refl

-- A link or a removal, where the path is known to be there or not.
module _ (target p : Text) (nodes : Text → Option Node) where
  pub symlink-none :
      nodes p ≡ none
      → symlink target p (calm nodes) ≡ (ok tt, calm (update nodes p (some (link target))))
  unfolding symlink
  symlink-none h = rw h refl

  pub symlink-some :
      (n : Node)
      → nodes p ≡ some n
      → symlink target p (calm nodes) ≡ (err already_exists, calm nodes)
  unfolding symlink
  symlink-some n h = rw h refl

module _ (p : Text) (nodes : Text → Option Node) where
  pub remove-none : nodes p ≡ none → remove p (calm nodes) ≡ (err not_found, calm nodes)
  unfolding remove
  remove-none h = rw h refl

  pub remove-some :
      (n : Node) → nodes p ≡ some n → remove p (calm nodes) ≡ (ok tt, calm (update nodes p none))
  unfolding remove
  remove-some n h = rw h refl

pub open_file-calm :
    (p : Text) (nodes : Text → Option Node) (t : Text)
    → nodes p ≡ some (file t)
    → open_file p (calm nodes) ≡ (ok t, calm nodes)
unfolding open_file
open_file-calm p nodes t h = rw h refl
