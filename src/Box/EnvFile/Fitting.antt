-- ===== src/Box/EnvFile/Fitting.antt =====
-- A test that the pairs of an environment fit the lines of a file.
use planet.Box.EnvFile.RoundTrip.{IsWritable}
use planet.Strings.Unquote.RoundTrip.{IsAscii}
use planet.Strings.Split.{Lacks}
use planet.Env.{EnvVars, EnvPair}
use planet.Strings.Quote.{quote}
use planet.Strings.{max_token}
use planet.Base.{ℕ, ◌≡◌, Bool, true, not, ◌&&◌, [], ◌∷◌, ◌++◌, arith, ltb, ◌==◌, Text, length, All}

unfoldable lacks : ℕ → Text → Bool
lacks b [] = true
lacks b (c ∷ cs) = not (c == b) && lacks b cs

unfoldable is_ascii : Text → Bool
is_ascii [] = true
is_ascii (c ∷ cs) = ltb c 128 && is_ascii cs

unfoldable fits : EnvPair → Bool
unfolding lacks is_ascii quote
fits v =
    lacks b'=' v.name
    && lacks 10 v.name
    && lacks 13 v.name
    && is_ascii v.val
    && ltb (length (v.name ++ b'=' ∷ quote v.val)) max_token

unfoldable pub all_fit : EnvVars → Bool
unfolding fits
all_fit [] = true
all_fit (v ∷ vs) = fits v && all_fit vs

lacks-Lacks : (b : ℕ) (t : Text) → lacks b t ≡ true → Lacks b t
unfolding lacks
lacks-Lacks b [] h = tt
lacks-Lacks b (c ∷ t) h = (ground (arith, h), lacks-Lacks b t (ground (arith, h)))

is_ascii-IsAscii : (t : Text) → is_ascii t ≡ true → IsAscii t
unfolding is_ascii
is_ascii-IsAscii [] h = tt
is_ascii-IsAscii (c ∷ t) h = (ground (arith, h), is_ascii-IsAscii t (ground (arith, h)))

fits-IsWritable : (v : EnvPair) → fits v ≡ true → IsWritable v
unfolding fits
fits-IsWritable v h = record {
  no_equals = lacks-Lacks b'=' v.name (ground (arith, h));
  no_newline = lacks-Lacks 10 v.name (ground (arith, h));
  no_return = lacks-Lacks 13 v.name (ground (arith, h));
  ascii = is_ascii-IsAscii v.val (ground (arith, h));
  fits = ground (arith, h);
}

pub all_fit-IsWritable : (env : EnvVars) → all_fit env ≡ true → All IsWritable env
unfolding all_fit
all_fit-IsWritable [] h = tt
all_fit-IsWritable (v ∷ vs) h =
    (fits-IsWritable v (ground (arith, h)), all_fit-IsWritable vs (ground (arith, h)))
