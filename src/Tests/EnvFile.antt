-- ===== src/Tests/EnvFile.antt =====
-- A file with two variables, one with a quote and a newline in it.
use planet.Box.EnvFile.RoundTrip.{write-read, IsWritable}
use planet.Box.EnvFile.{write_environment, read_environment, env_line}
use planet.Trace.{ok, ◌>>◌}
use planet.Os.{calm}
use planet.Strings.Quote.{quote}
use planet.Env.{EnvVars, has}
use planet.Env.Names.{IsUnique}
use planet.Base.{◌≡◌, refl, none, [], ◌∷◌, ◌++◌, arith, Text, codes, text_eq, All}

abbrev vars : EnvVars
vars =
    (record { name = codes "KUBE_MASTER_IP"; val = codes "10.0.0.1" })
    ∷ (record { name = codes "OPTS"; val = codes "-D a=b" ++ 34 ∷ 10 ∷ [] })
    ∷ []

abbrev parent : Text → Text
parent p = codes "/etc"

abbrev path : Text
path = codes "/etc/container-environment"

vars-IsUnique : IsUnique vars
unfolding has text_eq
vars-IsUnique = (refl, (refl, tt))

vars_fit : All IsWritable vars
unfolding quote
vars_fit = (
  record {
    no_equals = omega arith;
    no_newline = omega arith;
    no_return = omega arith;
    ascii = omega arith;
    fits = omega arith;
  },
  (
    record {
      no_equals = omega arith;
      no_newline = omega arith;
      no_return = omega arith;
      ascii = omega arith;
      fits = omega arith;
    },
    tt,
  ),
)

write-read_example :
    (write_environment parent path vars >> read_environment path) (calm (λ q. none))
    ≡ (ok vars, (write_environment parent path vars (calm (λ q. none))).1)
write-read_example = write-read parent path (λ q. none) vars vars-IsUnique vars_fit

second_line :
    env_line (record { name = codes "A"; val = codes "x y" })
    ≡ codes "A=" ++ 34 ∷ codes "x y" ++ 34 ∷ 10 ∷ []
unfolding env_line quote
second_line = refl
