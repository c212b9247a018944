-- ===== src/Tests/Flag.antt =====
-- The value of `--env`.
use planet.Base.{◌≡◌, refl, ◌≢◌, [], ◌∷◌, ◌++◌, map, arith, codes}
use planet.Strings.{join}
use planet.Env.{EnvVars}
use planet.Env.Flag.{
  set, parse_from, scan, scan_token, scan_ident, scan_string, skip_space, is_ident_rune, advance,
  value_of, done, refused, panicked, out_of_fuel,
}
use planet.Env.Flag.RoundTrip.{IsSettable, quoted, set-quoted, IsName}
use planet.Env.Flag.Ends.{set_ends}
use planet.Env.Flag.Unquoted.{set-open_quote, set-digits}

unquoted_text :
    set [] (codes "var1=value1,var2=\"a,b\",")
    ≡ done (
        record { name = codes "var1"; val = codes "value1" }
        ∷ record { name = codes "var2"; val = codes "a,b" }
        ∷ [])
unfolding set parse_from scan scan_token scan_ident scan_string skip_space is_ident_rune advance
    value_of
unquoted_text = refl

abbrev two : EnvVars
two =
    record { name = codes "HOSTS"; val = codes "a,b=c" }
    ∷ record { name = codes "_x1"; val = codes "10" }
    ∷ []

is_name : IsName (codes "HOSTS") × IsName (codes "_x1")
unfolding is_ident_rune
is_name = ((refl, (refl, (refl, (refl, (refl, tt))))), (refl, (refl, (refl, tt))))

settable0 : IsSettable (record { name = codes "HOSTS"; val = codes "a,b=c" })
settable0 = record {
  ident_name = is_name.0;
  no_quote = omega arith;
  no_backslash = omega arith;
  no_newline = omega arith;
}

settable1 : IsSettable (record { name = codes "_x1"; val = codes "10" })
settable1 = record {
  ident_name = is_name.1;
  no_quote = omega arith;
  no_backslash = omega arith;
  no_newline = omega arith;
}

set-quoted_example : set two (join (codes ",") (map quoted two)) ≡ done (two ++ two)
set-quoted_example = set-quoted two two (settable0, (settable1, tt))

set_ends_example : set two (codes "a=\"b") ≢ out_of_fuel
set_ends_example = set_ends two (codes "a=\"b")

set-open_quote_example : set two (codes "HOSTS" ++ b'=' ∷ (b'"' ∷ [])) ≡ panicked
set-open_quote_example = set-open_quote two (codes "HOSTS") is_name.0

set-digits_example : set two (codes "_x1" ++ b'=' ∷ (b'1' ∷ b'0' ∷ [])) ≡ refused
set-digits_example = set-digits two (codes "_x1") [] b'1' b'0' is_name.1 (omega arith) (omega arith)
