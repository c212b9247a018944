-- ===== src/Box/Mounts/RoundTrip.antt =====
-- A mount that is printed as a flag is read back, and a flag whose items are all good adds them all.
use planet.Base.{
  ◌≡◌, refl, ap, ◌∙◌, Bool, true, false, not, List, [], ◌∷◌, ◌++◌, map, append_assoc, append-nil,
  arith, if◌then◌else◌, Text, codes, text_eq, is_empty, All, All-append,
}
use planet.Strings.{join}
use planet.Strings.Split.{split-join, Lacks}
use planet.Trace.{ok}
use planet.Box.Mounts.{
  set, when_set, set_items, Mount, Mounts, parse_mount, set_item, format_options, format_mount,
}

join_tail :
    (src dst : Text) (options : List Text)
    → src
        ++ (codes ":"
            ++ (dst
                ++ (if not (is_empty options) then codes ":" ++ join (codes ":") options else [])))
      ≡ join (codes ":") (src ∷ dst ∷ options)
unfolding join
join_tail src dst [] = rw append-nil
join_tail src dst (o ∷ os) = refl

format_mount-join :
    (m : Mount) → format_mount m ≡ join (codes ":") (m.src ∷ m.dst ∷ format_options m)
unfolding format_mount
format_mount-join m = join_tail m.src m.dst (format_options m)

when_set-Lacks : (b : Bool) (t : Text) → Lacks b':' t → All (Lacks b':') (when_set b t)
when_set-Lacks true t h = (h, tt)
when_set-Lacks false t h = tt

format_options-Lacks : (m : Mount) → All (Lacks b':') (format_options m)
unfolding format_options
format_options-Lacks m =
    All-append (Lacks b':') (when_set m.skip_if_missing (codes "skip")) _
      (when_set-Lacks m.skip_if_missing (codes "skip") (omega arith))
      (All-append (Lacks b':') (when_set m.readonly (codes "ro")) _
        (when_set-Lacks m.readonly (codes "ro") (omega arith))
        (when_set-Lacks m.recursive (codes "rec") (omega arith)))

parse_options-format_options : (m : Mount) → parse_mount (m.src ∷ m.dst ∷ format_options m) ≡ ok m
unfolding parse_mount format_options text_eq
parse_options-format_options m = ground arith

-- `setItem` reads back what `String` prints of one mount, where its paths hold no colon.
pub set_item-format_mount :
    (m : Mount) (ms : Mounts)
    → Lacks b':' m.src
    → Lacks b':' m.dst
    → set_item (format_mount m) ms ≡ (ok tt, ms ++ m ∷ [])
unfolding set_item
set_item-format_mount m ms s d =
    let parts = split-join b':' m.src (m.dst ∷ format_options m) s (d, format_options-Lacks m) in
    rw (format_mount-join m)
      (rw (ap parse_mount parts ∙ parse_options-format_options m, set_item) refl)

set_items-format_mount :
    (ms added : Mounts)
    → All (λ m. Lacks b':' m.src × Lacks b':' m.dst) added
    → set_items (map format_mount added) ms ≡ (ok tt, ms ++ added)
unfolding set_items
set_items-format_mount ms [] h = rw append-nil
set_items-format_mount ms (m ∷ rest) h = rw (set_item-format_mount m ms h.0.0 h.0.1) (
    set_items-format_mount (ms ++ m ∷ []) rest h.1
    ∙ ap (λ l. (ok tt, l)) (append_assoc ms (m ∷ []) rest))

-- `Set` on a flag that is split into printed mounts adds them all, in their order.
set-format_mount :
    (split_comma : Text → List Text) (v : Text) (ms added : Mounts)
    → split_comma v ≡ map format_mount added
    → All (λ m. Lacks b':' m.src × Lacks b':' m.dst) added
    → set split_comma v ms ≡ (ok tt, ms ++ added)
unfolding set
set-format_mount split_comma v ms added e h = rw e (set_items-format_mount ms added h)
