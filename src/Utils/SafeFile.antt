-- ===== src/Utils/SafeFile.antt =====
-- `SafeWriteFile` of lib/utils/utils.go. `temp` is the name that `ioutil.TempFile` chooses.
use planet.Base.{
  ◌≡◌, ◌≢◌, ◌⊎◌, false, Option, none, some, arith, Text, text_eq, text_eq_refl, text_eq_sym,
}
use planet.Trace.{ok, Exec, attempt, lift, ◌>>=◌, ◌>>◌}
use planet.Os.{calm, file, Node, Disk, create, write, change_mode, rename, remove}

unfoldable pub replace_file : Text → Text → Text → Exec Disk (Unit {0})
unfolding write change_mode rename
replace_file temp filename bytes = do write temp bytes; change_mode temp; rename temp filename

-- The removal is deferred, and its error is not looked at.
unfoldable pub safe_write : Text → Text → Text → Exec Disk (Unit {0})
unfolding create replace_file remove
safe_write temp filename bytes = do
  create temp
  r ← attempt (replace_file temp filename bytes)
  attempt (remove temp)
  lift r

module _ (temp filename bytes : Text) (differ : text_eq temp filename ≡ false) where
  pub safe_write-other :
      (d : Disk) (q : Text)
      → text_eq temp q ≡ false
      → text_eq filename q ≡ false
      → (safe_write temp filename bytes d).1.nodes q ≡ d.nodes q
  unfolding safe_write
  safe_write-other d q a b = ground arith

  -- Whatever calls fail: `SafeWriteFile` succeeds and the file holds just the new contents, or it
  -- fails and the file is as it was.
  pub safe_write-atomic :
      (d : Disk)
      → (((safe_write temp filename bytes d).0 ≡ ok tt)
          × ((safe_write temp filename bytes d).1.nodes filename ≡ some (file bytes)))
        ⊎ (((safe_write temp filename bytes d).0 ≢ ok tt)
            × ((safe_write temp filename bytes d).1.nodes filename ≡ d.nodes filename))
  unfolding safe_write
  safe_write-atomic d =
      ground (arith, text_eq_refl filename, text_eq_refl temp, text_eq_sym temp filename)

  -- Where no call fails it succeeds, and no temporary file is left.
  pub safe_write-calm :
      (nodes : Text → Option Node)
      → ((safe_write temp filename bytes (calm nodes)).0 ≡ ok tt)
        × ((safe_write temp filename bytes (calm nodes)).1.nodes temp ≡ none)
  unfolding safe_write
  safe_write-calm nodes =
      ground (arith, text_eq_refl filename, text_eq_refl temp, text_eq_sym temp filename)
