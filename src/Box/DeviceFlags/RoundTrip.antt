-- ===== src/Box/DeviceFlags/RoundTrip.antt =====
-- A device that is printed is read back.
use planet.Box.Devices.{Device}
use planet.Strings.Split.{split-join, pieces-Lacks, pieces-append, Lacks}
use planet.Strings.{split}
use planet.Box.DeviceFlags.{
  format, uid_part, permissions_part, mode_part, number_or, parse_device, path_part, gid_part,
  unless, no_device, set_field, format_parts, parse_part, field, parse_parts,
}
use planet.Strings.Decimal.{itoa, itoa-IsDigit, IsDigit}
use planet.Trace.{err, Result, ok_inj, ok}
use planet.Strings.Number.{format_octal}
use planet.Strings.Number.RoundTrip.{parse_any-itoa, parse_uint-octal, octal-IsDigit}
use planet.Base.{
  ℕ, suc, ◌^◌, ◌<◌, ◌≡◌, refl, ap, ◌∙◌, ◌≢◌, ◌⊎◌, inl, inr, Bool, true, false, Option, List, [],
  ◌∷◌, ◌++◌, arith, ◌==◌, Text, codes, text_eq, is_empty, All, All-append,
}

-- A device that a flag can name: no separator in its texts, and numbers of 32 bits.
pub record IsPrintable (d : Device) : Type 0 where
  pub path_parts : Lacks b';' d.path
  pub path_equals : Lacks b'=' d.path
  pub permissions_parts : Lacks b';' d.permissions
  pub permissions_equals : Lacks b'=' d.permissions
  pub mode_fits : d.file_mode < 2 ^ 32
  pub uid_fits : d.uid < 2 ^ 32
  pub gid_fits : d.gid < 2 ^ 32

parse_step :
    (r : Result Device) (a b : List Text) (e : Device)
    → elim r [ err x ↦ err x | ok d' ↦ parse_parts a d' ] ≡ ok e
    → ((d' : Device) → parse_parts a d' ≡ ok e → parse_parts (a ++ b) d' ≡ parse_parts b e)
    → elim r [ err x ↦ err x | ok d' ↦ parse_parts (a ++ b) d' ] ≡ parse_parts b e
parse_step (ok d') a b e h ih = ih d' h
parse_step (err x) a b e h ih = absurd (cc h)

parse_parts-append :
    (a b : List Text) (d e : Device)
    → parse_parts a d ≡ ok e
    → parse_parts (a ++ b) d ≡ parse_parts b e
unfolding parse_parts
parse_parts-append [] b d e h = ap (parse_parts b) (ok_inj d e h)
parse_parts-append (p ∷ a) b d e h =
    parse_step (parse_part (split b'=' p) d) a b e h (λ d' k. parse_parts-append a b d' e k)

split-field :
    (key val : Text) → Lacks b'=' key → Lacks b'=' val → split b'=' (field key val) ≡ key ∷ val ∷ []
split-field key val k v = rw (pieces-append b'=' key val k) (rw (pieces-Lacks b'=' val v) refl)

-- A part that is printed or left out sets its field.
unless-ok :
    (b : Bool) (key val : Text) (d e : Device)
    → Lacks b'=' key
    → Lacks b'=' val
    → (b ≡ true → d ≡ e)
    → (b ≡ false → set_field key val d ≡ ok e)
    → parse_parts (unless b (field key val)) d ≡ ok e
unfolding parse_parts parse_part
unless-ok true key val d e k v same set_it = ap ok (same refl)
unless-ok false key val d e k v same set_it =
    ap (λ x. elim (parse_part x d) [ err x ↦ err x | ok d' ↦ ok d' ]) (split-field key val k v)
    ∙ ap (λ x. elim x [ err x ↦ err x | ok d' ↦ ok d' ]) (set_it refl)

digits-Lacks : (b : ℕ) (t : Text) → (b ≡ b';') ⊎ (b ≡ b'=') → All IsDigit t → Lacks b t
digits-Lacks b [] k h = tt
digits-Lacks b (c ∷ t) k h = (ground (arith, k, h.0), digits-Lacks b t k h.1)

format_octal-IsDigit : (n : ℕ) → All IsDigit (format_octal n)
unfolding format_octal
format_octal-IsDigit n = ((omega arith, omega arith), octal-IsDigit (suc n) n)

is_empty-true : (t : Text) → is_empty t ≡ true → [] ≡ t
is_empty-true [] h = refl
is_empty-true (c ∷ t) h = absurd (cc h)

abbrev pick : Option ℕ → (ℕ → Device) → Result Device
pick = number_or

set_mode :
    (d : Device) (n : ℕ)
    → n < 2 ^ 32
    → set_field (codes "fileMode") (format_octal n) d ≡ ok (record d { file_mode = n })
unfolding set_field text_eq
set_mode d n h = ap (λ o. pick o (λ m. record d { file_mode = m })) (parse_uint-octal n h)

set_uid :
    (d : Device) (n : ℕ)
    → 0 < n
    → n < 2 ^ 32
    → set_field (codes "uid") (itoa n) d ≡ ok (record d { uid = n })
unfolding set_field text_eq
set_uid d n k h = ap (λ o. pick o (λ m. record d { uid = m })) (parse_any-itoa n k h)

set_gid :
    (d : Device) (n : ℕ)
    → 0 < n
    → n < 2 ^ 32
    → set_field (codes "gid") (itoa n) d ≡ ok (record d { gid = n })
unfolding set_field text_eq
set_gid d n k h = ap (λ o. pick o (λ m. record d { gid = m })) (parse_any-itoa n k h)

-- The device while its parts are read.
abbrev reading : Device → Text → ℕ → ℕ → ℕ → Device
reading d permissions mode uid gid = record {
  path = d.path;
  permissions = permissions;
  file_mode = mode;
  uid = uid;
  gid = gid;
}

module _ (d : Device) (h : IsPrintable d) where
  read_path : parse_parts (path_part d) no_device ≡ ok (reading d [] 0 0 0)
  unfolding set_field text_eq
  read_path =
      unless-ok false (codes "path") d.path no_device (reading d [] 0 0 0) (omega arith)
        h.path_equals (λ e. absurd (cc e)) (λ e. refl)

  read_permissions :
      parse_parts (permissions_part d) (reading d [] 0 0 0) ≡ ok (reading d d.permissions 0 0 0)
  unfolding set_field text_eq
  read_permissions =
      unless-ok (is_empty d.permissions) (codes "permissions") d.permissions (reading d [] 0 0 0)
        (reading d d.permissions 0 0 0) (omega arith) h.permissions_equals
        (λ e. ap (λ t. reading d t 0 0 0) (is_empty-true d.permissions e)) (λ e. refl)

  read_mode :
      parse_parts (mode_part d) (reading d d.permissions 0 0 0)
      ≡ ok (reading d d.permissions d.file_mode 0 0)
  read_mode =
      unless-ok (d.file_mode == 0) (codes "fileMode") (format_octal d.file_mode)
        (reading d d.permissions 0 0 0) (reading d d.permissions d.file_mode 0 0) (omega arith)
        (digits-Lacks b'=' _ (inr refl) (format_octal-IsDigit d.file_mode))
        (λ e. ap (λ n. reading d d.permissions n 0 0) (ground arith))
        (λ e. set_mode (reading d d.permissions 0 0 0) d.file_mode h.mode_fits)

  read_uid :
      parse_parts (uid_part d) (reading d d.permissions d.file_mode 0 0)
      ≡ ok (reading d d.permissions d.file_mode d.uid 0)
  read_uid =
      unless-ok (d.uid == 0) (codes "uid") (itoa d.uid) (reading d d.permissions d.file_mode 0 0)
        (reading d d.permissions d.file_mode d.uid 0) (omega arith)
        (digits-Lacks b'=' _ (inr refl) (itoa-IsDigit d.uid))
        (λ e. ap (λ n. reading d d.permissions d.file_mode n 0) (ground arith))
        (λ e. set_uid (reading d d.permissions d.file_mode 0 0) d.uid (ground arith) h.uid_fits)

  read_gid : parse_parts (gid_part d) (reading d d.permissions d.file_mode d.uid 0) ≡ ok d
  read_gid =
      unless-ok (d.gid == 0) (codes "gid") (itoa d.gid)
        (reading d d.permissions d.file_mode d.uid 0) d (omega arith)
        (digits-Lacks b'=' _ (inr refl) (itoa-IsDigit d.gid))
        (λ e. ap (λ n. reading d d.permissions d.file_mode d.uid n) (ground arith))
        (λ e. set_gid (reading d d.permissions d.file_mode d.uid 0) d.gid (ground arith) h.gid_fits)

  parse_parts-format_parts : parse_parts (format_parts d) no_device ≡ ok d
  unfolding format_parts
  parse_parts-format_parts =
      parse_parts-append (path_part d) _ _ _ read_path
      ∙ parse_parts-append (permissions_part d) _ _ _ read_permissions
      ∙ parse_parts-append (mode_part d) _ _ _ read_mode
      ∙ parse_parts-append (uid_part d) _ _ _ read_uid
      ∙ read_gid

  unless-Lacks :
      (b : Bool) (key val : Text)
      → Lacks b';' key
      → Lacks b';' val
      → All (Lacks b';') (unless b (field key val))
  unless-Lacks true key val k v = tt
  unless-Lacks false key val k v =
      (All-append (λ c. c ≢ b';') key (b'=' ∷ val) k (omega arith, v), tt)

  others_Lacks :
      All (Lacks b';') (permissions_part d ++ (mode_part d ++ (uid_part d ++ gid_part d)))
  others_Lacks =
      All-append (Lacks b';') (permissions_part d) _
        (unless-Lacks _ (codes "permissions") d.permissions (omega arith) h.permissions_parts)
        (All-append (Lacks b';') (mode_part d) _
          (unless-Lacks _ (codes "fileMode") (format_octal d.file_mode) (omega arith)
            (digits-Lacks b';' _ (inl refl) (format_octal-IsDigit d.file_mode)))
          (All-append (Lacks b';') (uid_part d) _
            (unless-Lacks _ (codes "uid") (itoa d.uid) (omega arith)
              (digits-Lacks b';' _ (inl refl) (itoa-IsDigit d.uid)))
            (unless-Lacks _ (codes "gid") (itoa d.gid) (omega arith)
              (digits-Lacks b';' _ (inl refl) (itoa-IsDigit d.gid)))))

  -- A device whose path and permissions hold no separator and whose numbers fit 32 bits is printed by
  -- `Format` in a form that `parseDevice` reads back.
  pub parse_device-format : parse_device (format d) ≡ ok d
  unfolding parse_device format format_parts
  parse_device-format =
      ap (λ ps. parse_parts ps no_device)
        (split-join b';' (field (codes "path") d.path) _
          (unless-Lacks false (codes "path") d.path (omega arith) h.path_parts).0 others_Lacks)
      ∙ parse_parts-format_parts
