-- ===== src/Tests/Init.antt =====
-- A start on a disk on which nothing is linked yet.
use planet.Os.{remove, symlink, calm, Disk}
use planet.Etcd.Init.{binaries, link_binaries}
use planet.Trace.{ok}
use planet.Base.{◌≡◌, refl, none, Text, codes, text_eq}

abbrev version : Text
version = codes "v3.3.22"

abbrev empty : Disk
empty = calm λ q. none

linked : (link_binaries version binaries empty).0 ≡ ok tt
unfolding link_binaries symlink remove text_eq
linked = refl
