-- ===== src/Tests/Scopes.antt =====
-- A scope without processes among others.
use planet.Cgroup.Scopes.{Visited}
use planet.Trace.{ok, Result}
use planet.Base.{true, List, [], ◌∷◌, if◌then◌else◌, Text, codes, text_eq}

abbrev empty_scope : Visited
empty_scope = record { path = codes "/a/run-r1.scope"; name = codes "run-r1.scope"; is_old = true }

abbrev busy_scope : Visited
busy_scope = record { path = codes "/a/run-r2.scope"; name = codes "run-r2.scope"; is_old = true }

abbrev visited : List (Result Visited)
visited = ok empty_scope ∷ ok busy_scope ∷ []

abbrev pids : Text → Result Text
pids p = if text_eq p (codes "/a/run-r1.scope") then ok [] else ok (codes "17\n")

abbrev base : Text → Text
base p = codes "run-r1.scope"
