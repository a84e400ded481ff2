-- ===== src/Rollback/Versions.antt =====
-- The choice of versions in adt/rollback.go: what a transport created, and what is written back.
pub mod Previous
pub mod Plan
use adtler.Prelude.{
  Bool, true, false, not, ◌&&◌, ◌||◌, List, [], ◌∷◌, ◌++◌, if◌then◌else◌, all, any, filter, Text,
  codes, text_eq, to_upper, equal_fold,
}
use adtler.Adt.{GoError, plain, wrap, Result, ok, err, VersionInfo, wrap_result}

-- the set of the transports, in capitals
unfoldable pub in_set : List Text → Text → Bool
unfolding to_upper text_eq
in_set transports t = any (λ u. text_eq (to_upper u) (to_upper t)) transports

unfoldable pub carries : List Text → VersionInfo → Bool
unfolding in_set
carries transports v = in_set transports v.transport

unfoldable pub created_by_transport : List VersionInfo → List Text → Bool
unfolding carries
created_by_transport [] transports = false
created_by_transport (v ∷ versions) transports = all (carries transports) (v ∷ versions)

-- The loop of findPreTransportVersion: seenTransport and restoreURI.
unfoldable pub scan_versions : List Text → Bool → List VersionInfo → Bool × Text
unfolding carries
scan_versions transports seen [] = (seen, [])
scan_versions transports seen (v ∷ versions) =
    let rest = scan_versions transports (carries transports v || seen) versions in
    if carries transports v then rest else if seen then (true, v.content_uri) else rest

abbrev pub not_in_history : GoError
not_in_history = plain (codes "transport not found in version history")

abbrev pub no_earlier_version : GoError
no_earlier_version =
    plain (codes "no version before transport (object may have been created by it)")

unfoldable pub found_version : Bool × Text → Result Text
found_version (false, uri) = err not_in_history
found_version (true, []) = err no_earlier_version
found_version (true, c ∷ uri) = ok (c ∷ uri)

unfoldable pub find_pre_transport_version : List VersionInfo → List Text → Result Text
unfolding scan_versions found_version
find_pre_transport_version versions transports =
    found_version (scan_versions transports false versions)

unfoldable pub history_has_transport : List VersionInfo → List Text → Bool
unfolding equal_fold
history_has_transport [] transports = false
history_has_transport (v ∷ versions) transports =
    any (λ t. equal_fold v.transport t) transports || history_has_transport versions transports

pub record SourceWrite : Type 0 where
  pub include : Text
  pub content_uri : Text

-- `order`: the includes, each where it first stands.
unfoldable pub includes_in_order : List Text → List VersionInfo → List Text
unfolding text_eq
includes_in_order seen [] = []
includes_in_order seen (v ∷ versions) =
    let rest = includes_in_order (v.include ∷ seen) versions in
    if any (text_eq v.include) seen then rest else v.include ∷ rest

-- byInclude[include]
unfoldable pub history_of : Text → List VersionInfo → List VersionInfo
unfolding filter text_eq
history_of include = filter (λ v. text_eq v.include include)

unfoldable pub name_include : Text → Result Text → Result Text
unfolding wrap_result
name_include [] r = r
name_include (c ∷ include) r = wrap_result (codes "include " ++ (c ∷ include)) r

unfoldable pub add_write :
    Text → Result Text → Result (List SourceWrite) → Result (List SourceWrite)
add_write include (err e) rest = err e
add_write include (ok uri) (err e) = err e
add_write include (ok uri) (ok writes) =
    ok (record { include = include; content_uri = uri } ∷ writes)

unfoldable pub plan_includes : List VersionInfo → List Text → List Text → Result (List SourceWrite)
unfolding history_of history_has_transport find_pre_transport_version name_include add_write
plan_includes versions transports [] = ok []
plan_includes versions transports (include ∷ includes) =
    let rest = plan_includes versions transports includes in
    let history = history_of include versions in
    if not (history_has_transport history transports)
    then rest
    else add_write include (name_include include (find_pre_transport_version history transports))
        rest

unfoldable pub some_writes : Result (List SourceWrite) → Result (List SourceWrite)
some_writes (err e) = err e
some_writes (ok []) = err not_in_history
some_writes (ok (w ∷ writes)) = ok (w ∷ writes)

unfoldable pub plan_restore : List VersionInfo → List Text → Result (List SourceWrite)
unfolding includes_in_order plan_includes some_writes
plan_restore versions transports =
    some_writes (plan_includes versions transports (includes_in_order [] versions))
