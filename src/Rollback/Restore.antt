-- ===== src/Rollback/Restore.antt =====
-- restoreVersion and rollbackOrClassify of adt/rollback.go.
use adtler.Prelude.{
  Bool, true, false, ◌||◌, List, [], ◌∷◌, ◌++◌, if◌then◌else◌, any, Text, codes, text_eq, join,
}
use adtler.Adt.{
  GoError, plain, wrap, is_unauthorized, Result, ok, err, ActivationResult, VersionInfo, Backend,
  get_version_history, get_version_source, get_source, lock_object, unlock_object, set_source,
  set_include_source, activate_objects, Exec, pure, raise, lift, perform, wrap_error, attempt,
  ◌>>=◌, ◌>>◌,
}
use adtler.Rollback.Versions.{SourceWrite, created_by_transport, plan_restore}

unfoldable pub include_suffix : Text → Text
include_suffix [] = []
include_suffix (c ∷ include) = codes " (include " ++ ((c ∷ include) ++ codes ")")

-- Main source, or an include of its own?
unfoldable pub is_main : Text → Bool
unfolding text_eq
is_main include = text_eq include [] || text_eq include (codes "main")

unfoldable pub check_activation : ActivationResult → Result (Unit {0})
unfolding join
check_activation r =
    if r.success
    then ok tt
    else err (plain (codes "activation failed: " ++ join r.messages (codes "; ")))

module _ (b : Backend) where
  unfoldable pub read_source : SourceWrite → Exec Text
  unfolding include_suffix perform wrap_error
  read_source w =
      wrap_error (codes "get version source" ++ include_suffix w.include)
        (perform (get_version_source w.content_uri) (λ log. b.version_source log w.content_uri))

  unfoldable pub read_sources : List SourceWrite → Exec (List (SourceWrite × Text))
  unfolding read_source pure ◌>>=◌
  read_sources [] = pure []
  read_sources (w ∷ writes) = do
    source ← read_source w
    rest ← read_sources writes
    pure ((w, source) ∷ rest)

  -- The ETag of the main source, empty where no write goes to it.
  unfoldable pub read_etag : Text → List SourceWrite → Exec Text
  unfolding is_main perform wrap_error pure
  read_etag uri writes =
      if any (λ w. is_main w.include) writes
      then wrap_error (codes "get current source")
          (perform (get_source uri) (λ log. b.source_etag log uri))
      else pure []

  unfoldable pub write_source : Text → Text → Text → Text → Text → Text → Exec (Unit {0})
  unfolding is_main include_suffix perform wrap_error
  write_source uri include source handle request etag =
      if is_main include
      then wrap_error (codes "set source") (
          perform (set_source uri source handle request etag)
            (λ log. b.write_source log uri source handle request etag))
      else wrap_error (codes "set source" ++ include_suffix include) (
          perform (set_include_source uri include source handle request)
            (λ log. b.write_include log uri include source handle request))

  unfoldable pub unlock : Text → Text → Exec (Unit {0})
  unfolding perform
  unlock uri handle = perform (unlock_object uri handle) (λ log. b.unlock log uri handle)

  unfoldable pub unlock_unless_unauthorized : Text → Text → GoError → Exec (Unit {0})
  unfolding is_unauthorized unlock attempt pure ◌>>=◌
  unlock_unless_unauthorized uri handle cause =
      if is_unauthorized cause then pure tt else do r ← attempt (unlock uri handle); pure tt

  -- What follows a write: the next one, or the release of the lock and the error.
  unfoldable pub write_failed : Text → Text → Bool → GoError → Exec (Unit {0})
  unfolding unlock_unless_unauthorized raise ◌>>=◌
  write_failed uri handle later e = do
    unlock_unless_unauthorized uri handle e
    raise
        (if later then wrap (codes "earlier includes were written back but not activated") e else e)

  unfoldable pub write_all :
      Text → Text → Text → Text → Bool → List (SourceWrite × Text) → Exec (Unit {0})
  unfolding write_source write_failed attempt pure ◌>>=◌
  write_all uri handle request etag later [] = pure tt
  write_all uri handle request etag later ((w, source) ∷ writes) = do
    r ← attempt (write_source uri w.include source handle request etag)
    elim r [
      | err e ↦ write_failed uri handle later e
      | ok done ↦ write_all uri handle request etag true writes
    ]

  -- The release of the lock behind the writes: only a 401 ends the restore here.
  unfoldable pub unlock_written : Text → Text → Exec (Unit {0})
  unfolding unlock attempt is_unauthorized raise pure ◌>>=◌
  unlock_written uri handle = do
    r ← attempt (unlock uri handle)
    elim r [
      | ok done ↦ pure tt
      | err e ↦
          if is_unauthorized e
          then raise (wrap (codes "source written but not activated, unlock") e)
          else pure tt
    ]

  -- ActivateObjects is one call. It reads the inactive objects behind a successful activation and
  -- passes over an error of that read, a 401 included; its answer here is what it returns.
  unfoldable pub activate : Text → Exec (Unit {0})
  unfolding perform wrap_error check_activation lift ◌>>=◌
  activate uri = do
    r ←
        wrap_error (codes "activate")
          (perform (activate_objects (uri ∷ [])) (λ log. b.activate log (uri ∷ [])))
    lift (check_activation r)

  unfoldable pub restore_version : Text → List SourceWrite → Text → Exec (Unit {0})
  unfolding read_sources read_etag perform wrap_error write_all unlock_written activate ◌>>=◌
  restore_version uri writes request = do
    sources ← read_sources writes
    etag ← read_etag uri writes
    handle ← wrap_error (codes "lock") (perform (lock_object uri) (λ log. b.lock log uri))
    write_all uri handle request etag false sources
    unlock_written uri handle
    activate uri

  -- The part behind the version history.
  unfoldable pub classify : Text → Text → List Text → List VersionInfo → Exec Bool
  unfolding created_by_transport plan_restore restore_version lift pure raise ◌>>=◌
  classify uri request tasks [] = raise (plain (codes "no version history"))
  classify uri request tasks (v ∷ versions) =
      if created_by_transport (v ∷ versions) (request ∷ tasks) then pure true else do
        writes ← lift (plan_restore (v ∷ versions) (request ∷ tasks))
        restore_version uri writes request
        pure false

  unfoldable pub rollback_or_classify : Text → Text → List Text → Exec Bool
  unfolding perform wrap_error classify ◌>>=◌
  rollback_or_classify uri request tasks = do
    versions ←
        wrap_error (codes "get version history")
          (perform (get_version_history uri) (λ log. b.version_history log uri))
    classify uri request tasks versions
