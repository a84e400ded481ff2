-- ===== src/Rollback/Quiet/Restoring.antt =====
-- The restore of an object stops behind a 401, and deletes nothing.
use adtler.Prelude.{◌≡◌, refl, inl, inr, Bool, true, false, List, [], ◌∷◌, Text, codes, Bool-cases}
use adtler.Adt.{
  GoError, wrap, is_unauthorized, as_adt, Backend, Call, VersionInfo, get_version_history,
  get_version_source, get_source, lock_object, unlock_object, set_source, set_include_source,
  activate_objects,
}
use adtler.Adt.Stops.{
  Policy, is_delete, is_unlock, never, Steps, Stops, stops_rules, Stops-pure, Stops-raise,
  Stops-bind, Steps-pure, Steps-raise, Steps-if, Steps-bind, Stops-attempt_unlock,
}
use adtler.Adt.Handling.{Steps-handle}
use adtler.Rollback.Versions.{SourceWrite}
use adtler.Rollback.Restore.{
  read_source, read_sources, read_etag, write_source, unlock, unlock_unless_unauthorized,
  write_failed, write_all, unlock_written, activate, restore_version, classify,
  rollback_or_classify,
}

module _ (b : Backend) (P : Policy) (spares : (c : Call) → is_delete c ≡ false → P.allows c) where
  read_source-Stops : (w : SourceWrite) → Stops P (read_source b w)
  unfolding read_source is_delete
  read_source-Stops w = search (stops_rules, spares (get_version_source w.content_uri) refl)

  read_sources-Stops : (writes : List SourceWrite) → Stops P (read_sources b writes)
  unfolding read_sources
  read_sources-Stops [] = Stops-pure P _
  read_sources-Stops (w ∷ writes) =
      Stops-bind P (read_source b w) _ (read_source-Stops w)
        (λ source. Stops-bind P _ _ (read_sources-Stops writes) (λ rest. Stops-pure P _))

  read_etag-Stops : (uri : Text) (writes : List SourceWrite) → Stops P (read_etag b uri writes)
  unfolding read_etag is_delete
  read_etag-Stops uri writes = search (stops_rules, spares (get_source uri) refl)

  write_source-Stops :
      (uri include source handle request etag : Text)
      → Stops P (write_source b uri include source handle request etag)
  unfolding write_source is_delete
  write_source-Stops uri include source handle request etag = search (
    stops_rules,
    spares (set_source uri source handle request etag) refl,
    spares (set_include_source uri include source handle request) refl,
  )

  unlock-Stops : (uri handle : Text) → Stops P (unlock b uri handle)
  unfolding unlock is_delete
  unlock-Stops uri handle = search (stops_rules, spares (unlock_object uri handle) refl)

  -- Behind a 401 nothing is sent.
  unlock_unless_unauthorized-Steps :
      (uri handle : Text) (e : GoError)
      → Steps P
          (λ _. is_unauthorized e)
          (is_unauthorized e)
          (unlock_unless_unauthorized b uri handle e)
  unfolding unlock_unless_unauthorized unlock is_delete is_unlock
  unlock_unless_unauthorized-Steps uri handle e = elim (Bool-cases (is_unauthorized e)) [
    | inl x ↦ rw x (Steps-pure P _ true tt (λ q. q))
    | inr x ↦ rw x (
        Stops-attempt_unlock P (unlock_object uri handle) (λ log. b.unlock log uri handle) tt refl
          (spares (unlock_object uri handle) refl))
  ]

  write_failed-Steps :
      (uri handle : Text) (later : Bool) (e : GoError)
      → Steps P never (is_unauthorized e) (write_failed b uri handle later e)
  unfolding write_failed is_unauthorized as_adt
  write_failed-Steps uri handle true e =
      Steps-bind P _ never _ _ _ (unlock_unless_unauthorized-Steps uri handle e)
        (λ _. Steps-raise P never _ _ (λ q. q))
  write_failed-Steps uri handle false e =
      Steps-bind P _ never _ _ _ (unlock_unless_unauthorized-Steps uri handle e)
        (λ _. Steps-raise P never _ _ (λ q. q))

  write_all-Stops :
      (uri handle request etag : Text) (later : Bool) (writes : List (SourceWrite × Text))
      → Stops P (write_all b uri handle request etag later writes)
  unfolding write_all
  write_all-Stops uri handle request etag later [] = Stops-pure P _
  write_all-Stops uri handle request etag later ((w, source) ∷ writes) =
      Steps-handle P never _ _ _ (write_source-Stops uri w.include source handle request etag)
        (λ done. write_all-Stops uri handle request etag true writes)
        (λ e. write_failed-Steps uri handle later e)

  unlock_written-Stops : (uri handle : Text) → Stops P (unlock_written b uri handle)
  unfolding unlock_written is_unauthorized as_adt
  unlock_written-Stops uri handle =
      Steps-handle P never _ _ _ (unlock-Stops uri handle) (λ done. Stops-pure P _)
        (λ e.
          Steps-if P never _ (is_unauthorized e) _ _
            (λ q.
              Steps-raise P never _ (wrap (codes "source written but not activated, unlock") e)
                (λ r. r))
            (λ q. Steps-pure P never (is_unauthorized e) tt (λ r. cc)))

  activate-Stops : (uri : Text) → Stops P (activate b uri)
  unfolding activate is_delete
  activate-Stops uri = search (stops_rules, spares (activate_objects (uri ∷ [])) refl)

  restore_version-Stops :
      (uri : Text) (writes : List SourceWrite) (request : Text)
      → Stops P (restore_version b uri writes request)
  unfolding restore_version is_delete
  restore_version-Stops uri writes request =
      search
        (
          stops_rules,
          read_sources-Stops,
          read_etag-Stops,
          spares (lock_object uri) refl,
          write_all-Stops,
          unlock_written-Stops,
          activate-Stops,
        )
        depth 8

  classify-Stops :
      (uri request : Text) (tasks : List Text) (versions : List VersionInfo)
      → Stops P (classify b uri request tasks versions)
  unfolding classify
  classify-Stops uri request tasks [] = Stops-raise P _
  classify-Stops uri request tasks (v ∷ versions) =
      search (stops_rules, restore_version-Stops) depth 8

  pub rollback_or_classify-Stops :
      (uri request : Text) (tasks : List Text) → Stops P (rollback_or_classify b uri request tasks)
  unfolding rollback_or_classify is_delete
  rollback_or_classify-Stops uri request tasks =
      search (stops_rules, spares (get_version_history uri) refl, classify-Stops)
