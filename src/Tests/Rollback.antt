-- ===== src/Tests/Rollback.antt =====
-- adt/rollback.go against a small system: request DEVK900001 with one task has created the program
-- ZNEW and changed the program ZOLD.
use adtler.Prelude.{
  ◌≡◌, ◌≢◌, ◌↔◌, ◌+◌, refl, Bool, true, false, List, [], ◌∷◌, ◌++◌, All, all, none, some, Text,
  codes, text_eq, if◌then◌else◌, ltb, length,
}
use adtler.Adt.{
  GoError, adt, ok, err, TransportObject, VersionInfo, Backend, run_query, delete_object, Event,
  Log,
}
use adtler.Adt.Gives.{Gives}
use adtler.Adt.Stops.{is_delete, is_fine, calm, quiet}
use adtler.Rollback.Entries.{no_reason, not_deleted, no_result}
use adtler.Rollback.Targets.{TargetScan}
use adtler.Rollback.Versions.{find_pre_transport_version, SourceWrite, plan_restore}
use adtler.Rollback.Versions.Previous.{Previous, find_pre_transport_version_lem}
use adtler.Rollback.Versions.Plan.{GoesBack, is_covered, plan_restore-GoesBack}
use adtler.Rollback.Deletion.{CreatedObject, OriginScan, keep_local_origin, delete_created_objects}
use adtler.Rollback.Transport.{
  delete_found, restore_and_settle, rollback_transport, rollback_transport_with_options,
}
use adtler.Rollback.Accounting.Report.{Settled, delete_created_objects-Settled}
use adtler.Rollback.Accounting.Targets.{total}
use adtler.Rollback.Accounting.Whole.{restore_and_settle-total}
use adtler.Rollback.Safety.Unheeded.{Follows, delete_found-sends_on}
use adtler.Rollback.Safety.Deletes.{rollback_transport-spares_objects, rollback_transport-quiet}

abbrev request : Text
request = codes "DEVK900001"

abbrev task : Text
task = codes "DEVK900002"

abbrev version : Text → Text → VersionInfo
version transport uri = record { transport = transport; content_uri = uri; include = [] }

abbrev entry : Text → TransportObject
entry name = record { pgm_id = codes "R3TR"; object_type = codes "PROG"; name = name }

abbrev new_uri : Text
new_uri = codes "/sap/bc/adt/programs/programs/znew"

abbrev history : Text → List VersionInfo
history uri =
    if text_eq uri new_uri
    then version task (codes "/v/1") ∷ []
    else version task (codes "/v/3") ∷ version (codes "DEVK800000") (codes "/v/2") ∷ []

-- A system that answers every request.
abbrev system : Backend
system = record {
  transport_objects = λ log t. ok (entry (codes "ZNEW") ∷ entry (codes "ZOLD") ∷ []);
  transport_tasks = λ log t. ok (task ∷ []);
  version_history = λ log uri. ok (history uri);
  version_source = λ log uri. ok (codes "REPORT zold.");
  source_etag = λ log uri. ok (codes "e1");
  lock = λ log uri. ok (codes "h1");
  unlock = λ log uri handle. ok tt;
  write_source = λ log uri source handle t etag. ok tt;
  write_include = λ log uri include source handle t. ok tt;
  activate = λ log uris. ok (record { success = true; messages = [] });
  delete = λ log uri t. ok tt;
  query = λ log sql n. ok ((codes "DEV" ∷ []) ∷ []);
}

restored_and_deleted :
    (rollback_transport_with_options system request true []).0
    ≡ ok (record no_result {
      restored =
          record { object_type = codes "PROG"; name = codes "ZOLD"; reason = no_reason } ∷ [];
      deleted = record { object_type = codes "PROG"; name = codes "ZNEW"; reason = no_reason } ∷ [];
    })
unfolding rollback_transport_with_options
restored_and_deleted = refl

rollback_transport-spares_objects_example :
    All (λ (ev : Event). is_delete ev.call ≡ false) (rollback_transport system request []).1
rollback_transport-spares_objects_example = rollback_transport-spares_objects system request

rollback_transport-quiet_example : quiet (rollback_transport system request []).1 ≡ true
rollback_transport-quiet_example = rollback_transport-quiet system request

-- Two objects that cannot be deleted.
abbrev locked_error : GoError
locked_error = adt (record { status_code = 423; exception_type = []; message = [] })

abbrev stubborn : Backend
stubborn = record system { delete = λ log uri t. err locked_error }

abbrev object : Text → Text → CreatedObject
object name uri = record {
  entry = record { object_type = codes "PROG"; name = name; reason = no_reason };
  uri = uri;
  last_err = none;
  skipped_retry = false;
}

abbrev objects : List CreatedObject
objects = object (codes "ZNEW") new_uri ∷ object (codes "ZTOO") (codes "/ztoo") ∷ []

delete_created_objects-Settled_example :
    Gives (Settled objects no_result) (delete_created_objects stubborn request objects no_result)
delete_created_objects-Settled_example =
    delete_created_objects-Settled stubborn request objects no_result (refl, (refl, tt))

abbrev scanned : TargetScan
scanned = record {
  seen = [];
  partial = false;
  rejected = none;
  result = no_result;
  targets =
      record {
        entry = record { object_type = codes "PROG"; name = codes "ZNEW"; reason = no_reason };
        uri = new_uri;
        tadir = true;
      }
      ∷ [];
}

restore_and_settle-total_example :
    Gives
      (λ r. total r ≡ total no_result + 1)
      (restore_and_settle system request true (task ∷ []) scanned)
restore_and_settle-total_example = restore_and_settle-total system request true (task ∷ []) scanned

find_pre_transport_version_lem_example :
    (find_pre_transport_version (history []) (request ∷ task ∷ []) ≡ ok (codes "/v/2"))
    ↔ (Previous (request ∷ task ∷ []) (history []) (codes "/v/2") × (codes "/v/2" ≢ []))
find_pre_transport_version_lem_example =
    find_pre_transport_version_lem (request ∷ task ∷ []) (history []) (codes "/v/2")

abbrev written : List SourceWrite
written = record { include = []; content_uri = codes "/v/2" } ∷ []

planned : plan_restore (history []) (request ∷ task ∷ []) ≡ ok written
unfolding plan_restore
planned = refl

plan_restore-GoesBack_example :
    All (GoesBack (history []) (request ∷ task ∷ [])) written
    × (all (is_covered (history []) (request ∷ task ∷ []) written) (history []) ≡ true)
plan_restore-GoesBack_example =
    plan_restore-GoesBack (history []) (request ∷ task ∷ []) written planned

-- The second question for a source system is answered with 401.
abbrev rejected_error : GoError
rejected_error = adt (record { status_code = 401; exception_type = []; message = [] })

abbrev rejecting : Backend
rejecting = record system {
  query =
      λ log sql n. if ltb 0 (length log) then err rejected_error else ok ((codes "DEV" ∷ []) ∷ []);
}

abbrev origins : OriginScan
origins = record {
  local = object (codes "ZNEW") new_uri ∷ [];
  rejected = some rejected_error;
  result = record no_result {
    failed =
        record {
          object_type = codes "PROG";
          name = codes "ZTOO";
          reason = not_deleted rejected_error;
        }
        ∷ [];
  };
}

abbrev asked : Text → Bool → Event
asked name rejected = record {
  call =
      run_query
        (codes
            "SELECT SRCSYSTEM FROM TADIR WHERE PGMID = 'R3TR' AND OBJECT = 'PROG' AND OBJ_NAME = '"
          ++ (name ++ codes "'"))
        1;
  rejected = rejected;
}

abbrev asked_log : Log
asked_log = asked (codes "ZTOO") true ∷ asked (codes "ZNEW") false ∷ []

origins_kept : keep_local_origin rejecting objects request no_result [] ≡ (ok origins, asked_log)
unfolding keep_local_origin
origins_kept = refl

not_calm : calm asked_log ≡ false
unfolding is_fine
not_calm = refl

delete_found-sends_on_example :
    Follows asked_log
      (delete_object new_uri request)
      (delete_found rejecting request objects no_result []).1
delete_found-sends_on_example =
    delete_found-sends_on rejecting request objects no_result [] asked_log origins
      (object (codes "ZNEW") new_uri) [] refl origins_kept not_calm refl
