-- ===== src/Tests/Errors.antt =====
-- adt/errorkind.go on an error whose message names a request.
use adtler.Prelude.{◌≡◌, ◌↔◌, refl, some, Text, codes}
use adtler.Errors.{AdtError, unknown, object_locked_in_transport, locking_transport, classify_error}
use adtler.Errors.Requests.{LastRequest, locking_transport-LastRequest}
use adtler.Errors.Kinds.{Conflict, classify_error-Conflict, kind_name_injective}

abbrev held_elsewhere : AdtError
held_elsewhere = record {
  status_code = 409;
  exception_type = codes "ExceptionResourceLockConflict";
  message = codes "Object R3TR ZABK000001 is locked in request CCCK901974 of user X";
}

named : locking_transport held_elsewhere ≡ some (codes "CCCK901974")
unfolding locking_transport
named = refl

classify_error-Conflict_example :
    (classify_error (some held_elsewhere) ≡ object_locked_in_transport)
    ↔ (Conflict held_elsewhere × ((t : Text) × (locking_transport held_elsewhere ≡ some t)))
classify_error-Conflict_example = classify_error-Conflict held_elsewhere

kind_name_injective_example : unknown ≡ unknown
kind_name_injective_example = kind_name_injective unknown unknown refl

locking_transport-LastRequest_example : LastRequest held_elsewhere.message (codes "CCCK901974")
locking_transport-LastRequest_example =
    locking_transport-LastRequest held_elsewhere (codes "CCCK901974") named
