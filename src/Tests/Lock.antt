-- ===== src/Tests/Lock.antt =====
-- adt/lockmap.go with a client that hands out one handle and has no source of the object.
use adtler.Prelude.{◌≡◌, refl, none, some, [], codes}
use adtler.Lock.{
  adt_error, answered, failed, Client, LockMap, ok, map_after, set_lock, resolve_lock, resolve_etag,
  send, lock_request,
}
use adtler.Lock.Resolve.{SameHandles, resolve_lock-resolve_lock, resolve_etag-SameHandles}

abbrev class_client : Client
class_client = record {
  lock_object = λ sent uri. answered (codes "H1");
  get_source = λ sent uri. failed (adt_error 400);
  fetch_etag = some (λ sent uri. answered (codes "E1"));
}

abbrev no_locks : LockMap
no_locks = record { locks = λ key. none; sent = [] }

abbrev one_lock : LockMap
one_lock = set_lock (codes "S") (codes "H1") [] (send (lock_request (codes "u")) no_locks)

locked : resolve_lock class_client (codes "S") (codes "u") [] no_locks ≡ ok (codes "H1") one_lock
unfolding resolve_lock
locked = refl

resolve_lock-resolve_lock_example :
    resolve_lock class_client (codes "S") (codes "u") [] one_lock ≡ ok (codes "H1") one_lock
resolve_lock-resolve_lock_example =
    resolve_lock-resolve_lock class_client class_client (codes "S") (codes "u") (codes "u")
      (codes "H1") no_locks one_lock locked (λ h. cc h)

resolve_etag-SameHandles_example :
    SameHandles one_lock (map_after (resolve_etag class_client (codes "S") (codes "u") one_lock))
resolve_etag-SameHandles_example =
    resolve_etag-SameHandles class_client (codes "S") (codes "u") one_lock
