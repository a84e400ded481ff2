-- ===== src/Lock/Resolve.antt =====
-- What ResolveLock and ResolveETag return, send and leave in the map.
use adtler.Prelude.{
  ◌≡◌, ◌≢◌, refl, ap, ◌∙◌, true, false, List, [], ◌∷◌, some, Text, text_eq, text_eq_iff,
  text_eq_refl, arith, Bool-cases, Option-cases, inl, inr,
}
use adtler.Lock.{
  Request, lock_request, source_request, etag_request, ClientError, adt_error, other_error, Answer,
  answered, failed, Client, LockMap, Resolved, ok, err, map_after, put_entry, set_lock, get_lock,
  update_etag, is_unauthorized, send, cached_handle, cached_etag, auto_lock, resolve_lock,
  etag_fallback, fetch_source_etag, resolve_etag,
}

cached_handle-set_lock :
    (key handle tag : Text) (m : LockMap) → cached_handle key (set_lock key handle tag m) ≡ handle
unfolding cached_handle set_lock put_entry get_lock
cached_handle-set_lock key handle tag m = let same = text_eq_refl key in ground arith

text_eq_nil : (t : Text) → t ≢ [] → text_eq t [] ≡ false
unfolding text_eq
text_eq_nil [] h = absurd (h refl)
text_eq_nil (c ∷ t) h = refl

-- A handle that is in the map and not empty is returned without a request.
resolve_lock-of_cached :
    (client : Client) (key uri handle : Text) (m : LockMap)
    → cached_handle key m ≡ handle
    → handle ≢ []
    → resolve_lock client key uri [] m ≡ ok handle m
unfolding resolve_lock
resolve_lock-of_cached client key uri handle m e some_handle =
    rw (e, text_eq_nil handle some_handle) refl

cached_handle-resolve_lock :
    (client : Client) (key uri handle : Text) (m m' : LockMap)
    → resolve_lock client key uri [] m ≡ ok handle m'
    → cached_handle key m' ≡ handle
unfolding resolve_lock auto_lock
cached_handle-resolve_lock client key uri handle m m' h =
    let stored = cached_handle-set_lock key in
    elim (Bool-cases (text_eq (cached_handle key m) [])) [
      | inr e ↦ ground arith
      | inl e ↦ auto_locked (client.lock_object m.sent uri) refl e
    ]
  where
    auto_locked :
        (a : Answer)
        → client.lock_object m.sent uri ≡ a
        → text_eq (cached_handle key m) [] ≡ true
        → cached_handle key m' ≡ handle
    auto_locked (failed x) f e = absurd (ground arith)
    auto_locked (answered t) f e =
        let stored = cached_handle-set_lock key t [] (send (lock_request uri) m) in ground arith

-- A handle that ResolveLock has returned for a key without an explicit handle, and that is not
-- empty, is returned again for that key without a request, whatever the client would answer then.
pub resolve_lock-resolve_lock :
    (client client' : Client) (key uri uri' handle : Text) (m m' : LockMap)
    → resolve_lock client key uri [] m ≡ ok handle m'
    → handle ≢ []
    → resolve_lock client' key uri' [] m' ≡ ok handle m'
resolve_lock-resolve_lock client client' key uri uri' handle m m' first some_handle =
    resolve_lock-of_cached client' key uri' handle m'
      (cached_handle-resolve_lock client key uri handle m m' first) some_handle

-- What an update of an ETag leaves: the same keys, with the same handles.
abbrev pub SameHandles : LockMap → LockMap → Type 0
SameHandles m m' = (k : Text) → cached_handle k m' ≡ cached_handle k m

update_etag-SameHandles : (key tag : Text) (m : LockMap) → SameHandles m (update_etag key tag m)
unfolding update_etag put_entry cached_handle get_lock
update_etag-SameHandles key tag m k =
    let same = text_eq_iff k key in
    elim (Option-cases (m.locks key)) [
      | inl e ↦ ground arith
      | inr (l, e) ↦ elim (Bool-cases (text_eq k key)) [
        | inl f ↦
            let eq : k ≡ key = same.0 f in
            let here : m.locks k ≡ some l = ap m.locks eq ∙ e in ground arith
        | inr f ↦ ground arith
      ]
    ]

send-SameHandles : (r : Request) (m : LockMap) → SameHandles m (send r m)
unfolding send cached_handle get_lock
send-SameHandles r m k = refl

-- What ResolveETag has sent, with the reason for each request, and what it has done to the map.
pub data Resolution (client : Client) (key uri : Text) (m : LockMap) : Resolved → Type 0 where
  cached :
      {r : Resolved}
      → cached_etag key m ≢ []
      → r ≡ ok (cached_etag key m) m
      → Resolution client key uri m r
  from_source :
      (tag : Text) {r : Resolved}
      → cached_etag key m ≡ []
      → client.get_source m.sent uri ≡ answered tag
      → r ≡ ok tag (update_etag key tag (send (source_request uri) m))
      → Resolution client key uri m r
  given_up :
      (e : ClientError) {r : Resolved}
      → cached_etag key m ≡ []
      → client.get_source m.sent uri ≡ failed e
      → r ≡ err e (send (source_request uri) m)
      → Resolution client key uri m r
  from_object :
      (e : ClientError) (tag : Text) {r : Resolved}
      → cached_etag key m ≡ []
      → client.get_source m.sent uri ≡ failed e
      → e ≢ adt_error 401
      → tag ≢ []
      → r ≡ ok tag (update_etag key tag (send (etag_request uri) (send (source_request uri) m)))
      → Resolution client key uri m r
  both_failed :
      (e : ClientError) {r : Resolved}
      → cached_etag key m ≡ []
      → client.get_source m.sent uri ≡ failed e
      → e ≢ adt_error 401
      → r ≡ err e (send (etag_request uri) (send (source_request uri) m))
      → Resolution client key uri m r

is_unauthorized_iff : (e : ClientError) → is_unauthorized e ≡ false → e ≢ adt_error 401
unfolding is_unauthorized
is_unauthorized_iff (adt_error status) h same = ground arith
is_unauthorized_iff other_error h same = cc same

module _ (client : Client) (key uri : Text) (m : LockMap) (missing : cached_etag key m ≡ []) where
  etag_fallback-Resolution :
      (e : ClientError)
      → client.get_source m.sent uri ≡ failed e
      → Resolution client key uri m (etag_fallback client key uri e (send (source_request uri) m))
  unfolding etag_fallback
  etag_fallback-Resolution e source = elim (Option-cases client.fetch_etag) [
    | inl f ↦ given_up e missing source (ground arith)
    | inr (fetch, f) ↦ elim (Bool-cases (is_unauthorized e)) [
      | inl x ↦ given_up e missing source (ground arith)
      | inr x ↦
          fetched fetch f (is_unauthorized_iff e x) x (fetch (send (source_request uri) m).sent uri)
            refl
    ]
  ]
    where
      fetched :
          (fetch : List Request → Text → Answer)
          → client.fetch_etag ≡ some fetch
          → e ≢ adt_error 401
          → is_unauthorized e ≡ false
          → (a : Answer) → fetch (send (source_request uri) m).sent uri ≡ a
          → Resolution client key uri m
              (etag_fallback client key uri e (send (source_request uri) m))
      fetched fetch f allowed x (failed e') a = both_failed e missing source allowed (ground arith)
      fetched fetch f allowed x (answered tag) a = elim (Bool-cases (text_eq tag [])) [
        | inl g ↦ both_failed e missing source allowed (ground arith)
        | inr g ↦
            let empty = text_eq_iff tag [] in
            from_object e tag missing source allowed (λ h. ground arith) (ground arith)
      ]

-- ResolveETag returns the cached ETag without a request; otherwise GetSource's, after that one
-- request; otherwise FetchETag's, if it is not empty. FetchETag is sent only after a GetSource that
-- has failed with another error than 401, and an error returned is GetSource's. Only the ETag of the
-- key is changed.
pub resolve_etag-Resolution :
    (client : Client) (key uri : Text) (m : LockMap)
    → Resolution client key uri m (resolve_etag client key uri m)
unfolding resolve_etag fetch_source_etag
resolve_etag-Resolution client key uri m =
    let empty = text_eq_iff (cached_etag key m) [] in
    elim (Bool-cases (text_eq (cached_etag key m) [])) [
      | inr e ↦ cached (λ h. ground arith) (ground arith)
      | inl e ↦ asked e (empty.0 e) (client.get_source m.sent uri) refl
    ]
  where
    asked :
        text_eq (cached_etag key m) [] ≡ true
        → cached_etag key m ≡ []
        → (a : Answer) → client.get_source m.sent uri ≡ a
        → Resolution client key uri m (resolve_etag client key uri m)
    asked e missing (answered tag) a = from_source tag missing a (ground arith)
    asked e missing (failed x) a =
        rw (e, a, resolve_etag, fetch_source_etag)
          (etag_fallback-Resolution client key uri m missing x a)

-- Whatever the client answers, ResolveETag leaves every key's lock handle as it was.
pub resolve_etag-SameHandles :
    (client : Client) (key uri : Text) (m : LockMap)
    → SameHandles m (map_after (resolve_etag client key uri m))
unfolding map_after
resolve_etag-SameHandles client key uri m k = elim (resolve_etag-Resolution client key uri m) [
  | cached some_tag e ↦ rw e refl
  | from_source tag missing source e ↦ rw e (
      update_etag-SameHandles key tag (send (source_request uri) m) k
      ∙ send-SameHandles (source_request uri) m k)
  | given_up x missing source e ↦ rw e (send-SameHandles (source_request uri) m k)
  | from_object x tag missing source allowed some_tag e ↦ rw e (
      update_etag-SameHandles key tag (send (etag_request uri) (send (source_request uri) m)) k
      ∙ (send-SameHandles (etag_request uri) (send (source_request uri) m) k
          ∙ send-SameHandles (source_request uri) m k))
  | both_failed x missing source allowed e ↦ rw e (
      send-SameHandles (etag_request uri) (send (source_request uri) m) k
      ∙ send-SameHandles (source_request uri) m k)
]
