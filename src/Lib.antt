-- ===== src/Lib.antt =====
-- A verification library for adtler, a Go client of SAP's ABAP Development Tools (ADT) REST API.
--
-- The program builds requests to an SAP system and reads the answers. The parts modelled here are its
-- own logic; the SAP system, HTTP, XML and the file system are parameters.
--
-- - Prelude: shared names; texts as lists of code points, with the functions of Go's `strings` that
--   the code calls, those about letter case and white space on ASCII text.
-- - Wrap (adt/query_wrap.go): wrapLongSQLLines, wrapSQLLine, tokenPreview and sqlWords, one function
--   for each loop. RunQuery sends every statement through it.
-- - Sql (adt/abapsql.go): identifiers, quoting, the pagination condition, the export statement.
-- - Export (adt/custexport/export.go): exportTable, which sends the statements of Sql to a client and
--   collects the pages. The loop runs on fuel, one unit for each page; one page more than the table
--   has rows is enough, since every full page holds a row.
-- - Patch (adt/patch.go): PatchOp and ApplyPatchOps with all that it calls, and LineDelta. Line numbers
--   are integers, since the caller may send negative ones. Among operations of one line the order of
--   sort.Slice is left open by Go; here they keep the given order.
-- - Token (adt/tokensource.go): tokenSource and refreshAfter401, cut where another request may come
--   between: at the locks, the callback and the channel. Step is one such step of one request, and
--   Reachable is what any sequence of them reaches.
-- - Lock (adt/lockmap.go): LockMap, ResolveLock and ResolveETag, one call at a time. The client is a
--   record of its answers, functions of the requests sent before.
-- - TextElements (adt/textelements.go): the text format of the selection texts.
-- - Errors (adt/errorkind.go, and LockingTransport of adt/types.go): the kinds of errors. errors.As is
--   the choice between an error that is an *ADTError and one that is not.
-- - Redirect (adt/redirect.go): sameOriginRedirect, and the chains of requests that pass it.
-- - Adt (adt/client.go, adt/types.go): the operations of the client that others call, as a record of
--   functions of the calls made before, and actions that call them and log each call. Adt.Stops,
--   Adt.Handling, Adt.Yields, Adt.Gives, Adt.Keeps and Adt.Steady have the rules by which properties
--   of actions are proved.
-- - Session (adt/client.go): setAuth, the CSRF preflight, doReadWith, doMutateWith and Logout, one call at
--   a time. SAP's answers and the callback that refreshes a token are functions of the requests sent
--   before; refreshAfter401 is that of Token without other requests. The two HTTP clients differ in
--   their timeouts alone and are one here. Cookies are left out.
-- - Rollback (adt/rollback.go, adt/rollback_targets.go): RollbackTransportWithOptions with all that it
--   calls. Names.object_uri is ObjectURI of adt/object.go. The rounds of the deletion run on fuel, one
--   round for each object and one more, which is enough since every further round has fewer objects.
--   A reason is kept as what its text is made of. A class include's version history is read by the
--   client's GetVersionHistory, which is not part of this model. ActivateObjects is one call, which may
--   send several requests; that it passes over errors of its second read stays within it.
-- - Transport (adt/transport.go): the pages of requests and the objects of a request that are read by
--   queries: getTransportRequestsViaQuery with its cursor, and getTransportObjectsViaQuery with its
--   deduper. RunQuery is a parameter, a function of the query's text and its row limit. The regular
--   expressions are written as tests on the characters. Where rows[limit-1] would panic on a limit of 0,
--   which the options exclude, the model has an error.
-- - Release (adt/transport.go): releaseTransportVerified with all that it calls, as actions of Adt. The
--   XML decoder's results are parameters. The context that ends the wait on a background run is the
--   number of polls that it lets through, and so the loop of polls is recursion on that number.
-- - Dependencies (adt/dependencies.go): GetObjectDependencies with all that it calls. RunQuery is a
--   parameter, a function of the calls made before. The traversal is recursion on the depth that is
--   left. A warning is kept without the error's text, and a negative limit, which acts as 0, is left out.
--   The length of an IN-list is counted in characters, which are the code's bytes where names are ASCII.
--
-- Not modelled: the tree of requests and the creation of requests in adt/transport.go, timeouts and
-- contexts (but for those that end the wait on a refresh or on a background run), logging, the XML of
-- the answers, and the other files of adt, adt/adtxml, auth and tools.
pub mod Prelude
pub mod Wrap
pub mod Patch
pub mod Token
pub mod Lock
pub mod TextElements
pub mod Dependencies
pub mod Errors
pub mod Redirect
pub mod Release
pub mod Adt
pub mod Rollback
pub mod Session
pub mod Transport
pub mod Sql
pub mod Export
pub mod Tests
