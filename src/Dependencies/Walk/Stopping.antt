-- ===== src/Dependencies/Walk/Stopping.antt =====
-- The traversal of adt/dependencies.go stops behind a 401 with its error.
use adtler.Prelude.{sym, subst, ℕ, zero, suc, List, [], ◌∷◌, Option, All, Text, codes, length}
use adtler.Transport.{QueryAnswer}
use adtler.Adt.{GoError, is_unauthorized, Result, Log, Exec}
use adtler.Adt.Stops.{
  any_call, Steps, Stops, never, Steps-raise, Steps-if, Stops-pure, Stops-perform, Stops-bind,
}
use adtler.Adt.Handling.{Steps-handle}
use adtler.Dependencies.{
  table, domain, UseTypes, unless_unauthorized, unknown_names, run, read_tadir, read_rest,
  classify_ddic_objects, rows_of, all_unknown,
}
use adtler.Dependencies.Chunks.{ddic_in_list_max_bytes, chunk_names}
use adtler.Dependencies.Walk.{
  QueueEntry, Traversal, warn, warn_if_capped, add_fields, add_first, add_structures, query_chunks,
  ddic_query_tabl, ddic_query_dtel, ddic_query_doma, query_row_types, classify_chunks,
  ddic_query_ttyp, TypeQuery, unless_none, names_of_type, query_types, queries, query_level, chain,
}

unless-Steps :
    {A : Type 0} (e : GoError) (m : Exec A)
    → Stops any_call m
    → Steps any_call never (is_unauthorized e) (unless_unauthorized e m)
unfolding unless_unauthorized
unless-Steps e m s =
    Steps-if any_call never (is_unauthorized e) (is_unauthorized e) _ m
      (λ _. Steps-raise any_call never (is_unauthorized e) e (λ q. q))
      (λ h. subst (λ b. Steps any_call never b m) (sym h) s)

module _ (query : Log → Text → ℕ → Result (Option QueryAnswer)) where
  pub run-Stops : (sql : Text) (rows : ℕ) → Stops any_call (run query sql rows)
  unfolding run
  run-Stops sql rows = Stops-perform any_call _ _ tt

  read_tadir-Stops :
      (types : UseTypes) (names : List Text) → Stops any_call (read_tadir query types names)
  unfolding read_tadir
  read_tadir-Stops types [] = Stops-pure any_call types
  read_tadir-Stops types (n ∷ names) =
      Steps-handle any_call never (run query _ (length (n ∷ names))) _ _ (run-Stops _ _)
        (λ qr. Stops-pure any_call _) (λ e. unless-Steps e _ (Stops-pure any_call types))

  read_rest-Stops :
      (names : List Text) (types : UseTypes) → Stops any_call (read_rest query names types)
  unfolding read_rest
  read_rest-Stops names types = read_tadir-Stops types (unknown_names names types)

  pub classify_ddic_objects-Stops :
      (names : List Text) → Stops any_call (classify_ddic_objects query names)
  unfolding classify_ddic_objects
  classify_ddic_objects-Stops names =
      Steps-handle any_call never (run query _ (length names)) _ _ (run-Stops _ _)
        (λ qr. read_rest-Stops names _)
        (λ e. unless-Steps e _ (read_rest-Stops names (all_unknown names)))

  query_chunks-Stops :
      (sql : List Text → Text) (max_rows : List Text → ℕ) (failed : Text)
      (add : List (List Text) → Traversal → Traversal) (chunks : List (List Text)) (w : Traversal)
      → Stops any_call (query_chunks query sql max_rows failed add chunks w)
  unfolding query_chunks
  query_chunks-Stops sql max_rows failed add [] w = Stops-pure any_call w
  query_chunks-Stops sql max_rows failed add (c ∷ chunks) w =
      Steps-handle any_call never (run query (sql c) (max_rows c)) _ _ (run-Stops _ _)
        (λ qr. query_chunks-Stops sql max_rows failed add chunks (add (rows_of qr) w))
        (λ e. unless-Steps e _ (query_chunks-Stops sql max_rows failed add chunks (warn failed w)))

  query_row_types-Stops :
      (chunks : List (List Text)) (structures : List Text) (w : Traversal)
      → Stops any_call (query_row_types query chunks structures w)
  unfolding query_row_types
  query_row_types-Stops [] structures w = Stops-pure any_call _
  query_row_types-Stops (c ∷ chunks) structures w =
      Steps-handle any_call never (run query _ (length c)) _ _ (run-Stops _ _)
        (λ qr. query_row_types-Stops chunks _ _)
        (λ e. unless-Steps e _ (query_row_types-Stops chunks structures _))

  classify_chunks-Stops :
      (chunks : List (List Text)) (w : Traversal) → Stops any_call (classify_chunks query chunks w)
  unfolding classify_chunks
  classify_chunks-Stops [] w = Stops-pure any_call w
  classify_chunks-Stops (c ∷ chunks) w =
      Stops-bind any_call (classify_ddic_objects query c) _ (classify_ddic_objects-Stops c)
        (λ types. classify_chunks-Stops chunks (add_structures types c w))

  abbrev Quietly : TypeQuery → Type 0
  Quietly step = (names : List Text) (w : Traversal) → Stops any_call (step names w)

  queries-Stops : All (λ q. Quietly q.1) (queries query)
  unfolding queries ddic_query_tabl ddic_query_dtel ddic_query_doma ddic_query_ttyp
  queries-Stops = (
    λ names.
        query_chunks-Stops _ _ (codes "DD03L query failed")
          (λ rows w. warn_if_capped rows (add_fields rows w))
          (chunk_names names ddic_in_list_max_bytes),
    (
      λ names.
          query_chunks-Stops _ _ (codes "DD04L query failed") (add_first (codes "DOMA") domain)
            (chunk_names names ddic_in_list_max_bytes),
      (
        λ names.
            query_chunks-Stops _ _ (codes "DD01L query failed") (add_first (codes "TABL") table)
              (chunk_names names ddic_in_list_max_bytes),
        (
          λ names w.
              Stops-bind any_call _ _
                (query_row_types-Stops (chunk_names names ddic_in_list_max_bytes) [] w)
                (λ (structures, w').
                  classify_chunks-Stops (chunk_names structures ddic_in_list_max_bytes) w'),
          tt,
        ),
      ),
    ),
  )

  unless_none-Stops :
      (step : TypeQuery) (names : List Text) (w : Traversal)
      → Quietly step
      → Stops any_call (unless_none names step w)
  unfolding unless_none
  unless_none-Stops step [] w s = Stops-pure any_call w
  unless_none-Stops step (n ∷ names) w s = s (n ∷ names) w

  query_types-Stops :
      (qs : List (Text × TypeQuery)) (current : List QueueEntry) (w : Traversal)
      → All (λ q. Quietly q.1) qs
      → Stops any_call (query_types qs current w)
  unfolding query_types
  query_types-Stops [] current w s = Stops-pure any_call w
  query_types-Stops ((t, step) ∷ qs) current w (s, ss) =
      Stops-bind any_call (unless_none (names_of_type t current) step w) (query_types qs current)
        (unless_none-Stops step (names_of_type t current) w s)
        (λ w'. query_types-Stops qs current w' ss)

  pub chain-Stops :
      (depth : ℕ) (current : List QueueEntry) (w : Traversal)
      → Stops any_call (chain query depth current w)
  unfolding chain query_level
  chain-Stops zero current w = Stops-pure any_call w
  chain-Stops (suc depth) [] w = Stops-pure any_call w
  chain-Stops (suc depth) (e ∷ current) w =
      Stops-bind any_call (query_types (queries query) (e ∷ current) _) _
        (query_types-Stops (queries query) (e ∷ current) _ queries-Stops)
        (λ w'. chain-Stops depth w'.next w')
