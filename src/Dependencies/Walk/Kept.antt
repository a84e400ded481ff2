-- ===== src/Dependencies/Walk/Kept.antt =====
-- What addDep and a warning keep, the whole traversal of adt/dependencies.go keeps.
use adtler.Prelude.{
  ℕ, zero, suc, Bool, true, false, List, [], ◌∷◌, Option, leb, if◌then◌else◌, length, Text, codes,
  text_eq, All, ◌≡◌, ◌⊎◌, refl, inl, inr,
}
use adtler.Transport.{QueryAnswer}
use adtler.Adt.{GoError, is_unauthorized, Result, Log, Exec}
use adtler.Adt.Yields.{Yields, Yields-pure, Yields-raise, Yields-if, Yields-bind, Yields-handle}
use adtler.Dependencies.{
  UseType, table, data_element, domain, UseTypes, type_of, rows_of, unless_unauthorized, run,
  classify_ddic_objects,
}
use adtler.Dependencies.Chunks.{ddic_in_list_max_bytes, chunk_names}
use adtler.Dependencies.Walk.{
  QueueEntry, Traversal, warn, add_dep, ddic_max_field_rows, add_fields, add_first,
  add_element_types, add_structures, warn_if_capped, query_chunks, ddic_query_tabl, ddic_query_dtel,
  ddic_query_doma, query_row_types, classify_chunks, ddic_query_ttyp, unless_none, names_of_type,
  TypeQuery, query_types, queries, query_level, chain,
}

-- The type texts under which addDep is called for a dependency of this use type. With TABL the use
-- type is that of a table, or what the catalogue says of a row type.
abbrev pub Reports : Text → UseType → Type 0
Reports dep_type t =
    ((dep_type ≡ codes "DTEL") × (t ≡ data_element))
    ⊎ (((dep_type ≡ codes "DOMA") × (t ≡ domain)) ⊎ (dep_type ≡ codes "TABL"))

module _ (query : Log → Text → ℕ → Result (Option QueryAnswer)) (P : Traversal → Type 0)
    (adds : (name dep_type : Text) (t : UseType) (w : Traversal)
      → Reports dep_type t
      → P w
      → P (add_dep name dep_type t w))
    (warns : (text : Text) (w : Traversal) → P w → P (warn text w))
    (opens : (w : Traversal) → P w → P (record w { next = [] })) where
  add_fields-Kept : (rows : List (List Text)) (w : Traversal) → P w → P (add_fields rows w)
  unfolding add_fields
  add_fields-Kept [] w h = h
  add_fields-Kept ([] ∷ rows) w h = add_fields-Kept rows w h
  add_fields-Kept ((a ∷ []) ∷ rows) w h = add_fields-Kept rows w h
  add_fields-Kept ((a ∷ b ∷ row) ∷ rows) w h = add_fields-Kept rows _ (
      adds b (codes "TABL") table _ (inr (inr refl))
        (adds a (codes "DTEL") data_element w (inl (refl, refl)) h))

  add_first-Kept :
      (dep_type : Text) (t : UseType)
      → Reports dep_type t
      → (rows : List (List Text)) (w : Traversal) → P w
      → P (add_first dep_type t rows w)
  unfolding add_first
  add_first-Kept dep_type t r [] w h = h
  add_first-Kept dep_type t r ([] ∷ rows) w h = add_first-Kept dep_type t r rows w h
  add_first-Kept dep_type t r ((n ∷ row) ∷ rows) w h =
      add_first-Kept dep_type t r rows _ (adds n dep_type t w r h)

  if-Kept : (b : Bool) (v w : Traversal) → P v → P w → P (if b then v else w)
  if-Kept true v w hv hw = hv
  if-Kept false v w hv hw = hw

  add_element_types-Kept :
      (rows : List (List Text)) (w : Traversal) → P w → P (add_element_types rows w)
  unfolding add_element_types
  add_element_types-Kept [] w h = h
  add_element_types-Kept ([] ∷ rows) w h = add_element_types-Kept rows w h
  add_element_types-Kept ((a ∷ []) ∷ rows) w h = add_element_types-Kept rows w h
  add_element_types-Kept ((a ∷ b ∷ row) ∷ rows) w h = add_element_types-Kept rows _ (
      if-Kept (text_eq b (codes "E")) _ _
        (adds a (codes "DTEL") data_element w (inl (refl, refl)) h) h)

  add_structures-Kept :
      (types : UseTypes) (names : List Text) (w : Traversal)
      → P w
      → P (add_structures types names w)
  unfolding add_structures
  add_structures-Kept types [] w h = h
  add_structures-Kept types (n ∷ names) w h =
      add_structures-Kept types names _
        (adds n (codes "TABL") (type_of n types) w (inr (inr refl)) h)

  warn_if_capped-Kept : (rows : List (List Text)) (w : Traversal) → P w → P (warn_if_capped rows w)
  unfolding warn_if_capped
  warn_if_capped-Kept rows w h = if-Kept (leb ddic_max_field_rows (length rows)) _ w (warns _ w h) h

  Yields-unless :
      {A : Type 0} (Q : A → Type 0) (e : GoError) (m : Exec A)
      → Yields Q m
      → Yields Q (unless_unauthorized e m)
  unfolding unless_unauthorized
  Yields-unless Q e m h = Yields-if Q (is_unauthorized e) _ m (λ _. Yields-raise Q e) (λ _. h)

  query_chunks-Yields :
      (sql : List Text → Text) (max_rows : List Text → ℕ) (failed : Text)
      (add : List (List Text) → Traversal → Traversal)
      → ((rows : List (List Text)) (w : Traversal) → P w → P (add rows w))
      → (chunks : List (List Text)) (w : Traversal) → P w
      → Yields P (query_chunks query sql max_rows failed add chunks w)
  unfolding query_chunks
  query_chunks-Yields sql max_rows failed add keeps [] w h = Yields-pure P w h
  query_chunks-Yields sql max_rows failed add keeps (c ∷ chunks) w h =
      Yields-handle P (run query (sql c) (max_rows c)) _ _
        (λ log qr _.
          query_chunks-Yields sql max_rows failed add keeps chunks _ (keeps (rows_of qr) w h))
        (λ e.
          Yields-unless P e _
            (query_chunks-Yields sql max_rows failed add keeps chunks _ (warns failed w h)))

  query_row_types-Yields :
      (chunks : List (List Text)) (structures : List Text) (w : Traversal)
      → P w
      → Yields (λ r. P r.1) (query_row_types query chunks structures w)
  unfolding query_row_types
  query_row_types-Yields [] structures w h = Yields-pure _ (structures, w) h
  query_row_types-Yields (c ∷ chunks) structures w h =
      Yields-handle _ (run query _ (length c)) _ _
        (λ log qr _. query_row_types-Yields chunks _ _ (add_element_types-Kept (rows_of qr) w h))
        (λ e. Yields-unless _ e _ (query_row_types-Yields chunks structures _ (warns _ w h)))

  any_value : {A : Type 0} (m : Exec A) → Yields (λ _. Unit {0}) m
  any_value m = record { at = λ log a h. tt }

  classify_chunks-Yields :
      (chunks : List (List Text)) (w : Traversal) → P w → Yields P (classify_chunks query chunks w)
  unfolding classify_chunks
  classify_chunks-Yields [] w h = Yields-pure P w h
  classify_chunks-Yields (c ∷ chunks) w h =
      Yields-bind (λ _. Unit {0}) P (classify_ddic_objects query c) _ (any_value _)
        (λ types _. classify_chunks-Yields chunks _ (add_structures-Kept types c w h))

  abbrev Keeps : TypeQuery → Type 0
  Keeps step = (names : List Text) (w : Traversal) → P w → Yields P (step names w)

  ddic_query_tabl-Keeps : Keeps (ddic_query_tabl query)
  unfolding ddic_query_tabl
  ddic_query_tabl-Keeps names =
      query_chunks-Yields _ _ _ _
        (λ rows w h. warn_if_capped-Kept rows _ (add_fields-Kept rows w h))
        (chunk_names names ddic_in_list_max_bytes)

  ddic_query_dtel-Keeps : Keeps (ddic_query_dtel query)
  unfolding ddic_query_dtel
  ddic_query_dtel-Keeps names =
      query_chunks-Yields _ _ _ _ (add_first-Kept (codes "DOMA") domain (inr (inl (refl, refl))))
        (chunk_names names ddic_in_list_max_bytes)

  ddic_query_doma-Keeps : Keeps (ddic_query_doma query)
  unfolding ddic_query_doma
  ddic_query_doma-Keeps names =
      query_chunks-Yields _ _ _ _ (add_first-Kept (codes "TABL") table (inr (inr refl)))
        (chunk_names names ddic_in_list_max_bytes)

  ddic_query_ttyp-Keeps : Keeps (ddic_query_ttyp query)
  unfolding ddic_query_ttyp
  ddic_query_ttyp-Keeps names w h =
      Yields-bind _ P _ _ (query_row_types-Yields (chunk_names names ddic_in_list_max_bytes) [] w h)
        (λ (structures, w') h'.
          classify_chunks-Yields (chunk_names structures ddic_in_list_max_bytes) w' h')

  unless_none-Yields :
      (step : TypeQuery) (names : List Text) (w : Traversal)
      → Keeps step
      → P w
      → Yields P (unless_none names step w)
  unfolding unless_none
  unless_none-Yields step [] w s h = Yields-pure P w h
  unless_none-Yields step (n ∷ names) w s h = s (n ∷ names) w h

  query_types-Yields :
      (qs : List (Text × TypeQuery)) (current : List QueueEntry) (w : Traversal)
      → All (λ q. Keeps q.1) qs
      → P w
      → Yields P (query_types qs current w)
  unfolding query_types
  query_types-Yields [] current w s h = Yields-pure P w h
  query_types-Yields ((t, step) ∷ qs) current w (s, ss) h =
      Yields-bind P P (unless_none (names_of_type t current) step w) (query_types qs current)
        (unless_none-Yields step (names_of_type t current) w s h)
        (λ w' h'. query_types-Yields qs current w' ss h')

  query_level-Yields :
      (current : List QueueEntry) (w : Traversal) → P w → Yields P (query_level query current w)
  unfolding query_level queries
  query_level-Yields current w h =
      query_types-Yields (queries query) current w
        (
          ddic_query_tabl-Keeps,
          (ddic_query_dtel-Keeps, (ddic_query_doma-Keeps, (ddic_query_ttyp-Keeps, tt))),
        )
        h

  pub chain-Yields :
      (depth : ℕ) (current : List QueueEntry) (w : Traversal)
      → P w
      → Yields P (chain query depth current w)
  unfolding chain
  chain-Yields zero current w h = Yields-pure P w h
  chain-Yields (suc depth) [] w h = Yields-pure P w h
  chain-Yields (suc depth) (e ∷ current) w h =
      Yields-bind P P _ _ (query_level-Yields (e ∷ current) _ (opens w h))
        (λ w' h'. chain-Yields depth w'.next w' h')
