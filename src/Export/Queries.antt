-- ===== src/Export/Queries.antt =====
-- The statements that the export sends, and what a server that serves the table answers.
use mathlib.Core.Path.{fun_ext}
use adtler.Prelude.{
  ℕ, ◌+◌, ◌≡◌, ◌≢◌, refl, ap, Bool, true, ◌&&◌, List, [], ◌∷◌, ◌++◌, map, none, some, arith, ltb,
  text_eq_iff, filter, take, get_elem?, length, Text, codes, join,
}
use adtler.Sql.{
  validate_identifier, validate_all, filter_non_mandt_keys, sql, build_export_sql_typed,
  where_clause, order_by,
}
use adtler.Sql.Where.{
  atom_text, clause_text, field_text, equal_to, greater_than, formula_text, is_after,
  pagination_formula, written_as, formula_holds-pagination,
}
use adtler.Export.{
  QueryColumn, Answer, answered, mark_keys, key_value, column_index, extract_key_values,
  values_equal, fetch,
}
use adtler.Export.Server.{AnswersBehind, value_of, Serves}

validate_all-filter :
    (keys : List Text) → validate_all keys ≡ none → validate_all (filter_non_mandt_keys keys) ≡ none
unfolding validate_all filter_non_mandt_keys
validate_all-filter [] h = refl
validate_all-filter (k ∷ keys) h = ground (arith, validate_all-filter keys)

append-ne-nil : (s t : Text) → t ≢ [] → s ++ t ≢ []
append-ne-nil [] t h = h
append-ne-nil (c ∷ s) t h = cc

join-ne-nil : (p : Text) (ps : List Text) (sep : Text) → p ≢ [] → join (p ∷ ps) sep ≢ []
unfolding join
join-ne-nil p [] sep h = h
join-ne-nil [] (q ∷ ps) sep h = absurd (h refl)
join-ne-nil (c ∷ p) (q ∷ ps) sep h = cc

-- The condition is a text with at least one character.
formula_text-ne-nil :
    (key_types : Text → Text) (k v : Text) (ks vs : List Text)
    → formula_text key_types (pagination_formula [] (k ∷ ks) (v ∷ vs)) ≢ []
unfolding formula_text pagination_formula clause_text atom_text
formula_text-ne-nil key_types k v ks vs =
    join-ne-nil (atom_text key_types (greater_than k v))
      (map (clause_text key_types) (pagination_formula (equal_to k v ∷ []) ks vs)) (codes " OR ")
      (append-ne-nil (field_text key_types k) _ cc)

-- The condition of a query that continues after key values.
where_clause-formula :
    (key_types : Text → Text) (ks : List Text) (v : Text) (vs : List Text)
    → length ks ≡ length (v ∷ vs)
    → where_clause ks (v ∷ vs) key_types
      ≡ codes " WHERE " ++ formula_text key_types (pagination_formula [] ks (v ∷ vs))
unfolding where_clause
where_clause-formula key_types [] v vs e = absurd (omega arith)
where_clause-formula key_types (k ∷ ks) v vs e =
    let tested : (ltb 0 (length (v ∷ vs)) && ltb 0 (length (k ∷ ks))) ≡ true = ground arith in
    rw (tested, written_as key_types k ks (v ∷ vs) e, where_clause)
      (go (formula_text key_types (pagination_formula [] (k ∷ ks) (v ∷ vs)))
        (formula_text-ne-nil key_types k v ks vs))
  where
    go :
        (w : Text)
        → w ≢ []
        → ◌≡◌ {A = Text}
            (elim w [ [] ↦ [] | c ∷ w' ↦ codes " WHERE " ++ c ∷ w' ])
            (codes " WHERE " ++ w)
    go [] h = absurd (h refl)
    go (c ∷ w) h = refl

order_by-join :
    (keys : List Text)
    → filter_non_mandt_keys keys ≢ []
    → order_by keys ≡ codes " ORDER BY " ++ join keys (codes ", ")
unfolding order_by filter_non_mandt_keys
order_by-join [] h = absurd (h refl)
order_by-join (k ∷ keys) h = refl

built :
    (table : Text) (keys last_values : List Text) (key_types : Text → Text)
    → validate_identifier table ≡ none
    → validate_all keys ≡ none
    → build_export_sql_typed table keys (filter_non_mandt_keys keys) last_values key_types
      ≡ sql (
          codes "SELECT * FROM "
          ++ (table
              ++ (where_clause (filter_non_mandt_keys keys) last_values key_types
                  ++ order_by keys)))
unfolding build_export_sql_typed
built table keys last_values key_types ht hk =
    rw (ht, hk, validate_all-filter keys hk, build_export_sql_typed)

pub values_equal-eq : (vs ws : List Text) → values_equal vs ws ≡ true → vs ≡ ws
unfolding values_equal
values_equal-eq [] [] e = refl
values_equal-eq [] (w ∷ ws) e = cc
values_equal-eq (v ∷ vs) [] e = cc
values_equal-eq (v ∷ vs) (w ∷ ws) e = ground (arith, text_eq_iff v w, values_equal-eq vs ws)

-- Marking key columns changes no name, so it changes no value that is read by name.
column_index-mark_keys :
    (keys : List Text) (i : ℕ) (cs : List QueryColumn) (name : Text)
    → column_index i (mark_keys keys cs) name ≡ column_index i cs name
unfolding column_index mark_keys
column_index-mark_keys keys i [] name = refl
column_index-mark_keys keys i (c ∷ cs) name =
    ground (arith, column_index-mark_keys keys (i + 1) cs name)

key_value-mark_keys :
    (keys : List Text) (cs : List QueryColumn) (row : List Text) (k : Text)
    → key_value (mark_keys keys cs) row k ≡ key_value cs row k
unfolding key_value
key_value-mark_keys keys cs row k =
    ap (λ o. elim o [ none ↦ none | some i ↦ get_elem? row i ]) (column_index-mark_keys keys 0 cs k)

pub extract-mark_keys :
    (keys ks : List Text) (cs : List QueryColumn) (row : List Text)
    → extract_key_values (mark_keys keys cs) ks row ≡ extract_key_values cs ks row
unfolding extract_key_values
extract-mark_keys keys [] cs row = refl
extract-mark_keys keys (k ∷ ks) cs row =
    ground (arith, key_value-mark_keys keys cs row k, extract-mark_keys keys ks cs row)

-- The query behind given key values, and the first one.
module _ {E : Type 0} (run_query : ℕ → Text → ℕ → Answer E) (table : Text) (keys : List Text)
    (key_types : Text → Text) (page_size : ℕ) (lt : Text → Text → Bool) (cs : List QueryColumn)
    (rows : List (List Text)) (serves : Serves run_query table keys key_types page_size lt cs rows)
    (valid_table : validate_identifier table ≡ none) (valid_keys : validate_all keys ≡ none)
    (paginated : filter_non_mandt_keys keys ≢ []) where
  pub fetch_first :
      (i : ℕ)
      → fetch run_query table keys key_types page_size i []
        ≡ answered (record { columns = cs; rows = take page_size rows })
  unfolding fetch
  fetch_first i =
      rw (built table keys [] key_types valid_table valid_keys, fetch)
        (rw (order_by-join keys paginated)
          (unfold where_clause in rw (serves.answers_all i, fetch)))

  pub fetch_after :
      (i : ℕ) (v : Text) (vs : List Text)
      → length (filter_non_mandt_keys keys) ≡ length (v ∷ vs)
      → AnswersBehind run_query table keys key_types page_size lt cs rows i (v ∷ vs)
      → fetch run_query table keys key_types page_size i (v ∷ vs)
        ≡ answered (record {
          columns = cs;
          rows = take page_size (
              filter
                (λ row. is_after lt (value_of cs row) (filter_non_mandt_keys keys) (v ∷ vs))
                rows);
        })
  unfolding fetch
  fetch_after i v vs e answer =
      rw (built table keys (v ∷ vs) key_types valid_table valid_keys, fetch)
        (rw
          (
            order_by-join keys paginated,
            where_clause-formula key_types (filter_non_mandt_keys keys) v vs e,
          )
          (rw (answer, fetch)
            (ap (λ p. answered (record { columns = cs; rows = take page_size (filter p rows) }))
              (fun_ext λ row.
                formula_holds-pagination lt (value_of cs row) [] (filter_non_mandt_keys keys)
                  (v ∷ vs)))))
