-- ===== src/Export/Server.antt =====
-- What the export relies on of the server: a query for the rows of a table, all of them or those
-- behind one of its rows, answers the first rows of the table, in key order, of which its condition
-- holds.
use adtler.Prelude.{
  ℕ, ◌≡◌, refl, subst, Bool, true, false, List, [], ◌∷◌, ◌++◌, map, none, some, arith, All, filter,
  take, last?, Text, codes, join, text_eq_iff, Bool-cases, inl, inr,
}
use adtler.Sql.{filter_non_mandt_keys}
use adtler.Sql.Where.{Atom, formula_text, formula_holds, is_after, pagination_formula}
use adtler.Export.{QueryColumn, Answer, answered, key_value, extract_key_values}

abbrev pub value_of : List QueryColumn → List Text → Text → Text
value_of cs row key = elim (key_value cs row key) [ none ↦ [] | some v ↦ v ]

abbrev pub keys_of : List QueryColumn → List Text → List Text → List Text
keys_of cs ks row = map (value_of cs row) ks

-- The statement for all rows, and for the rows of which a formula holds.
module _ (key_types : Text → Text) (table : Text) (keys : List Text) where
  abbrev pub select_all : Text
  select_all = codes "SELECT * FROM " ++ (table ++ (codes " ORDER BY " ++ join keys (codes ", ")))

  abbrev pub select_where : List (List Atom) → Text
  select_where formula =
      codes "SELECT * FROM "
      ++ (table
          ++ ((codes " WHERE " ++ formula_text key_types formula)
              ++ (codes " ORDER BY " ++ join keys (codes ", "))))

module _ (lt : Text → Text → Bool) (cs : List QueryColumn) (ks : List Text) where
  abbrev pub comes_after : List Text → List Text → Bool
  comes_after row before = is_after lt (value_of cs row) ks (keys_of cs ks before)

  -- Each row has keys above those of the rows before it: the order is that of the keys, and no two
  -- rows have the same keys.
  abbrev pub IsSorted : List (List Text) → Type 0
  IsSorted [] = Unit
  IsSorted (row ∷ rows) = All (λ later. comes_after later row ≡ true) rows × IsSorted rows

-- The query with the condition for the rows behind the key values `values` answers the first rows of
-- which the condition holds.
abbrev pub AnswersBehind :
    {E : Type 0} (run_query : ℕ → Text → ℕ → Answer E) (table : Text) (keys : List Text)
    (key_types : Text → Text) (page_size : ℕ) (lt : Text → Text → Bool) (cs : List QueryColumn)
    (rows : List (List Text)) (i : ℕ) (values : List Text)
    → Type 0
AnswersBehind run_query table keys key_types page_size lt cs rows i values =
    let formula = pagination_formula [] (filter_non_mandt_keys keys) values in
    run_query i (select_where key_types table keys formula) page_size
    ≡ answered (record {
      columns = cs;
      rows = take page_size (filter (λ row. formula_holds lt (value_of cs row) formula) rows);
    })

-- A server on which the table holds `rows`, with the columns `cs`, and does not change.
pub record Serves {E : Type 0} (run_query : ℕ → Text → ℕ → Answer E) (table : Text)
    (keys : List Text) (key_types : Text → Text) (page_size : ℕ) (lt : Text → Text → Bool)
    (cs : List QueryColumn) (rows : List (List Text)) : Type 0 where
  pub answers_all :
      (i : ℕ)
      → run_query i (select_all key_types table keys) page_size
        ≡ answered (record { columns = cs; rows = take page_size rows })
  pub answers_where :
      All
        (λ row.
          (i : ℕ)
          → AnswersBehind run_query table keys key_types page_size lt cs rows i
              (keys_of cs (filter_non_mandt_keys keys) row))
        rows
  pub asymmetric : (a b : Text) → lt a b ≡ true → lt b a ≡ false
  pub sorted : IsSorted lt cs (filter_non_mandt_keys keys) rows
  pub has_keys :
      All
        (λ row.
          extract_key_values cs (filter_non_mandt_keys keys) row
          ≡ some (keys_of cs (filter_non_mandt_keys keys) row))
        rows

module _ (lt : Text → Text → Bool) (asym : (a b : Text) → lt a b ≡ true → lt b a ≡ false) where
  is_after_asym :
      (f g : Text → Text) (ks : List Text)
      → is_after lt f ks (map g ks) ≡ true
      → is_after lt g ks (map f ks) ≡ false
  unfolding is_after
  is_after_asym f g [] e = cc
  is_after_asym f g (k ∷ ks) e = ground (
    arith,
    asym (g k) (f k),
    asym (f k) (g k),
    text_eq_iff (f k) (g k),
    text_eq_iff (g k) (f k),
    is_after_asym f g ks,
  )

  is_after_irrefl : (f : Text → Text) (ks : List Text) → is_after lt f ks (map f ks) ≡ false
  is_after_irrefl f ks = elim (Bool-cases (is_after lt f ks (map f ks))) [
    | inl e ↦ is_after_asym f f ks e
    | inr e ↦ e
  ]

  module _ (cs : List QueryColumn) (ks : List Text) where
    pub comes_after_irrefl : (row : List Text) → comes_after lt cs ks row row ≡ false
    comes_after_irrefl row = is_after_irrefl (value_of cs row) ks

    filter-eq_of_All :
        (before : List Text) (rows : List (List Text))
        → All (λ later. comes_after lt cs ks later before ≡ true) rows
        → filter (λ row. comes_after lt cs ks row before) rows ≡ rows
    unfolding filter
    filter-eq_of_All before [] h = refl
    filter-eq_of_All before (row ∷ rows) (h, hs) = rw (h, filter-eq_of_All before rows hs)

    after_last :
        (row l : List Text) (xs rest : List (List Text))
        → All (λ later. comes_after lt cs ks later row ≡ true) (xs ++ rest)
        → last? xs ≡ some l
        → comes_after lt cs ks l row ≡ true
    unfolding last?
    after_last row l [] rest h e = absurd (ground arith)
    after_last row l (x ∷ []) rest (h, hs) e = rw (← e') h
      where
        e' : x ≡ l
        e' = ground arith
    after_last row l (x ∷ y ∷ xs) rest (h, hs) e = after_last row l (y ∷ xs) rest hs e

    -- The rows behind those up to `l` are the rows that come after `l`.
    pub filter-comes_after :
        (xs rest : List (List Text)) (l : List Text)
        → IsSorted lt cs ks (xs ++ rest)
        → last? xs ≡ some l
        → filter (λ row. comes_after lt cs ks row l) (xs ++ rest) ≡ rest
    unfolding filter last?
    filter-comes_after [] rest l s e = absurd (ground arith)
    filter-comes_after (x ∷ []) rest l (h, s) e =
        let same : x ≡ l = ground arith in
        let self : comes_after lt cs ks x l ≡ false = rw same (comes_after_irrefl l) in
        rw self (
          filter-eq_of_All l rest
            (subst (λ b. All (λ later. comes_after lt cs ks later b ≡ true) rest) same h))
    filter-comes_after (x ∷ y ∷ xs) rest l (h, s) e =
        let earlier : comes_after lt cs ks x l ≡ false =
          is_after_asym (value_of cs l) (value_of cs x) ks (after_last x l (y ∷ xs) rest h e) in
        rw earlier (filter-comes_after (y ∷ xs) rest l s e)
