-- ===== src/Sql/Where.antt =====
-- What the pagination condition means: the rows whose keys come after the given values.
use adtler.Prelude.{
  ◌≡◌, refl, sym, ap, ap₂, ◌∙◌, Bool, false, not, ◌&&◌, ◌||◌, List, [], ◌∷◌, ◌++◌, map, arith, ◌==◌,
  Text, codes, length, join, all, any, text_eq, equal_fold, if◌then◌else◌,
}
use adtler.Sql.{
  escape_value, key_operand, comparison, conjunction, pagination_terms,
  build_pagination_where_typed, equals, greater,
}

-- A comparison of a key field with a value.
pub data Atom : Type 0 where
  equal_to : Text → Text → Atom
  greater_than : Text → Text → Atom

-- A disjunction of conjunctions, as SQL text, written out here without the code's own printing: a
-- key of type TIMS is cast, conjunctions of more than one comparison stand in parentheses.
module _ (key_types : Text → Text) where
  unfoldable pub field_text : Text → Text
  unfolding equal_fold
  field_text key =
      if equal_fold (key_types key) (codes "TIMS")
      then codes "CAST( " ++ (key ++ codes " AS CHAR( 6 ) )")
      else key

  unfoldable pub atom_text : Atom → Text
  unfolding field_text escape_value
  atom_text (equal_to key value) =
      field_text key ++ (codes " = '" ++ (escape_value value ++ codes "'"))
  atom_text (greater_than key value) =
      field_text key ++ (codes " > '" ++ (escape_value value ++ codes "'"))

  unfoldable pub clause_text : List Atom → Text
  unfolding atom_text join
  clause_text [] = codes "(  )"
  clause_text (a ∷ []) = atom_text a
  clause_text (a ∷ more ∷ atoms) =
      codes "( " ++ (join (map atom_text (a ∷ more ∷ atoms)) (codes " AND ") ++ codes " )")

  unfoldable pub formula_text : List (List Atom) → Text
  unfolding clause_text join
  formula_text formula = join (map clause_text formula) (codes " OR ")

  comparison-atom_text :
      (key value : Text)
      → (comparison key_types equals key value ≡ atom_text (equal_to key value))
        × (comparison key_types greater key value ≡ atom_text (greater_than key value))
  unfolding comparison key_operand atom_text field_text
  comparison-atom_text key value = (refl, refl)

  conjunction-clause_text :
      (atoms : List Atom) → conjunction (map atom_text atoms) ≡ clause_text atoms
  unfolding conjunction clause_text
  conjunction-clause_text [] = refl
  conjunction-clause_text (a ∷ []) = refl
  conjunction-clause_text (a ∷ more ∷ atoms) = refl

-- Its meaning for a row, over an order of the values.
module _ (lt : Text → Text → Bool) (row : Text → Text) where
  unfoldable pub atom_holds : Atom → Bool
  unfolding text_eq
  atom_holds (equal_to key value) = text_eq (row key) value
  atom_holds (greater_than key value) = lt value (row key)

  unfoldable pub formula_holds : List (List Atom) → Bool
  unfolding atom_holds
  formula_holds = any (all atom_holds)

  -- The row's keys come after the values, the first key counting most.
  unfoldable pub is_after : List Text → List Text → Bool
  unfolding text_eq
  is_after (key ∷ keys) (value ∷ values) =
      let rest = is_after keys values in lt value (row key) || (text_eq (row key) value && rest)
  is_after _ _ = false

-- The formula that the code writes.
unfoldable pub pagination_formula : List Atom → List Text → List Text → List (List Atom)
pagination_formula before (key ∷ keys) (value ∷ values) =
    (before ++ greater_than key value ∷ [])
    ∷ pagination_formula (before ++ equal_to key value ∷ []) keys values
pagination_formula before _ _ = []

map-snoc {ℓ κ} :
    {A : Type ℓ} {B : Type κ} (f : A → B) (xs : List A) (y : A)
    → map f (xs ++ y ∷ []) ≡ map f xs ++ f y ∷ []
map-snoc f [] y = refl
map-snoc f (x ∷ xs) y = rw (map-snoc f xs y)

pagination_terms-formula :
    (key_types : Text → Text) (before : List Atom) (keys values : List Text)
    → pagination_terms key_types (map (atom_text key_types) before) keys values
      ≡ map (clause_text key_types) (pagination_formula before keys values)
unfolding pagination_terms pagination_formula
pagination_terms-formula key_types before [] values = refl
pagination_terms-formula key_types before (k ∷ keys) [] = refl
pagination_terms-formula key_types before (k ∷ keys) (v ∷ values) =
    let (same, less) = comparison-atom_text key_types k v in
    ap₂ (λ t ts. t ∷ ts)
      (ap (λ c. conjunction (map (atom_text key_types) before ++ c ∷ [])) less
        ∙ ap conjunction (sym (map-snoc (atom_text key_types) before (greater_than k v)))
        ∙ conjunction-clause_text key_types (before ++ greater_than k v ∷ []))
      (ap (λ c. pagination_terms key_types (map (atom_text key_types) before ++ c ∷ []) keys values)
          same
        ∙ ap (λ b. pagination_terms key_types b keys values)
            (sym (map-snoc (atom_text key_types) before (equal_to k v)))
        ∙ pagination_terms-formula key_types (before ++ equal_to k v ∷ []) keys values)

all-append :
    {A : Type 0} (p : A → Bool) (xs ys : List A) → all p (xs ++ ys) ≡ (all p xs && all p ys)
all-append p [] ys = refl
all-append p (x ∷ xs) ys = ground (arith, all-append p xs ys)

pub formula_holds-pagination :
    (lt : Text → Text → Bool) (row : Text → Text) (before : List Atom) (keys values : List Text)
    → formula_holds lt row (pagination_formula before keys values)
      ≡ (all (atom_holds lt row) before && is_after lt row keys values)
unfolding formula_holds is_after pagination_formula
formula_holds-pagination lt row before [] values = ground arith
formula_holds-pagination lt row before (k ∷ keys) [] = ground arith
formula_holds-pagination lt row before (k ∷ keys) (v ∷ values) = ground (
  arith,
  all-append (atom_holds lt row) before (greater_than k v ∷ []),
  all-append (atom_holds lt row) before (equal_to k v ∷ []),
  formula_holds-pagination lt row (before ++ equal_to k v ∷ []) keys values,
)

pub written_as :
    (key_types : Text → Text) (k : Text) (keys values : List Text)
    → length (k ∷ keys) ≡ length values
    → build_pagination_where_typed (k ∷ keys) values key_types
      ≡ formula_text key_types (pagination_formula [] (k ∷ keys) values)
unfolding build_pagination_where_typed formula_text
written_as key_types k keys values same =
    let tested : (length (k ∷ keys) == 0 || not (length (k ∷ keys) == length values)) ≡ false =
      ground arith in
    rw tested
      (ap (λ ts. join ts (codes " OR ")) (pagination_terms-formula key_types [] (k ∷ keys) values))
