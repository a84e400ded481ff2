-- ===== src/Transport/Objects.antt =====
-- getTransportObjectsViaQuery of adt/transport.go and its deduper.
use adtler.Prelude.{
  ℕ, zero, suc, Bool, not, ◌&&◌, ◌||◌, List, [], ◌∷◌, ◌++◌, Option, none, some, leb, ◌==◌,
  if◌then◌else◌, all, any, length, map, Text, codes, text_eq, join, equal_fold, to_upper,
}
use adtler.Transport.{
  QueryAnswer, absent, unsafe_number, truncated, Result, ok, err, require_query_columns, cell,
  is_digit, is_capital,
}

pub record TransportObject : Type 0 where
  pub pgm_id : Text
  pub object_type : Text
  pub name : Text
  pub wb_type : Text
  pub position : Text
  pub task : Text

unfoldable pub object_key : TransportObject → Text
object_key o = o.pgm_id ++ (b'/' ∷ (o.object_type ++ (b'/' ∷ o.name)))

-- transportObjectDeduper; the map is an association list.
pub record Deduper : Type 0 where
  pub index : List (Text × ℕ)
  pub objects : List TransportObject

abbrev pub new_deduper : Deduper
new_deduper = record { index = []; objects = [] }

unfoldable pub find_key : Text → List (Text × ℕ) → Option ℕ
unfolding text_eq
find_key key [] = none
find_key key ((k, i) ∷ index) = if text_eq k key then some i else find_key key index

-- The object takes the task where it has none.
unfoldable pub attribute : Text → TransportObject → TransportObject
unfolding text_eq
attribute task o =
    if text_eq o.task [] && not (text_eq task []) then record o { task = task } else o

unfoldable pub attribute_at : ℕ → Text → List TransportObject → List TransportObject
unfolding attribute
attribute_at i task [] = []
attribute_at zero task (o ∷ objects) = attribute task o ∷ objects
attribute_at (suc i) task (o ∷ objects) = o ∷ attribute_at i task objects

unfoldable pub add : TransportObject → Deduper → Deduper
unfolding text_eq object_key find_key attribute_at
add o d = if text_eq o.name [] then d else elim (find_key (object_key o) d.index) [
  | some i ↦ record d { objects = attribute_at i o.task d.objects }
  | none ↦ record {
    index = (object_key o, length d.objects) ∷ d.index;
    objects = d.objects ++ (o ∷ []);
  }
]

unfoldable pub is_transport_number_char : ℕ → Bool
unfolding is_digit is_capital
is_transport_number_char c =
    is_capital c
    || ((leb b'a' c && leb c b'z')
        || (is_digit c || (c == b'_' || (c == b'/' || (c == b'.' || c == b'-')))))

-- transportNumberRe
unfoldable pub is_transport_number : Text → Bool
unfolding is_transport_number_char
is_transport_number s = leb 1 (length s) && (leb (length s) 20 && all is_transport_number_char s)

-- The numbers so far, with those of the request's tasks in the rows.
unfoldable pub task_numbers : Text → QueryAnswer → List Text → List (List Text) → List Text
unfolding equal_fold cell to_upper text_eq is_transport_number
task_numbers number qr seen [] = seen
task_numbers number qr seen (row ∷ rows) =
    let task = to_upper (cell qr row (codes "TRKORR")) in
    task_numbers number qr
      (if not (equal_fold (cell qr row (codes "STRKORR")) number)
          || (text_eq task [] || (any (text_eq task) seen || not (is_transport_number task)))
        then seen
        else seen ++ (task ∷ []))
      rows

unfoldable pub checked_numbers : Text → QueryAnswer → Result (Unit {0}) → Result (List Text)
unfolding task_numbers
checked_numbers number qr (err e) = err e
checked_numbers number qr (ok done) = ok (task_numbers number qr (number ∷ []) qr.rows)

unfoldable pub answered_numbers : Text → Result QueryAnswer → Result (List Text)
unfolding checked_numbers require_query_columns
answered_numbers number (err e) = err e
answered_numbers number (ok qr) = elim qr.rows [
  | [] ↦ err (absent number)
  | row ∷ rows ↦ checked_numbers number qr (
      require_query_columns (codes "E070 request/task query") qr
        (codes "TRKORR" ∷ codes "STRKORR" ∷ []))
]

abbrev pub e071_object_query_max_rows : ℕ
e071_object_query_max_rows = 5000

abbrev pub pgm_id_release_marker : Text
pgm_id_release_marker = codes "CORR"

unfoldable pub object_of : Text → QueryAnswer → List Text → TransportObject
unfolding cell equal_fold
object_of number qr row = record {
  pgm_id = cell qr row (codes "PGMID");
  object_type = cell qr row (codes "OBJECT");
  name = cell qr row (codes "OBJ_NAME");
  wb_type = [];
  position = cell qr row (codes "AS4POS");
  task =
      if equal_fold (cell qr row (codes "TRKORR")) number then [] else cell qr row (codes "TRKORR");
}

unfoldable pub add_rows : Text → QueryAnswer → List (List Text) → Deduper → Deduper
unfolding cell equal_fold object_of add
add_rows number qr [] d = d
add_rows number qr (row ∷ rows) d = add_rows number qr rows (
    if equal_fold (cell qr row (codes "PGMID")) pgm_id_release_marker
    then d
    else add (object_of number qr row) d)

unfoldable pub checked_objects :
    Text → QueryAnswer → Result (Unit {0}) → Result (List TransportObject)
unfolding add_rows
checked_objects number qr (err e) = err e
checked_objects number qr (ok done) = ok (add_rows number qr qr.rows new_deduper).objects

abbrev pub object_columns : List Text
object_columns =
    codes "TRKORR" ∷ codes "AS4POS" ∷ codes "PGMID" ∷ codes "OBJECT" ∷ codes "OBJ_NAME" ∷ []

-- A list that may be cut off is refused.
unfoldable pub answered_objects : Text → Result QueryAnswer → Result (List TransportObject)
unfolding checked_objects require_query_columns
answered_objects number (err e) = err e
answered_objects number (ok qr) =
    if leb e071_object_query_max_rows (length qr.rows)
      || leb e071_object_query_max_rows qr.total_rows
    then err truncated
    else checked_objects number qr
        (require_query_columns (codes "E071 object query") qr object_columns)

unfoldable pub number_term : Text → Text
number_term n = codes "TRKORR = '" ++ (n ++ codes "'")

unfoldable pub object_query : List Text → Text
unfolding number_term join
object_query numbers =
    codes "SELECT TRKORR, AS4POS, PGMID, OBJECT, OBJ_NAME FROM E071 WHERE ( "
    ++ (join (map number_term numbers) (codes " OR ")
        ++ (codes " ) AND PGMID <> '"
            ++ (pgm_id_release_marker ++ codes "' ORDER BY TRKORR, AS4POS")))

unfoldable pub number_query : Text → Text
number_query number =
    codes "SELECT TRKORR, STRKORR FROM E070 WHERE TRKORR = '"
    ++ (number ++ (codes "' OR STRKORR = '" ++ (number ++ codes "' ORDER BY TRKORR")))

module _ (run_query : Text → ℕ → Result QueryAnswer) where
  unfoldable pub transport_query_numbers : Text → Result (List Text)
  unfolding answered_numbers number_query
  transport_query_numbers number = answered_numbers number (run_query (number_query number) 5000)

  unfoldable pub objects_of_numbers : Text → Result (List Text) → Result (List TransportObject)
  unfolding answered_objects object_query
  objects_of_numbers number (err e) = err e
  objects_of_numbers number (ok numbers) =
      answered_objects number (run_query (object_query numbers) e071_object_query_max_rows)

  unfoldable pub get_transport_objects_via_query : Text → Result (List TransportObject)
  unfolding is_transport_number to_upper transport_query_numbers objects_of_numbers
  get_transport_objects_via_query number =
      if not (is_transport_number number)
      then err (unsafe_number number)
      else objects_of_numbers (to_upper number) (transport_query_numbers (to_upper number))
