-- ===== src/Rollback/Names.antt =====
-- Names of objects and of their parts, and the URIs they stand for. Texts are ASCII: a character is a
-- byte.
use adtler.Prelude.{
  ℕ, ◌+◌, ◌-◌, ◌/◌, ◌%◌, Bool, true, false, not, ◌&&◌, ◌||◌, [], ◌∷◌, ◌++◌, Option, none, some, ltb,
  leb, ◌==◌, if◌then◌else◌, any, length, take, drop, last?, Text, codes, text_eq, to_upper,
  to_lower, trim_right, cut_at,
}
use adtler.Rollback.Entries.{
  no_reason, unsupported_type, RollbackEntry, RollbackTarget, Resolution, target, skip,
}

-- splitNamespace: the namespace with its slashes, and the rest.
unfoldable pub split_namespace : Text → Text × Text
unfolding cut_at
split_namespace [] = ([], [])
split_namespace (c ∷ s) =
    if c == b'/'
    then elim (cut_at b'/' s) [
      | none ↦ ([], c ∷ s)
      | some (space, rest) ↦ ((c ∷ space) ++ (b'/' ∷ []), rest)
    ]
    else ([], c ∷ s)

-- url.PathEscape
unfoldable pub is_unreserved : ℕ → Bool
is_unreserved c =
    (leb b'A' c && leb c b'Z')
    || (leb b'a' c && leb c b'z')
    || (leb b'0' c && leb c b'9')
    || any (λ d. c == d) (codes "-_.~$&+:=@")

unfoldable pub hex_digit : ℕ → ℕ
hex_digit d = if ltb d 10 then b'0' + d else b'A' + (d - 10)

unfoldable pub path_escape : Text → Text
unfolding is_unreserved hex_digit
path_escape [] = []
path_escape (c ∷ s) =
    let rest = path_escape s in
    if is_unreserved c then c ∷ rest else b'%' ∷ hex_digit (c / 16) ∷ hex_digit (c % 16) ∷ rest

unfoldable pub adt_name : Text → Text
unfolding to_lower path_escape
adt_name name = to_lower (path_escape name)

-- The endpoints of objectTypeMap in adt/object.go.
unfoldable pub endpoint : Text → Option Text
unfolding text_eq
endpoint t =
    if text_eq t (codes "PROG")
    then some (codes "/sap/bc/adt/programs/programs")
    else if text_eq t (codes "CLAS")
    then some (codes "/sap/bc/adt/oo/classes")
    else if text_eq t (codes "INTF")
    then some (codes "/sap/bc/adt/oo/interfaces")
    else if text_eq t (codes "FUGR")
    then some (codes "/sap/bc/adt/functions/groups")
    else if text_eq t (codes "DTEL")
    then some (codes "/sap/bc/adt/ddic/dataelements")
    else if text_eq t (codes "DOMA")
    then some (codes "/sap/bc/adt/ddic/domains")
    else if text_eq t (codes "TABL")
    then some (codes "/sap/bc/adt/ddic/tables")
    else if text_eq t (codes "DDLS")
    then some (codes "/sap/bc/adt/ddic/ddl/sources")
    else if text_eq t (codes "MSAG")
    then some (codes "/sap/bc/adt/messageclass")
    else if text_eq t (codes "BDEF")
    then some (codes "/sap/bc/adt/bo/behaviordefinitions")
    else if text_eq t (codes "SRVD")
    then some (codes "/sap/bc/adt/ddic/srvd/sources")
    else if text_eq t (codes "SRVB")
    then some (codes "/sap/bc/adt/businessservices/bindings")
    else if text_eq t (codes "HTTP")
    then some (codes "/sap/bc/adt/ucon/httpservices")
    else none

-- ObjectURI of adt/object.go; none where the type is not supported.
unfoldable pub object_uri : Text → Text → Option Text
unfolding endpoint to_upper to_lower
object_uri object_type name = elim (endpoint (to_upper object_type)) [
  | none ↦ none
  | some e ↦ some (e ++ (b'/' ∷ to_lower name))
]

unfoldable pub entry_of : Text → Text → RollbackEntry
entry_of object_type name = record { object_type = object_type; name = name; reason = no_reason }

unfoldable pub r3tr_target : Text → Text → Resolution
unfolding object_uri adt_name entry_of
r3tr_target object_type name = elim (object_uri object_type []) [
  | none ↦ skip (unsupported_type object_type)
  | some uri ↦
      target
        (record { entry = entry_of object_type name; uri = uri ++ adt_name name; tadir = true })
]

-- The type of the pool that an include's first character behind the padded name tells.
unfoldable pub pool_type : Text → Option Text
pool_type [] = none
pool_type (c ∷ rest) =
    if c == b'C' then some (codes "CLAS") else if c == b'I' then some (codes "INTF") else none

-- poolIncludeTarget; `skip` stands for false.
abbrev pub class_pool_name_len : ℕ
class_pool_name_len = 30

unfoldable pub is_padded : Text → Bool
is_padded owner = elim (last? owner) [ none ↦ false | some c ↦ c == b'=' ]

unfoldable pub pool_owner : Text → Text
unfolding trim_right
pool_owner name = trim_right (λ c. c == b'=') (take class_pool_name_len name)

unfoldable pub pool_include_target : Text → Bool → Option RollbackTarget
unfolding pool_type is_padded pool_owner r3tr_target
pool_include_target name need_padding =
    if not (ltb class_pool_name_len (length name))
    then none
    else if need_padding && not (is_padded (take class_pool_name_len name))
    then none
    else elim (pool_type (drop class_pool_name_len name)) [
      | none ↦ none
      | some t ↦ elim (r3tr_target t (pool_owner name)) [ skip r ↦ none | target g ↦ some g ]
    ]
