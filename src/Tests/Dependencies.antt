-- ===== src/Tests/Dependencies.antt =====
-- adt/dependencies.go against a dictionary with one cycle, and one that refuses the second query.
use adtler.Prelude.{
  arith, ◌≡◌, refl, true, [], ◌∷◌, List, ℕ, ◌==◌, Option, some, Text, codes, if◌then◌else◌, length,
  ◌≢◌, All,
}
use adtler.Transport.{QueryAnswer}
use adtler.Adt.{Result, ok, err, adt, Log}
use adtler.Adt.Stops.{quiet}
use adtler.Dependencies.{data_element, domain, fugr_pool_program_name, pool_program_name}
use adtler.Dependencies.Chunks.{chunk_names, concat, FitsInList, chunk_names-FitsInList}
use adtler.Dependencies.Walk.{Traversal, ddic_chain_deps}
use adtler.Dependencies.Walk.Once.{Once, ddic_chain_deps-Once}
use adtler.Dependencies.Objects.{get_object_dependencies}
use adtler.Dependencies.Objects.Quiet.{get_object_dependencies-quiet}

abbrev answer : List (List Text) → Result (Option QueryAnswer)
answer rows = ok (some (record { columns = []; rows = rows; total_rows = length rows }))

-- A table whose field's element has a domain whose values stand in the table: three queries.
abbrev dictionary : Log → Text → ℕ → Result (Option QueryAnswer)
dictionary log sql rows =
    if length log == 0
    then answer ((codes "ZELEM" ∷ [] ∷ []) ∷ (codes "ZELEM" ∷ codes "ZTAB" ∷ []) ∷ [])
    else if length log == 1
    then answer ((codes "ZDOM" ∷ []) ∷ [])
    else answer ((codes "ZTAB" ∷ []) ∷ [])

abbrev walked : Traversal
walked = record {
  visited = codes "TABL|ZTAB" ∷ codes "DTEL|ZELEM" ∷ codes "DOMA|ZDOM" ∷ [];
  deps =
      record { name = codes "ZELEM"; use_type = data_element }
      ∷ record { name = codes "ZDOM"; use_type = domain }
      ∷ [];
  next = [];
  warnings = [];
}

ddic_chain_deps-Once_example : Once (codes "TABL", codes "ZTAB") walked
unfolding ddic_chain_deps
ddic_chain_deps-Once_example =
    ddic_chain_deps-Once dictionary (codes "ZTAB") (codes "TABL") 10 [] walked refl

abbrev refusing : Log → Text → ℕ → Result (Option QueryAnswer)
refusing log sql rows =
    if length log == 0
    then answer ((codes "MARA" ∷ []) ∷ (codes "ZS" ∷ []) ∷ [])
    else err (adt (record { status_code = 401; exception_type = []; message = [] }))

get_object_dependencies-quiet_example :
    quiet (get_object_dependencies refusing (codes "clas") (codes "ZCL") 0 0 []).1 ≡ true
get_object_dependencies-quiet_example =
    get_object_dependencies-quiet refusing (codes "clas") (codes "ZCL") 0 0

refused_calls : length (get_object_dependencies refusing (codes "clas") (codes "ZCL") 0 0 []).1 ≡ 2
unfolding get_object_dependencies
refused_calls = refl

-- Of three names of ten characters each, two fit into 30 bytes.
abbrev names : List Text
names = codes "ZTABLE0001" ∷ codes "ZTABLE0002" ∷ codes "ZTABLE0003" ∷ []

two_chunks :
    chunk_names names 30
    ≡ (codes "ZTABLE0001" ∷ codes "ZTABLE0002" ∷ []) ∷ (codes "ZTABLE0003" ∷ []) ∷ []
unfolding chunk_names
two_chunks = refl

chunk_names-FitsInList_example :
    (concat (chunk_names names 30) ≡ names)
    × All (λ chunk. (chunk ≢ []) × FitsInList 30 chunk) (chunk_names names 30)
chunk_names-FitsInList_example = chunk_names-FitsInList names 30 (omega arith)

fugr_namespace : fugr_pool_program_name (codes "/ABC/GRP") ≡ codes "/ABC/SAPLGRP"
unfolding fugr_pool_program_name
fugr_namespace = refl

class_pool :
    pool_program_name (codes "CP") (codes "ZCL_A") ≡ codes "ZCL_A=========================CP"
unfolding pool_program_name
class_pool = refl
