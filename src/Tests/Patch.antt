-- ===== src/Tests/Patch.antt =====
-- adt/patch.go on a source of four lines.
use adtler.Prelude.{◌≡◌, refl, ◌⊎◌, List, [], ◌∷◌, Text, codes, false, ℤ, arith, filter}
use adtler.Patch.{
  OpType, PatchOp, ok, apply_patch_ops, apply_search_replace, apply_search_replaces, join_lines,
  split_lines, is_search_replace,
}
use adtler.Patch.Substitute.{to_crlf}
use adtler.Patch.Placement.{Fits, fits_insert, fits_replace, Apart, touches, count}
use adtler.Patch.Simultaneous.{edited_by}
use adtler.Patch.Whole.{apply_patch_ops-of_Fits, apply_patch_ops-Fits}
use adtler.Patch.Matches.{ReplacedAt, apply_search_replace-ReplacedAt, to_crlf-to_crlf}

abbrev source : Text
source = 97 ∷ 10 ∷ 98 ∷ 10 ∷ 99 ∷ 10 ∷ 100 ∷ []

abbrev put : PatchOp
put = record {
  op_type = OpType.insert;
  after_line = ℤ.pos 1;
  content = codes "x";
  from_line = ℤ.pos 0;
  to_line = ℤ.pos 0;
  search = [];
  replacement = [];
  replace_every = false;
}

abbrev exchange : PatchOp
exchange = record {
  op_type = OpType.replace;
  after_line = ℤ.pos 0;
  content = codes "y";
  from_line = ℤ.pos 2;
  to_line = ℤ.pos 3;
  search = [];
  replacement = [];
  replace_every = false;
}

abbrev rename : PatchOp
rename = record {
  op_type = OpType.search_replace;
  after_line = ℤ.pos 0;
  content = [];
  from_line = ℤ.pos 0;
  to_line = ℤ.pos 0;
  search = codes "y";
  replacement = codes "zz";
  replace_every = false;
}

abbrev patches : List PatchOp
patches = put ∷ rename ∷ exchange ∷ []

abbrev patched : Text
patched = 97 ∷ 10 ∷ 120 ∷ 10 ∷ 122 ∷ 122 ∷ 10 ∷ 100 ∷ []

patches_applied : apply_patch_ops source patches ≡ ok patched
unfolding apply_patch_ops
patches_applied = refl

patches-Fits : Fits 4 put × (Fits 4 exchange × Unit {0})
patches-Fits = (
  fits_insert 1 refl refl (omega arith),
  (fits_replace 1 3 refl refl refl (omega arith) (omega arith), tt),
)

patches-Apart : Apart (put ∷ exchange ∷ [])
unfolding touches count
patches-Apart j = ground arith

apply_patch_ops-of_Fits_example :
    apply_patch_ops source patches
    ≡ apply_search_replaces (join_lines (edited_by patches (split_lines source))) (rename ∷ [])
unfolding is_search_replace filter split_lines
apply_patch_ops-of_Fits_example = apply_patch_ops-of_Fits source patches patches-Fits patches-Apart

apply_patch_ops-Fits_example :
    (Fits 4 put × (Fits 4 exchange × Unit {0})) × Apart (put ∷ exchange ∷ [])
unfolding is_search_replace filter split_lines
apply_patch_ops-Fits_example = apply_patch_ops-Fits source patched patches patches_applied

-- A search text with a bare line feed is found in a source with CRLF line ends.
abbrev windows_source : Text
windows_source = 97 ∷ 13 ∷ 10 ∷ 98 ∷ []

abbrev swap_lines : PatchOp
swap_lines = record {
  op_type = OpType.search_replace;
  after_line = ℤ.pos 0;
  content = [];
  from_line = ℤ.pos 0;
  to_line = ℤ.pos 0;
  search = 97 ∷ 10 ∷ [];
  replacement = 120 ∷ 10 ∷ 121 ∷ 10 ∷ [];
  replace_every = false;
}

abbrev windows_result : Text
windows_result = 120 ∷ 13 ∷ 10 ∷ 121 ∷ 13 ∷ 10 ∷ 98 ∷ []

swap_lines_applied : apply_search_replace windows_source swap_lines ≡ ok windows_result
unfolding apply_search_replace
swap_lines_applied = refl

apply_search_replace-ReplacedAt_example :
    ReplacedAt windows_source (97 ∷ 10 ∷ []) (120 ∷ 10 ∷ 121 ∷ 10 ∷ []) windows_result
    ⊎ ReplacedAt windows_source
        (to_crlf (97 ∷ 10 ∷ []))
        (to_crlf (120 ∷ 10 ∷ 121 ∷ 10 ∷ []))
        windows_result
apply_search_replace-ReplacedAt_example =
    apply_search_replace-ReplacedAt windows_source windows_result swap_lines refl swap_lines_applied

to_crlf-to_crlf_example : to_crlf (to_crlf windows_result) ≡ to_crlf windows_result
to_crlf-to_crlf_example = to_crlf-to_crlf windows_result
