-- ===== src/Operation/Typing.antt =====
-- cxsom/src/cxsomOperation.hpp, "Type checking": `check_types_...` of a result and arguments. A check
-- is false where the code throws `error::bad_typing`; the text of the message is left out.
use cxsom.Prelude.{Bool, true, false, ◌&&◌, ◌||◌, not, ◌==◌, ltb, List, [], ◌∷◌, is_empty}
use cxsom.Types.{
  DataType, codes, name, is_scalar, is_pos1d, is_pos2d, is_array, is_map, is_map1d, is_map2d,
  is_map_of, is_map1d_of, is_map2d_of, is_map_of_array, type_eq,
}

abbrev pub Check : Type 0
Check = DataType → List DataType → Bool

abbrev pub check_types_copy : Check
check_types_copy res (a ∷ []) = type_eq res a
check_types_copy res _ = false

-- The loops over the arguments.
abbrev pub all_scalars : List DataType → Bool
all_scalars [] = true
all_scalars (a ∷ args) = is_scalar a && all_scalars args

abbrev pub all_alike : DataType → List DataType → Bool
all_alike res [] = true
all_alike res (a ∷ args) = type_eq a res && all_alike res args

abbrev pub check_types_min_max : Check
check_types_min_max res args = is_scalar res && (not (is_empty args) && all_scalars args)

abbrev pub check_types_average : Check
check_types_average res args = all_alike res args

abbrev pub check_types_random : Check
check_types_random res args = is_empty args

abbrev pub check_types_random_when : Check
check_types_random_when res args = not (is_empty args)

abbrev pub check_types_converge : Check
check_types_converge res args = is_scalar res

abbrev pub check_types_clear : Check
check_types_clear res args = is_empty args

abbrev pub check_types_merge : Check
check_types_merge res (a ∷ b ∷ []) =
    is_map_of (codes "Scalar") res && (type_eq res a && type_eq res b)
check_types_merge res _ = false

-- The types are maps of one dimension.
abbrev pub same_kind : DataType → DataType → Bool
same_kind s t = (is_map1d s && is_map1d t) || (is_map2d s && is_map2d t)

-- The sides of two maps; the cast of a type that is no map is not reached.
abbrev pub same_side : DataType → DataType → Bool
same_side (DataType.map1 c m) (DataType.map1 d n) = m == n
same_side (DataType.map1 c m) (DataType.map2 d n) = m == n
same_side (DataType.map2 c m) (DataType.map1 d n) = m == n
same_side (DataType.map2 c m) (DataType.map2 d n) = m == n
same_side _ _ = false

-- An input against a map of weights.
abbrev pub fits_weights : DataType → DataType → Bool
fits_weights a w =
    (is_scalar a && is_map_of (codes "Scalar") w)
    || ((is_pos1d a && is_map_of (codes "Pos1D") w)
        || ((is_pos2d a && is_map_of (codes "Pos2D") w)
            || (ltb 0 (is_array a) && is_array a == is_map_of_array w)))

-- A map and a position in it.
abbrev pub fits_position : DataType → DataType → Bool
fits_position m p = (is_map1d m && is_pos1d p) || (is_map2d m && is_pos2d p)

abbrev pub check_types_match : Check
check_types_match res (a ∷ w ∷ []) =
    is_map_of (codes "Scalar") res
    && (is_map_of (name a) w && ((same_kind res w && same_side res w) && fits_weights a w))
check_types_match res _ = false

abbrev pub check_types_learn : Check
check_types_learn res (a ∷ w ∷ p ∷ []) =
    type_eq res w && (is_map res && (fits_weights a w && fits_position w p))
check_types_learn res _ = false

abbrev pub scalar_map1d : DataType → Bool
scalar_map1d m = is_map1d_of (codes "Scalar") m

abbrev pub scalar_map2d : DataType → Bool
scalar_map2d m = is_map2d_of (codes "Scalar") m

abbrev pub check_types_argmax : Check
check_types_argmax res (m ∷ []) =
    (scalar_map1d m || scalar_map2d m)
    && ((is_pos1d res && scalar_map1d m) || (is_pos2d res && scalar_map2d m))
check_types_argmax res _ = false

abbrev pub check_types_toward_argmax : Check
check_types_toward_argmax res (m ∷ current ∷ []) =
    (scalar_map1d m || scalar_map2d m)
    && (((is_pos1d res && scalar_map1d m) || (is_pos2d res && scalar_map2d m))
        && type_eq res current)
check_types_toward_argmax res _ = false

abbrev pub check_types_toward_conv_argmax : Check
check_types_toward_conv_argmax res (m ∷ current ∷ []) =
    (scalar_map1d m || scalar_map2d m)
    && (((is_pos1d res && scalar_map1d m) || (is_pos2d res && scalar_map2d m))
        && type_eq res current)
check_types_toward_conv_argmax res _ = false

-- The first argument is tested twice, and the second one never.
abbrev pub check_types_pair : Check
check_types_pair res (a ∷ b ∷ []) = is_pos2d res && (is_pos1d a && is_pos1d a)
check_types_pair res _ = false

abbrev pub check_types_first : Check
check_types_first res (a ∷ []) = is_pos1d res && is_pos2d a
check_types_first res _ = false

abbrev pub check_types_second : Check
check_types_second res (a ∷ []) = is_pos1d res && is_pos2d a
check_types_second res _ = false

abbrev pub check_types_value_at : Check
check_types_value_at res (collection ∷ index ∷ []) =
    is_map collection && (fits_position collection index && is_map_of (name res) collection)
check_types_value_at res _ = false
