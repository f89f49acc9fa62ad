-- ===== src/Marshal/Describe.antt =====
-- `Expected` of crates/guestjs-core/src/marshal/describe.rs: the names of what a conversion takes.
pub mod Names
use guestjs.Prelude.{Bool, true, false, List, [], ◌∷◌, ◌++◌, push, if◌then◌else◌}
use guestjs.Text.{Str, codes}
use guestjs.Errors.{Error, conversion, format}
use guestjs.Dict.{elem}
use guestjs.Marshal.Nullish.{
  Kind, undefined_kind, null_kind, boolean, number, big_int, string, symbol, array, function,
  promise, array_buffer, typed_array, data_view, set, object,
}

abbrev pub Expected : Type 0
Expected = List Str

-- `Expected::push`
unfoldable pub push_name : Str → Expected → Expected
unfolding elem
push_name name names = if elem name names then names else push names name

-- What a `describe` that pushes these names makes of a description.
unfoldable pub describe : List Str → Expected → Expected
unfolding push_name
describe [] names = names
describe (name ∷ rest) names = describe rest (push_name name names)

-- `Nullish<T>::describe`, after that of `T`
unfoldable pub describe_nullish : List Str → Expected → Expected
unfolding describe
describe_nullish inner names =
    describe (codes "undefined" ∷ (codes "null" ∷ [])) (describe inner names)

-- The names after the first, with ", " between them and " or " before the last.
joined : List Str → Str
joined [] = []
joined (last ∷ []) = codes " or " ++ last
joined (name ∷ next ∷ rest) = codes ", " ++ (name ++ joined (next ∷ rest))

-- `Display`
unfoldable pub to_text : Expected → Str
unfolding joined
to_text [] = codes "nothing"
to_text (first ∷ rest) = first ++ joined rest

unfoldable pub kind_name : Kind → Str
kind_name undefined_kind = codes "undefined"
kind_name null_kind = codes "null"
kind_name boolean = codes "boolean"
kind_name number = codes "number"
kind_name big_int = codes "bigint"
kind_name string = codes "string"
kind_name symbol = codes "symbol"
kind_name array = codes "array"
kind_name function = codes "function"
kind_name promise = codes "promise"
kind_name array_buffer = codes "ArrayBuffer"
kind_name typed_array = codes "typed array"
kind_name data_view = codes "DataView"
kind_name set = codes "Set"
kind_name object = codes "object"

unfoldable pub mismatch : Expected → Kind → Error
unfolding to_text kind_name
mismatch names found =
    conversion (format "{}" (to_text names ∷ [])) (format "{}" (kind_name found ∷ []))
