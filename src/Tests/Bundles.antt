-- ===== src/Tests/Bundles.antt =====
-- Runs of crates/guestjs-core/src/bundle/ on concrete paths and files.
use guestjs.Prelude.{ℕ, ◌≡◌, refl, some, List, [], ◌∷◌, ◌++◌, arith}
use guestjs.Text.{Str, codes}
use guestjs.Errors.{Result, ok, err, bundle, format}
use guestjs.Dict.{insert}
use guestjs.Bundle.{Bundle, Bytes, new_builder}
use guestjs.Bundle.Builder.{Op, add_module, add_data, add_all, operation, build, from_files}
use guestjs.Bundle.Builder.Build.{build_all, Ascending}
use guestjs.Bundle.Builder.Ids.{build_all-Ascending}
use guestjs.Bundle.Builder.Errors.{first_error_kept}
use guestjs.Bundle.Builder.Entries.{HoldsFiles, from_files-HoldsFiles}

-- a transpiler for plain JavaScript
abbrev unchanged : Str → Str → Result Str
unchanged path source = ok source

abbrev plugin : Str
plugin = codes "plugin"

abbrev inner : Str
inner = codes "plugin/inner"

abbrev sample : Bundle
sample = record {
  id = 1;
  modules = insert inner (codes "export default 1") (insert (codes "tool") (codes "export {}") []);
  files = [];
}

abbrev sample_files : List (Str × Bytes)
sample_files =
    (codes "plugin/index.js", codes "export {}") ∷ (codes "plugin/logo.bin", 255 ∷ 0 ∷ []) ∷ []

abbrev sample_bundle : Bundle
sample_bundle = record {
  id = 1;
  modules = insert (codes "plugin/index") (codes "export {}") [];
  files = insert (codes "plugin/logo.bin") (255 ∷ 0 ∷ []) [];
}

from_files-HoldsFiles_example : HoldsFiles unchanged sample_files sample_bundle
unfolding from_files
from_files-HoldsFiles_example = from_files-HoldsFiles unchanged 1 sample_files refl

abbrev sample_calls : List Op
sample_calls =
    add_module (codes "plugin/index.ts") (codes "export {}")
    ∷ add_data (codes "plugin/data.json") (codes "[]")
    ∷ []

-- the path that the second call gives names the first call's module again
first_error_kept_example :
    build 7 (
      add_all unchanged
        (sample_calls
          ++ (add_module (codes "plugin/index.js") (codes "2") ∷ (add_data (codes "a") [] ∷ [])))
        new_builder)
    ≡ some (
      err (
          bundle (
            format "{:?} names the module {:?} a second time"
              (codes "plugin/index.js" ∷ codes "plugin/index" ∷ []))),
      7,
    )
unfolding add_all new_builder operation
first_error_kept_example =
    first_error_kept unchanged sample_calls (add_module (codes "plugin/index.js") (codes "2"))
      (add_data (codes "a") [] ∷ []) new_builder 7 refl refl

build_all-Ascending_example :
    (rs : List (Result Bundle)) × (left : ℕ) × (build_all 1
        (new_builder ∷ add_all unchanged sample_calls new_builder ∷ [])
      ≡ some (rs, left))
    × Ascending 1 rs
build_all-Ascending_example =
    build_all-Ascending (new_builder ∷ add_all unchanged sample_calls new_builder ∷ []) 1
      (omega arith) (omega arith)
