-- ===== src/Bundle/Builder.antt =====
-- `BundleBuilder` of crates/guestjs-core/src/bundle/mod.rs. A method on `&mut self` returns the
-- builder that it leaves beside its result.
pub mod Errors
pub mod Change
pub mod Build
pub mod Ids
pub mod Contents
pub mod Entries
use guestjs.Prelude.{ℕ, Bool, true, false, Option, none, some, List, [], ◌∷◌}
use guestjs.Text.{Str, is_empty}
use guestjs.Errors.{Error, Result, ok, err, ok_or, bundle, literal, format, ◌>>=◌}
use guestjs.Dict.{contains_key, insert}
use guestjs.Bundle.{Bundle, BundleBuilder, Bytes, new_builder, next_id}
use guestjs.Bundle.Path.{bundle_path, module_name}
use guestjs.Bundle.Utf8.{from_utf8}

abbrev pub Step : Type 0
Step = BundleBuilder → BundleBuilder × Result (Unit {0})

-- `?` at the head of a method
abbrev pub and_then {ℓ} : {A : Type ℓ} → Result A → (A → Step) → Step
and_then (ok a) f b = f a b
and_then (err e) f b = (b, err e)

pub record_error : BundleBuilder × Result (Unit {0}) → BundleBuilder
record_error (b, ok _) = b
record_error (b, err e) = record b { error = some e }

pub attempt_with : Option Error → Step → BundleBuilder → BundleBuilder
unfolding record_error
attempt_with none operation b = record_error (operation b)
attempt_with (some e) operation b = b

-- an error that is already there skips the operation
unfoldable pub attempt : Step → BundleBuilder → BundleBuilder
unfolding attempt_with
attempt operation b = attempt_with b.error operation b

-- What an application adds to a builder.
pub data Op : Type 0 where
  add_module : Str → Str → Op
  add_data : Str → Bytes → Op
  add_file : Str → Bytes → Op

pub store_module : Bool → Str → Str → Result Str → Step
store_module true path name source b =
    (b, err (bundle (format "{:?} names the module {:?} a second time" (path ∷ name ∷ []))))
store_module false path name (ok source) b =
    (record b { modules = insert name source b.modules }, ok tt)
store_module false path name (err e) b = (b, err e)

unfoldable pub insert_data : Str → Bytes → Step
unfolding contains_key insert
insert_data path contents b = elim (contains_key path b.files) [
  | true ↦ (b, err (bundle (format "{:?} is added a second time" (path ∷ []))))
  | false ↦ (record b { files = insert path contents b.files }, ok tt)
]

module _ (transpile : Str → Str → Result Str) where
  unfoldable pub insert_module : Str → Str → Step
  unfolding module_name store_module contains_key insert
  insert_module path source =
      and_then
        (ok_or (module_name path)
          (bundle (format "{:?} is not a JavaScript or TypeScript module" (path ∷ []))))
        (λ name b. store_module (contains_key name b.modules) path name (transpile path source) b)

  pub file_kind : Option Str → Str → Bytes → Step
  unfolding insert_module insert_data from_utf8
  file_kind (some _) path contents =
      and_then
        (ok_or (from_utf8 contents)
          (bundle (format "{:?} is not UTF-8: {error}" (path ∷ contents ∷ []))))
        (insert_module path)
  file_kind none path contents = insert_data path contents

  unfoldable pub insert_file : Str → Bytes → Step
  unfolding file_kind module_name
  insert_file path contents = file_kind (module_name path) path contents

  unfoldable pub operation : Op → Step
  unfolding insert_module insert_data insert_file bundle_path
  operation (add_module path source) = and_then (bundle_path path) (λ p. insert_module p source)
  operation (add_data path contents) = and_then (bundle_path path) (λ p. insert_data p contents)
  operation (add_file path contents) = and_then (bundle_path path) (λ p. insert_file p contents)

  -- `module`, `data` and `file`
  unfoldable pub add : Op → BundleBuilder → BundleBuilder
  unfolding attempt operation
  add op b = attempt (operation op) b

  -- a chain of calls
  unfoldable pub add_all : List Op → BundleBuilder → BundleBuilder
  unfolding add
  add_all [] b = b
  add_all (op ∷ ops) b = add_all ops (add op b)

new_bundle : Option (ℕ × ℕ) → BundleBuilder → Option (Result Bundle × ℕ)
new_bundle none b = none
new_bundle (some (id, counter)) b =
    some (ok (record { id = id; modules = b.modules; files = b.files }), counter)

pub finish : Option Error → Bool → ℕ → BundleBuilder → Option (Result Bundle × ℕ)
unfolding new_bundle next_id
finish (some error) _ counter b = some (err error, counter)
finish none true counter b =
    some (err (bundle (literal "a bundle needs at least one module")), counter)
finish none false counter b = new_bundle (next_id counter) b

-- The result and the id counter that is left; `none` is the panic of the id counter.
unfoldable pub build : ℕ → BundleBuilder → Option (Result Bundle × ℕ)
unfolding finish
build counter b = finish b.error (is_empty b.modules) counter b

pub as_files : List (Str × Bytes) → List Op
as_files [] = []
as_files ((path, contents) ∷ rest) = add_file path contents ∷ as_files rest

module _ (transpile : Str → Str → Result Str) where
  -- `Bundle::from_files`
  unfoldable pub from_files : ℕ → List (Str × Bytes) → Option (Result Bundle × ℕ)
  unfolding build add_all new_builder as_files
  from_files counter files = build counter (add_all transpile (as_files files) new_builder)

  -- `Bundle::single`
  unfoldable pub single : ℕ → Str → Str → Option (Result Bundle × ℕ)
  unfolding build add new_builder
  single counter path source = build counter (add transpile (add_module path source) new_builder)
