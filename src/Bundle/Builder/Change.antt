-- ===== src/Bundle/Builder/Change.antt =====
-- One call of a builder leaves it as it is, or adds one entry at a key that was free.
use guestjs.Prelude.{◌≡◌, refl, Bool, true, false, Option, none, some}
use guestjs.Text.{Str}
use guestjs.Errors.{Result, ok, err, ok_or}
use guestjs.Dict.{insert, contains_key}
use guestjs.Bundle.{BundleBuilder, Bytes}
use guestjs.Bundle.Path.{bundle_path, module_name}
use guestjs.Bundle.Utf8.{from_utf8}
use guestjs.Bundle.Builder.{
  Step, Op, add_module, add_data, add_file, and_then, operation, insert_module, insert_data,
  file_kind, store_module,
}

-- The steps never touch the error of the builder: `attempt` does.
pub data StepChange (b : BundleBuilder) : BundleBuilder → Type 0 where
  same : StepChange b b
  put_module :
      (name source : Str)
      → contains_key name b.modules ≡ false
      → StepChange b (record b { modules = insert name source b.modules })
  put_file :
      (path : Str) (contents : Bytes)
      → contains_key path b.files ≡ false
      → StepChange b (record b { files = insert path contents b.files })

and_then-StepChange {ℓ} :
    {A : Type ℓ} (r : Result A) (f : A → Step) (b : BundleBuilder)
    → ((a : A) → StepChange b (f a b).0)
    → StepChange b (and_then r f b).0
and_then-StepChange (ok a) f b h = h a
and_then-StepChange (err e) f b h = same

store_module-StepChange :
    (seen : Bool) (path name : Str) (source : Result Str) (b : BundleBuilder)
    → contains_key name b.modules ≡ seen
    → StepChange b (store_module seen path name source b).0
unfolding store_module
store_module-StepChange true path name source b h = same
store_module-StepChange false path name (ok source) b h = put_module name source h
store_module-StepChange false path name (err e) b h = same

insert_data-StepChange :
    (path : Str) (contents : Bytes) (b : BundleBuilder)
    → StepChange b (insert_data path contents b).0
unfolding insert_data
insert_data-StepChange path contents b = go (contains_key path b.files) refl
  where
    go :
        (seen : Bool)
        → contains_key path b.files ≡ seen
        → StepChange b (insert_data path contents b).0
    go true h = rw (h, insert_data) same
    go false h = rw (h, insert_data) (put_file path contents h)

module _ (transpile : Str → Str → Result Str) where
  insert_module-StepChange :
      (path source : Str) (b : BundleBuilder)
      → StepChange b (insert_module transpile path source b).0
  unfolding insert_module
  insert_module-StepChange path source b =
      and_then-StepChange (ok_or (module_name path) _) _ b (λ name.
        store_module-StepChange (contains_key name b.modules) path name (transpile path source) b
          refl)

  file_kind-StepChange :
      (kind : Option Str) (path : Str) (contents : Bytes) (b : BundleBuilder)
      → StepChange b (file_kind transpile kind path contents b).0
  unfolding file_kind
  file_kind-StepChange (some _) path contents b =
      and_then-StepChange (ok_or (from_utf8 contents) _) (insert_module transpile path) b
        (λ text. insert_module-StepChange path text b)
  file_kind-StepChange none path contents b = insert_data-StepChange path contents b

  pub operation-StepChange :
      (op : Op) (b : BundleBuilder) → StepChange b (operation transpile op b).0
  unfolding operation
  operation-StepChange (add_module path source) b =
      and_then-StepChange (bundle_path path) _ b (λ p. insert_module-StepChange p source b)
  operation-StepChange (add_data path contents) b =
      and_then-StepChange (bundle_path path) _ b (λ p. insert_data-StepChange p contents b)
  operation-StepChange (add_file path contents) b =
      and_then-StepChange (bundle_path path) _ b
        (λ p. file_kind-StepChange (module_name p) p contents b)
