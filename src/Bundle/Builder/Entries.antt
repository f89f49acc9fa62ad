-- ===== src/Bundle/Builder/Entries.antt =====
-- Every call that a successful build has seen left its entry, under the key that its path gives.
use guestjs.Prelude.{
  ℕ, ◌≡◌, refl, sym, ap, ◌∙◌, ◌≢◌, inl, inr, Bool, true, false, Option, none, some, List, [], ◌∷◌,
  arith, Option-cases,
}
use guestjs.Text.{Str}
use guestjs.Text.Order.{str_eq_refl}
use guestjs.Errors.{Error, Result, ok, err, ok_or, ok_or_sound}
use guestjs.Dict.{Dict, get, contains_key}
use guestjs.Dict.Laws.{get-insert}
use guestjs.Bundle.{Bundle, BundleBuilder, Bytes, new_builder}
use guestjs.Bundle.Path.{bundle_path, module_name}
use guestjs.Bundle.Path.Laws.{bundle_path_sound}
use guestjs.Bundle.Utf8.{from_utf8}
use guestjs.Bundle.Builder.{
  Step, Op, add_module, add_data, add_file, and_then, attempt, attempt_with, record_error,
  operation, add, add_all, insert_module, insert_data, file_kind, store_module, as_files,
  from_files,
}
use guestjs.Bundle.Builder.Build.{build_sound}
use guestjs.Bundle.Builder.Contents.{Grows, add_all-Grows}
use guestjs.Bundle.Builder.Errors.{add_all_after_error}

and_then_ok {ℓ} :
    {A : Type ℓ} (r : Result A) (f : A → Step) (b : BundleBuilder)
    → (and_then r f b).1 ≡ ok tt
    → (a : A) × (r ≡ ok a) × (and_then r f b ≡ f a b)
and_then_ok (ok a) f b h = (a, refl, refl)
and_then_ok (err e) f b h = cc

at_path :
    (path : Str) (f : Str → Step) (b : BundleBuilder)
    → (and_then (bundle_path path) f b).1 ≡ ok tt
    → (bundle_path path ≡ ok path) × (and_then (bundle_path path) f b ≡ f path b)
at_path path f b h =
    let (p, r, step) = and_then_ok (bundle_path path) f b h in
    let (same, _) = bundle_path_sound path p r in
    (rw same at r, step ∙ ap (λ (q : Str). f q b) same)

module _ (transpile : Str → Str → Result Str) where
  -- the module that `path` names holds the transpiled `source`
  pub record HoldsModule (modules : Dict Str) (path source : Str) : Type 0 where
    pub name : Str
    pub code : Str
    pub named : module_name path ≡ some name
    pub transpiled : transpile path source ≡ ok code
    pub stored : get name modules ≡ some code

  -- a file is a module by its extension, and a data file otherwise
  pub data HoldsFile (modules : Dict Str) (files : Dict Bytes) (path : Str) (contents : Bytes)
      : Type 0 where
    module_file :
        (text : Str)
        → from_utf8 contents ≡ some text
        → HoldsModule modules path text
        → HoldsFile modules files path contents
    data_file :
        module_name path ≡ none
        → get path files ≡ some contents
        → HoldsFile modules files path contents

  store_module-stored :
      (seen : Bool) (path name : Str) (source : Result Str) (b : BundleBuilder)
      → (store_module seen path name source b).1 ≡ ok tt
      → (code : Str) × (source ≡ ok code)
        × (get name (store_module seen path name source b).0.modules ≡ some code)
  unfolding store_module
  store_module-stored true path name source b h = cc
  store_module-stored false path name (ok code) b h =
      (code, refl, ground (arith, get-insert name name code b.modules, str_eq_refl name))
  store_module-stored false path name (err e) b h = cc

  insert_module-stored :
      (path source : Str) (b : BundleBuilder)
      → (insert_module transpile path source b).1 ≡ ok tt
      → HoldsModule (insert_module transpile path source b).0.modules path source
  unfolding insert_module
  insert_module-stored path source b h =
      let (name, r, step) = and_then_ok (ok_or (module_name path) _) _ b h in
      let (code, t, kept) =
        store_module-stored (contains_key name b.modules) path name (transpile path source) b
          (sym (ap (λ (x : BundleBuilder × Result (Unit {0})). x.1) step) ∙ h) in
      record {
        name = name;
        code = code;
        named = ok_or_sound (module_name path) _ name r;
        transpiled = t;
        stored = ap (λ (x : BundleBuilder × Result (Unit {0})). get name x.0.modules) step ∙ kept;
      }

  insert_data-stored :
      (path : Str) (contents : Bytes) (b : BundleBuilder)
      → (insert_data path contents b).1 ≡ ok tt
      → get path (insert_data path contents b).0.files ≡ some contents
  unfolding insert_data
  insert_data-stored path contents b h =
      ground (arith, get-insert path path contents b.files, str_eq_refl path)

  file_kind-stored :
      (kind : Option Str) (path : Str) (contents : Bytes) (b : BundleBuilder)
      → module_name path ≡ kind
      → (file_kind transpile kind path contents b).1 ≡ ok tt
      → HoldsFile
          (file_kind transpile kind path contents b).0.modules
          (file_kind transpile kind path contents b).0.files
          path
          contents
  unfolding file_kind
  file_kind-stored none path contents b k h = data_file k (insert_data-stored path contents b h)
  file_kind-stored (some _) path contents b k h =
      let (text, r, step) =
        and_then_ok (ok_or (from_utf8 contents) _) (insert_module transpile path) b h in
      module_file text (ok_or_sound (from_utf8 contents) _ text r)
        (rw step (insert_module-stored path text b (rw step at h)))

  -- what one call leaves in a builder: its entry, at a path that is well formed
  abbrev pub Holds : Op → BundleBuilder → Type 0
  Holds (add_module path source) b =
      (bundle_path path ≡ ok path) × HoldsModule b.modules path source
  Holds (add_data path contents) b =
      (bundle_path path ≡ ok path) × (get path b.files ≡ some contents)
  Holds (add_file path contents) b =
      (bundle_path path ≡ ok path) × HoldsFile b.modules b.files path contents

  operation-Holds :
      (op : Op) (b : BundleBuilder)
      → (operation transpile op b).1 ≡ ok tt
      → Holds op (operation transpile op b).0
  unfolding operation
  operation-Holds (add_module path source) b h =
      let (valid, step) = at_path path _ b h in
      (valid, rw step (insert_module-stored path source b (rw step at h)))
  operation-Holds (add_data path contents) b h =
      let (valid, step) = at_path path _ b h in
      (valid, rw step (insert_data-stored path contents b (rw step at h)))
  operation-Holds (add_file path contents) b h =
      let (valid, step) = at_path path _ b h in
      (valid, rw step (file_kind-stored (module_name path) path contents b refl (rw step at h)))

  attempt_ok :
      (s : Step) (b : BundleBuilder)
      → (attempt s b).error ≡ none
      → b.error ≡ none
      → ((s b).1 ≡ ok tt) × (attempt s b ≡ (s b).0)
  unfolding attempt
  attempt_ok s b h clean = at_error b.error clean h
    where
      unmarked :
          (r : BundleBuilder × Result (Unit {0}))
          → (record_error r).error ≡ none
          → (r.1 ≡ ok tt) × (record_error r ≡ r.0)
      unmarked (c, ok _) e = (refl, refl)
      unmarked (c, err x) e = cc

      at_error :
          (o : Option Error)
          → o ≡ none
          → (attempt_with o s b).error ≡ none
          → ((s b).1 ≡ ok tt) × (attempt_with o s b ≡ (s b).0)
      at_error none _ e = unmarked (s b) e
      at_error (some x) none_error e = cc

  none_ne_some : {x : Error} → ◌≢◌ {A = Option Error} none (some x)
  none_ne_some h = cc

  add-Holds :
      (op : Op) (b : BundleBuilder)
      → b.error ≡ none
      → (add transpile op b).error ≡ none
      → Holds op (add transpile op b)
  unfolding add
  add-Holds op b clean h =
      let (done, same) = attempt_ok (operation transpile op) b h clean in
      rw same (operation-Holds op b done)

  HoldsModule-Grows :
      {b c : BundleBuilder} (path source : Str)
      → Grows b c
      → HoldsModule b.modules path source
      → HoldsModule c.modules path source
  HoldsModule-Grows path source g h = record {
    name = h.name;
    code = h.code;
    named = h.named;
    transpiled = h.transpiled;
    stored = g.modules h.name h.code h.stored;
  }

  Holds-Grows : {b c : BundleBuilder} (op : Op) → Grows b c → Holds op b → Holds op c
  Holds-Grows (add_module path source) g (v, h) = (v, HoldsModule-Grows path source g h)
  Holds-Grows (add_data path contents) g (v, h) = (v, g.files path contents h)
  Holds-Grows (add_file path contents) g (v, module_file text t h) =
      (v, module_file text t (HoldsModule-Grows path text g h))
  Holds-Grows (add_file path contents) g (v, data_file n h) =
      (v, data_file n (g.files path contents h))

  abbrev pub HoldsAll : List Op → BundleBuilder → Type 0
  HoldsAll [] b = Unit
  HoldsAll (op ∷ ops) b = Holds op b × HoldsAll ops b

  -- While no error is recorded, a builder holds the entry of every call that it has seen.
  pub add_all-HoldsAll :
      (ops : List Op) (b : BundleBuilder)
      → b.error ≡ none
      → (add_all transpile ops b).error ≡ none
      → HoldsAll ops (add_all transpile ops b)
  unfolding add_all
  add_all-HoldsAll [] b clean h = tt
  add_all-HoldsAll (op ∷ ops) b clean h = elim (Option-cases (add transpile op b).error) [
    | inl e ↦ (
      Holds-Grows op (add_all-Grows transpile ops (add transpile op b)) (add-Holds op b clean e),
      add_all-HoldsAll ops (add transpile op b) e h,
    )
    | inr (x, e) ↦ absurd (
        none_ne_some (
          sym h
          ∙ ap (λ (c : BundleBuilder). c.error)
              (add_all_after_error transpile ops (add transpile op b) e)
          ∙ e))
  ]

  abbrev pub HoldsFiles : List (Str × Bytes) → Bundle → Type 0
  HoldsFiles [] b = Unit
  HoldsFiles ((path, contents) ∷ files) b =
      (bundle_path path ≡ ok path) × HoldsFile b.modules b.files path contents × HoldsFiles files b

  HoldsAll-files :
      (files : List (Str × Bytes)) (b : BundleBuilder) (id : ℕ)
      → HoldsAll (as_files files) b
      → HoldsFiles files (record { id = id; modules = b.modules; files = b.files })
  unfolding as_files
  HoldsAll-files [] b id h = tt
  HoldsAll-files ((path, contents) ∷ files) b id ((v, f), rest) =
      (v, f, HoldsAll-files files b id rest)

  -- If `from_files` returns a bundle, then every path that it was given is well formed, every
  -- file with a script extension is valid UTF-8 and is stored, transpiled, as the module that its
  -- path names, and every other file is stored byte for byte under its path.
  pub from_files-HoldsFiles :
      (counter : ℕ) (files : List (Str × Bytes)) {b : Bundle} {left : ℕ}
      → from_files transpile counter files ≡ some (ok b, left)
      → HoldsFiles files b
  unfolding from_files
  from_files-HoldsFiles counter files h =
      let added = add_all transpile (as_files files) new_builder in
      let built = build_sound counter added h in
      rw built.bundle (
        HoldsAll-files files added counter
          (add_all-HoldsAll (as_files files) new_builder (unfold new_builder in refl) built.clean))
