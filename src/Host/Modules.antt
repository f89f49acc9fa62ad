-- ===== src/Host/Modules.antt =====
-- `ModuleDeclaration` of crates/guestjs-core/src/host/module.rs with its `Requirements`
-- (host/requirements.rs). A declaration of a member, and the state that the host keeps for a module,
-- are of any types `D` and `K`; `realise` makes the value of a member in the guest, whose state is
-- `S`. An initializer is a number.
pub mod Exports
use guestjs.Prelude.{ℕ, Option, none, some, List, [], ◌∷◌, push}
use guestjs.Text.{Str}
use guestjs.Errors.{Result, ok, err, try_for_each}

pub record ModuleDeclaration (S K D : Type 0) : Type 0 where
  pub name : Str
  pub requirements : List (K → Result (Unit {0}))
  pub members : List (Str × D)
  pub state : S → Result K × S
  pub initializer : Option ℕ

-- The calls that build a declaration.
pub data DeclarationCall (S K D : Type 0) : Type 0 where
  require_call : (K → Result (Unit {0})) → DeclarationCall S K D
  member_call : Str → D → DeclarationCall S K D
  state_call : (S → Result K × S) → DeclarationCall S K D
  initialize_call : ℕ → DeclarationCall S K D

module _ {S K D : Type 0} where
  -- `empty` is the state of a module that declares none.
  unfoldable pub new_declaration : K → Str → ModuleDeclaration S K D
  new_declaration empty name = record {
    name = name;
    requirements = [];
    members = [];
    state = λ s. (ok empty, s);
    initializer = none;
  }

  unfoldable pub declare : ModuleDeclaration S K D → DeclarationCall S K D → ModuleDeclaration S K D
  declare m (require_call requirement) = record m { requirements = push m.requirements requirement }
  declare m (member_call name declaration) = record m {
    members = push m.members (name, declaration);
  }
  declare m (state_call state) = record m { state = state }
  declare m (initialize_call initialize) = record m { initializer = some initialize }

  unfoldable pub declare_all :
      ModuleDeclaration S K D → List (DeclarationCall S K D) → ModuleDeclaration S K D
  unfolding declare
  declare_all m [] = m
  declare_all m (call ∷ calls) = declare_all (declare m call) calls

-- `Requirements::check`
unfoldable pub check_all : {K : Type 0} → List (K → Result (Unit {0})) → K → Result (Unit {0})
check_all requirements state = try_for_each (λ requirement. requirement state) requirements

module _ {S K D V : Type 0} (realise : D → K → Str → S → Result V × S) where
  unfoldable pub with_export : Str → V → Result (List (Str × V)) × S → Result (List (Str × V)) × S
  with_export name value (ok exports, s) = (ok ((name, value) ∷ exports), s)
  with_export name value (err e, s) = (err e, s)

  -- `collect` stops at the first error.
  unfoldable pub realise_all : K → List (Str × D) → S → Result (List (Str × V)) × S
  unfolding with_export
  realise_all state [] s = (ok [], s)
  realise_all state (member ∷ members) s =
      let (value, t) = realise member.1 state member.0 s in
      let rest = realise_all state members t in
      elim value [ ok v ↦ with_export member.0 v rest | err e ↦ (err e, t) ]

  unfoldable pub exports_checked :
      K → List (Str × D) → Result (Unit {0}) → S → Result (List (Str × V)) × S
  unfolding realise_all
  exports_checked state members (ok _) s = realise_all state members s
  exports_checked state members (err e) s = (err e, s)

  unfoldable pub exports_of : ModuleDeclaration S K D → Result K × S → Result (List (Str × V)) × S
  unfolding exports_checked check_all
  exports_of m (ok state, s) = exports_checked state m.members (check_all m.requirements state) s
  exports_of m (err e, s) = (err e, s)

  unfoldable pub exports : ModuleDeclaration S K D → S → Result (List (Str × V)) × S
  unfolding exports_of
  exports m s = exports_of m (m.state s)
