-- ===== src/Host/Modules/Exports.antt =====
-- What a module exports (crates/guestjs-core/src/host/module.rs).
use guestjs.Prelude.{
  ◌≡◌, refl, sym, ap, ◌∙◌, List, [], ◌∷◌, ◌++◌, arith, subst, append_assoc, append-nil, inl, inr,
  ◌⊎◌,
}
use guestjs.Text.{Str}
use guestjs.Errors.{Error, Result, ok, err, try_for_each, Answer-cases, >>=-eq-ok}
use guestjs.Host.Modules.{
  ModuleDeclaration, DeclarationCall, require_call, member_call, state_call, initialize_call,
  new_declaration, declare, declare_all, check_all, with_export, realise_all, exports_checked,
  exports_of, exports,
}

-- every requirement holds of a state
pub data AllHold {K : Type 0} (state : K) : List (K → Result (Unit {0})) → Type 0 where
  no_requirement : AllHold state []
  one_holds :
      {requirement : K → Result (Unit {0})} {rest : List (K → Result (Unit {0}))}
      → requirement state ≡ ok tt
      → AllHold state rest
      → AllHold state (requirement ∷ rest)

check_all_sound :
    {K : Type 0} (requirements : List (K → Result (Unit {0}))) (state : K)
    → check_all requirements state ≡ ok tt
    → AllHold state requirements
unfolding check_all
check_all_sound [] state h = no_requirement
check_all_sound (requirement ∷ rest) state h =
    let (done, first, others) =
      >>=-eq-ok (requirement state) (λ _. try_for_each (λ r. r state) rest) h in
    one_holds first (check_all_sound rest state others)

Result-cases : {A : Type 0} (r : Result A) → ((a : A) × (r ≡ ok a)) ⊎ ((e : Error) × (r ≡ err e))
Result-cases (ok a) = inl (a, refl)
Result-cases (err e) = inr (e, refl)

module _ {S K D V : Type 0} (realise : D → K → Str → S → Result V × S) where
  -- The members, one after the other, are the exports, each under its name.
  pub data Realised (state : K) : List (Str × D) → S → List (Str × V) → S → Type 0 where
    no_member : {s : S} → Realised state [] s [] s
    one_member :
        {name : Str} {declaration : D} {members : List (Str × D)} {values : List (Str × V)}
        {s t u : S} (value : V)
        → realise declaration state name s ≡ (ok value, t)
        → Realised state members t values u
        → Realised state ((name, declaration) ∷ members) s ((name, value) ∷ values) u

  go_on : K → Str → List (Str × D) → Result V × S → Result (List (Str × V)) × S
  unfolding realise_all
  go_on state name members (value, t) = elim value [
    | ok v ↦ with_export realise name v (realise_all realise state members t)
    | err e ↦ (err e, t)
  ]

  realise_all_sound :
      (state : K) (members : List (Str × D)) (s t : S) (values : List (Str × V))
      → realise_all realise state members s ≡ (ok values, t)
      → Realised state members s values t
  unfolding realise_all with_export go_on
  realise_all_sound state [] s t values h =
      let none : [] ≡ values = ground arith in
      let there : s ≡ t = ap (λ r. r.1) h in
      subst (λ w. Realised state [] s w t) none
        (subst (λ u. Realised state [] s [] u) there no_member)
  realise_all_sound state ((name, declaration) ∷ members) s t values h =
      elim (Answer-cases (realise declaration state name s)) [
        | inl (v, r, e) ↦
            let tail = sym (ap (go_on state name members) e) ∙ h in
            elim (Answer-cases (realise_all realise state members r)) [
              | inl (ws, u, f) ↦
                  let whole = sym (ap (with_export realise name v) f) ∙ tail in
                  let there : u ≡ t = ap (λ p. p.1) whole in
                  let made : (name, v) ∷ ws ≡ values = ground (arith, whole) in
                  subst (λ w. Realised state ((name, declaration) ∷ members) s w t) made
                    (one_member v e
                      (realise_all_sound state members r t ws (f ∙ ap (λ x. (ok ws, x)) there)))
              | inr (x, u, f) ↦
                  let whole = sym (ap (with_export realise name v) f) ∙ tail in
                  absurd (ground (arith, whole))
            ]
        | inr (x, r, e) ↦
            let tail = sym (ap (go_on state name members) e) ∙ h in absurd (ground (arith, tail))
      ]

  -- What an export that succeeds has done.
  pub record Exported (requirements : List (K → Result (Unit {0}))) (members : List (Str × D))
      (made : Result K × S) (values : List (Str × V)) (t : S) : Type 0 where
    pub state : K
    pub between : S
    pub created : made ≡ (ok state, between)
    pub required : AllHold state requirements
    pub realised : Realised state members between values t

  exports_of_sound :
      (m : ModuleDeclaration S K D) (made : Result K × S) (t : S) (values : List (Str × V))
      → exports_of realise m made ≡ (ok values, t)
      → Exported m.requirements m.members made values t
  unfolding exports_of exports_checked
  exports_of_sound m (err e, s) t values h = absurd (ground arith)
  exports_of_sound m (ok state, s) t values h =
      elim (Result-cases (check_all m.requirements state)) [
        | inl (done, e) ↦ record {
          state = state;
          between = s;
          created = refl;
          required = check_all_sound m.requirements state e;
          realised =
              realise_all_sound state m.members s t values
                (sym (ap (λ c. exports_checked realise state m.members c s) e) ∙ h);
        }
        | inr (x, e) ↦
            let stopped = sym (ap (λ c. exports_checked realise state m.members c s) e) ∙ h in
            absurd (ground (arith, stopped))
      ]

-- what the calls have declared, in their order
module _ {S K D : Type 0} where
  abbrev pub members_of : List (DeclarationCall S K D) → List (Str × D)
  members_of [] = []
  members_of (member_call name declaration ∷ calls) = (name, declaration) ∷ members_of calls
  members_of (_ ∷ calls) = members_of calls

  abbrev pub requirements_of : List (DeclarationCall S K D) → List (K → Result (Unit {0}))
  requirements_of [] = []
  requirements_of (require_call requirement ∷ calls) = requirement ∷ requirements_of calls
  requirements_of (_ ∷ calls) = requirements_of calls

  declare_all-members :
      (calls : List (DeclarationCall S K D)) (m : ModuleDeclaration S K D)
      → (declare_all m calls).members ≡ m.members ++ members_of calls
  unfolding declare_all declare
  declare_all-members [] m = sym (append-nil m.members)
  declare_all-members (require_call r ∷ calls) m =
      declare_all-members calls (declare m (require_call r))
  declare_all-members (member_call name d ∷ calls) m =
      declare_all-members calls (declare m (member_call name d))
      ∙ append_assoc m.members ((name, d) ∷ []) (members_of calls)
  declare_all-members (state_call f ∷ calls) m =
      declare_all-members calls (declare m (state_call f))
  declare_all-members (initialize_call i ∷ calls) m =
      declare_all-members calls (declare m (initialize_call i))

  declare_all-requirements :
      (calls : List (DeclarationCall S K D)) (m : ModuleDeclaration S K D)
      → (declare_all m calls).requirements ≡ m.requirements ++ requirements_of calls
  unfolding declare_all declare
  declare_all-requirements [] m = sym (append-nil m.requirements)
  declare_all-requirements (require_call r ∷ calls) m =
      declare_all-requirements calls (declare m (require_call r))
      ∙ append_assoc m.requirements (r ∷ []) (requirements_of calls)
  declare_all-requirements (member_call name d ∷ calls) m =
      declare_all-requirements calls (declare m (member_call name d))
  declare_all-requirements (state_call f ∷ calls) m =
      declare_all-requirements calls (declare m (state_call f))
  declare_all-requirements (initialize_call i ∷ calls) m =
      declare_all-requirements calls (declare m (initialize_call i))

-- A module that was declared by some calls and exports its members has first made its state, then
-- found every requirement that was declared to hold of it, and then realised every member that was
-- declared, with that state and in the order of the calls; the exports are these, each under its
-- name.
pub exports-Exported :
    {S K D V : Type 0} (realise : D → K → Str → S → Result V × S) (empty : K) (name : Str)
    (calls : List (DeclarationCall S K D)) (s t : S) (values : List (Str × V))
    → exports realise (declare_all (new_declaration empty name) calls) s ≡ (ok values, t)
    → Exported realise
        (requirements_of calls)
        (members_of calls)
        ((declare_all (new_declaration empty name) calls).state s)
        values
        t
unfolding exports new_declaration
exports-Exported realise empty name calls s t values h =
    let m = declare_all (new_declaration empty name) calls in
    subst (λ r. Exported realise r (members_of calls) (m.state s) values t)
      (declare_all-requirements calls (new_declaration empty name))
      (subst (λ ms. Exported realise m.requirements ms (m.state s) values t)
        (declare_all-members calls (new_declaration empty name))
        (exports_of_sound realise m (m.state s) t values h))
