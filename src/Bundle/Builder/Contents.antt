-- ===== src/Bundle/Builder/Contents.antt =====
-- What a built bundle holds: what was added stays, nothing is replaced, and the keys are in order.
use guestjs.Prelude.{◌≡◌, false, Option, none, some, List, [], ◌∷◌, arith}
use guestjs.Text.{Str}
use guestjs.Text.Order.{str_eq_iff}
use guestjs.Errors.{Error, Result, ok, err}
use guestjs.Dict.{Dict, get, insert, contains_key}
use guestjs.Dict.Laws.{get-insert}
use guestjs.Dict.Sorted.{IsSorted, insert-IsSorted}
use guestjs.Bundle.{BundleBuilder}
use guestjs.Bundle.Builder.{Step, Op, attempt, attempt_with, record_error, operation, add, add_all}
use guestjs.Bundle.Builder.Change.{StepChange, same, put_module, put_file, operation-StepChange}

pub record IsOrdered (b : BundleBuilder) : Type 0 where
  pub modules : IsSorted b.modules
  pub files : IsSorted b.files

-- every entry of `d` is in `e`
abbrev pub Extends {ℓ} : {V : Type ℓ} → Dict V → Dict V → Type ℓ
Extends {V = V} d e = (k : Str) (v : V) → get k d ≡ some v → get k e ≡ some v

pub record Grows (b c : BundleBuilder) : Type 0 where
  pub modules : Extends b.modules c.modules
  pub files : Extends b.files c.files

Extends-insert {ℓ} :
    {V : Type ℓ} (k : Str) (v : V) (d : Dict V)
    → contains_key k d ≡ false
    → Extends d (insert k v d)
unfolding contains_key
Extends-insert k v d fresh j w h = ground (arith, get-insert k j v d, str_eq_iff k j)

StepChange-Grows : {b c : BundleBuilder} → StepChange b c → Grows b c
StepChange-Grows same = record { modules = λ k v h. h; files = λ k v h. h }
StepChange-Grows {b} (put_module name source fresh) = record {
  modules = Extends-insert name source b.modules fresh;
  files = λ k v h. h;
}
StepChange-Grows {b} (put_file path contents fresh) = record {
  modules = λ k v h. h;
  files = Extends-insert path contents b.files fresh;
}

StepChange-IsOrdered : {b c : BundleBuilder} → StepChange b c → IsOrdered b → IsOrdered c
StepChange-IsOrdered same h = h
StepChange-IsOrdered {b} (put_module name source fresh) h = record {
  modules = insert-IsSorted name source b.modules h.modules;
  files = h.files;
}
StepChange-IsOrdered {b} (put_file path contents fresh) h = record {
  modules = h.modules;
  files = insert-IsSorted path contents b.files h.files;
}

Grows-trans : {a b c : BundleBuilder} → Grows a b → Grows b c → Grows a c
Grows-trans g h = record {
  modules = λ k v e. h.modules k v (g.modules k v e);
  files = λ k v e. h.files k v (g.files k v e);
}

attempt-rule :
    (P : BundleBuilder → Type 0) (s : Step) (b : BundleBuilder)
    → ((c : BundleBuilder) (e : Error) → P c → P (record c { error = some e }))
    → P b
    → P (s b).0
    → P (attempt s b)
unfolding attempt
attempt-rule P s b mark before after = go b.error
  where
    mark_result : (r : BundleBuilder × Result (Unit {0})) → P r.0 → P (record_error r)
    mark_result (c, ok _) h = h
    mark_result (c, err e) h = mark c e h

    go : (o : Option Error) → P (attempt_with o s b)
    go none = mark_result (s b) after
    go (some e) = before

module _ (transpile : Str → Str → Result Str) where
  add-Grows : (op : Op) (b : BundleBuilder) → Grows b (add transpile op b)
  unfolding add
  add-Grows op b =
      attempt-rule (Grows b) (operation transpile op) b
        (λ c e g. record { modules = g.modules; files = g.files }) (StepChange-Grows same)
        (StepChange-Grows (operation-StepChange transpile op b))

  add-IsOrdered : (op : Op) (b : BundleBuilder) → IsOrdered b → IsOrdered (add transpile op b)
  unfolding add
  add-IsOrdered op b h =
      attempt-rule IsOrdered (operation transpile op) b
        (λ c e g. record { modules = g.modules; files = g.files }) h
        (StepChange-IsOrdered (operation-StepChange transpile op b) h)

  pub add_all-Grows : (ops : List Op) (b : BundleBuilder) → Grows b (add_all transpile ops b)
  unfolding add_all
  add_all-Grows [] b = StepChange-Grows same
  add_all-Grows (op ∷ ops) b = Grows-trans (add-Grows op b) (add_all-Grows ops (add transpile op b))

  -- Whatever is added to a builder whose modules and data files are in strictly ascending order of
  -- their names, they stay so.
  pub add_all-IsOrdered :
      (ops : List Op) (b : BundleBuilder) → IsOrdered b → IsOrdered (add_all transpile ops b)
  unfolding add_all
  add_all-IsOrdered [] b h = h
  add_all-IsOrdered (op ∷ ops) b h =
      add_all-IsOrdered ops (add transpile op b) (add-IsOrdered op b h)
