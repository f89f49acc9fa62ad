-- ===== src/Tests/Values.antt =====
-- Runs of crates/guestjs-core/src/marshal/: a value of the tests is a number, of which 0 is
-- `undefined` and 1 is `null`.
use guestjs.Prelude.{ℕ, ◌≡◌, ◌≢◌, refl, ◌+◌, ◌-◌, none, [], ◌∷◌, ◌==◌, arith, if◌then◌else◌}
use guestjs.Text.{codes}
use guestjs.Marshal.Describe.{describe_nullish, to_text}
use guestjs.Errors.{Result, ok}
use guestjs.Marshal.Args.{RawCall}
use guestjs.Marshal.Nullish.{Kind, undefined_kind, null_kind, number, Values}

abbrev call : RawCall ℕ
call = record { this_value = 0; args = 7 ∷ (8 ∷ (9 ∷ [])); new_target = none }

abbrev kind_of : ℕ → Kind
kind_of v = if v == 0 then undefined_kind else if v == 1 then null_kind else number

abbrev numbers : Values ℕ
numbers = record { new_undefined = 0; new_null = 1; kind = kind_of }

abbrev inner : ℕ → Result ℕ
inner n = ok (n + 2)

abbrev outer : ℕ → Result ℕ
outer v = ok (v - 2)

inner_defined : (n v : ℕ) → inner n ≡ ok v → kind_of v ≢ undefined_kind
inner_defined n v h = ground arith

inner_not_null : (n v : ℕ) → inner n ≡ ok v → kind_of v ≢ null_kind
inner_not_null n v h = ground arith

inner_back : (n v : ℕ) → inner n ≡ ok v → outer v ≡ ok n
inner_back n v h = ground arith

-- `description_includes_all_three_cases` of marshal/nullish.rs
nullish_text :
    to_text (describe_nullish (codes "string" ∷ []) []) ≡ codes "string, undefined or null"
unfolding to_text describe_nullish guestjs.Text.str_eq
nullish_text = refl
