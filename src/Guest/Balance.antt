-- ===== src/Guest/Balance.antt =====
-- Every way into a guest (crates/guestjs-core/src/guest/mod.rs) leaves the guest's activity as it
-- found it, however its closure nests further entries.
use guestjs.Prelude.{
  ℕ, ◌≡◌, refl, sym, ap, ◌∙◌, Bool, true, false, Option, none, some, ltb, ◌==◌, ◌+◌, ◌<◌, arith,
  Bool-cases, inl, inr, subst,
}
use guestjs.Errors.{Error, Result, ok, err, closed}
use guestjs.Policy.{World, ArmedPolicy, arm, due_error}
use guestjs.Guest.{
  GuestActivity, finish, is_active, begin, begin_outermost, Machine, Action, with_activity, close,
  run_active, activate_from, activate, enter, reenter, reenter_from,
}

-- A policy is armed only while the guest runs.
abbrev pub IsValidActivity : GuestActivity → Type 0
IsValidActivity a = a.depth ≡ 0 → a.armed ≡ none

-- What an operation on a guest keeps: the activity, the identity, and that it is closed.
pub record Keeps {H : Type 0} (m n : Machine H) : Type 0 where
  pub policy : n.guest.activity.policy ≡ m.guest.activity.policy
  pub depth : n.guest.activity.depth ≡ m.guest.activity.depth
  pub armed : n.guest.activity.armed ≡ m.guest.activity.armed
  pub context_id : n.guest.context_id ≡ m.guest.context_id
  pub closed : m.guest.closed ≡ true → n.guest.closed ≡ true

abbrev pub IsBalanced : {H R : Type 0} → Action H R → Type 0
IsBalanced {H = H} f = (m : Machine H) → IsValidActivity (m.guest.activity) → Keeps m ((f m).1)

pub Keeps-refl : {H : Type 0} (m : Machine H) → Keeps m m
Keeps-refl m = record {
  policy = refl;
  depth = refl;
  armed = refl;
  context_id = refl;
  closed = λ h. h;
}

-- What `begin` makes of an activity.
pub record Begun (a b : GuestActivity) : Type 0 where
  pub policy : b.policy ≡ a.policy
  pub depth : b.depth ≡ a.depth + 1
  pub armed : (0 < a.depth) → b.armed ≡ a.armed

outermost_sound :
    (a b : GuestActivity) (fresh : ArmedPolicy) (due : Option Error)
    → is_active a ≡ false
    → begin_outermost a fresh due ≡ ok b
    → Begun a b × (b.armed ≡ some fresh)
unfolding is_active begin_outermost
outermost_sound a b fresh (some e) out h = cc
outermost_sound a b fresh none out h =
    subst (λ x. Begun a x × (x.armed ≡ some fresh)) (ground arith)
      (record { policy = refl; depth = refl; armed = λ l. ground arith }, refl)

pub begin_sound :
    (checked_add : ℕ → ℕ → Option ℕ) (w : World) (a b : GuestActivity)
    → begin checked_add w a ≡ ok b
    → Begun a b
unfolding begin
begin_sound checked_add w a b h = elim (Bool-cases (is_active a)) [
  | inl e ↦
      subst (λ x. Begun a x) (ground arith)
        (record { policy = refl; depth = refl; armed = λ l. refl })
  | inr n ↦
      (outermost_sound a b (arm checked_add a.policy w) (due_error (arm checked_add a.policy w) w) n
        (ground arith)).0
]

-- `finish` on an activity of the depth and the armed policy that `begin` made undoes it.
finish_armed :
    (a : GuestActivity) (b : GuestActivity)
    → IsValidActivity a
    → b.depth ≡ a.depth + 1
    → ((0 < a.depth) → b.armed ≡ a.armed)
    → (finish b).armed ≡ a.armed
unfolding finish
finish_armed a b v d same = elim (Bool-cases (ltb 0 (a.depth))) [
  | inl e ↦ ground (arith, same)
  | inr n ↦ let zero_depth : a.depth ≡ 0 = ground arith in ground (arith, v zero_depth)
]

finish_depth : (a b : GuestActivity) → b.depth ≡ a.depth + 1 → (finish b).depth ≡ a.depth
unfolding finish
finish_depth a b d = omega (arith, d)

positive : (a b : GuestActivity) → Begun a b → IsValidActivity b
positive a b begun zero_depth = let up : b.depth ≡ a.depth + 1 = begun.depth in ground arith

finish_policy : (b : GuestActivity) → (finish b).policy ≡ b.policy
unfolding finish
finish_policy b = refl

module _ {H R : Type 0} (checked_add : ℕ → ℕ → Option ℕ) where
  pub enter_closed :
      (f : ℕ → Action H R) (m : Machine H)
      → m.guest.closed ≡ true
      → enter checked_add f m ≡ (err closed, m)
  unfolding enter
  enter_closed f m e =
      ap
        (λ c. elim c [
          | true ↦ (err closed, m)
          | false ↦ activate checked_add (f (m.guest.context_id)) m
        ])
        e

  pub enter_open :
      (f : ℕ → Action H R) (m : Machine H)
      → m.guest.closed ≡ false
      → enter checked_add f m ≡ activate checked_add (f (m.guest.context_id)) m
  unfolding enter
  enter_open f m e =
      ap
        (λ c. elim c [
          | true ↦ (err closed, m)
          | false ↦ activate checked_add (f (m.guest.context_id)) m
        ])
        e

  run_active-Keeps :
      (f : Action H R) (m : Machine H) (b : GuestActivity)
      → IsBalanced f
      → IsValidActivity (m.guest.activity)
      → Begun (m.guest.activity) b
      → Keeps m ((run_active checked_add f (with_activity b m)).1)
  unfolding run_active with_activity
  run_active-Keeps f m b balanced v begun =
      let inner : Machine H = with_activity b m in
      let k = balanced inner (λ zero_depth. positive (m.guest.activity) b begun zero_depth) in
      let after : GuestActivity = (f inner).1.guest.activity in
      let deep : after.depth ≡ m.guest.activity.depth + 1 = k.depth ∙ begun.depth in
      record {
        policy = finish_policy after ∙ (k.policy ∙ begun.policy);
        depth = finish_depth (m.guest.activity) after deep;
        armed = finish_armed (m.guest.activity) after v deep (λ l. k.armed ∙ begun.armed l);
        context_id = k.context_id;
        closed = k.closed;
      }

  from_Keeps :
      (f : Action H R) (m : Machine H) (r : Result GuestActivity)
      → IsBalanced f
      → IsValidActivity (m.guest.activity)
      → ((b : GuestActivity) → r ≡ ok b → Begun (m.guest.activity) b)
      → Keeps m ((activate_from checked_add f m r).1)
  unfolding activate_from
  from_Keeps f m (err e) balanced v begun = Keeps-refl m
  from_Keeps f m (ok b) balanced v begun = run_active-Keeps f m b balanced v (begun b refl)

  -- `activate` around a balanced closure is balanced.
  pub activate-IsBalanced : (f : Action H R) → IsBalanced f → IsBalanced (activate checked_add f)
  unfolding activate
  activate-IsBalanced f balanced m v =
      from_Keeps f m (begin checked_add (m.world) (m.guest.activity)) balanced v
        (λ b h. begin_sound checked_add (m.world) (m.guest.activity) b h)

  -- `enter` around a balanced closure leaves the policy, the depth, the armed policy and the
  -- context of the guest as they were, and a closed guest closed, whether the entry is refused,
  -- fails or succeeds. Before it, no policy is armed unless the guest runs.
  pub enter-Keeps :
      (f : ℕ → Action H R) (m : Machine H)
      → ((token : ℕ) → IsBalanced (f token))
      → IsValidActivity (m.guest.activity)
      → Keeps m ((enter checked_add f m).1)
  enter-Keeps f m balanced v = elim (Bool-cases (m.guest.closed)) [
    | inl e ↦ subst (λ r. Keeps m (r.1)) (sym (enter_closed f m e)) (Keeps-refl m)
    | inr n ↦
        subst (λ r. Keeps m (r.1)) (sym (enter_open f m n))
          (activate-IsBalanced (f (m.guest.context_id)) (balanced (m.guest.context_id)) m v)
  ]

  guarded_Keeps :
      (token : ℕ) (f : ℕ → Action H R) (m : Machine H) (shut same : Bool)
      → ((t : ℕ) → IsBalanced (f t))
      → IsValidActivity (m.guest.activity)
      → Keeps m ((reenter_from checked_add token f m shut same).1)
  unfolding reenter_from
  guarded_Keeps token f m true same balanced v = Keeps-refl m
  guarded_Keeps token f m false true balanced v = activate-IsBalanced (f token) (balanced token) m v
  guarded_Keeps token f m false false balanced v = Keeps-refl m

  -- `reenter` around a balanced closure keeps the same of the guest, with a token of the guest's
  -- context or of another one.
  pub reenter-Keeps :
      (token : ℕ) (f : ℕ → Action H R) (m : Machine H)
      → ((t : ℕ) → IsBalanced (f t))
      → IsValidActivity (m.guest.activity)
      → Keeps m ((reenter checked_add token f m).1)
  unfolding reenter
  reenter-Keeps token f m balanced v =
      guarded_Keeps token f m (m.guest.closed) (token == m.guest.context_id) balanced v

pub close-Keeps : {H : Type 0} (m : Machine H) → Keeps m (close m)
unfolding close
close-Keeps m = record {
  policy = refl;
  depth = refl;
  armed = refl;
  context_id = refl;
  closed = λ h. refl;
}
