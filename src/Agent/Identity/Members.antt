-- ===== src/Agent/Identity/Members.antt =====
-- Who a group is taken to have as members.
use Prim.Native.String.{String}
use linuxpracticelab.Common.{
  ◌≡◌, ◌↔◌, ◌⊎◌, inl, inr, Bool, true, false, ◌||◌, Option, none, some, List, Has, any, any_iff,
  refl, sym, arith, Bool-cases, ◌==◌, ==_iff,
}
use linuxpracticelab.SharedTypes.Lesson.{Validator, str_param}
use linuxpracticelab.SharedTypes.Validation.{CheckOutcome, pass, fail, expected, observed}
use linuxpracticelab.Agent.Args.{flag}
use linuxpracticelab.Agent.System.{System}
use linuxpracticelab.Agent.System.Accounts.{
  PasswdEntry, GroupEntry, same, read_passwd, read_groups, user_named, group_named,
}
use linuxpracticelab.Agent.Outcomes.{Passes, through, passes_if, same_iff, arg-string}
use linuxpracticelab.Agent.Identity.{in_group, member_in, primary_in, member_of, group_membership}

-- The account belongs to the group: by its primary group or, unless the check asks for that alone,
-- by the group's list.
abbrev pub Belongs : Validator → String → PasswdEntry → GroupEntry → Type 0
Belongs v user entry target =
    (entry.gid ≡ target.gid) ⊎ ((flag v "primary" ≡ false) × Has user target.members)

-- The option holds a value with the property.
abbrev pub Holds {ℓ} : {A : Type ℓ} → (A → Type 0) → Option A → Type ℓ
Holds {A = A} P o = (a : A) × (o ≡ some a) × P a

holds_lem :
    {A : Type 0} (P : A → Type 0) (outcome : Option A → CheckOutcome)
    → (outcome none).passed ≡ false
    → ((a : A) → Passes (outcome (some a)) ↔ P a)
    → (o : Option A) → Passes (outcome o) ↔ Holds P o
holds_lem P outcome absent here none = (λ h. cc, λ (a, e, p). cc)
holds_lem P outcome absent here (some a) = (
  λ h. (a, refl, (here a).0 h),
  λ (b, e, p). let known : b ≡ a = ground (arith, e) in (here a).1 (rw (← known) p),
)

module _ (sys : System) (v : Validator) (user group : String) where
  listed_iff : (members : List String) → (any (λ m. same m user) members ≡ true) ↔ Has user members
  listed_iff members =
      any_iff (λ m. same m user) (λ m. user ≡ m) (λ m. through (same_iff m user) (sym, sym)) members

  primary_iff :
      (entry : PasswdEntry) (target : GroupEntry)
      → Passes (primary_in sys v user group entry target) ↔ (entry.gid ≡ target.gid)
  unfolding pass fail expected observed
  primary_iff entry target =
      through (passes_if (entry.gid == target.gid) _ _ refl refl) (==_iff entry.gid target.gid)

  or_true_iff : (a b : Bool) → ((a || b) ≡ true) ↔ ((b ≡ true) ⊎ (a ≡ true))
  or_true_iff true b = (λ h. inr refl, λ h. refl)
  or_true_iff false b = (λ h. inl h, λ h. elim h [ inl t ↦ t | inr f ↦ cc ])

  either_iff {ℓ κ μ ν} :
      {P : Type ℓ} {Q : Type κ} {R : Type μ} {S : Type ν} → P ↔ Q → R ↔ S → (P ⊎ R) ↔ (Q ⊎ S)
  either_iff f g = (
    λ h. elim h [ inl p ↦ inl (f.0 p) | inr r ↦ inr (g.0 r) ],
    λ h. elim h [ inl q ↦ inl (f.1 q) | inr s ↦ inr (g.1 s) ],
  )

  member_iff :
      (entry : PasswdEntry) (target : GroupEntry)
      → Passes (member_in sys v user group entry target)
        ↔ ((entry.gid ≡ target.gid) ⊎ Has user target.members)
  unfolding pass fail expected observed
  member_iff entry target =
      through
        (through
          (passes_if (any (λ m. same m user) target.members || entry.gid == target.gid) _ _ refl
            refl)
          (or_true_iff (any (λ m. same m user) target.members) (entry.gid == target.gid)))
        (either_iff (==_iff entry.gid target.gid) (listed_iff target.members))

  target_iff :
      (entry : PasswdEntry) (target : GroupEntry)
      → Passes (in_group sys v user group entry (some target)) ↔ Belongs v user entry target
  target_iff entry target = elim (Bool-cases (flag v "primary")) [
    | inl e ↦ rw e (
      λ h. inl ((primary_iff entry target).0 h),
      λ h. elim h [ inl same_gid ↦ (primary_iff entry target).1 same_gid | inr (f, m) ↦ cc ],
    )
    | inr e ↦ rw e (
        through (member_iff entry target)
          (either_iff (λ p. p, λ p. p) (λ m. (refl, m), λ (_, m). m)))
  ]

  -- Where the accounts and the groups can be read, a check of a membership passes exactly if there
  -- is an account of that name and a group of that name to which it belongs.
  pub group_membership_iff :
      (entries : List PasswdEntry) (groups : List GroupEntry)
      → str_param v "user" ≡ some user
      → str_param v "group" ≡ some group
      → read_passwd sys ≡ some entries
      → read_groups sys ≡ some groups
      → Passes (group_membership sys v)
        ↔ Holds
            (λ entry. Holds (λ target. Belongs v user entry target) (group_named group groups))
            (user_named user entries)
  unfolding group_membership fail
  group_membership_iff entries groups u g accounts listed =
      rw (arg-string v "user" user _ u, arg-string v "group" group _ g, accounts)
        (holds_lem _ (member_of sys v user group) refl found (user_named user entries))
    where
      found :
          (entry : PasswdEntry)
          → Passes (member_of sys v user group (some entry))
            ↔ Holds (λ target. Belongs v user entry target) (group_named group groups)
      found entry = rw listed (
          holds_lem _ (in_group sys v user group entry) refl (target_iff entry)
            (group_named group groups))
