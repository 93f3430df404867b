-- ===== src/LessonEngine/Progression/Review.antt =====
-- "Review Weak Commands": the weakest lessons first, and the order of the curriculum on a tie.
use Prim.Native.String.{String}
use linuxpracticelab.Common.{
  ℕ, ◌≤◌, ◌≡◌, ◌↔◌, inl, inr, true, false, some, none, List, [], ◌∷◌, map, select, take, leb, ◌==◌,
  All, Has, Option-cases, arith, refl, ap, sym, ◌∙◌, Bool-cases, if◌then◌else◌,
}
use linuxpracticelab.SharedTypes.Progress.{MasteryStatus, rank, needs_revisiting}
use linuxpracticelab.LessonEngine.Catalog.{Catalog, core_lesson_ids}
use linuxpracticelab.LessonEngine.Progression.{
  ProgressIndex, insert_by_mastery, sort_by_mastery, weak, mastery_in, review_recommendations,
}

abbrev pub Weak : Type 0
Weak = String × MasteryStatus

-- No entry is stronger than a later one.
abbrev pub IsWeakestFirst : List Weak → Type 0
IsWeakestFirst [] = Unit
IsWeakestFirst (x ∷ xs) = All (λ (y : Weak). rank x.1 ≤ rank y.1) xs × IsWeakestFirst xs

abbrev pub at_rank : ℕ → List Weak → List Weak
at_rank r xs = select (λ (x : Weak). rank x.1 == r) xs

insert-All :
    (r : ℕ) (x : Weak) (xs : List Weak)
    → r ≤ rank x.1
    → All (λ (y : Weak). r ≤ rank y.1) xs
    → All (λ (y : Weak). r ≤ rank y.1) (insert_by_mastery x xs)
unfolding insert_by_mastery
insert-All r x [] h k = (h, tt)
insert-All r x (y ∷ ys) h (p, k) = elim (Bool-cases (leb (rank x.1) (rank y.1))) [
  | inl e ↦ rw e (h, (p, k))
  | inr e ↦ rw e (p, insert-All r x ys h k)
]

All-le_trans :
    (a b : ℕ) (ys : List Weak)
    → a ≤ b
    → All (λ (y : Weak). b ≤ rank y.1) ys
    → All (λ (y : Weak). a ≤ rank y.1) ys
All-le_trans a b [] h k = tt
All-le_trans a b (y ∷ ys) h (p, k) = (omega arith, All-le_trans a b ys h k)

insert-IsWeakestFirst :
    (x : Weak) (xs : List Weak) → IsWeakestFirst xs → IsWeakestFirst (insert_by_mastery x xs)
unfolding insert_by_mastery
insert-IsWeakestFirst x [] h = (tt, tt)
insert-IsWeakestFirst x (y ∷ ys) (p, h) = elim (Bool-cases (leb (rank x.1) (rank y.1))) [
  | inl e ↦
      let le : rank x.1 ≤ rank y.1 = ground arith in
      rw e ((le, All-le_trans (rank x.1) (rank y.1) ys le p), (p, h))
  | inr e ↦
      let ge : rank y.1 ≤ rank x.1 = ground arith in
      rw e (insert-All (rank y.1) x ys ge p, insert-IsWeakestFirst x ys h)
]

sort-IsWeakestFirst : (xs : List Weak) → IsWeakestFirst (sort_by_mastery xs)
unfolding sort_by_mastery
sort-IsWeakestFirst [] = tt
sort-IsWeakestFirst (x ∷ xs) = insert-IsWeakestFirst x (sort_by_mastery xs) (sort-IsWeakestFirst xs)

-- An insertion goes in front of the entries of its own rank, and leaves the others alone.
insert_at_rank :
    (r : ℕ) (x : Weak) (xs : List Weak) → at_rank r (insert_by_mastery x xs) ≡ at_rank r (x ∷ xs)
unfolding insert_by_mastery
insert_at_rank r x [] = refl
insert_at_rank r x (y ∷ ys) = elim (Bool-cases (leb (rank x.1) (rank y.1))) [
  | inl e ↦ rw e
  | inr e ↦ rw e (ground (arith, insert_at_rank r x ys))
]

sort_at_rank : (r : ℕ) (xs : List Weak) → at_rank r (sort_by_mastery xs) ≡ at_rank r xs
unfolding sort_by_mastery
sort_at_rank r [] = refl
sort_at_rank r (x ∷ xs) =
    insert_at_rank r x (sort_by_mastery xs)
    ∙ ap (λ (l : List Weak). if rank x.1 == r then x ∷ l else l) (sort_at_rank r xs)

Has-insert_iff : (w x : Weak) (xs : List Weak) → Has w (insert_by_mastery x xs) ↔ Has w (x ∷ xs)
unfolding insert_by_mastery
Has-insert_iff w x [] = (λ h. h, λ h. h)
Has-insert_iff w x (y ∷ ys) =
    let (there, back) = Has-insert_iff w x ys in
    elim (Bool-cases (leb (rank x.1) (rank y.1))) [
      | inl e ↦ rw e (λ h. h, λ h. h)
      | inr e ↦ rw e (
        λ h. elim h [
          | inl q ↦ inr (inl q)
          | inr r ↦ elim (there r) [ inl q ↦ inl q | inr s ↦ inr (inr s) ]
        ],
        λ h. elim h [
          | inl q ↦ inr (back (inl q))
          | inr r ↦ elim r [ inl q ↦ inl q | inr s ↦ inr (back (inr s)) ]
        ],
      )
    ]

Has-sort_iff : (w : Weak) (xs : List Weak) → Has w (sort_by_mastery xs) ↔ Has w xs
unfolding sort_by_mastery
Has-sort_iff w [] = (λ h. h, λ h. h)
Has-sort_iff w (x ∷ xs) =
    let (there, back) = Has-insert_iff w x (sort_by_mastery xs) in
    let (rest, kept) = Has-sort_iff w xs in
    (
      λ h. elim (there h) [ inl q ↦ inl q | inr r ↦ inr (rest r) ],
      λ h. back (elim h [ inl q ↦ inl q | inr r ↦ inr (kept r) ]),
    )

weak_iff :
    (progress : ProgressIndex) (id : String) (m : MasteryStatus) (ids : List String)
    → Has (id, m) (weak progress ids)
      ↔ (Has id ids × (mastery_in progress id ≡ some m) × (needs_revisiting m ≡ true))
unfolding weak
weak_iff progress id m [] = (λ h. absurd h, λ h. absurd h.0)
weak_iff progress id m (x ∷ ids) =
    let (there, back) = weak_iff progress id m ids in
    elim (Option-cases (mastery_in progress x)) [
      | inl e ↦
          rw (e, weak)
            (
              λ h. let (a, b, c) = there h in (inr a, b, c),
              λ (a, b, c). elim a [ inl q ↦ absurd (absent q e b) | inr r ↦ back (r, b, c) ],
            )
      | inr (k, e) ↦ elim (Bool-cases (needs_revisiting k)) [
        | inl t ↦
            rw (e, t, weak)
              (
                λ h. elim h [
                  | inl q ↦ (inl (ap (λ (w : Weak). w.0) q), here q e, revisit q t)
                  | inr r ↦ let (a, b, c) = there r in (inr a, b, c)
                ],
                λ (a, b, c). elim a [ inl q ↦ inl (pair q e b) | inr r ↦ inr (back (r, b, c)) ],
              )
        | inr t ↦
            rw (e, t, weak)
              (
                λ h. let (a, b, c) = there h in (inr a, b, c),
                λ (a, b, c). elim a [ inl q ↦ absurd (strong q e b c t) | inr r ↦ back (r, b, c) ],
              )
      ]
    ]
  where
    absent : id ≡ x → mastery_in progress x ≡ none → mastery_in progress id ≡ some m → ⊥
    absent q e b = cc

    here :
        {k : MasteryStatus}
        → ◌≡◌ {A = Weak} (id, m) (x, k)
        → mastery_in progress x ≡ some k
        → mastery_in progress id ≡ some m
    here q e =
        ap (λ (w : Weak). mastery_in progress w.0) q ∙ e ∙ ap (λ (w : Weak). some w.1) (sym q)

    revisit :
        {k : MasteryStatus}
        → ◌≡◌ {A = Weak} (id, m) (x, k)
        → needs_revisiting k ≡ true
        → needs_revisiting m ≡ true
    revisit q t = ap (λ (w : Weak). needs_revisiting w.1) q ∙ t

    pair :
        {k : MasteryStatus}
        → id ≡ x
        → mastery_in progress x ≡ some k
        → mastery_in progress id ≡ some m
        → ◌≡◌ {A = Weak} (id, m) (x, k)
    pair q e b = cc

    strong :
        {k : MasteryStatus}
        → id ≡ x
        → mastery_in progress x ≡ some k
        → mastery_in progress id ≡ some m
        → needs_revisiting m ≡ true
        → needs_revisiting k ≡ false
        → ⊥
    strong q e b c t = cc

-- The recommendations are the first entries, up to the limit, of a list of lessons with their
-- masteries that has the weakest first, and among equals the order of the curriculum. It lists
-- the core lessons whose recorded mastery is at or below "needs review", as often as the
-- curriculum does, and no other lesson.
pub review_recommendations_lem :
    (c : Catalog) (progress : ProgressIndex) (limit : ℕ)
    → (ranked : List Weak) × (review_recommendations c progress limit
        ≡ map (λ (p : Weak). p.0) (take limit ranked))
      × IsWeakestFirst ranked
      × ((r : ℕ) → at_rank r ranked ≡ at_rank r (weak progress (core_lesson_ids c)))
      × ((id : String) (m : MasteryStatus)
          → Has (id, m) ranked ↔ (
              Has id (core_lesson_ids c)
              × (mastery_in progress id ≡ some m)
              × (needs_revisiting m ≡ true)))
unfolding review_recommendations
review_recommendations_lem c progress limit =
    let order = core_lesson_ids c in
    let found = weak progress order in
    (
      sort_by_mastery found,
      refl,
      sort-IsWeakestFirst found,
      λ r. sort_at_rank r found,
      λ id m.
          let (there, back) = weak_iff progress id m order in
          let (kept, keeps) = Has-sort_iff (id, m) found in
          (λ h. there (kept h), λ h. keeps (back h)),
    )
