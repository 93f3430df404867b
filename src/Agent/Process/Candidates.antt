-- ===== src/Agent/Process/Candidates.antt =====
-- Which processes the checks can match.
use linuxpracticelab.Common.{
  ℕ, zero, suc, ◌≡◌, ◌↔◌, ◌∙◌, ◌⊎◌, inl, inr, Bool, true, false, not, ◌&&◌, List, [], ◌∷◌, ◌++◌,
  map, select, is_empty, Has, any_iff, Has-select_iff, refl, sym, ap, Bool-cases, ◌==◌, ==_iff,
}
use linuxpracticelab.Agent.System.{System}
use linuxpracticelab.Agent.System.Processes.{ProcessFacts, read_processes}
use linuxpracticelab.Agent.Outcomes.{through, both, negated, and_iff}
use linuxpracticelab.Agent.Process.Table.{has_pid, children, grow, outside, candidate_processes}

-- The process is one of the tree, or was started by it in at most that many generations.
pub data Descends (processes : List ProcessFacts) (tree : List ℕ) : ℕ → ℕ → Type 0 where
  root : {n pid : ℕ} → Has pid tree → Descends processes tree n pid
  child :
      {n pid : ℕ} (p : ProcessFacts)
      → Has p processes
      → p.pid ≡ pid
      → Descends processes tree n p.ppid
      → Descends processes tree (suc n) pid

has_pid_iff : (tree : List ℕ) (pid : ℕ) → (has_pid tree pid ≡ true) ↔ Has pid tree
has_pid_iff tree pid =
    any_iff (λ q. q == pid) (λ q. pid ≡ q) (λ q. through (==_iff q pid) (sym, sym)) tree

Has-append_iff : (a : ℕ) (xs ys : List ℕ) → Has a (xs ++ ys) ↔ (Has a xs ⊎ Has a ys)
Has-append_iff a [] ys = (λ h. inr h, λ h. elim h [ inl e ↦ absurd e | inr m ↦ m ])
Has-append_iff a (x ∷ xs) ys =
    let rest = Has-append_iff a xs ys in
    (
      λ h. elim h [
        | inl e ↦ inl (inl e)
        | inr m ↦ elim (rest.0 m) [ inl l ↦ inl (inr l) | inr r ↦ inr r ]
      ],
      λ h. elim h [
        | inl m ↦ elim m [ inl e ↦ inl e | inr l ↦ inr (rest.1 (inl l)) ]
        | inr r ↦ inr (rest.1 (inr r))
      ],
    )

Has-map_lem :
    (ps : List ProcessFacts) (pid : ℕ)
    → Has pid (map (λ (p : ProcessFacts). p.pid) ps)
      ↔ ((p : ProcessFacts) × Has p ps × (p.pid ≡ pid))
Has-map_lem [] pid = (λ h. absurd h, λ (p, h, e). absurd h)
Has-map_lem (p ∷ ps) pid =
    let rest = Has-map_lem ps pid in
    (
      λ h. elim h [
        | inl e ↦ (p, inl refl, sym e)
        | inr m ↦ let (q, k, e) = rest.0 m in (q, inr k, e)
      ],
      λ (q, h, e). elim h [
        | inl same ↦ inl (sym e ∙ ap (λ (p : ProcessFacts). p.pid) same)
        | inr m ↦ inr (rest.1 (q, m, e))
      ],
    )

module _ (processes : List ProcessFacts) where
  -- The process has its parent in the tree and is not in it.
  abbrev IsChild : List ℕ → ProcessFacts → Type 0
  IsChild tree p = Has p.ppid tree × (has_pid tree p.pid ≡ false)

  not_iff : (b : Bool) → (not b ≡ true) ↔ (b ≡ false)
  not_iff true = (λ h. cc, λ h. cc)
  not_iff false = (λ h. refl, λ h. refl)

  selected_iff :
      (tree : List ℕ) (p : ProcessFacts)
      → ((has_pid tree p.ppid && not (has_pid tree p.pid)) ≡ true) ↔ IsChild tree p
  selected_iff tree p =
      through (and_iff (has_pid tree p.ppid) (not (has_pid tree p.pid)))
        (both (has_pid_iff tree p.ppid) (not_iff (has_pid tree p.pid)))

  children_iff :
      (tree : List ℕ) (pid : ℕ)
      → Has pid (children processes tree)
        ↔ ((p : ProcessFacts) × (Has p processes × IsChild tree p) × (p.pid ≡ pid))
  children_iff tree pid =
      through
        (Has-map_lem
          (select (λ (p : ProcessFacts). has_pid tree p.ppid && not (has_pid tree p.pid)) processes)
          pid)
        (
          λ (p, m, e). (
            p,
            (both (λ h. h, λ h. h) (selected_iff tree p)).0 ((Has-select_iff _ p processes).0 m),
            e,
          ),
          λ (p, m, e). (
            p,
            (Has-select_iff _ p processes).1 ((both (λ h. h, λ h. h) (selected_iff tree p)).1 m),
            e,
          ),
        )

  -- A process with its parent in the tree is in it or among its children.
  started :
      (tree : List ℕ) (p : ProcessFacts)
      → Has p processes
      → Has p.ppid tree
      → Has p.pid (tree ++ children processes tree)
  started tree p h m = elim (Bool-cases (has_pid tree p.pid)) [
    | inl e ↦ (Has-append_iff p.pid tree _).1 (inl ((has_pid_iff tree p.pid).0 e))
    | inr e ↦
        (Has-append_iff p.pid tree _).1 (inr ((children_iff tree p.pid).1 (p, (h, (m, e)), refl)))
  ]

  one_round :
      (tree : List ℕ) (n : ℕ) (pid : ℕ)
      → Descends processes (tree ++ children processes tree) n pid
      → Descends processes tree (suc n) pid
  one_round tree n pid (root m) = elim ((Has-append_iff pid tree _).0 m) [
    | inl l ↦ root l
    | inr r ↦ let (p, (h, (k, _)), e) = (children_iff tree pid).0 r in child p h e (root k)
  ]
  one_round tree (suc n) pid (child p h e d) = child p h e (one_round tree n p.ppid d)

  within_round :
      (tree : List ℕ) (n : ℕ) (pid : ℕ)
      → Descends processes tree (suc n) pid
      → Descends processes (tree ++ children processes tree) n pid
  within_round tree n pid (root m) = root ((Has-append_iff pid tree _).1 (inl m))
  within_round tree n pid (child p h e (root m)) = root (rw (← e) (started tree p h m))
  within_round tree (suc n) pid (child p h e (child q k f d)) =
      child p h e (within_round tree n p.ppid (child q k f d))

  append_nothing : (xs : List ℕ) → xs ++ [] ≡ xs
  append_nothing [] = refl
  append_nothing (x ∷ xs) = ap (λ (l : List ℕ). x ∷ l) (append_nothing xs)

  empty_lem : (xs : List ℕ) → is_empty xs ≡ true → xs ≡ []
  empty_lem [] h = refl
  empty_lem (x ∷ xs) h = cc

  grow_idle :
      (n : ℕ) (tree : List ℕ)
      → is_empty (children processes tree) ≡ true
      → grow n processes tree ≡ tree
  unfolding grow
  grow_idle zero tree h = refl
  grow_idle (suc n) tree h = rw h refl

  -- Ending early changes nothing.
  grow_step :
      (n : ℕ) (tree : List ℕ)
      → grow (suc n) processes tree ≡ grow n processes (tree ++ children processes tree)
  unfolding grow
  grow_step n tree = elim (Bool-cases (is_empty (children processes tree))) [
    | inl e ↦
        let same : tree ++ children processes tree ≡ tree =
          ap (λ (l : List ℕ). tree ++ l) (empty_lem _ e) ∙ append_nothing tree in
        rw e (sym (ap (grow n processes) same ∙ grow_idle n tree e))
    | inr e ↦ rw e refl
  ]

  grow_iff :
      (n : ℕ) (tree : List ℕ) (pid : ℕ)
      → Has pid (grow n processes tree) ↔ Descends processes tree n pid
  unfolding grow
  grow_iff zero tree pid = (λ m. root m, tree_only)
    where
      tree_only : Descends processes tree zero pid → Has pid tree
      tree_only (root m) = m
  grow_iff (suc n) tree pid = rw (grow_step n tree) (
      through (grow_iff n (tree ++ children processes tree) pid)
        (one_round tree n pid, within_round tree n pid))

-- The processes that checks can match are exactly those that are neither the agent nor started by
-- it within four generations.
pub candidate_processes_lem :
    (sys : System) (p : ProcessFacts)
    → Has p (candidate_processes sys)
      ↔ (Has p (read_processes sys) × ¬ Descends (read_processes sys) (sys.own_pid ∷ []) 4 p.pid)
unfolding candidate_processes outside
candidate_processes_lem sys p =
    let tree = grow 4 (read_processes sys) (sys.own_pid ∷ []) in
    through (Has-select_iff _ p (read_processes sys)) (
      both (λ h. h, λ h. h)
        (through (lacks (has_pid tree p.pid)) (
          negated (
            through (has_pid_iff tree p.pid)
              (grow_iff (read_processes sys) 4 (sys.own_pid ∷ []) p.pid)))))
  where
    lacks : (b : Bool) → (not b ≡ true) ↔ ¬ (b ≡ true)
    lacks true = (λ h. cc, λ h. absurd (h refl))
    lacks false = (λ h e. cc, λ h. refl)
