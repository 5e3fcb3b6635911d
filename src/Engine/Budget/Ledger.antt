-- ===== src/Engine/Budget/Ledger.antt =====
-- The in-memory ledger: what a commit changes, and what it leaves.
use Prim.Native.String.{◌++◌ as append}
use Prim.Native.Char.{Char, code}
use text.Mathlib.TextLemmas.{cons-append, nil-append}
use digital_employee.Common.Text.{includes_char}
use digital_employee.Common.{
  Bool, ℕ, ◌+◌, ◌&&◌, inl, inr, Bool-cases, false, sym, All, String, ◌≡◌, refl, ap, ◌∙◌, List, [],
  ◌∷◌, arith, str_eq, eq_iff, if◌then◌else◌, or_else,
}
use digital_employee.Common.Dict.{get, get-set}
use digital_employee.Engine.Budget.{
  BudgetUsage, Increment, Ledger, ledger_key, read, commit, add_usage, empty_budget_usage,
}

-- A read after a commit: the committed entry is added under the commit's own key, and the usage
-- under every other key is as before.
pub read-commit :
    (s : Ledger) (p t d p' t' d' : String) (i : Increment)
    → read (commit s p t d i) p' t' d' ≡ (
        if str_eq (ledger_key p t d) (ledger_key p' t' d')
        then add_usage (read s p' t' d') i
        else read s p' t' d')
unfolding read commit
read-commit s p t d p' t' d' i = ground (
  arith,
  eq_iff (ledger_key p t d) (ledger_key p' t' d'),
  get-set (ledger_key p t d) (ledger_key p' t' d')
      (add_usage (or_else (get (ledger_key p t d) s) empty_budget_usage) i) s,
)

pub record Entry : Type 0 where
  pub position_id : String
  pub task_id : String
  pub day_key : String
  pub amount : Increment

pub commit_all : Ledger → List Entry → Ledger
commit_all s [] = s
commit_all s (e ∷ es) = commit_all (commit s e.position_id e.task_id e.day_key e.amount) es

-- What the entries under one key add up to.
total : String → List Entry → BudgetUsage → BudgetUsage
total k [] u = u
total k (e ∷ es) u =
    total k es
      (if str_eq (ledger_key e.position_id e.task_id e.day_key) k then add_usage u e.amount else u)

read-commit_total :
    (s : Ledger) (es : List Entry) (p t d : String)
    → read (commit_all s es) p t d ≡ total (ledger_key p t d) es (read s p t d)
unfolding commit_all total
read-commit_total s [] p t d = refl
read-commit_total s (e ∷ es) p t d =
    read-commit_total (commit s e.position_id e.task_id e.day_key e.amount) es p t d
    ∙ ap (total (ledger_key p t d) es)
        (read-commit s e.position_id e.task_id e.day_key p t d e.amount)

-- The entry is charged to this position, task and day.
abbrev pub is_charged : String → String → String → Entry → Bool
is_charged p t d e = str_eq e.position_id p && str_eq e.task_id t && str_eq e.day_key d

-- The sum of an amount over the entries that pass a test.
abbrev pub sum_of : (Entry → Bool) → (Entry → ℕ) → List Entry → ℕ
sum_of test amount [] = 0
sum_of test amount (e ∷ es) =
    if test e then amount e + sum_of test amount es else sum_of test amount es

-- No "\0" in a text, which separates the parts of a key.
abbrev pub HasNoNul : String → Type 0
HasNoNul s = includes_char 0 s ≡ false

nul : Char
nul = "\0"

nul_first : (s : String) → append "\0" s ≡ String.◌∷◌ nul s
unfolding nul
nul_first s = cons-append nul String.[] s ∙ ap (String.◌∷◌ nul) (nil-append s)

code-nul : code nul ≡ 0
unfolding nul
code-nul = refl

parts_lem :
    (p p' s s' : String)
    → HasNoNul p
    → HasNoNul p'
    → append p (String.◌∷◌ nul s) ≡ append p' (String.◌∷◌ nul s')
    → (p ≡ p') × (s ≡ s')
unfolding includes_char
parts_lem String.[] String.[] s s' h h' e =
    (refl, cc (e, nil-append (String.◌∷◌ nul s), nil-append (String.◌∷◌ nul s')))
parts_lem String.[] (String.◌∷◌ c p') s s' h h' e =
    let same : nul ≡ c =
      cc (e, nil-append (String.◌∷◌ nul s), cons-append c p' (String.◌∷◌ nul s')) in
    ground (arith, h', code-nul, ap code same)
parts_lem (String.◌∷◌ c p) String.[] s s' h h' e =
    let same : nul ≡ c =
      cc (e, nil-append (String.◌∷◌ nul s'), cons-append c p (String.◌∷◌ nul s)) in
    ground (arith, h, code-nul, ap code same)
parts_lem (String.◌∷◌ c p) (String.◌∷◌ c' p') s s' h h' e =
    let whole : String.◌∷◌ c (append p (String.◌∷◌ nul s))
        ≡ String.◌∷◌ c' (append p' (String.◌∷◌ nul s')) =
      cc (e, cons-append c p (String.◌∷◌ nul s), cons-append c' p' (String.◌∷◌ nul s')) in
    let rest : append p (String.◌∷◌ nul s) ≡ append p' (String.◌∷◌ nul s') = cc whole in
    let (a, b) = parts_lem p p' s s' (ground (arith, h)) (ground (arith, h')) rest in
    let first : c ≡ c' = cc whole in (cc (a, first), b)

key_lem :
    (p t d p' t' d' : String)
    → HasNoNul p
    → HasNoNul t
    → HasNoNul p'
    → HasNoNul t'
    → ledger_key p t d ≡ ledger_key p' t' d'
    → (p ≡ p') × (t ≡ t') × (d ≡ d')
unfolding ledger_key
key_lem p t d p' t' d' hp ht hp' ht' e =
    let whole : append p (String.◌∷◌ nul (append t (String.◌∷◌ nul d)))
        ≡ append p' (String.◌∷◌ nul (append t' (String.◌∷◌ nul d'))) =
      cc (
        e,
        nul_first d,
        nul_first d',
        nul_first (append t (append "\0" d)),
        nul_first (append t' (append "\0" d')),
      ) in
    let (a, rest) = parts_lem p p' _ _ hp hp' whole in
    let (b, c) = parts_lem t t' _ _ ht ht' rest in (a, b, c)

same_key :
    (e : Entry) (p t d : String)
    → HasNoNul e.position_id × HasNoNul e.task_id
    → HasNoNul p
    → HasNoNul t
    → str_eq (ledger_key e.position_id e.task_id e.day_key) (ledger_key p t d) ≡ is_charged p t d e
same_key e p t d h hp ht =
    elim (Bool-cases (str_eq (ledger_key e.position_id e.task_id e.day_key) (ledger_key p t d))) [
      | inl k ↦
          let (a, b, c) = key_lem e.position_id e.task_id e.day_key p t d h.0 h.1 hp ht (
            ground (
              arith,
              k,
              eq_iff (ledger_key e.position_id e.task_id e.day_key) (ledger_key p t d),
            )) in
          ground (arith, k, eq_iff e.position_id p, eq_iff e.task_id t, eq_iff e.day_key d)
      | inr k ↦ elim (Bool-cases (is_charged p t d e)) [
        | inr n ↦ k ∙ sym n
        | inl y ↦
            let a : e.position_id ≡ p = ground (arith, y, eq_iff e.position_id p) in
            let b : e.task_id ≡ t = ground (arith, y, eq_iff e.task_id t) in
            let c : e.day_key ≡ d = ground (arith, y, eq_iff e.day_key d) in
            let same : ledger_key e.position_id e.task_id e.day_key ≡ ledger_key p t d =
              cc (a, b, c) in
            ground (
              arith,
              k,
              same,
              eq_iff (ledger_key e.position_id e.task_id e.day_key) (ledger_key p t d),
            )
      ]
    ]

-- What the entries of this position, task and day add up to.
abbrev pub charged : String → String → String → List Entry → BudgetUsage
charged p t d es = record {
  task_used_tokens = sum_of (is_charged p t d) (λ e. e.amount.tokens) es;
  task_used_iterations = sum_of (is_charged p t d) (λ e. e.amount.iterations) es;
  day_used_tokens = sum_of (is_charged p t d) (λ e. e.amount.tokens) es;
  day_used_iterations = sum_of (is_charged p t d) (λ e. e.amount.iterations) es;
}

-- No "\0" in the ids of the entries.
abbrev pub AllNulFree : List Entry → Type 0
AllNulFree = All (λ e. HasNoNul e.position_id × HasNoNul e.task_id)

total-charged :
    (es : List Entry) (u : BudgetUsage) (p t d : String)
    → AllNulFree es
    → HasNoNul p
    → HasNoNul t
    → total (ledger_key p t d) es u ≡ record {
      task_used_tokens = u.task_used_tokens + (charged p t d es).task_used_tokens;
      task_used_iterations = u.task_used_iterations + (charged p t d es).task_used_iterations;
      day_used_tokens = u.day_used_tokens + (charged p t d es).day_used_tokens;
      day_used_iterations = u.day_used_iterations + (charged p t d es).day_used_iterations;
    }
unfolding total
total-charged [] u p t d h hp ht = ground arith
total-charged (e ∷ es) u p t d h hp ht =
    rw (same_key e p t d h.0 hp ht) (elim (Bool-cases (is_charged p t d e)) [
      | inl y ↦ rw y (total-charged es (add_usage u e.amount) p t d h.1 hp ht ∙ ground arith)
      | inr n ↦ rw n (total-charged es u p t d h.1 hp ht)
    ])

-- After any commits on a new ledger, what is read for a position, a task and a day are the sums of the
-- tokens and of the iterations of the entries committed for just these three: no entry is lost, none
-- is counted twice, and none is charged to another account. No id contains a "\0".
pub read-commit_all :
    (es : List Entry) (p t d : String)
    → AllNulFree es
    → HasNoNul p
    → HasNoNul t
    → read (commit_all [] es) p t d ≡ charged p t d es
unfolding read get
read-commit_all es p t d h hp ht =
    read-commit_total [] es p t d ∙ total-charged es (read [] p t d) p t d h hp ht ∙ ground arith
