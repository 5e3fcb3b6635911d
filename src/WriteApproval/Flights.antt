-- ===== src/WriteApproval/Flights.antt =====
-- The executions in flight: each is on an executing entry, whatever the engine does meanwhile.
use digital_employee.Common.{
  ℕ, String, true, false, ◌≡◌, ◌≢◌, inl, inr, refl, sym, ap, ◌∙◌, arith, Option, none, some, List,
  [], ◌∷◌, str_eq, eq_iff, if_some, Option-cases, Bool-cases, subst, if◌then◌else◌,
}
use digital_employee.Common.Dict.{Dict, get, set, get-set}
use digital_employee.Common.Membership.{Among}
use digital_employee.Common.Result.{Result, ok, err, ok_inj}
use digital_employee.WriteApproval.{
  WriteApprovalEngine, InternalEntry, WriteApprovalDecision, Outcome, Begun, started, cached,
  refused, EngineError, executing, begin_execute, begin_entry, finish_entry, decide_entry,
  is_preview_validated, classify_approval_guard, successful, put_result, may_execute, move_to,
}
use digital_employee.WriteApproval.Once.{
  Operation, create, submit, start, finish, after_begin, after_submit,
}

-- The ids without one of them.
abbrev pub without : String → List String → List String
without id [] = []
without id (j ∷ js) = if str_eq id j then without id js else j ∷ without id js

without_lem :
    (id j : String) (js : List String)
    → Among j (without id js)
    → Among j js × (str_eq id j ≡ false)
without_lem id j [] = λ h. elim h [ ]
without_lem id j (k ∷ js) = elim (Bool-cases (str_eq id k)) [
  | inl e ↦ rw e (λ h. let (a, n) = without_lem id j js h in (inr a, n))
  | inr e ↦ rw e (λ h. elim h [
    | inl same ↦ (inl same, subst (λ x. str_eq id x ≡ false) same e)
    | inr later ↦ let (a, n) = without_lem id j js later in (inr a, n)
  ])
]

-- Every entry stands under its own id, and those in flight are executing.
pub record Tracks (flights : List String) (m : Dict InternalEntry) : Type 0 where
  pub keyed : (id : String) (e : InternalEntry) → get id m ≡ some e → e.preview.preview_id ≡ id
  pub running :
      (id : String)
      → Among id flights
      → (e : InternalEntry) × (get id m ≡ some e) × (e.preview.state ≡ executing)

-- A write of an entry: those in flight after it are the ones before it but this, or it is executing.
pub set-Tracks :
    (fs gs : List String) (e : InternalEntry) (m : Dict InternalEntry)
    → Tracks fs m
    → ((j : String) → Among j gs → str_eq e.preview.preview_id j ≡ false → Among j fs)
    → ((j : String)
        → Among j gs
        → str_eq e.preview.preview_id j ≡ true
        → e.preview.state ≡ executing)
    → Tracks gs (set e.preview.preview_id e m)
set-Tracks fs gs e m t others this = record {
  keyed = λ id e' g. elim (Bool-cases (str_eq e.preview.preview_id id)) [
    | inl same ↦
        let eq : e ≡ e' = cc (get-set e.preview.preview_id id e m, same, g) in
        sym (ap (λ x. x.preview.preview_id) eq)
        ∙ ground (arith, same, eq_iff e.preview.preview_id id)
    | inr other ↦ t.keyed id e' (cc (get-set e.preview.preview_id id e m, other, g))
  ];
  running = λ id a. elim (Bool-cases (str_eq e.preview.preview_id id)) [
    | inl same ↦ (e, cc (get-set e.preview.preview_id id e m, same), this id a same)
    | inr other ↦
        let (e', g, x) = t.running id (others id a other) in
        (e', cc (get-set e.preview.preview_id id e m, other, g), x)
  ];
}

-- An entry that is not executing is not in flight.
grounded :
    (fs : List String) (m : Dict InternalEntry) (id j : String) (e : InternalEntry)
    → Tracks fs m
    → get id m ≡ some e
    → e.preview.state ≢ executing
    → Among j fs
    → str_eq id j ≡ false
grounded fs m id j e t g x a = elim (Bool-cases (str_eq id j)) [
  | inr n ↦ n
  | inl y ↦
      let same : id ≡ j = ground (arith, y, eq_iff id j) in
      let (e', g', x') = t.running j a in
      let eq : e ≡ e' = cc (g, g', same) in absurd (x (ap (λ e. e.preview.state) eq ∙ x'))
]

-- A write of an entry whose former one was not executing.
replace-Tracks :
    (fs : List String) (m : Dict InternalEntry) (id : String) (e e' : InternalEntry)
    → Tracks fs m
    → get id m ≡ some e
    → e.preview.state ≢ executing
    → e'.preview.preview_id ≡ e.preview.preview_id
    → Tracks fs (set e'.preview.preview_id e' m)
replace-Tracks fs m id e e' t g x p =
    let k : e'.preview.preview_id ≡ id = p ∙ t.keyed id e g in
    set-Tracks fs fs e' m t (λ j a n. a) (λ j a y. cc (y, k, grounded fs m id j e t g x a))

-- The write at the end of an execution.
ended-Tracks :
    (fs : List String) (m : Dict InternalEntry) (id : String) (e e' : InternalEntry)
    → Tracks fs m
    → get id m ≡ some e
    → e'.preview.preview_id ≡ e.preview.preview_id
    → Tracks (without id fs) (set e'.preview.preview_id e' m)
ended-Tracks fs m id e e' t g p =
    let k : e'.preview.preview_id ≡ id = p ∙ t.keyed id e g in
    set-Tracks fs (without id fs) e' m t (λ j a n. (without_lem id j fs a).0)
      (λ j a y. cc (y, k, (without_lem id j fs a).1))

pub decide_entry-id :
    (d : WriteApprovalDecision) (now : ℕ) (keys : List String) (e e' : InternalEntry)
    → decide_entry d now keys e ≡ ok e'
    → (e.preview.state ≢ executing) × (e'.preview.preview_id ≡ e.preview.preview_id)
unfolding decide_entry if_some classify_approval_guard
decide_entry-id d now keys e e' = elim (Bool-cases (is_preview_validated e.preview.state)) [
  | inr v ↦ rw v (λ h. cc h)
  | inl v ↦
      let idle : e.preview.state ≢ executing = λ x.
        let f : is_preview_validated e.preview.state ≡ false = ap is_preview_validated x in
        cc (f, v) in
      rw v (elim (Bool-cases d.approved) [
        | inr a ↦ rw a (λ h. (idle, ap (λ x. x.preview.preview_id) (sym (ok_inj h))))
        | inl a ↦ rw a (elim (Option-cases (classify_approval_guard d now keys e.preview)) [
          | inl n ↦ rw n (λ h. (idle, ap (λ x. x.preview.preview_id) (sym (ok_inj h))))
          | inr (code, c) ↦ rw c (λ h. cc h)
        ])
      ])
]

abbrev pub begun : Begun → String → List String → List String
begun (started engine) id fs = id ∷ fs
begun (cached r) id fs = fs
begun (refused e) id fs = fs

-- The ids whose execution has begun and not ended.
abbrev pub flights_after : Operation → WriteApprovalEngine → List String → List String
flights_after (create preview_id token request) engine fs = fs
flights_after (submit decision now) engine fs = fs
flights_after (start preview_id) engine fs = begun (begin_execute preview_id engine) preview_id fs
flights_after (finish outcome token preview_id) engine fs = without preview_id fs

-- A preview gets a new id, and what ends has begun.
abbrev pub Fits : Operation → WriteApprovalEngine → List String → Type 0
Fits (create preview_id token request) engine fs = get preview_id engine.entries ≡ none
Fits (submit decision now) engine fs = Unit
Fits (start preview_id) engine fs = Unit
Fits (finish outcome token preview_id) engine fs = Among preview_id fs

pub put_result-Tracks :
    (fs : List String) (engine : WriteApprovalEngine) (id : String) (e : InternalEntry)
    (r : Result EngineError InternalEntry)
    → Tracks fs engine.entries
    → get id engine.entries ≡ some e
    → ((e' : InternalEntry)
        → r ≡ ok e'
        → (e.preview.state ≢ executing) × (e'.preview.preview_id ≡ e.preview.preview_id))
    → Tracks fs (after_submit engine (put_result engine r)).entries
put_result-Tracks fs engine id e (ok e') t g k =
    replace-Tracks fs engine.entries id e e' t g (k e' refl).0 (k e' refl).1
put_result-Tracks fs engine id e (err x) t g k = t

pub begin_entry-Tracks :
    (fs : List String) (engine : WriteApprovalEngine) (id : String) (e : InternalEntry)
    → Tracks fs engine.entries
    → get id engine.entries ≡ some e
    → Tracks
        (begun (begin_entry e engine) id fs)
        (after_begin engine (begin_entry e engine)).entries
unfolding begin_entry if_some
begin_entry-Tracks fs engine id e t g =
    elim (Option-cases (successful (get e.preview.idempotency_key engine.idempotency_cache))) [
      | inr (r, c) ↦ rw c t
      | inl n ↦ rw n (elim (Bool-cases (may_execute e.preview.state)) [
        | inr m ↦ rw m t
        | inl m ↦ rw m (
            set-Tracks fs (id ∷ fs) (move_to executing e) engine.entries t
              (λ j a n. elim a [
                | inl same ↦
                    absurd (cc ((eq_iff e.preview.preview_id j).1 (t.keyed id e g ∙ same), n))
                | inr a ↦ a
              ])
              (λ j a y. refl))
      ])
    ]

pub finish_entry-Tracks :
    (fs : List String) (engine : WriteApprovalEngine) (id token : String) (e : InternalEntry)
    (outcome : Option Outcome)
    → Tracks fs engine.entries
    → get id engine.entries ≡ some e
    → Tracks (without id fs) (finish_entry outcome token e engine).entries
unfolding finish_entry
finish_entry-Tracks fs engine id token e none t g = ended-Tracks fs engine.entries id e _ t g refl
finish_entry-Tracks fs engine id token e (some outcome) t g = elim (Bool-cases outcome.success) [
  | inl s ↦ rw s (ended-Tracks fs engine.entries id e _ t g refl)
  | inr s ↦ rw s (ended-Tracks fs engine.entries id e _ t g refl)
]

pub empty-Tracks : Tracks [] []
unfolding get
empty-Tracks = record { keyed = λ id e g. cc; running = λ id a. elim a [ ] }
