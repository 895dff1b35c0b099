-- ===== src/Anomaly/Scan.antt =====
-- What a scan does to the allocations, said of each on its own.
use ai_api.Base.{
  is_some, ℕ, ◌≡◌, inl, inr, refl, ap, sym, ◌∙◌, Bool, true, false, some, List, [], ◌∷◌, map,
  filter, arith, All, All-weaken, All-both, modify, ◌==◌, ==_iff, ==_refl, ◌&&◌, ◌||◌,
  if◌then◌else◌, Bool-cases, Option-cases,
}
use mathlib.Core.Path.{ap₂}
use ai_api.Base.UniqueKeys.{Distinct}
use ai_api.Models.{Instant, Allocation}
use ai_api.Allocations.{allocation_id}
use ai_api.Tags.{contains}
use ai_api.Anomaly.{
  CallAt, AnomalyConfig, Detector, evaluate_allocation, effective_enforcing, get_anomaly_config,
  AnomalyDb, considered, quarantine_row, quarantine_one, scan_one, scan_all, detect_and_quarantine,
}

-- whether a scan that enforces finds an allocation out of proportion
abbrev pub is_flagged : Detector → AnomalyConfig → Instant → List CallAt → ℕ → Bool
is_flagged d cfg now calls id =
    is_some (evaluate_allocation d cfg id now calls) && effective_enforcing now cfg

-- the loop, as far as it concerns the allocations
mark_all : (ℕ → Bool) → List Allocation → List Allocation → List Allocation
mark_all t [] rows = rows
mark_all t (a ∷ scanned) rows =
    mark_all t scanned (if t a.id then modify allocation_id a.id quarantine_row rows else rows)

allocations-scan_one :
    (d : Detector) (cfg : AnomalyConfig) (now : Instant) (a : Allocation) (db : AnomalyDb)
    → ((scan_one d cfg now a db).1.allocations ≡ (
        if is_flagged d cfg now db.calls a.id
        then modify allocation_id a.id quarantine_row db.allocations
        else db.allocations))
      × ((scan_one d cfg now a db).1.calls ≡ db.calls)
unfolding scan_one quarantine_one
allocations-scan_one d cfg now a db =
    elim (Option-cases (evaluate_allocation d cfg a.id now db.calls)) [
      | inl plain ↦ rw (plain, scan_one) (refl, refl)
      | inr (found, e) ↦ elim (Bool-cases (effective_enforcing now cfg)) [
        | inl on ↦ rw (e, on, scan_one) (refl, refl)
        | inr off ↦ rw (e, off, scan_one) (refl, refl)
      ]
    ]

allocations-scan_all :
    (d : Detector) (cfg : AnomalyConfig) (now : Instant) (scanned : List Allocation)
    (db : AnomalyDb)
    → (scan_all d cfg now scanned db).1.allocations
      ≡ mark_all (is_flagged d cfg now db.calls) scanned db.allocations
unfolding scan_all mark_all
allocations-scan_all d cfg now [] db = refl
allocations-scan_all d cfg now (a ∷ scanned) db =
    let step = allocations-scan_one d cfg now a db in
    allocations-scan_all d cfg now scanned (scan_one d cfg now a db).1
    ∙ ap₂ (λ calls rows. mark_all (is_flagged d cfg now calls) scanned rows) step.1 step.0

-- a row after the loop over some allocations
abbrev marked : (ℕ → Bool) → List Allocation → Allocation → Allocation
marked t scanned r =
    if contains (map allocation_id scanned) r.id && t r.id then quarantine_row r else r

again :
    (b : Bool) (r : Allocation)
    → (if b then quarantine_row (quarantine_row r) else quarantine_row r) ≡ quarantine_row r
again true r = refl
again false r = refl

-- the row of an allocation that is flagged
row_hit :
    (t : ℕ → Bool) (a : Allocation) (scanned : List Allocation) (r : Allocation)
    → t a.id ≡ true
    → (r.id == a.id) ≡ true
    → marked t scanned (quarantine_row r) ≡ marked t (a ∷ scanned) r
row_hit t a scanned r h same =
    let listed : ((a.id == r.id) ≡ true) = ground (arith, same) in
    let flagged : t r.id ≡ true = ap t ((==_iff r.id a.id).0 same) ∙ h in
    again (contains (map allocation_id scanned) r.id && t r.id) r
    ∙ sym (
        ap
          (λ b.
            if (b || contains (map allocation_id scanned) r.id) && t r.id
            then quarantine_row r
            else r)
          listed
        ∙ ap (λ b. if b then quarantine_row r else r) flagged)

row_other :
    (t : ℕ → Bool) (a : Allocation) (scanned : List Allocation) (r : Allocation)
    → (r.id == a.id) ≡ false
    → marked t scanned r ≡ marked t (a ∷ scanned) r
row_other t a scanned r other =
    let unlisted : ((a.id == r.id) ≡ false) = ground (arith, other) in
    sym (
      ap
        (λ b.
          if (b || contains (map allocation_id scanned) r.id) && t r.id
          then quarantine_row r
          else r)
        unlisted)

marked-hit :
    (t : ℕ → Bool) (a : Allocation) (scanned rows : List Allocation)
    → t a.id ≡ true
    → map (marked t scanned) (modify allocation_id a.id quarantine_row rows)
      ≡ map (marked t (a ∷ scanned)) rows
marked-hit t a scanned [] h = refl
marked-hit t a scanned (r ∷ rows) h = elim (Bool-cases (r.id == a.id)) [
  | inl same ↦ rw same (ap₂ ◌∷◌ (row_hit t a scanned r h same) (marked-hit t a scanned rows h))
  | inr other ↦ rw other (ap₂ ◌∷◌ (row_other t a scanned r other) (marked-hit t a scanned rows h))
]

marked-miss :
    (t : ℕ → Bool) (a : Allocation) (scanned rows : List Allocation)
    → t a.id ≡ false
    → map (marked t scanned) rows ≡ map (marked t (a ∷ scanned)) rows
marked-miss t a scanned [] h = refl
marked-miss t a scanned (r ∷ rows) h = elim (Bool-cases (r.id == a.id)) [
  | inl same ↦
      ground (arith, same, h, ap t ((==_iff r.id a.id).0 same), marked-miss t a scanned rows h)
  | inr other ↦ ground (arith, other, h, marked-miss t a scanned rows h)
]

mark_all-map :
    (t : ℕ → Bool) (scanned rows : List Allocation)
    → mark_all t scanned rows ≡ map (marked t scanned) rows
unfolding mark_all
mark_all-map t [] rows = unmarked rows
  where
    unmarked : (rs : List Allocation) → rs ≡ map (marked t []) rs
    unmarked [] = refl
    unmarked (r ∷ rs) = ap (λ xs. r ∷ xs) (unmarked rs)
mark_all-map t (a ∷ scanned) rows = elim (Bool-cases (t a.id)) [
  | inl hit ↦ rw hit (
      mark_all-map t scanned (modify allocation_id a.id quarantine_row rows)
      ∙ marked-hit t a scanned rows hit)
  | inr miss ↦ rw miss (mark_all-map t scanned rows ∙ marked-miss t a scanned rows miss)
]

contains-fresh :
    (n : ℕ) (p : Allocation → Bool) (rows : List Allocation)
    → All (λ k. (n == k) ≡ false) (map allocation_id rows)
    → contains (map allocation_id (filter p rows)) n ≡ false
contains-fresh n p [] h = refl
contains-fresh n p (r ∷ rows) h = ground (arith, h.0, contains-fresh n p rows h.1)

-- where ids are distinct, the ids of the rows of a test tell whether a row passes it
contains-passed :
    (p : Allocation → Bool) (rows : List Allocation)
    → Distinct (map allocation_id rows)
    → All (λ r. contains (map allocation_id (filter p rows)) r.id ≡ p r) rows
contains-passed p [] h = tt
contains-passed p (x ∷ rows) h = (
  ground (arith, ==_refl x.id, contains-fresh x.id p rows h.0),
  All-weaken _ _ rows (λ r k. later r k.0 k.1)
      (All-both _ _ rows (distinct_rows rows h.0) (contains-passed p rows h.1)),
)
  where
    distinct_rows :
        (rs : List Allocation)
        → All (λ k. (x.id == k) ≡ false) (map allocation_id rs)
        → All (λ r. (x.id == r.id) ≡ false) rs
    distinct_rows [] k = tt
    distinct_rows (r ∷ rs) k = (k.0, distinct_rows rs k.1)

    later :
        (r : Allocation)
        → (x.id == r.id) ≡ false
        → contains (map allocation_id (filter p rows)) r.id ≡ p r
        → contains (map allocation_id (filter p (x ∷ rows))) r.id ≡ p r
    later r apart e = ground (arith, apart, e)

marked-considered :
    (t : ℕ → Bool) (scanned rows : List Allocation)
    → All (λ r. contains (map allocation_id scanned) r.id ≡ considered r) rows
    → map (marked t scanned) rows
      ≡ map (λ r. if considered r && t r.id then quarantine_row r else r) rows
marked-considered t scanned [] h = refl
marked-considered t scanned (r ∷ rows) h =
    ap₂ ◌∷◌ (ap (λ b. if b && t r.id then quarantine_row r else r) h.0)
      (marked-considered t scanned rows h.1)

-- A scan quarantines exactly the allocations that it should: where ids are distinct, each allocation that is
-- active, not of a service and flagged by the rules, while quarantine is switched on and not paused, is
-- quarantined, with its other columns as they were, and every other row stays as it was.
pub detect_and_quarantine_lem :
    (d : Detector) (now : Instant) (db : AnomalyDb)
    → Distinct (map allocation_id db.allocations)
    → (detect_and_quarantine d now db).1.allocations
      ≡ map
          (λ a.
            if considered a && is_flagged d (get_anomaly_config d db.config) now db.calls a.id
            then quarantine_row a
            else a)
          db.allocations
unfolding detect_and_quarantine
detect_and_quarantine_lem d now db distinct =
    let cfg = get_anomaly_config d db.config in
    allocations-scan_all d cfg now (filter considered db.allocations)
      (record db { config = some cfg })
    ∙ mark_all-map (is_flagged d cfg now db.calls) (filter considered db.allocations) db.allocations
    ∙ marked-considered (is_flagged d cfg now db.calls) (filter considered db.allocations)
        db.allocations (contains-passed considered db.allocations distinct)
