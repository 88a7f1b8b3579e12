-- ===== src/Content/Lifecycle/Transitions.antt =====
-- What a transition does, and when it is refused.
use taha_mohammadi_platform.Prelude.{
  ℕ, ◌<◌, String, Option, none, some, List, [], ◌∷◌, ◌++◌, Bool, true, false, ◌&&◌, ◌≡◌, ◌≢◌, subst,
  refl, inl, inr, arith, Bool-cases, Option-cases, ok, Result-cases,
}
use taha_mohammadi_platform.Prelude.Lists.{All}
use taha_mohammadi_platform.Rebuild.Jobs.{Jobs}
use taha_mohammadi_platform.Content.Lifecycle.{
  Status, scheduled, published, parse_status, allowed, Row, Moment, Clock, Request, Store,
  is_published, rejects, full_clean_raises, find_row, put_row, identity_taken, save_row, instant,
  first_publication, schedule_of, apply_lifecycle_side_effects, transition_audit, announce,
  drop_snapshots, target_status, transition_item,
}
use taha_mohammadi_platform.Content.Lifecycle.Rows.{find_row-put_row, IsRowValid, All-put_row}

-- The row that a transition writes.
abbrev pub moved_row : Clock → Status → Option ℕ → Row → Row
moved_row c new at item = record item {
  status = new;
  scheduled_for = at;
  published_at = first_publication c.now new item.published_at;
  updated_at = c.now;
}

-- The row as it stands before its `save`.
abbrev pub changed_row : Clock → Status → Option ℕ → Row → Row
changed_row c new at item = record item {
  status = new;
  scheduled_for = at;
  published_at = first_publication c.now new item.published_at;
}

-- Why a row is refused by its `save`.
abbrev pub refuses : Status → Row → List Row → Bool
refuses new item rows = is_published new && rejects item.cleaned (identity_taken item rows)

-- The parts of a transition that succeeded.
pub record Transitioned (c : Clock) (q : Request) (to_status : String) (m : Option Moment)
    (item : Row) (store : Store) (old : Status) (after : Store) : Type 0 where
  pub new : Status
  pub at : Option ℕ
  pub named : parse_status to_status ≡ some new
  pub permitted : allowed item.status new ≡ true
  pub timed : schedule_of c new m ≡ ok at
  pub own : identity_taken item store.rows ≡ false
  pub good : refuses new item store.rows ≡ false
  pub announced : announce c q (moved_row c new at item) new store.jobs ≡ ok after.jobs
  pub was : old ≡ item.status
  pub rows : after.rows ≡ put_row (moved_row c new at item) store.rows
  pub audit :
      after.audit ≡ store.audit ++ transition_audit c q item.status (moved_row c new at item) ∷ []
  pub snapshots : after.snapshots ≡ drop_snapshots new q.entity item.pk store.snapshots

target-eq-ok :
    (old new : Status) (s : String)
    → target_status old s ≡ ok new
    → (parse_status s ≡ some new) × (allowed old new ≡ true)
unfolding target_status
target-eq-ok old new s h = elim (Option-cases (parse_status s)) [
  | inl none' ↦ cc (rw (none', target_status) at h)
  | inr (t, e) ↦ ground arith
]

identity_taken-columns :
    (new : Status) (at : Option ℕ) (p : Option ℕ) (item : Row) (rows : List Row)
    → identity_taken (record item { status = new; scheduled_for = at; published_at = p }) rows
      ≡ identity_taken item rows
unfolding identity_taken
identity_taken-columns new at p item [] = refl
identity_taken-columns new at p item (row ∷ rest) =
    ground (arith, identity_taken-columns new at p item rest)

-- The store after a transition.
abbrev after_transition : Clock → Request → Status → Option ℕ → Row → Store → Jobs → Store
after_transition c q new at item store jobs = record {
  rows = put_row (moved_row c new at item) store.rows;
  audit = store.audit ++ transition_audit c q item.status (moved_row c new at item) ∷ [];
  snapshots = drop_snapshots new q.entity item.pk store.snapshots;
  jobs = jobs;
}

pub save_row-own :
    (c : Clock) (new : Status) (at : Option ℕ) (item : Row) (rows : List Row)
    → refuses new item rows ≡ false
    → identity_taken item rows ≡ false
    → save_row c.now (changed_row c new at item) rows
      ≡ ok (moved_row c new at item, put_row (moved_row c new at item) rows)
unfolding save_row full_clean_raises
save_row-own c new at item rows good own = rw (identity_taken-columns, good, own)

-- A row that was saved was not refused.
pub save_row-eq-ok :
    (c : Clock) (new : Status) (at : Option ℕ) (item : Row) (rows : List Row)
    (saved : Row × List Row)
    → save_row c.now (changed_row c new at item) rows ≡ ok saved
    → (refuses new item rows ≡ false)
      × (identity_taken item rows ≡ false)
      × ((moved_row c new at item, put_row (moved_row c new at item) rows) ≡ saved)
unfolding save_row full_clean_raises
save_row-eq-ok c new at item rows saved h = elim (Bool-cases (refuses new item rows)) [
  | inl bad ↦ cc (rw (identity_taken-columns, bad) at h)
  | inr good ↦ elim (Bool-cases (identity_taken item rows)) [
    | inl taken ↦ cc (rw (identity_taken-columns, good, taken) at h)
    | inr own ↦ (good, own, cc (rw (identity_taken-columns, good, own) at h))
  ]
]

module _ (c : Clock) (q : Request) (to_status : String) (m : Option Moment) (item : Row)
    (store : Store) where
  transition-ok :
      (new : Status) (at : Option ℕ) (jobs : Jobs)
      → target_status item.status to_status ≡ ok new
      → schedule_of c new m ≡ ok at
      → refuses new item store.rows ≡ false
      → identity_taken item store.rows ≡ false
      → announce c q (moved_row c new at item) new store.jobs ≡ ok jobs
      → transition_item c q to_status m item store
        ≡ ok (item.status, after_transition c q new at item store jobs)
  unfolding transition_item apply_lifecycle_side_effects
  transition-ok new at jobs target timed good own announced =
      rw target (rw timed (rw (save_row-own c new at item store.rows good own) (rw announced)))

  pub transitioned :
      (old : Status) (after : Store)
      → transition_item c q to_status m item store ≡ ok (old, after)
      → Transitioned c q to_status m item store old after
  unfolding transition_item apply_lifecycle_side_effects
  transitioned old after h = elim (Result-cases (target_status item.status to_status)) [
    | inr (e, bad) ↦ cc (rw bad at h)
    | inl (new, target) ↦ elim (Result-cases (schedule_of c new m)) [
      | inr (e, bad) ↦ cc (rw bad at (rw target at h))
      | inl (at, timed) ↦
          elim (Result-cases (save_row c.now (changed_row c new at item) store.rows)) [
            | inr (e, bad) ↦ cc (rw bad at (rw timed at (rw target at h)))
            | inl (saved, kept) ↦
                let (good, own, _) = save_row-eq-ok c new at item store.rows saved kept in
                elim (Result-cases (announce c q (moved_row c new at item) new store.jobs)) [
                  | inr (e, bad) ↦ cc (
                      rw bad at (
                        rw (save_row-own c new at item store.rows good own) at
                          (rw timed at (rw target at h))))
                  | inl (jobs, announced) ↦
                      let done = transition-ok new at jobs target timed good own announced in
                      let (named, permitted) = target-eq-ok item.status new to_status target in
                      let same : after_transition c q new at item store jobs ≡ after =
                        cc (h, done) in
                      subst (Transitioned c q to_status m item store old) same (record {
                        new = new;
                        at = at;
                        named = named;
                        permitted = permitted;
                        timed = timed;
                        own = own;
                        good = good;
                        announced = announced;
                        was = cc (h, done);
                        rows = refl;
                        audit = refl;
                        snapshots = refl;
                      })
                ]
          ]
    ]
  ]

-- The time of a scheduled row, and of no other.
schedule-valid :
    (c : Clock) (new : Status) (m : Option Moment) (at : Option ℕ)
    → schedule_of c new m ≡ ok at
    → (new ≡ scheduled → (t : ℕ) × (at ≡ some t) × (c.now < t)) × (new ≢ scheduled → at ≡ none)
unfolding schedule_of
schedule-valid c scheduled none at h = (λ e. cc, λ n. cc)
schedule-valid c scheduled (some m) at h =
    (λ e. (instant c m, ground arith, ground arith), λ n. absurd (n refl))
schedule-valid c new m at h = (λ e. cc, λ n. cc)

-- A transition that succeeds follows the table of transitions and writes its own row alone: the
-- target status, a time in the future if and only if the target is `scheduled`, and a publication
-- time that is kept once set and set to now by the first publication. It appends one audit row,
-- which names the old and the new status.
pub transition_item_writes :
    (c : Clock) (q : Request) (to_status : String) (m : Option Moment) (item : Row) (store : Store)
    (old : Status) (after : Store)
    → find_row item.pk store.rows ≡ some item
    → transition_item c q to_status m item store ≡ ok (old, after)
    → (new : Row) × (find_row item.pk after.rows ≡ some new)
      × (old ≡ item.status)
      × (parse_status to_status ≡ some new.status)
      × (allowed old new.status ≡ true)
      × (new.status ≡ scheduled → (t : ℕ) × (new.scheduled_for ≡ some t) × (c.now < t))
      × (new.status ≢ scheduled → new.scheduled_for ≡ none)
      × ((t : ℕ) → item.published_at ≡ some t → new.published_at ≡ some t)
      × (new.status ≡ published → item.published_at ≡ none → new.published_at ≡ some c.now)
      × ((j : ℕ) → j ≢ item.pk → find_row j after.rows ≡ find_row j store.rows)
      × (after.audit ≡ store.audit ++ transition_audit c q old new ∷ [])
transition_item_writes c q to_status m item store old after here h =
    let t = transitioned c q to_status m item store old after h in
    let new = moved_row c t.new t.at item in
    let (later, never) = schedule-valid c t.new m t.at t.timed in
    (
      new,
      ground (arith, t.rows, find_row-put_row new store.rows item.pk),
      t.was,
      t.named,
      cc (t.was, t.permitted),
      later,
      never,
      λ p e. ground arith,
      λ e n. ground arith,
      λ j n. ground (arith, t.rows, find_row-put_row new store.rows j),
      rw (t.was) (t.audit),
    )

moved_row-IsRowValid :
    (c : Clock) (new : Status) (m : Option Moment) (at : Option ℕ) (item : Row)
    → schedule_of c new m ≡ ok at
    → IsRowValid (moved_row c new at item)
unfolding schedule_of
moved_row-IsRowValid c scheduled none at item h = cc
moved_row-IsRowValid c scheduled (some m) at item h = ground arith
moved_row-IsRowValid c published m at item h = ground arith
moved_row-IsRowValid c new m at item h = ground arith

-- Transitions keep every row of the table valid: a scheduled row has its time and no other row has
-- one, and a published row has its publication time.
pub transition_item-IsRowValid :
    (c : Clock) (q : Request) (to_status : String) (m : Option Moment) (item : Row) (store : Store)
    (old : Status) (after : Store)
    → transition_item c q to_status m item store ≡ ok (old, after)
    → All IsRowValid store.rows
    → All IsRowValid after.rows
transition_item-IsRowValid c q to_status m item store old after h valid =
    let t = transitioned c q to_status m item store old after h in
    rw (t.rows) (
      All-put_row IsRowValid (moved_row c t.new t.at item) store.rows
        (moved_row-IsRowValid c t.new m t.at item t.timed) valid)
