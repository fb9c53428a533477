-- ===== src/Herdsmen/Phases.antt =====
-- How a step keeps the sums, and which steps begin the second phase.
use sem.Prelude.{
  ℕ, zero, suc, ◌+◌, ◌-◌, ◌^◌, ◌<◌, ◌≤◌, ◌≡◌, arith, ap, ◌∙◌, total, total-update, total-suc,
  total-zero, le-total, total-add, total_mono, update, update_all, inl, inr,
}
use sem.Prelude.Int.{pos}
use sem.Process.{State}
use sem.Herdsmen.{
  Shared, Place, come, test_first, test_hat, put_hat, hat_put, enter_path, on_path, lock_up,
  up_queue, up,
}
use sem.Herdsmen.Invariant.{locks, counted, leads, hats, IsBefore, IsAbove, Early, Phase, Inv}

counted-le : (i : ℕ) (p : Place) → counted i p ≤ 1
counted-le i come = omega arith
counted-le i p = omega arith

leads-le-counted : (i : ℕ) (p : Place) → leads i p ≤ counted i p
leads-le-counted i come = omega arith
leads-le-counted i p = omega arith

hats-le-leads : (i : ℕ) (p : Place) → hats i p ≤ leads i p
hats-le-leads i come = omega arith
hats-le-leads i p = omega arith

-- Leads, and has not put his hat down.
abbrev bare : ℕ → Place → ℕ
bare j r = leads j r - hats j r

bare_le : (j : ℕ) (r : Place) → hats j r + bare j r ≤ leads j r
bare_le j r = omega (arith, hats-le-leads j r)

total-counted-le : (m : ℕ) (f : ℕ → Place) → total counted m f ≤ m
total-counted-le zero f = omega (arith, total-zero counted f)
total-counted-le (suc m) f =
    omega (arith, total-suc counted m f, total-counted-le m f, counted-le m (f m))

module _ (n : ℕ) (s : State Shared Place) (i : ℕ) (lt : i < n) (inv : Inv n s) (p : Place)
    (at : s.place i ≡ p) (x : Shared) (q : Place) where
  abbrev After : State Shared Place
  After = record { shared = x; place = update s.place i q }

  -- What every step keeps but for the phase. `c` are the others that are counted.
  pub record Kept : Type 0 where
    pub lock : x.sems lock_up + locks i q ≡ s.shared.sems lock_up + locks i p
    pub wait :
        (c : ℕ)
        → c + 1 < 2 ^ 31
        → s.shared.upwait ≡ pos (c + counted i p)
        → x.upwait ≡ pos (c + counted i q)
    pub downs : x.downgo ≡ s.shared.downgo
    pub still_above : IsAbove q

  pub step-Inv : Kept → Phase n After → Inv n After
  step-Inv kept new_phase = record {
    few = inv.few;
    one_locks =
        omega (arith, inv.one_locks, kept.lock, rw at at (total-update locks n s.place i q lt));
    waiting =
        kept.wait others (omega (arith, inv.few, total-counted-le n s.place))
          (inv.waiting ∙ ap pos (omega (arith, ap (counted i) at, le-total counted n s.place i lt)))
        ∙ ap pos (
            omega (
              arith,
              ap (counted i) at,
              le-total counted n s.place i lt,
              total-update counted n s.place i q lt,
            ));
    no_down = kept.downs ∙ inv.no_down;
    above =
        update_all (λ j r. IsAbove r) n s.place i q kept.still_above
          (λ j j_in apart. inv.above j j_in);
    phase = new_phase;
  }
    where
      others : ℕ
      others = total counted n s.place - counted i (s.place i)

  -- A step that only moves the herdsman, in the first phase.
  pub quiet :
      (IsBefore p → IsBefore q)
      → x.sems up ≡ s.shared.sems up
      → x.sems up_queue ≡ s.shared.sems up_queue
      → x.hat ≡ s.shared.hat
      → leads i q ≡ leads i p
      → hats i q ≡ hats i p
      → Phase n After
  quiet keep same_up same_queue same_hat same_lead same_hats = elim inv.phase [
    | inl early ↦ inl (record {
      free = omega (arith, early.free);
      no_call = omega (arith, early.no_call);
      one_leads = omega (arith, early.one_leads, rw at at (total-update leads n s.place i q lt));
      hat_down =
          same_hat
          ∙ early.hat_down
          ∙ ap pos (omega (arith, rw at at (total-update hats n s.place i q lt)));
      before =
          update_all (λ j r. IsBefore r) n s.place i q (keep (rw at at (early.before i lt)))
            (λ j j_in apart. early.before j j_in);
    })
    | inr late ↦ inr (omega arith)
  ]

  -- A step that no herdsman takes in the first phase.
  pub beyond : (IsBefore p → ⊥) → x.sems up ≡ s.shared.sems up → Phase n After
  beyond off same_up = elim inv.phase [
    | inl early ↦ absurd (off (rw at at (early.before i lt)))
    | inr late ↦ inr (omega arith)
  ]

  -- The first who is counted leads.
  pub first_leads :
      p ≡ test_first → q ≡ test_hat → s.shared.upwait ≡ pos 1 → x ≡ s.shared → Phase n After
  first_leads from to one same = elim inv.phase [
    | inl early ↦ inl (record {
      free = rw same early.free;
      no_call = rw same early.no_call;
      one_leads = omega (
        arith,
        total_mono leads counted leads-le-counted n After.place,
        only_one,
        total-update counted n s.place i q lt,
        counts_old,
        counts_new,
      );
      hat_down = rw same (
          early.hat_down
          ∙ ap pos (
              omega (arith, total-update hats n s.place i q lt, ap (hats i) here, ap (hats i) to)));
      before =
          update_all (λ j r. IsBefore r) n s.place i q (rw to tt)
            (λ j j_in apart. early.before j j_in);
    })
    | inr late ↦ inr (rw same late)
  ]
    where
      here : s.place i ≡ test_first
      here = at ∙ from

      counts_old : counted i (s.place i) ≡ 1
      counts_old = ap (counted i) here

      counts_new : counted i q ≡ 1
      counts_new = ap (counted i) to

      only_one : total counted n s.place ≡ 1
      only_one = ground (arith, inv.waiting, one)

  -- In the first phase, who leads and has not put his hat down is the only one that leads.
  no_hats_yet : Early n s → bare i p ≡ 1 → total hats n s.place ≡ 0
  no_hats_yet early own = omega (
    arith,
    total-add hats bare n s.place,
    total_mono (λ j r. hats j r + bare j r) leads bare_le n s.place,
    early.one_leads,
    le-total bare n s.place i lt,
    ap (bare i) at,
    own,
  )

  pub no_hat : Early n s → p ≡ test_hat → s.shared.hat ≡ pos 0
  no_hat early from = early.hat_down ∙ ap pos (no_hats_yet early (ap (bare i) from))

  pub puts_hat : p ≡ put_hat → q ≡ hat_put → x ≡ record s.shared { hat = pos 1 } → Phase n After
  puts_hat from to same = elim inv.phase [
    | inl early ↦ inl (record {
      free = rw same early.free;
      no_call = rw same early.no_call;
      one_leads = omega (
        arith,
        early.one_leads,
        total-update leads n s.place i q lt,
        ap (leads i) (at ∙ from),
        ap (leads i) to,
      );
      hat_down = rw same (
          ap pos (
            omega (
              arith,
              no_hats_yet early (ap (bare i) from),
              total-update hats n s.place i q lt,
              ap (hats i) (at ∙ from),
              ap (hats i) to,
            )));
      before =
          update_all (λ j r. IsBefore r) n s.place i q (rw to tt)
            (λ j j_in apart. early.before j j_in);
    })
    | inr late ↦ inr (rw same late)
  ]

  pub enters : p ≡ enter_path → q ≡ on_path → x.sems up + 1 ≡ s.shared.sems up → Phase n After
  enters from to took = elim inv.phase [
    | inl early ↦ inr (omega (arith, early.free))
    | inr late ↦ absurd (omega arith)
  ]
