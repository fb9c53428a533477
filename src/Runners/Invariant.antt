-- ===== src/Runners/Invariant.antt =====
-- What the messages in the queue and the places of the judge and the runners add up to.
use sem.Prelude.{
  ℕ, suc, ◌+◌, ◌*◌, ◌<◌, ◌≤◌, ◌≡◌, arith, total, total-update, update, update_all, length, ◌==◌,
  if◌then◌else◌,
}
use sem.Process.{State}
use sem.Messages.{Queue, count}
use sem.Messages.Laws.{one_of}
use sem.Runners.{
  Place, wait_came, send_start, wait_finish, send_over, judged, come, wait_start, run_up, wait_over,
  went_away, exited, runnr_came,
}

module _ (num_of_runnrs : ℕ) where
  -- The judge is process 0, and his loops do not run too far.
  abbrev pub AtHome : ℕ → Place → Type 0
  AtHome i (wait_came k) = (i ≡ 0) × (k ≤ num_of_runnrs)
  AtHome i (send_start k) = (i ≡ 0) × (k ≤ num_of_runnrs)
  AtHome i (wait_finish k) = (i ≡ 0) × (k < num_of_runnrs)
  AtHome i (send_over k) = (i ≡ 0) × (k ≤ num_of_runnrs)
  AtHome i judged = i ≡ 0
  AtHome i exited = ⊥
  AtHome i p = 0 < i

  -- The runners that the judge has counted.
  abbrev pub counted : ℕ → Place → ℕ
  counted i (wait_came k) = k
  counted i (send_start k) = num_of_runnrs
  counted i (wait_finish k) = num_of_runnrs
  counted i (send_over k) = num_of_runnrs
  counted i judged = num_of_runnrs
  counted i p = 0

  -- The messages that a process has sent so far, at most.
  abbrev pub sent : ℕ → Place → ℕ
  sent i (send_start k) = k
  sent i (wait_finish k) = k + 1
  sent i (send_over k) = num_of_runnrs + k
  sent i judged = 2 * num_of_runnrs
  sent i wait_start = 1
  sent i run_up = 1
  sent i wait_over = 2
  sent i went_away = 2
  sent i p = 0

-- Not yet come to the start.
abbrev pub to_come : ℕ → Place → ℕ
to_come i come = 1
to_come i p = 0

-- The judge while it is not the turn of runner `k`, and runner `k` while he runs.
abbrev pub turn : ℕ → ℕ → Place → ℕ
turn k i (wait_came j) = 1
turn k i (send_start j) = 1
turn k i (wait_finish j) = if j + 1 == k then 0 else 1
turn k i (send_over j) = 1
turn k i judged = 1
turn k i run_up = one_of i k
turn k i p = 0

pub record Inv (num_of_runnrs : ℕ) (s : State Queue Place) : Type 0 where
  pub home : (i : ℕ) → i < suc num_of_runnrs → AtHome num_of_runnrs i (s.place i)
  pub came :
      count (runnr_came num_of_runnrs) s.shared
        + total (counted num_of_runnrs) (suc num_of_runnrs) s.place
        + total to_come (suc num_of_runnrs) s.place
      ≡ num_of_runnrs
  pub turns :
      (k : ℕ)
      → 1 ≤ k
      → k ≤ num_of_runnrs
      → count k s.shared + total (turn k) (suc num_of_runnrs) s.place ≡ 1
  pub size : length s.shared ≤ total (sent num_of_runnrs) (suc num_of_runnrs) s.place

module _ (n : ℕ) (s : State Queue Place) (i : ℕ) (lt : i < suc n) (inv : Inv n s) (p : Place)
    (at : s.place i ≡ p) where
  -- What a step to the place `q` with the queue `r` has to keep.
  pub record Kept (r : Queue) (q : Place) : Type 0 where
    pub at_home : AtHome n i q
    pub same_came :
        count (runnr_came n) r + counted n i q + to_come i q
        ≡ count (runnr_came n) s.shared + counted n i p + to_come i p
    pub same_turn : (k : ℕ) → 1 ≤ k → k ≤ n → count k r + turn k i q ≡ count k s.shared + turn k i p
    pub fits : length r + sent n i p ≤ length s.shared + sent n i q

  pub step-Inv :
      (r : Queue) (q : Place) → Kept r q → Inv n (record { shared = r; place = update s.place i q })
  step-Inv r q kept = record {
    home = update_all (AtHome n) (suc n) s.place i q kept.at_home (λ j j_in apart. inv.home j j_in);
    came = omega (
      arith,
      inv.came,
      kept.same_came,
      rw at at (total-update (counted n) (suc n) s.place i q lt),
      rw at at (total-update to_come (suc n) s.place i q lt),
    );
    turns = λ k low high. omega (
      arith,
      inv.turns k low high,
      kept.same_turn k low high,
      rw at at (total-update (turn k) (suc n) s.place i q lt),
    );
    size =
        omega (arith, inv.size, kept.fits, rw at at (total-update (sent n) (suc n) s.place i q lt));
  }
