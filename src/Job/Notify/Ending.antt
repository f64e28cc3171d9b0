-- ===== src/Job/Notify/Ending.antt =====
-- cxsom/src/cxsomJobs.hpp: when `notify_done` ends, and what it leaves.
use cxsom.Prelude.{
  ℕ, zero, suc, ◌<◌, ◌≡◌, refl, ap, ◌∙◌, true, false, Bool-cases, inl, inr, Option, some, ◌>>=◌,
  List, [], ◌∷◌, ◌++◌, All, All-map, arith, erase, contains, contains-erase,
}
use cxsom.Symbol.{TimeStep, time_step_Eq}
use cxsom.TimeStep.{Updates, Instance, notify_unblock, update_status, busy_unbounds_found, settle}
use cxsom.Job.Notify.{Board, blockees_of, unblock, unblock_all, notify_done, ref_Eq}

module _ {S : Type 0} (ops : Updates S) where
  -- A status update leaves the name and the blockers.
  notify_unblock-kept :
      (me : TimeStep) (s : S) (i : Instance)
      → let j = (notify_unblock ops me s i).self in
        (j.who ≡ i.who) × (j.blockers ≡ erase me i.blockers)
  unfolding notify_unblock update_status busy_unbounds_found settle
  notify_unblock-kept me s i = ground arith

  -- What a board keeps later: who waits, the names of the time steps, and the blockers that have gone.
  pub record Later (s s' : Board S) : Type 0 where
    pub same : s'.blockees ≡ s.blockees
    pub who : (r : ℕ) → (s'.at_ref r).who ≡ (s.at_ref r).who
    pub gone :
        (r : ℕ) (b : TimeStep)
        → contains b (s.at_ref r).blockers ≡ false
        → contains b (s'.at_ref r).blockers ≡ false

  Later-refl : (s : Board S) → Later s s
  Later-refl s = record { same = refl; who = λ r. refl; gone = λ r b h. h }

  Later-trans : (a b c : Board S) → Later a b → Later b c → Later a c
  Later-trans a b c f g = record {
    same = g.same ∙ f.same;
    who = λ r. g.who r ∙ f.who r;
    gone = λ r t h. g.gone r t (f.gone r t h);
  }

  unblock-Later : (me : TimeStep) (r : ℕ) (s : Board S) → Later s (unblock ops me r s).1
  unfolding unblock
  unblock-Later me r s =
      let (w, b) = notify_unblock-kept me s.store (s.at_ref r) in
      record {
        same = refl;
        who = λ q. ground (arith, ref_Eq.beq_iff r q);
        gone =
            λ q t h. ground (arith, ref_Eq.beq_iff r q, contains-erase t me (s.at_ref r).blockers);
      }

  unblock-gone :
      (me : TimeStep) (r : ℕ) (s : Board S)
      → contains me ((unblock ops me r s).1.at_ref r).blockers ≡ false
  unfolding unblock
  unblock-gone me r s =
      let (w, b) = notify_unblock-kept me s.store (s.at_ref r) in
      ground (
        arith,
        ref_Eq.beq_iff r r,
        contains-erase me me (s.at_ref r).blockers,
        time_step_Eq.beq_iff me me,
      )

  -- A time step that is waited for has a greater rank than those that wait.
  abbrev pub IsRanked : (TimeStep → ℕ) → Board S → Type 0
  IsRanked rank s =
      (me : TimeStep) → All (λ r. rank (s.at_ref r).who < rank me) (blockees_of me s.blockees)

  -- A call that ends, with what it leaves to the time steps at some addresses.
  abbrev pub Ends : TimeStep → List ℕ → Board S → Option (Board S) → Type 0
  Ends me rs s o =
      (s' : Board S) × (o ≡ some s')
      × Later s s'
      × All (λ r. contains me (s'.at_ref r).blockers ≡ false) rs

  below-Later :
      (rank : TimeStep → ℕ) (n : ℕ) (rs : List ℕ) (s s' : Board S)
      → Later s s'
      → All (λ r. rank (s.at_ref r).who < n) rs
      → All (λ r. rank (s'.at_ref r).who < n) rs
  below-Later rank n [] s s' l h = tt
  below-Later rank n (r ∷ rs) s s' l h = (rw (l.who r) h.0, below-Later rank n rs s s' l h.1)

  IsRanked-Later :
      (rank : TimeStep → ℕ) (s s' : Board S) → Later s s' → IsRanked rank s → IsRanked rank s'
  IsRanked-Later rank s s' l h me =
      rw l.same (below-Later rank (rank me) (blockees_of me s.blockees) s s' l (h me))

  -- The two turns of the loop.
  pub unblock_all-done :
      (notify : TimeStep → Board S → Option (Board S)) (me : TimeStep) (r : ℕ) (rest : List ℕ)
      (s : Board S)
      → (unblock ops me r s).0 ≡ true
      → let a = (unblock ops me r s).1 in
        unblock_all ops notify me (r ∷ rest) s
        ≡ (notify (a.at_ref r).who a >>= unblock_all ops notify me rest)
  unfolding unblock_all
  unblock_all-done notify me r rest s e = ground arith

  unblock_all-quiet :
      (notify : TimeStep → Board S → Option (Board S)) (me : TimeStep) (r : ℕ) (rest : List ℕ)
      (s : Board S)
      → (unblock ops me r s).0 ≡ false
      → unblock_all ops notify me (r ∷ rest) s
        ≡ unblock_all ops notify me rest (unblock ops me r s).1
  unfolding unblock_all
  unblock_all-quiet notify me r rest s e = ground arith

  unblock_all-Ends :
      (rank : TimeStep → ℕ) (n : ℕ) (notify : TimeStep → Board S → Option (Board S))
      → ((k : TimeStep) (s : Board S)
          → IsRanked rank s
          → rank k < n
          → Ends k (blockees_of k s.blockees) s (notify k s))
      → (me : TimeStep) (rs : List ℕ) (s : Board S) → IsRanked rank s
      → All (λ r. rank (s.at_ref r).who < n) rs
      → Ends me rs s (unblock_all ops notify me rs s)
  unfolding unblock_all
  unblock_all-Ends rank n notify f me [] s h k = (s, refl, Later-refl s, tt)
  unblock_all-Ends rank n notify f me (r ∷ rest) s h k =
      let a = (unblock ops me r s).1 in
      let l = unblock-Later me r s in
      let ha = IsRanked-Later rank s a l h in
      let g = unblock-gone me r s in
      elim (Bool-cases (unblock ops me r s).0) [
        | inl e ↦
            let (b, eb, lb, _) = f (a.at_ref r).who a ha (rw (l.who r) k.0) in
            let lsb = Later-trans s a b l lb in
            let (c, ec, lc, gc) =
              unblock_all-Ends rank n notify f me rest b (IsRanked-Later rank s b lsb h)
                (below-Later rank n rest s b lsb k.1) in
            (
              c,
              unblock_all-done notify me r rest s e
                  ∙ ap (λ o. o >>= unblock_all ops notify me rest) eb
                  ∙ ec,
              Later-trans s b c lsb lc,
              (lc.gone r me (lb.gone r me g), gc),
            )
        | inr e ↦
            let (c, ec, lc, gc) =
              unblock_all-Ends rank n notify f me rest a ha (below-Later rank n rest s a l k.1) in
            (
              c,
              unblock_all-quiet notify me r rest s e ∙ ec,
              Later-trans s a c l lc,
              (lc.gone r me g, gc),
            )
      ]

  -- If time steps are ranked so that each is above those that wait for it, then `notify_done` ends, in as
  -- many nested calls as the rank and one more; afterwards no time step that waits for the one that
  -- is done has it among its blockers, and blockers have only gone.
  pub notify_done-Ends :
      (rank : TimeStep → ℕ) (n : ℕ) (me : TimeStep) (s : Board S)
      → IsRanked rank s
      → rank me < n
      → Ends me (blockees_of me s.blockees) s (notify_done ops n me s)
  unfolding notify_done
  notify_done-Ends rank zero me s h k = ground arith
  notify_done-Ends rank (suc n) me s h k =
      let t : Board S = record s { terminated_ts = s.terminated_ts ++ me ∷ [] } in
      let (c, e, l, g) =
        unblock_all-Ends rank n (notify_done ops n) (λ q u. notify_done-Ends rank n q u) me
          (blockees_of me s.blockees) t h
          (All-map (λ r m. omega (arith, m, k)) (blockees_of me s.blockees) (h me)) in
      (c, e, record { same = l.same; who = l.who; gone = l.gone }, g)
