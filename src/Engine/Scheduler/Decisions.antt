-- ===== src/Engine/Scheduler/Decisions.antt =====
-- Which decisions a tick takes, and why no two of them contradict each other.
use orqent.Base.{
  String, List, [], ◌∷◌, ◌++◌, map, Option, none, some, Bool, true, false, ◌≡◌, ◌≢◌, ◌⊎◌, ◌↔◌, inl,
  inr, refl, arith, all, is_nil, In, mem→In, In→mem, In-append, In-map, not-In-map, Result, ok,
  >>=-eq-ok, Bool-cases,
}
use orqent.Graph.Model.{GraphEdge, incoming, node_keys}
use orqent.Engine.State.{RunStatus, NodeExecutionStatus, EngineError}
use orqent.Engine.Snapshot.{
  RunSnapshot, SchedulerDecision, start_node, set_run_status, recover_node, skip_node,
}
use orqent.Engine.Scheduler.{
  filter_raising, reject_fan_in, status, is_dead, upstream_satisfied, stranded, ready, prunable,
  run_status, status_decision, tick, strands, may_start, prunes,
}
use orqent.Engine.Scheduler.Upstream.{
  HasStatus, Dead, Satisfied, not_nil, status_iff, all-Dead_iff, Satisfied-iff, not-Live-Dead,
}

pub In-filter_raising :
    {A : Type 0} (p : A → Result EngineError Bool) (a : A) (xs : List A) {ys : List A}
    → filter_raising p xs ≡ ok ys
    → In a ys ↔ (In a xs × (p a ≡ ok true))
In-filter_raising p a [] h = ground arith
In-filter_raising p a (x ∷ xs) h =
    let (keep, tested, after) = >>=-eq-ok (p x) _ h in
    let (rest, filtered, last) = >>=-eq-ok (filter_raising p xs) _ after in
    elim (Bool-cases keep) [
      | inl kept ↦ ground (arith, In-filter_raising p a xs filtered)
      | inr dropped ↦ ground (arith, In-filter_raising p a xs filtered)
    ]

abbrev start_key : SchedulerDecision → Option String
start_key (start_node k) = some k
start_key _ = none

abbrev recovered_key : SchedulerDecision → Option String
recovered_key (recover_node k) = some k
recovered_key _ = none

abbrev skipped_key : SchedulerDecision → Option String
skipped_key (skip_node k) = some k
skipped_key _ = none

↔-trans : {A B C : Type 0} → A ↔ B → B ↔ C → A ↔ C
↔-trans f g = (λ a. g.0 (f.0 a), λ c. f.1 (g.1 c))

module _ {V : Type 0} (snapshot : RunSnapshot V) where
  -- The four parts of a tick, before they are joined.
  pub record Parts (ds : List SchedulerDecision) : Type 0 where
    pub recovered : List String
    pub skipping : List String
    pub starting : List String
    pub conclusion : Option RunStatus
    pub fan_in : reject_fan_in [] snapshot.graph.edges ≡ ok tt
    pub recovers : stranded snapshot ≡ ok recovered
    pub skips : prunable snapshot ≡ ok skipping
    pub starts : ready snapshot recovered ≡ ok starting
    pub concludes : run_status snapshot starting ≡ ok conclusion
    pub joined :
        ds
        ≡ map recover_node recovered
          ++ (map skip_node skipping
              ++ (map start_node starting ++ status_decision snapshot conclusion))

  pub tick-Parts : {ds : List SchedulerDecision} → tick snapshot ≡ ok ds → Parts ds
  unfolding tick
  tick-Parts h =
      let (u, fan, h1) = >>=-eq-ok (reject_fan_in [] snapshot.graph.edges) _ h in
      let (recovered, r, h2) = >>=-eq-ok (stranded snapshot) _ h1 in
      let (skipping, k, h3) = >>=-eq-ok (prunable snapshot) _ h2 in
      let (starting, s, h4) = >>=-eq-ok (ready snapshot recovered) _ h3 in
      let (conclusion, c, last) = >>=-eq-ok (run_status snapshot starting) _ h4 in
      record {
        recovered = recovered;
        skipping = skipping;
        starting = starting;
        conclusion = conclusion;
        fan_in = fan;
        recovers = r;
        skips = k;
        starts = s;
        concludes = c;
        joined = ground arith;
      }

  In-status_decision :
      (conclusion : Option RunStatus) (d : SchedulerDecision)
      → ((s : RunStatus) → d ≢ set_run_status s)
      → ¬ In d (status_decision snapshot conclusion)
  In-status_decision none d other m = m
  In-status_decision (some s) d other m = ground (arith, other s)

  module _ {ds : List SchedulerDecision} (parts : Parts ds) (k : String) where
    open parts use {recovered, skipping, starting, conclusion, joined}

    In-joined :
        (d : SchedulerDecision)
        → In d ds ↔ (
            In d (map recover_node recovered)
            ⊎ (In d (map skip_node skipping)
                ⊎ (In d (map start_node starting) ⊎ In d (status_decision snapshot conclusion))))
    In-joined d = rw joined (
        ground (
          arith,
          In-append d (map recover_node recovered) (
              map skip_node skipping
              ++ (map start_node starting ++ status_decision snapshot conclusion)),
          In-append d (map skip_node skipping)
              (map start_node starting ++ status_decision snapshot conclusion),
          In-append d (map start_node starting) (status_decision snapshot conclusion),
        ))

    pub In-recovered : In (recover_node k) ds ↔ In k recovered
    In-recovered = ground (
      arith,
      In-joined (recover_node k),
      In-map recover_node recovered_key (λ _. refl) k recovered,
      not-In-map skip_node (recover_node k) (λ _ e. cc) skipping,
      not-In-map start_node (recover_node k) (λ _ e. cc) starting,
      In-status_decision conclusion (recover_node k) (λ _ e. cc),
    )

    pub In-skipping : In (skip_node k) ds ↔ In k skipping
    In-skipping = ground (
      arith,
      In-joined (skip_node k),
      In-map skip_node skipped_key (λ _. refl) k skipping,
      not-In-map recover_node (skip_node k) (λ _ e. cc) recovered,
      not-In-map start_node (skip_node k) (λ _ e. cc) starting,
      In-status_decision conclusion (skip_node k) (λ _ e. cc),
    )

    pub In-starting : In (start_node k) ds ↔ In k starting
    In-starting = ground (
      arith,
      In-joined (start_node k),
      In-map start_node start_key (λ _. refl) k starting,
      not-In-map recover_node (start_node k) (λ _ e. cc) recovered,
      not-In-map skip_node (start_node k) (λ _ e. cc) skipping,
      In-status_decision conclusion (start_node k) (λ _ e. cc),
    )

module _ {V : Type 0} (snapshot : RunSnapshot V) (k : String) where
  stranded_key :
      {ks : List String}
      → stranded snapshot ≡ ok ks
      → In k ks
        ↔ (In k (node_keys snapshot.graph) × (status snapshot k ≡ ok NodeExecutionStatus.running))
  unfolding stranded
  stranded_key h =
      ground (arith, In-filter_raising (strands snapshot) k (node_keys snapshot.graph) h)

  prunable_key :
      {ks : List String}
      → prunable snapshot ≡ ok ks
      → In k ks ↔ (
          In k (node_keys snapshot.graph)
          × (status snapshot k ≡ ok NodeExecutionStatus.pending)
          × (is_nil (incoming snapshot.graph k) ≡ false)
          × (all (is_dead snapshot) (incoming snapshot.graph k) ≡ true))
  unfolding prunable
  prunable_key h =
      ground (arith, In-filter_raising (prunes snapshot) k (node_keys snapshot.graph) h)

  ready_key :
      {rs ks : List String}
      → stranded snapshot ≡ ok rs
      → ready snapshot rs ≡ ok ks
      → In k ks ↔ (
          In k (node_keys snapshot.graph)
          × ((status snapshot k ≡ ok NodeExecutionStatus.running)
              ⊎ (status snapshot k ≡ ok NodeExecutionStatus.pending))
          × (upstream_satisfied snapshot k ≡ true))
  unfolding ready
  ready_key {rs} h e = ground (
    arith,
    In-filter_raising (may_start snapshot rs) k (node_keys snapshot.graph) e,
    stranded_key h,
    mem→In k rs,
    In→mem k rs,
  )

module _ {V : Type 0} (snapshot : RunSnapshot V) where
  -- A tick that returns recovers exactly the nodes of the graph whose execution is running. It skips
  -- exactly those that are pending and have an incoming edge, all of them dead. It starts exactly those
  -- that are running or pending and have no incoming edge, or only live and dead ones with at least one
  -- live. An edge is live if its source has succeeded and emitted on its handle, and dead if its source
  -- was skipped, or has succeeded and not emitted on its handle.
  pub tick_decides :
      {ds : List SchedulerDecision} (k : String)
      → tick snapshot ≡ ok ds
      → (In (recover_node k) ds
          ↔ (In k (node_keys snapshot.graph) × HasStatus snapshot k NodeExecutionStatus.running))
        × (In (skip_node k) ds ↔ (
            In k (node_keys snapshot.graph)
            × HasStatus snapshot k NodeExecutionStatus.pending
            × (incoming snapshot.graph k ≢ [])
            × ((e : GraphEdge) → In e (incoming snapshot.graph k) → Dead snapshot e)))
        × (In (start_node k) ds ↔ (
            In k (node_keys snapshot.graph)
            × (HasStatus snapshot k NodeExecutionStatus.running
                ⊎ HasStatus snapshot k NodeExecutionStatus.pending)
            × Satisfied snapshot k))
  tick_decides k h =
      let p = tick-Parts snapshot h in
      let running = status_iff snapshot k NodeExecutionStatus.running in
      let pending = status_iff snapshot k NodeExecutionStatus.pending in
      let dead = all-Dead_iff snapshot (incoming snapshot.graph k) in
      let recovers = ↔-trans (In-recovered snapshot p k) (stranded_key snapshot k p.recovers) in
      let skips = ↔-trans (In-skipping snapshot p k) (prunable_key snapshot k p.skips) in
      let starts = ↔-trans (In-starting snapshot p k) (ready_key snapshot k p.recovers p.starts) in
      (
        (
          λ m. let (known, s) = recovers.0 m in (known, running.0 s),
          λ (known, s). recovers.1 (known, running.1 s),
        ),
        (
          λ m.
              let (known, s, some_in, all_dead) = skips.0 m in
              (known, pending.0 s, λ e. cc (rw e at some_in), dead.0 all_dead),
          λ (known, s, some_in, all_dead).
              skips.1
                (known, pending.1 s, not_nil (incoming snapshot.graph k) some_in, dead.1 all_dead),
        ),
        (
          λ m.
              let (known, s, upstream) = starts.0 m in
              (
                known,
                elim s [ inl r ↦ inl (running.0 r) | inr w ↦ inr (pending.0 w) ],
                (Satisfied-iff snapshot k).0 upstream,
              ),
          λ (known, s, upstream). starts.1 (
            known,
            elim s [ inl r ↦ inl (running.1 r) | inr w ↦ inr (pending.1 w) ],
            (Satisfied-iff snapshot k).1 upstream,
          ),
        ),
      )

  -- No tick both skips and starts a node.
  pub tick_disjoint :
      {ds : List SchedulerDecision} (k : String)
      → tick snapshot ≡ ok ds
      → In (skip_node k) ds
      → ¬ In (start_node k) ds
  tick_disjoint k h skipped started =
      let (_, skips, starts) = tick_decides k h in
      let (_, _, some_edge, dead) = skips.0 skipped in
      let (_, _, satisfied) = starts.0 started in
      elim satisfied [
        | inl none_in ↦ some_edge none_in
        | inr (_, (e, m, live)) ↦ not-Live-Dead snapshot e live (dead e m)
      ]
