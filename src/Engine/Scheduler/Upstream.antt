-- ===== src/Engine/Scheduler/Upstream.antt =====
-- What the scheduler's tests on the edges upstream of a node mean, said of the rows.
use orqent.Base.{
  String, List, [], ◌∷◌, some, true, false, ◌||◌, ◌≡◌, ◌≢◌, ◌⊎◌, ◌↔◌, inl, inr, refl, arith, any,
  all, is_nil, In, ok, ok-injective, and-left, and-right, Bool-cases, Option-cases, List-cases,
  Dict, lookup, has,
}
use mathlib.Core.Path.{subst}
use orqent.Graph.Model.{GraphEdge, incoming}
use orqent.Engine.State.{NodeExecutionStatus}
use orqent.Engine.Snapshot.{NodeExecutionSnapshot, RunSnapshot}
use orqent.Engine.Scheduler.{dead_from, status, is_live, is_dead, upstream_satisfied}

succeeded_or_skipped :
    {V : Type 0} (x : NodeExecutionSnapshot V) (handle : String)
    → dead_from x handle ≡ true
    → (x.status ≡ NodeExecutionStatus.skipped) ⊎ (x.status ≡ NodeExecutionStatus.succeeded)
succeeded_or_skipped x handle h = ground arith

dead_status :
    {V : Type 0} (x : NodeExecutionSnapshot V) (handle : String)
    → dead_from x handle ≡ true
    → (x.status ≡ NodeExecutionStatus.skipped)
      ⊎ ((outputs : Dict V) × (x.status ≡ NodeExecutionStatus.succeeded)
          × (x.outputs ≡ some outputs)
          × (has handle outputs ≡ false))
dead_status x handle h = elim (Option-cases x.outputs) [
  | inl silent_ ↦ inl (ground arith)
  | inr (outputs, emitted) ↦ elim (Bool-cases (has handle outputs)) [
    | inl holds ↦ inl (ground arith)
    | inr lacks ↦ elim (succeeded_or_skipped x handle h) [
      | inl skipped ↦ inl skipped
      | inr succeeded ↦ inr (outputs, succeeded, emitted, lacks)
    ]
  ]
]

pub not_nil : {A : Type 0} (xs : List A) → xs ≢ [] → is_nil xs ≡ false
not_nil [] h = absurd (h refl)
not_nil (x ∷ xs) h = refl

module _ {V : Type 0} (snapshot : RunSnapshot V) where
  -- The status of a node's execution.
  abbrev pub HasStatus : String → NodeExecutionStatus → Type 0
  HasStatus k s =
      (x : NodeExecutionSnapshot V) × (lookup k snapshot.node_executions ≡ some x) × (x.status ≡ s)

  -- The source of the edge has succeeded and emitted on the edge's handle.
  abbrev pub Live : GraphEdge → Type 0
  Live edge =
      (x : NodeExecutionSnapshot V) × (outputs : Dict V) × (lookup edge.source_key
          snapshot.node_executions
        ≡ some x)
      × (x.status ≡ NodeExecutionStatus.succeeded)
      × (x.outputs ≡ some outputs)
      × (has edge.source_handle outputs ≡ true)

  -- The source was skipped, or has succeeded without emitting on the edge's handle.
  abbrev pub Dead : GraphEdge → Type 0
  Dead edge =
      (x : NodeExecutionSnapshot V) × (lookup edge.source_key snapshot.node_executions ≡ some x)
      × ((x.status ≡ NodeExecutionStatus.skipped)
          ⊎ ((outputs : Dict V) × (x.status ≡ NodeExecutionStatus.succeeded)
              × (x.outputs ≡ some outputs)
              × (has edge.source_handle outputs ≡ false)))

  Live-iff : (e : GraphEdge) → (is_live snapshot e ≡ true) ↔ Live e
  unfolding is_live
  Live-iff e = elim (Option-cases (lookup e.source_key snapshot.node_executions)) [
    | inl missing ↦ (λ h. cc (rw (missing, is_live) at h), λ (x, _, found, _, _, _). cc)
    | inr (x, found) ↦ (
      λ h. elim (Option-cases x.outputs) [
        | inl silent ↦ ground arith
        | inr (outputs, emitted) ↦ (x, outputs, found, ground arith, emitted, ground arith)
      ],
      λ (y, outputs, there, succeeded, emitted, holds).
          let same : y ≡ x = cc in
          let s : x.status ≡ NodeExecutionStatus.succeeded = cc in
          let o : x.outputs ≡ some outputs = cc in ground arith,
    )
  ]

  Dead-iff : (e : GraphEdge) → (is_dead snapshot e ≡ true) ↔ Dead e
  unfolding is_dead
  Dead-iff e = elim (Option-cases (lookup e.source_key snapshot.node_executions)) [
    | inl missing ↦ (λ h. cc (rw (missing, is_dead) at h), λ (x, found, _). cc)
    | inr (x, found) ↦ (
      λ h. elim (dead_status x e.source_handle (rw (found, is_dead) at h)) [
        | inl skipped ↦ (x, found, inl skipped)
        | inr (outputs, succeeded, emitted, lacks) ↦
            (x, found, inr (outputs, succeeded, emitted, lacks))
      ],
      λ (y, there, why).
          let same : y ≡ x = cc in
          elim why [
            | inl skipped ↦ let s : x.status ≡ NodeExecutionStatus.skipped = cc in ground arith
            | inr (outputs, succeeded, emitted, lacks) ↦
                let s : x.status ≡ NodeExecutionStatus.succeeded = cc in
                let o : x.outputs ≡ some outputs = cc in ground arith
          ],
    )
  ]

  -- The code's tests over a list of edges.
  pub all-Dead_iff :
      (es : List GraphEdge)
      → (all (is_dead snapshot) es ≡ true) ↔ ((e : GraphEdge) → In e es → Dead e)
  all-Dead_iff [] = (λ h e m. absurd m, λ h. refl)
  all-Dead_iff (x ∷ es) = (
    λ h e m. elim m [
      | inl same ↦ rw same ((Dead-iff x).0 (and-left (is_dead snapshot x) _ h))
      | inr later ↦ (all-Dead_iff es).0 (and-right (is_dead snapshot x) _ h) e later
    ],
    λ h.
        let here = (Dead-iff x).1 (h x (inl refl)) in
        let rest = (all-Dead_iff es).1 (λ e m. h e (inr m)) in ground arith,
  )

  all_resolved_iff :
      (es : List GraphEdge)
      → (all (λ e. is_live snapshot e || is_dead snapshot e) es ≡ true)
        ↔ ((e : GraphEdge) → In e es → Live e ⊎ Dead e)
  all_resolved_iff [] = (λ h e m. absurd m, λ h. refl)
  all_resolved_iff (x ∷ es) = (
    λ h e m. elim m [
      | inl same ↦
          let here = and-left (is_live snapshot x || is_dead snapshot x) _ h in
          rw same (elim (Bool-cases (is_live snapshot x)) [
            | inl live ↦ inl ((Live-iff x).0 live)
            | inr not_live ↦ inr ((Dead-iff x).0 (rw not_live at here))
          ])
      | inr later ↦
          (all_resolved_iff es).0 (and-right (is_live snapshot x || is_dead snapshot x) _ h) e later
    ],
    λ h.
        let rest = (all_resolved_iff es).1 (λ e m. h e (inr m)) in
        elim (h x (inl refl)) [
          | inl live ↦ let here = (Live-iff x).1 live in ground arith
          | inr dead ↦ let here = (Dead-iff x).1 dead in ground arith
        ],
  )

  any-Live_iff :
      (es : List GraphEdge)
      → (any (is_live snapshot) es ≡ true) ↔ ((e : GraphEdge) × In e es × Live e)
  any-Live_iff [] = (λ h. cc, λ (e, m, _). absurd m)
  any-Live_iff (x ∷ es) = (
    λ h. elim (Bool-cases (is_live snapshot x)) [
      | inl live ↦ (x, inl refl, (Live-iff x).0 live)
      | inr not_live ↦ let (e, m, live) = (any-Live_iff es).0 (rw not_live at h) in (e, inr m, live)
    ],
    λ (e, m, live). elim m [
      | inl same ↦ let here = (Live-iff x).1 (subst Live same live) in ground arith
      | inr later ↦ let rest = (any-Live_iff es).1 (e, later, live) in ground arith
    ],
  )

  pub status_iff :
      (k : String) (s : NodeExecutionStatus) → (status snapshot k ≡ ok s) ↔ HasStatus k s
  unfolding status
  status_iff k s = elim (Option-cases (lookup k snapshot.node_executions)) [
    | inl missing ↦ (λ h. cc (rw (missing, status) at h), λ (x, found, _). cc)
    | inr (x, found) ↦ (
      λ h. (x, found, ok-injective (rw (found, status) at h)),
      λ (y, there, same). let one : y ≡ x = cc in rw (found, status) (cc),
    )
  ]

  -- Nothing upstream is still to come: the node has no incoming edge, or each of them is live or dead
  -- and one at least is live.
  abbrev pub Satisfied : String → Type 0
  Satisfied k =
      (incoming snapshot.graph k ≡ [])
      ⊎ (((e : GraphEdge) → In e (incoming snapshot.graph k) → Live e ⊎ Dead e)
          × ((e : GraphEdge) × In e (incoming snapshot.graph k) × Live e))

  pub Satisfied-iff : (k : String) → (upstream_satisfied snapshot k ≡ true) ↔ Satisfied k
  unfolding upstream_satisfied
  Satisfied-iff k = elim (List-cases (incoming snapshot.graph k)) [
    | inl none_in ↦ (λ h. inl none_in, λ h. rw (none_in, upstream_satisfied) refl)
    | inr (x, rest, some_in) ↦
        let resolved = all_resolved_iff (incoming snapshot.graph k) in
        let live = any-Live_iff (incoming snapshot.graph k) in
        (
          λ h. inr (resolved.0 (ground arith), live.0 (ground arith)),
          λ h. elim h [
            | inl none_in ↦ cc
            | inr (each, one) ↦ let a = resolved.1 each in let b = live.1 one in ground arith
          ],
        )
  ]

  pub not-Live-Dead : (e : GraphEdge) → Live e → ¬ Dead e
  not-Live-Dead e (x, outputs, found, succeeded, emitted, holds) (y, there, why) =
      let same : y ≡ x = cc in
      elim why [
        | inl skipped ↦ let s : x.status ≡ NodeExecutionStatus.skipped = cc in ground arith
        | inr (others, _, emitted', lacks) ↦
            let one : some outputs ≡ some others = cc in
            let alike : outputs ≡ others = cc in cc (rw (← alike) at lacks)
      ]
