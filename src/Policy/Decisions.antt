-- ===== src/Policy/Decisions.antt =====
-- The loop over the policies against a description by the first policy that isolates and the last one
-- that restricts.
use luis_puentes.Prelude.{
  String, ◌≡◌, refl, Bool, true, false, Option, none, some, List, [], ◌∷◌, ◌++◌, ◌&&◌, ◌||◌, not,
  ◌==◌, arith, if◌then◌else◌, first, any, any-append, Option-cases, inl, inr, Bool-cases,
}
use luis_puentes.Models.{TaskEnvelope}
use luis_puentes.Policy.{
  Policy, PolicyDecision, stop, keep_on, policy_matches, out_of_scope, restrict, consider,
  evaluate_from, evaluate_action, or_default, cross_workspace,
}

module _ (action : String) (task : TaskEnvelope) (workspace : String) where
  -- In scope, and its conditions hold.
  unfoldable pub applies : Policy → Bool
  applies policy = not (out_of_scope policy workspace) && policy_matches policy action task

  -- Client isolation across workspaces.
  unfoldable pub isolates : Policy → Bool
  unfolding applies
  isolates policy = applies policy && policy.client_isolation && not (task.workspace == workspace)

  -- What a policy that does not isolate demands by itself.
  pub demand : Policy → Option PolicyDecision
  unfolding applies
  demand policy =
      if applies policy && not policy.client_isolation
      then restrict policy action task none
      else none

  last_demand : List Policy → Option PolicyDecision → Option PolicyDecision
  last_demand [] decision = decision
  last_demand (policy ∷ policies) decision =
      last_demand policies (elim (demand policy) [ none ↦ decision | some d ↦ some d ])

  pub reference : List Policy → PolicyDecision
  unfolding last_demand
  reference policies = elim (first isolates policies) [
    | none ↦ or_default (last_demand policies none)
    | some policy ↦ cross_workspace policy
  ]

  restrict-demand :
      (policy : Policy) (decision : Option PolicyDecision)
      → restrict policy action task decision
        ≡ (elim (restrict policy action task none) [ none ↦ decision | some d ↦ some d ])
  unfolding restrict
  restrict-demand policy decision = ground arith

  consider-demand :
      (policy : Policy) (decision : Option PolicyDecision)
      → consider policy action task workspace decision ≡ (
          if isolates policy
          then stop (cross_workspace policy)
          else keep_on (elim (demand policy) [ none ↦ decision | some d ↦ some d ]))
  unfolding consider isolates applies demand
  consider-demand policy decision = ground (arith, restrict-demand policy decision)

  evaluate_from-reference :
      (policies : List Policy) (decision : Option PolicyDecision)
      → evaluate_from policies action task workspace decision ≡ (elim (first isolates policies) [
        | none ↦ or_default (last_demand policies decision)
        | some policy ↦ cross_workspace policy
      ])
  unfolding evaluate_from last_demand
  evaluate_from-reference [] decision = refl
  evaluate_from-reference (p ∷ ps) decision = ground (
    arith,
    consider-demand p decision,
    evaluate_from-reference ps (elim (demand p) [ none ↦ decision | some d ↦ some d ]),
  )

  -- The decision is that of the first policy that isolates, if there is one; otherwise that of the last
  -- policy that demands anything by itself; otherwise the action is allowed.
  pub evaluate_action-reference :
      (policies : List Policy) → evaluate_action policies action task workspace ≡ reference policies
  unfolding evaluate_action reference
  evaluate_action-reference policies = evaluate_from-reference policies none

  demand-refuses :
      (policy : Policy) (d : PolicyDecision) → demand policy ≡ some d → d.allowed ≡ false
  unfolding demand restrict
  demand-refuses policy d h = ground arith

  -- Whether a policy stands in the way.
  pub objects : Policy → Bool
  objects policy = isolates policy || elim (demand policy) [ none ↦ false | some d ↦ true ]

  abbrev is_kept : Option PolicyDecision → Bool
  is_kept none = false
  is_kept (some d) = true

  abbrev Refuses : Option PolicyDecision → Type 0
  Refuses none = Unit
  Refuses (some d) = d.allowed ≡ false

  merge-Refuses :
      (policy : Policy) (decision : Option PolicyDecision)
      → Refuses decision
      → Refuses (elim (demand policy) [ none ↦ decision | some d ↦ some d ])
  merge-Refuses policy decision h = elim (Option-cases (demand policy)) [
    | inl e ↦ rw e h
    | inr (d, e) ↦ rw e (demand-refuses policy d e)
  ]

  evaluate_from-allowed :
      (policies : List Policy) (decision : Option PolicyDecision)
      → Refuses decision
      → (evaluate_from policies action task workspace decision).allowed
        ≡ not (is_kept decision || any objects policies)
  unfolding evaluate_from objects
  evaluate_from-allowed [] none h = refl
  evaluate_from-allowed [] (some d) h = h
  evaluate_from-allowed (p ∷ ps) decision h =
      let next : Option PolicyDecision = elim (demand p) [ none ↦ decision | some d ↦ some d ] in
      ground (
        arith,
        consider-demand p decision,
        evaluate_from-allowed ps next (merge-Refuses p decision h),
      )

  -- An action is allowed exactly if no policy stands in its way: none isolates the task's workspace, and
  -- none demands approval or authorization for it.
  pub evaluate_action-allowed :
      (policies : List Policy)
      → (evaluate_action policies action task workspace).allowed ≡ not (any objects policies)
  unfolding evaluate_action
  evaluate_action-allowed policies = evaluate_from-allowed policies none tt

  -- More policies never allow more: what a longer registry allows, each part of it allows.
  pub evaluate_action-append :
      (xs ys : List Policy)
      → (evaluate_action (xs ++ ys) action task workspace).allowed ≡ true
      → ((evaluate_action xs action task workspace).allowed ≡ true)
        × ((evaluate_action ys action task workspace).allowed ≡ true)
  evaluate_action-append xs ys h = ground (
    arith,
    evaluate_action-allowed (xs ++ ys),
    evaluate_action-allowed xs,
    evaluate_action-allowed ys,
    any-append objects xs ys,
  )

  first-isolates :
      (policies : List Policy)
      → any isolates policies ≡ true
      → (p : Policy) × (first isolates policies ≡ some p)
  first-isolates [] h = cc
  first-isolates (p ∷ ps) h = elim (Bool-cases (isolates p)) [
    | inl e ↦ (p, rw e)
    | inr e ↦ let (q, f) = first-isolates ps (rw e at h) in (q, rw e f)
  ]

  -- A task of another workspace is denied, with no way to approve it, as soon as one policy isolates
  -- it, wherever that policy stands in the registry.
  pub evaluate_action-isolated :
      (policies : List Policy)
      → any isolates policies ≡ true
      → ((evaluate_action policies action task workspace).allowed ≡ false)
        × ((evaluate_action policies action task workspace).requires_approval ≡ false)
  unfolding reference
  evaluate_action-isolated policies h =
      let (p, f) = first-isolates policies h in ground (arith, evaluate_action-reference policies)
