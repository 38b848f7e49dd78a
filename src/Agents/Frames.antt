-- ===== src/Agents/Frames.antt =====
-- The calls of the agent lifecycle work on lanes and events alone.
use luis_puentes.Prelude.{suc, String, Option, none, some, List, [], ◌∷◌, ◌++◌}
use luis_puentes.Result.{Result}
use luis_puentes.Models.{Fields, str, TaskEnvelope, LaneRecord, ArtifactClaim}
use luis_puentes.Models.LaneKey.{normalize_lane_key}
use luis_puentes.State.{Store, M, ◌>>=◌, ◌>>◌, pure, utcnow, append_event}
use luis_puentes.State.Keeps.{Keeps, >>=-Keeps, lift-Keeps}
use luis_puentes.State.Lanes.{ensure_lane, upsert_lane}
use luis_puentes.State.Frames.{On, append_event-On, upsert_lane-On, ensure_lane-On}
use luis_puentes.Policy.{Policy}
use luis_puentes.Context.{
  Documents, ContextEnvelope, given, build, spec_or_empty, resolve_spec, policy_ids_of,
  section_list, default_actions,
}
use luis_puentes.Context.Prompt.{render_task_prompt}
use luis_puentes.Agents.{
  Host, ask, check_envelope, config_from, lane_config, dict_or_empty, list_or_empty, handover_path,
  keep_agent, create, resume_live, resume, retire_prior, write_handover, rotate,
}

module _ (P : List TaskEnvelope → List ArtifactClaim → String → Type 0) where
  pub build-On :
      (docs : Documents) (policies : List Policy) (lane : LaneRecord) (task : Option TaskEnvelope)
      (spec_id : Option String)
      → Keeps (On P) (build docs policies lane task spec_id)
  unfolding build utcnow
  build-On docs policies lane task spec_id =
      lift-Keeps (On P) (spec_or_empty docs (resolve_spec spec_id task)) _ (λ spec s h.
        lift-Keeps (On P) (policy_ids_of policies spec) _
          (λ _. lift-Keeps (On P) (section_list spec "evidence" "canonical_sources" []) _ (λ _.
            lift-Keeps (On P) (section_list spec "evidence" "latest_decisions" []) _ (λ _.
              lift-Keeps (On P) (section_list spec "controls" "allowed_actions" default_actions) _
                (λ _ u k. k))))
          s h)

  pub render_task_prompt-On :
      (docs : Documents) (task : TaskEnvelope) (envelope : ContextEnvelope)
      → Keeps (On P) (render_task_prompt docs task envelope)
  unfolding render_task_prompt
  render_task_prompt-On docs task envelope =
      lift-Keeps (On P) (spec_or_empty docs task.spec_id) _ (λ _ u k. k)

  config_from-On : (fs : Fields) → Keeps (On P) (config_from fs)
  unfolding config_from
  config_from-On fs = lift-Keeps (On P) (dict_or_empty fs "mcp_servers") _ (λ _.
      lift-Keeps (On P) (dict_or_empty fs "sandbox") _ (λ _.
        lift-Keeps (On P) (list_or_empty fs "policies") _ (λ _.
          lift-Keeps (On P) (list_or_empty fs "setting_sources") _ (λ _.
            lift-Keeps (On P) (list_or_empty fs "tools") _
              (λ _. lift-Keeps (On P) (list_or_empty fs "disallowed_tools") _ (λ _ u k. k))))))

  lane_config-On : (lane : LaneRecord) → Keeps (On P) (lane_config lane)
  unfolding lane_config
  lane_config-On lane = config_from-On _

  check_envelope-On : (errors : List String) → Keeps (On P) (check_envelope errors)
  check_envelope-On [] s h = h
  check_envelope-On (e ∷ errors) s h = h

  ask-On :
      {A B : Type 0} (f : Store → Result A) (g : A → M B)
      → ((a : A) → Keeps (On P) (g a))
      → Keeps (On P) (ask f >>= g)
  ask-On f g k = >>=-Keeps (On P) (ask f) g (λ s h. h) k

  module _ (host : Host) (policies : List Policy) where
    keep_agent-On :
        (lane_key : String) (lane : LaneRecord) (agent_id : String) (envelope : ContextEnvelope)
        (event_type : String)
        → Keeps (On P) (keep_agent host policies lane_key lane agent_id envelope event_type)
    unfolding keep_agent utcnow
    keep_agent-On lane_key lane agent_id envelope event_type s h =
        >>=-Keeps (On P) (upsert_lane _) _ (upsert_lane-On P _)
          (λ _. >>=-Keeps (On P) (append_event _ _ _ _) _ (append_event-On P _ _ _ _) (λ _ u k. k))
          (record s { clock_reads = suc (suc s.clock_reads) }) h

    pub create-On :
        (lane_key objective : String) (spec_id owner model : Option String)
        → Keeps (On P) (create host policies lane_key objective spec_id owner model)
    unfolding create
    create-On lane_key objective spec_id owner model =
        lift-Keeps (On P) (normalize_lane_key lane_key) _ (λ key.
          >>=-Keeps (On P) (ensure_lane key owner model) _ (ensure_lane-On P key owner model)
            (λ lane. >>=-Keeps (On P) (build _ _ _ _ _) _ (build-On _ _ _ _ _) (λ built.
              >>=-Keeps (On P) (check_envelope _) _ (check_envelope-On _) (λ _.
                >>=-Keeps (On P) (lane_config lane) _ (lane_config-On lane) (λ made.
                  ask-On (host.create_agent made (record built { objective = str objective })) _
                    (λ agent_id. keep_agent-On key lane agent_id _ _))))))

    resume_live-On :
        (key : String) (lane : LaneRecord) (prior : String) (objective spec_id : Option String)
        → Keeps (On P) (resume_live host policies key lane prior objective spec_id)
    unfolding resume_live
    resume_live-On key lane prior objective spec_id =
        >>=-Keeps (On P) (build _ _ _ _ _) _ (build-On _ _ _ _ _) (λ built.
          >>=-Keeps (On P) (lane_config lane) _ (lane_config-On lane) (λ made.
            ask-On
              (host.resume_agent prior made (elim (given objective) [
                | none ↦ built
                | some o ↦ record built { objective = str o }
              ]))
              _ (λ agent_id. keep_agent-On key lane agent_id _ _)))

    pub resume-On :
        (lane_key : String) (objective spec_id : Option String)
        → Keeps (On P) (resume host policies lane_key objective spec_id)
    unfolding resume
    resume-On lane_key objective spec_id = lift-Keeps (On P) (normalize_lane_key lane_key) _ (λ key.
        >>=-Keeps (On P) (ensure_lane key none none) _ (ensure_lane-On P key none none)
          (λ lane. with_agent key lane (given lane.current_agent_id)))
      where
        with_agent :
            (key : String) (lane : LaneRecord) (agent : Option String)
            → Keeps (On P) (elim agent [
              | none ↦
                  create host policies key
                    (elim (given objective) [ none ↦ lane.lane_key | some o ↦ o ])
                    spec_id
                    none
                    none
              | some prior ↦ resume_live host policies key lane prior objective spec_id
            ])
        with_agent key lane none = create-On key _ spec_id none none
        with_agent key lane (some prior) = resume_live-On key lane prior objective spec_id

    retire_prior-On : (lane : LaneRecord) → Keeps (On P) (retire_prior host policies lane)
    retire_prior-On lane = go (given lane.current_agent_id)
      where
        go :
            (agent : Option String)
            → Keeps (On P) (elim agent [
              | none ↦ pure lane.prior_agent_ids
              | some prior ↦ do
                ask (host.dispose_agent prior)
                pure (lane.prior_agent_ids ++ prior ∷ [])
            ])
        go none s h = h
        go (some prior) s h = ask-On (host.dispose_agent prior) _ (λ _ u k. k) s h

    write_handover-On :
        (lane_key : String) (prior : Option String) (objective : String)
        → Keeps (On P) (write_handover host policies lane_key prior objective)
    unfolding write_handover utcnow
    write_handover-On lane_key prior objective s h =
        ask-On
          (host.write_handover (handover_path host policies (s.workspace_hash s.workspace) lane_key)
            prior objective (s.now s.clock_reads))
          _ (λ _ u k. k) (record s { clock_reads = suc s.clock_reads }) h

    pub rotate-On :
        (lane_key objective : String) (spec_id : Option String) (reason : String)
        → Keeps (On P) (rotate host policies lane_key objective spec_id reason)
    unfolding rotate utcnow
    rotate-On lane_key objective spec_id reason =
        lift-Keeps (On P) (normalize_lane_key lane_key) _ (λ key.
          >>=-Keeps (On P) (ensure_lane key none none) _ (ensure_lane-On P key none none) (λ lane.
            >>=-Keeps (On P) (retire_prior host policies lane) _ (retire_prior-On lane) (λ prior.
              >>=-Keeps (On P) (write_handover host policies _ _ _) _ (write_handover-On _ _ _)
                (λ path s h.
                  >>=-Keeps (On P) (upsert_lane _) _ (upsert_lane-On P _)
                    (λ _.
                      >>=-Keeps (On P) (create host policies _ _ _ _ _) _ (create-On _ _ _ _ _)
                        (λ _.
                          >>=-Keeps (On P) (append_event _ _ _ _) _ (append_event-On P _ _ _ _)
                            (λ _ u k. k)))
                    (record s { clock_reads = suc (suc s.clock_reads) }) h))))
