-- ===== src/Store/Agents/Settled.antt =====
-- pkg/server/store/reconcile.go: when `PutAgent` finds an agent changed that it has just written.
use swarmd.Prelude.{
  ℕ, ◌≡◌, refl, sym, ap, String, Bool, true, false, not, ◌&&◌, eq_refl, if◌then◌else◌, eqb,
  is_empty, trim_space, trim_space-trim_space, arith,
}
use swarmd.Store.Envelope.{to_duration_millis, from_duration_millis}
use swarmd.Store.Agents.{
  agent_provider, CreateAgentParams, AgentRow, same_bool, bool_int, int_bool, step_timeout_of,
  lease_duration_of, retry_delay_of, updated_agent_row, new_agent_row, is_changed,
  scan_runnable_agent,
}

-- A duration that is a whole number of milliseconds.
abbrev pub is_whole : ℕ → Bool
is_whole d = eqb (from_duration_millis (to_duration_millis d)) d

module _ {V : Type 0} (p : CreateAgentParams V) (config_json : String) where
  abbrev pub all_whole : Bool
  all_whole =
      is_whole (step_timeout_of p) && is_whole (lease_duration_of p) && is_whole (retry_delay_of p)

  same_flag : (b : Bool) → same_bool (int_bool (bool_int b)) b ≡ true
  same_flag true = refl
  same_flag false = refl

  eqb_self : (n : ℕ) → eqb n n ≡ true
  eqb_self n = ground arith

  updated_agent_row-is_changed :
      (now : ℕ) (row : AgentRow)
      → is_changed p config_json (scan_runnable_agent (updated_agent_row p config_json now row))
        ≡ not all_whole
  unfolding is_changed scan_runnable_agent updated_agent_row
  updated_agent_row-is_changed now row = simp (eq_refl, eqb_self, same_flag) (ground arith)

  -- The provider of a new row is the one that `PutAgent` compares with.
  same_provider :
      (if is_empty (trim_space p.model_provider) then "openai" else trim_space p.model_provider)
      ≡ agent_provider p
  same_provider =
      ap (λ (s : String). if is_empty s then "openai" else trim_space p.model_provider)
        (sym (trim_space-trim_space p.model_provider))

  new_agent_row-is_changed :
      (version : String) (now : ℕ)
      → is_changed p config_json (scan_runnable_agent (new_agent_row p config_json version now))
        ≡ not all_whole
  unfolding is_changed scan_runnable_agent new_agent_row
  new_agent_row-is_changed version now =
      simp (same_provider, eq_refl, eqb_self, same_flag) (ground arith)

  -- A row that was created or updated for some parameters is taken for changed when the same
  -- parameters come again exactly if one of its durations is no whole number of milliseconds.
  pub is_changed-written :
      (version : String) (now : ℕ) (row : AgentRow)
      → (is_changed p config_json (scan_runnable_agent (new_agent_row p config_json version now))
          ≡ not all_whole)
        × (is_changed p config_json (scan_runnable_agent (updated_agent_row p config_json now row))
            ≡ not all_whole)
  is_changed-written version now row =
      (new_agent_row-is_changed version now, updated_agent_row-is_changed now row)
