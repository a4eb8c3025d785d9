-- ===== src/Agent/Requests.antt =====
-- pkg/agent/prompt.go and pkg/agent/conversation_turns.go: what a driver is asked.
use swarmd.Prelude.{
  ℕ, String, Bool, true, false, ◌&&◌, ◌||◌, List, [], ◌∷◌, ◌++◌, Option, none, some, ◌==◌,
  if◌then◌else◌, is_empty, trim_space, Result, ok, err, ◌>>=◌,
}
use swarmd.Store.Types.{Payload, nil, text, value}
use swarmd.Agent.Types.{GoError, Trigger, Message, AgentStep, ConversationTurn, StringMap}

-- `ToolDefinition`, less the schemas and the format that only a driver reads.
pub record ToolDefinition : Type 0 where
  pub name : String
  pub description : String
  pub kind : String
  pub strict : Bool
  pub required_arguments : List String
  pub examples : List String
  pub output_notes : String
  pub safety_tags : List String
  pub network_scope : String
  pub read_only : Bool
  pub mutating : Bool
  pub fallback : Bool

pub data RequestMode : Type 0 where
  trigger_mode session_mode : RequestMode

pub record RequestContext : Type 0 where
  pub mode : RequestMode
  pub prior_messages : List Message
  pub prior_turns : List ConversationTurn
  pub step_replay_data : StringMap
  pub provider_state : String
  -- none is the zero time
  pub run_started_at : Option ℕ

-- `Request`
pub record Request (V : Type 0) : Type 0 where
  pub trigger : Trigger V
  pub step : ℕ
  pub sandbox_root : String
  pub cwd : String
  pub steps : List AgentStep
  pub conversation_turns : List ConversationTurn
  pub current_turn_messages : List Message
  pub current_turn_steps : List AgentStep
  pub tools : List ToolDefinition
  pub messages : List Message
  pub step_replay_data : StringMap
  pub provider_state : String

abbrev empty_map : StringMap
empty_map k = none

unfoldable pub new_trigger_request_context : RequestContext
new_trigger_request_context = record {
  mode = trigger_mode;
  prior_messages = [];
  prior_turns = [];
  step_replay_data = empty_map;
  provider_state = "";
  run_started_at = none;
}

abbrev pub assistant_message : Option Message → List Message
assistant_message none = []
assistant_message (some m) = m ∷ []

abbrev pub user_message : Message → List Message
user_message m = if is_empty m.role && is_empty m.content then [] else m ∷ []

unfoldable pub flatten_conversation_messages : List ConversationTurn → List Message
flatten_conversation_messages [] = []
flatten_conversation_messages (t ∷ ts) =
    user_message t.user ++ (assistant_message t.assistant ++ flatten_conversation_messages ts)

unfoldable pub flatten_conversation_steps : List ConversationTurn → List AgentStep
flatten_conversation_steps [] = []
flatten_conversation_steps (t ∷ ts) = t.steps ++ flatten_conversation_steps ts

unfoldable pub new_session_request_context : List ConversationTurn → RequestContext
unfolding flatten_conversation_messages
new_session_request_context turns = record {
  mode = session_mode;
  prior_messages = flatten_conversation_messages turns;
  prior_turns = turns;
  step_replay_data = empty_map;
  provider_state = "";
  run_started_at = none;
}

unfoldable pub with_step_replay_data : String → String → RequestContext → RequestContext
with_step_replay_data call_id replay_data c =
    let id = trim_space call_id in
    let kept = trim_space replay_data in
    if is_empty id || is_empty kept
    then c
    else record c { step_replay_data = λ k. if k == id then some kept else c.step_replay_data k }

unfoldable pub with_step_replay_data_map : StringMap → RequestContext → RequestContext
with_step_replay_data_map m c = record c { step_replay_data = m }

unfoldable pub with_provider_state : String → RequestContext → RequestContext
with_provider_state state c =
    let kept = trim_space state in if is_empty kept then c else record c { provider_state = kept }

unfoldable pub with_run_started_at : ℕ → RequestContext → RequestContext
with_run_started_at at c = record c { run_started_at = some at }

-- The last step, from the end, that failed in a way that a driver can repair.
unfoldable pub last_failed_tool : List AgentStep → String
last_failed_tool [] = ""
last_failed_tool (s ∷ ss) =
    let later = last_failed_tool ss in
    if is_empty later
    then if s.status == "parse_error" || s.status == "policy_error" then s.action_name else ""
    else later

unfoldable pub find_tool : String → List ToolDefinition → Option ToolDefinition
find_tool name [] = none
find_tool name (t ∷ ts) = if t.name == name then some t else find_tool name ts

abbrev pub no_items : {A : Type 0} → List A → Bool
no_items [] = true
no_items (x ∷ xs) = false

-- `requestCurrentTurnSteps`
unfoldable pub request_current_turn_steps : {V : Type 0} → Request V → List AgentStep
request_current_turn_steps req =
    if no_items req.current_turn_steps && no_items req.conversation_turns
    then req.steps
    else req.current_turn_steps

unfoldable pub select_retry_tool : {V : Type 0} → Request V → Option ToolDefinition
unfolding last_failed_tool find_tool request_current_turn_steps
select_retry_tool req =
    let tool = last_failed_tool (request_current_turn_steps req) in
    if is_empty tool then none else find_tool tool req.tools

-- The wording of the prompts, which only a driver reads: `formatTriggerContext`,
-- `currentTurnProtocolPrompt`, `toolAvailabilityPrompt`, and the text of
-- `formatDynamicCurrentStateForPromptWithContext`, of which the last two arguments are whether no step
-- was run and the tool to be repaired.
pub record Wording (V : Type 0) : Type 0 where
  pub trigger_context : String → Trigger V → String
  pub protocol : String
  pub tool_availability : List ToolDefinition → String
  pub current_state : Request V → RequestContext → Bool → Option ToolDefinition → String
  pub marshal_indent : V → Option String
  pub render_failed : GoError

-- What an agent is made of that does not change.
pub record AgentConfig : Type 0 where
  pub max_steps : ℕ
  pub preserve_state : Bool
  pub system_prompt : String
  pub sandbox_root : String
  pub spill_base_dir : String
  pub tool_definitions : List ToolDefinition

module _ {V : Type 0} (w : Wording V) where
  -- `triggerPrompt`
  unfoldable pub trigger_prompt : Payload V → Result GoError String
  trigger_prompt nil = ok ""
  trigger_prompt (text s) = ok (trim_space s)
  trigger_prompt (value v) = elim (w.marshal_indent v) [
    | none ↦ err w.render_failed
    | some s ↦ ok s
  ]

  abbrev pub user_turn_content : RequestMode → String → Trigger V → String
  user_turn_content session_mode prompt t = prompt
  user_turn_content trigger_mode prompt t = w.trigger_context prompt t

  abbrev pub availability : List ToolDefinition → List Message
  availability tools =
      let said = w.tool_availability tools in
      if is_empty said then [] else record { role = "system"; content = said } ∷ []

  -- The request without its messages.
  abbrev pub bare_request :
      AgentConfig → Trigger V → ℕ → String → List AgentStep → RequestContext → Request V
  bare_request a t step cwd steps c = record {
    trigger = t;
    step = step;
    sandbox_root = a.sandbox_root;
    cwd = cwd;
    steps = flatten_conversation_steps c.prior_turns ++ steps;
    conversation_turns = c.prior_turns;
    current_turn_messages = [];
    current_turn_steps = steps;
    tools = a.tool_definitions;
    messages = [];
    step_replay_data = c.step_replay_data;
    provider_state = trim_space c.provider_state;
  }

  abbrev pub turn_messages : Request V → RequestContext → String → List Message
  turn_messages req c prompt =
      record { role = "user"; content = user_turn_content c.mode prompt req.trigger }
      ∷ record { role = "user"; content = w.protocol }
      ∷ record {
        role = "user";
        content =
            w.current_state req c (no_items (request_current_turn_steps req))
              (select_retry_tool req);
      }
      ∷ []

  -- `buildDriverRequestWithContext`
  unfoldable pub build_driver_request :
      AgentConfig
      → Trigger V
      → ℕ
      → String
      → List AgentStep
      → RequestContext
      → Result GoError (Request V)
  unfolding trigger_prompt flatten_conversation_steps select_retry_tool
  build_driver_request a t step cwd steps c = trigger_prompt t.payload >>= λ prompt.
      let req = bare_request a t step cwd steps c in
      let turn = turn_messages req c prompt in
      ok (record req {
        current_turn_messages = turn;
        messages =
            record { role = "system"; content = a.system_prompt }
            ∷ (availability req.tools ++ (c.prior_messages ++ turn));
      })
