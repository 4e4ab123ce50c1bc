-- ===== src/Examples/Tooling.antt =====
-- A registry with one tool, and who may use it.
use ai_etl_platform.Common.{
  inl, ◌≡◌, inr, refl, [], ◌∷◌, none, some, true, false, ok, get, put, trim_space, equal_fold,
  is_blank,
}
use ai_etl_platform.Agent.Types.{Actor, RawMessage, str, obj, end, field, encoded}
use ai_etl_platform.Agent.Schema.{JsonSchema, SchemaProperty, validate_arguments, fits, contains}
use ai_etl_platform.Agent.Schema.Conformance.{validate_arguments_iff}
use ai_etl_platform.Agent.Schema.Typing.{of_string}
use ai_etl_platform.Agent.Policy.{authorize}
use ai_etl_platform.Agent.Policy.Access.{authorize_iff, here, later}
use ai_etl_platform.Agent.Tools.Definition.{ToolDefinition}
use ai_etl_platform.Agent.Tools.{RegisteredTool, Handler, execute}
use ai_etl_platform.Agent.Tools.Registration.{IsSoundRegistry, Answers, execute_guarded}

abbrev pub alice : Actor
alice = record {
  tenant_id = "t";
  user_id = "alice";
  role = "admin";
  permissions = "docs:read" ∷ " Agent:Run" ∷ [];
  approved_tools = "SEARCH " ∷ [];
}

abbrev query_property : SchemaProperty
query_property = record {
  type = "string";
  description = "what to look for";
  enum = "cats" ∷ "dogs" ∷ [];
}

abbrev search_schema : JsonSchema
search_schema = record {
  type = "object";
  required = "query" ∷ [];
  properties = ("query", query_property) ∷ [];
  additional_properties = false;
}

abbrev search : ToolDefinition
search = record {
  name = "search";
  description = "";
  parameters = search_schema;
  required_permissions = "agent:run" ∷ [];
  timeout = 0;
  idempotent = true;
  side_effect = false;
  requires_approval = true;
}

abbrev pub handler : Handler
handler = λ n i. (
  record { content = "found"; payload = []; retryable = false; compensation_required = false },
  none,
)

authorize_example : authorize alice search ≡ none
unfolding is_blank trim_space equal_fold
authorize_example =
    (authorize_iff alice search).1 (refl, refl, (inr (later (here refl)), tt), inr (here refl))

-- {"query": "cats"}
abbrev cats : RawMessage
cats = encoded (obj (field "query" (str "cats") end))

validate_arguments_example : validate_arguments search_schema cats ≡ ok (("query", str "cats") ∷ [])
unfolding is_blank trim_space put get fits contains
validate_arguments_example =
    (validate_arguments_iff search_schema cats (("query", str "cats") ∷ [])).1 (
      refl,
      refl,
      (inr (str "cats", refl), tt),
      inr ((query_property, refl), tt),
      (of_string refl (inr (inl refl)), tt),
    )

empty_registry-IsSoundRegistry : IsSoundRegistry []
unfolding get
empty_registry-IsSoundRegistry = record { at = λ key tool e. absurd (cc e) }

abbrev registered : RegisteredTool
registered = record { definition = search; handler = handler; compensator = none }

execute_example :
    Answers
      (("search", registered) ∷ [])
      0
      alice
      "r1"
      1
      "Search"
      cats
      (some authorize)
      (execute (("search", registered) ∷ []) 0 alice "r1" 1 "Search" cats (some authorize))
execute_example =
    execute_guarded (("search", registered) ∷ []) 0 alice "r1" 1 "Search" cats (some authorize)
