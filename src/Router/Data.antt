-- ===== src/Router/Data.antt =====
-- The data of crates/ferroly/src/genai/router: capability.rs, task.rs, route.rs, error.rs and
-- genai/error.rs, with the request of genai/request.rs. Names are bytes. `F` stands for `f64`, and `M`
-- for the fields of a request that the router passes on without reading them.
use ferroly.Base.{ℕ, Bool, Option, List, ◌∷◌, [], true, false}
use ferroly.Base.Bytes.{Bytes}

pub data Capability : Type 0 where
  text chat streaming vision audio tool_use json_mode embeddings reasoning : Capability

pub Capability-discrete : Discrete Capability
Capability-discrete = hlevel

pub data TaskKind : Type 0 where
  chat code_gen summarize extract classify reason : TaskKind

unfoldable pub TaskKind-discrete : Discrete TaskKind
TaskKind-discrete = hlevel

pub data Priority : Type 0 where
  speed cost quality : Priority

pub record ModelInfo (F : Type 0) : Type 0 where
  pub name : Bytes
  pub provider : Bytes
  pub display_name : Bytes
  pub capabilities : List Capability
  pub max_input_tokens : ℕ
  pub max_output_tokens : ℕ
  pub input_cost_per_mtok : F
  pub output_cost_per_mtok : F
  pub metadata : List (Bytes × Bytes)

pub record Pin : Type 0 where
  pub provider : Bytes
  pub model : Bytes

-- `tags` is read by no code of the router.
pub record Task (F : Type 0) : Type 0 where
  pub kind : Option TaskKind
  pub est_input_tokens : ℕ
  pub est_output_tokens : ℕ
  pub max_cost_usd : F
  pub priority : Priority
  pub required : List Capability
  pub pin : Option Pin
  pub deadline : Option ℕ

pub record Candidate (F : Type 0) : Type 0 where
  pub provider : Bytes
  pub model : Bytes
  pub score : F
  pub est_cost : F

pub record Route (F : Type 0) : Type 0 where
  pub primary : Candidate F
  pub fallbacks : List (Candidate F)

unfoldable pub attempts : {F : Type 0} → Route F → List (Candidate F)
attempts route = route.primary ∷ route.fallbacks

pub data GenAiError : Type 0 where
  template template_not_found : Bytes → GenAiError
  unsupported : Bytes → Capability → GenAiError
  transport : Bytes → GenAiError
  api : ℕ → Bytes → GenAiError
  response_parse config : Bytes → GenAiError

pub data RouterError : Type 0 where
  no_route : Bytes → RouterError
  all_routes_failed : ℕ → GenAiError → RouterError
  unknown_provider : Bytes → RouterError
  deadline_exceeded : RouterError
  gen_ai : GenAiError → RouterError
  config : Bytes → RouterError

-- `schema` carries the bytes of its JSON schema.
pub data ResponseFormat : Type 0 where
  text json : ResponseFormat
  schema : Bytes → ResponseFormat

-- `max_tokens` is `options.max_tokens`.
pub record CompletionRequest (M : Type 0) : Type 0 where
  pub model : Bytes
  pub max_tokens : Option ℕ
  pub response_format : Option ResponseFormat
  pub rest : M

-- `ModelInfo::has`, by `contains`.
unfoldable pub has_capability : List Capability → Capability → Bool
has_capability [] c = false
has_capability (d ∷ ds) c = elim (Capability-discrete d c) [
  | yes _ ↦ true
  | no _ ↦ has_capability ds c
]

unfoldable pub has : {F : Type 0} → ModelInfo F → Capability → Bool
unfolding has_capability Capability-discrete
has m c = has_capability m.capabilities c
