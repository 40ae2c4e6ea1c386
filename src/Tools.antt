-- ===== src/Tools.antt =====
-- tools/base.py, `BaseTool` and its results, and tools/registry.py, `ToolRegistry`. Arguments are a type
-- `J` of JSON values, what a tool makes is a type `D`, a query a type `Q`. The schema of a tool and its
-- `execute` are fields: what they answer may depend on how many tools have run before. Durations are left
-- out.
use Prim.Native.String.{◌++◌ as append}
use future_bi.Base.{
  ℕ, String, Bool, false, not, Option, none, some, List, [], ◌∷◌, map, keep, contains,
  if◌then◌else◌, is_some,
}
use future_bi.Base.Text.{is_nonempty}
use future_bi.Base.Dict.{Dict, lookup, insert, remove}

pub record ToolResult (D : Type 0) : Type 0 where
  pub success : Bool
  pub payload : Option D
  pub display_type : String
  pub error_msg : Option String
  -- `meta["error_type"]`, and whether `meta["degraded"]` holds
  pub error_type : Option String
  pub is_degraded : Bool

-- `ToolContext`, without the connection and the functions that go with it
pub record ToolContext (D Q : Type 0) : Type 0 where
  pub principal : Option String
  pub prior : Option (ToolResult D)
  pub base_dsl : Option Q

-- a call in Python: a value, or an exception by its class and text
pub data Ran {ℓ} (A : Type ℓ) : Type ℓ where
  returned : A → Ran A
  raised : String → String → Ran A

pub record BaseTool (J D Q : Type 0) : Type 0 where
  pub name : String
  -- the fields of `args_schema`
  pub declared : List String
  -- `repr` of a sorted list of texts, and of the name
  pub repr_sorted : List String → String
  pub repr_name : String
  pub model_validate : Dict J → Ran (Dict J)
  pub execute : Dict J → ToolContext D Q → ℕ → Ran (ToolResult D)

module _ {D : Type 0} where
  -- the result that stands for an exception
  abbrev pub failure : String → String → ToolResult D
  failure type message = record {
    success = false;
    payload = none;
    display_type = "text";
    error_msg = some (append type (append ": " message));
    error_type = some type;
    is_degraded = false;
  }

  abbrev pub caught : Ran (ToolResult D) → ToolResult D
  caught (returned r) = r
  caught (raised type message) = failure type message

module _ {J D Q : Type 0} where
  -- the arguments that the schema does not declare
  unfoldable pub unknown_args : BaseTool J D Q → Dict J → List String
  unknown_args t args = keep (λ k. not (contains t.declared k)) (map (λ e. e.0) args)

  abbrev unknown_text : BaseTool J D Q → List String → String
  unknown_text t l =
      append "非法参数: "
        (append (t.repr_sorted l) (append " 未在工具 " (append t.repr_name " 的 args_schema 中声明")))

  unfoldable pub validate_args : BaseTool J D Q → Dict J → Ran (Dict J)
  validate_args t args = elim (unknown_args t args) [
    | [] ↦ t.model_validate args
    | k ∷ l ↦ raised "ValueError" (unknown_text t (k ∷ l))
  ]

  unfoldable pub execute_validated :
      BaseTool J D Q → ToolContext D Q → ℕ → Ran (Dict J) → ToolResult D
  execute_validated t ctx n (raised type message) = failure type message
  execute_validated t ctx n (returned args) = caught (t.execute args ctx n)

  -- `BaseTool.run`, which never raises
  unfoldable pub run : BaseTool J D Q → Dict J → ToolContext D Q → ℕ → ToolResult D
  run t args ctx n = execute_validated t ctx n (validate_args t args)

pub data RegistryFault : Type 0 where
  no_name : RegistryFault
  duplicate : String → RegistryFault

abbrev pub ToolRegistry : Type 0 → Type 0 → Type 0 → Type 0
ToolRegistry J D Q = Dict (BaseTool J D Q)

pub data Registered (J D Q : Type 0) : Type 0 where
  accepted : ToolRegistry J D Q → Registered J D Q
  rejected : RegistryFault → Registered J D Q

module _ {J D Q : Type 0} where
  -- `register`, for an instance
  unfoldable pub register : ToolRegistry J D Q → BaseTool J D Q → Registered J D Q
  register r t =
      if is_nonempty t.name
      then if is_some (lookup t.name r)
        then rejected (duplicate t.name)
        else accepted (insert t.name t r)
      else rejected no_name

  unfoldable pub unregister : ToolRegistry J D Q → String → ToolRegistry J D Q
  unregister r name = remove name r

  -- `get_tool`; `none` is an `UnknownToolError`
  unfoldable pub get_tool : ToolRegistry J D Q → String → Option (BaseTool J D Q)
  get_tool r name = lookup name r

  unfoldable pub list_tools : ToolRegistry J D Q → List (BaseTool J D Q)
  list_tools r = map (λ e. e.1) r
