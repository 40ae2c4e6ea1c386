-- ===== src/Sandbox/AstGuard.antt =====
-- core/sandbox/ast_guard.py, the visitor of the static check. A tree is what `ast.parse` makes of a
-- script, as far as the visitor looks at it; the parser is a parameter.
pub mod Complete
use Prim.Native.Char.{Char, code}
use Prim.Native.String.{◌++◌ as append}
use future_bi.Base.{
  ℕ, String, Bool, true, false, ◌&&◌, ◌||◌, not, Option, none, some, List, [], ◌∷◌, ◌++◌, ltb, ◌==◌,
  str_eq, if◌then◌else◌, contains,
}
use future_bi.Base.Text.{chars, of_chars, show}

mutual
  -- the line comes first; a call has its function, its arguments and its keywords, an attribute its
  -- object; a constant shows its value if that is a text
  pub data Node : Type 0 where
    import_names : ℕ → List String → Node
    import_from : ℕ → Option String → ℕ → Node
    call : ℕ → Node → Nodes → Nodes → Node
    attribute : ℕ → Node → String → Node
    name : ℕ → String → Node
    constant : ℕ → Option String → Node
    other : ℕ → Nodes → Node

  pub data Nodes : Type 0 where
    nil : Nodes
    cons : Node → Nodes → Nodes

pub record Violation : Type 0 where
  pub line : String
  pub category : String
  pub detail : String

pub record StaticGuardReport : Type 0 where
  pub is_ok : Bool
  pub violations : List Violation

abbrev pub forbidden_modules : List String
forbidden_modules =
    "os" ∷ "sys" ∷ "subprocess" ∷ "socket" ∷ "pty" ∷ "signal" ∷ "ctypes" ∷ "importlib" ∷ "shutil"
    ∷ "multiprocessing" ∷ "threading" ∷ "asyncio" ∷ "webbrowser" ∷ "http" ∷ "urllib" ∷ "urllib2"
    ∷ "requests" ∷ "ftplib" ∷ "telnetlib" ∷ "smtplib" ∷ "pickle" ∷ "shelve" ∷ "marshal" ∷ "code"
    ∷ "codeop" ∷ "compileall" ∷ "distutils" ∷ "setuptools" ∷ "pip" ∷ "venv" ∷ "pathlib" ∷ "tempfile"
    ∷ "glob" ∷ "pickletools" ∷ "runpy" ∷ "platform" ∷ "resource" ∷ "fcntl" ∷ "msvcrt" ∷ "winreg"
    ∷ "posix" ∷ "nt" ∷ []

abbrev pub forbidden_calls : List String
forbidden_calls =
    "eval" ∷ "exec" ∷ "compile" ∷ "__import__" ∷ "globals" ∷ "locals" ∷ "vars" ∷ "open" ∷ "input"
    ∷ "breakpoint" ∷ "breakpointhook" ∷ "exit" ∷ "quit" ∷ "help" ∷ "memoryview" ∷ "super"
    ∷ "delattr" ∷ "setattr" ∷ []

abbrev pub forbidden_attrs : List String
forbidden_attrs =
    "__class__" ∷ "__subclasses__" ∷ "__bases__" ∷ "__mro__" ∷ "__globals__" ∷ "__locals__"
    ∷ "__builtins__" ∷ "__code__" ∷ "__closure__" ∷ "__dict__" ∷ "__import__" ∷ "__getattribute__"
    ∷ "__setattr__" ∷ "__delattr__" ∷ "__reduce__" ∷ "__reduce_ex__" ∷ "__loader__" ∷ "__spec__"
    ∷ []

unfoldable pub is_forbidden_module : String → Bool
is_forbidden_module m = contains forbidden_modules m

unfoldable pub is_forbidden_call : String → Bool
is_forbidden_call id = contains forbidden_calls id

unfoldable pub is_forbidden_attr : String → Bool
is_forbidden_attr attr = contains forbidden_attrs attr

up_to_dot : List Char → List Char
up_to_dot [] = []
up_to_dot (c ∷ l) = if code c == b'.' then [] else c ∷ up_to_dot l

-- `s.split(".")[0]`
unfoldable pub top_name : String → String
unfolding up_to_dot
top_name s = of_chars (up_to_dot (chars s))

-- `_full_module_name`, for an `import`: the name of the first module
unfoldable pub import_module : List String → String
import_module [] = ""
import_module (s ∷ rest) = top_name s

-- `_full_module_name`, for a `from … import`
unfoldable pub from_module : Option String → String
from_module none = top_name ""
from_module (some s) = top_name s

unfoldable pub flag : StaticGuardReport → ℕ → String → String → StaticGuardReport
flag r line category detail = record {
  is_ok = false;
  violations =
      r.violations ++ (record { line = show line; category = category; detail = detail } ∷ []);
}

abbrev pub reflections : List String
reflections = "getattr" ∷ "setattr" ∷ "delattr" ∷ "hasattr" ∷ []

-- the text that stands as the second argument, if it is one of the attributes
unfoldable pub reflected : Nodes → Option String
reflected (cons a (cons (constant line (some s)) rest)) =
    if is_forbidden_attr s then some s else none
reflected args = none

-- what `visit_Call` finds at a call
unfoldable pub call_fault : Node → Nodes → Option String
call_fault (name line id) args =
    if is_forbidden_call id
    then some (append id "() 被禁止")
    else if contains reflections id
    then elim (reflected args) [
      | none ↦ none
      | some s ↦ some (append id (append "(obj, '" (append s "') 逃逸向量被禁止")))
    ]
    else none
call_fault (attribute line object attr) args =
    if is_forbidden_call attr then some (append "..." (append attr "() 被禁止")) else none
call_fault func args = none

unfoldable pub visit_call : StaticGuardReport → ℕ → Node → Nodes → StaticGuardReport
visit_call r line func args = elim (call_fault func args) [
  | none ↦ r
  | some detail ↦ flag r line "forbidden_call" detail
]

unfoldable pub visit_import : StaticGuardReport → ℕ → List String → StaticGuardReport
visit_import r line names =
    if is_forbidden_module (import_module names)
    then flag r line "forbidden_import" (append "import " (import_module names))
    else r

unfoldable pub visit_import_from : StaticGuardReport → ℕ → Option String → ℕ → StaticGuardReport
visit_import_from r line module_name level =
    if is_forbidden_module (from_module module_name)
    then flag r line "forbidden_import"
        (append "from " (append (from_module module_name) " import ..."))
    else if ltb 0 level
    then flag r line "forbidden_import" "相对导入被禁止"
    else r

unfoldable pub visit_attribute : StaticGuardReport → ℕ → String → StaticGuardReport
visit_attribute r line attr =
    if is_forbidden_attr attr
    then flag r line "forbidden_attribute" (append "属性 ." (append attr " 被禁止"))
    else r

unfoldable pub visit_name : StaticGuardReport → ℕ → String → StaticGuardReport
visit_name r line id =
    if is_forbidden_attr id
    then flag r line "forbidden_name" (append "名称 " (append id " 被禁止"))
    else r

-- `visit`, with `generic_visit` over the children
unfoldable mutual
  pub visit : StaticGuardReport → Node → StaticGuardReport
  visit r (import_names line names) = visit_import r line names
  visit r (import_from line module_name level) = visit_import_from r line module_name level
  visit r (call line func args keywords) =
      visit_all (visit_all (visit (visit_call r line func args) func) args) keywords
  visit r (attribute line object attr) = visit (visit_attribute r line attr) object
  visit r (name line id) = visit_name r line id
  visit r (constant line text) = r
  visit r (other line children) = visit_all r children

  pub visit_all : StaticGuardReport → Nodes → StaticGuardReport
  visit_all r nil = r
  visit_all r (cons n ns) = visit_all (visit r n) ns

-- what `ast.parse` gives: a tree, or the line and the text of a syntax error
pub data Parsed : Type 0 where
  tree : Node → Parsed
  syntax_error : Option ℕ → String → Parsed

abbrev pub clean_report : StaticGuardReport
clean_report = record { is_ok = true; violations = [] }

abbrev pub line_or_zero : Option ℕ → ℕ
line_or_zero none = 0
line_or_zero (some n) = n

unfoldable pub static_check : (String → Parsed) → String → StaticGuardReport
static_check parse script = elim (parse script) [
  | tree n ↦ visit clean_report n
  | syntax_error line detail ↦ record {
    is_ok = false;
    violations =
        record { line = show (line_or_zero line); category = "syntax_error"; detail = detail } ∷ [];
  }
]
